-- ===== src/Placing/Retained.antt =====
-- The record of an order at the end of its lease (`complete_claim`, order_retry.py), as `Instrument.place`
-- (instrument.py) completes it: accepted, or failed with an unknown outcome.
use binance.Base.{
  ℕ, suc, ◌≡◌, refl, subst, sym, arith, Bool, false, Option, none, some, List, [], ◌∷◌, inl, inr,
  Has, Bool-cases,
}
use binance.Outbox.Types.{Rec, unknown}
use binance.Outbox.Guards.{safe_to_evict, set_safe_to_discard}
use binance.Outbox.File.{
  Line, blank_line, garbage, row, Queue, queue, corrupt, push, read_lines, read_nolock, Change,
}
use binance.Outbox.Response.{apply_accepted, apply_accepted-id}
use binance.Outbox.Complete.{
  Outcome, failure, acceptance, Details, apply_outcome, on_failure, on_acceptance, accept_or_count,
  end_state, drop_claim, finish, owns, complete_each, complete_claim,
}
use binance.Outbox.Ownership.{after-complete_claim}
use binance.Placing.Tracking.{best_effort_change, best_effort_on, best_effort}
use binance.Placing.Recorded.{Has-write_nolock}

-- The same intent, under the same client order ID, protected from eviction.
abbrev pub Retained : Rec → Rec → Type 0
Retained r kept =
    (kept.id ≡ r.id) × (kept.client_order_id ≡ r.client_order_id) × (safe_to_evict kept ≡ false)

read_lines-Has :
    (r : Rec) (n : ℕ) (ls : List Line) (rs : List Rec)
    → read_lines false n ls ≡ queue rs
    → Has (row r) ls
    → Has r rs
unfolding read_lines
read_lines-Has r n [] rs e h = absurd h
read_lines-Has r n (blank_line ∷ ls) rs e (inl same) = absurd (cc)
read_lines-Has r n (blank_line ∷ ls) rs e (inr h) = read_lines-Has r (suc n) ls rs e h
read_lines-Has r n (garbage ∷ ls) rs e h = absurd (cc)
read_lines-Has r n (row x ∷ ls) rs e h =
    by_rest (read_lines false (suc n) ls) (λ xs f k. read_lines-Has r (suc n) ls xs f k) e h
  where
    by_rest :
        (q : Queue)
        → ((xs : List Rec) → q ≡ queue xs → Has (row r) ls → Has r xs)
        → push x q ≡ queue rs
        → Has (row r) (row x ∷ ls)
        → Has r rs
    by_rest (corrupt m) below g k = absurd (cc)
    by_rest (queue xs) below g (inl here) =
        subst (Has r) (let same : x ∷ xs ≡ rs = cc in same) (inl (cc))
    by_rest (queue xs) below g (inr further) =
        subst (Has r) (let same : x ∷ xs ≡ rs = cc in same) (inr (below xs refl further))

module _ (o : Outcome) (d : Details) (now : ℕ) (claimed r : Rec) where
  -- The end of a lease keeps the record, if it is the one that is owned.
  abbrev pub EndsRetained : Type 0
  EndsRetained =
      (k : Rec) × (apply_outcome o d now claimed r ≡ some k)
      × Retained r (drop_claim (end_state o d.submission_state k))

  complete_each-Retained :
      (rs : List Rec)
      → safe_to_evict r ≡ false
      → EndsRetained
      → Has r rs
      → (kept : Rec) × Retained r kept × Has kept (complete_each o d now claimed rs).0
  unfolding complete_each
  complete_each-Retained [] stays ends h = absurd h
  complete_each-Retained (x ∷ rs) stays ends (inl here) = elim (Bool-cases (owns claimed x)) [
    | inl mine ↦
        let (k, applied, retained) = ends in
        let same : apply_outcome o d now claimed x ≡ some k =
          subst (λ y. apply_outcome o d now claimed y ≡ some k) here applied in
        (drop_claim (end_state o d.submission_state k), retained, rw mine (rw same (inl refl)))
    | inr other ↦ (r, (refl, refl, stays), rw other (inl here))
  ]
  complete_each-Retained (x ∷ rs) stays ends (inr further) =
      let (kept, retained, there) = complete_each-Retained rs stays ends further in
      elim (Bool-cases (owns claimed x)) [
        | inl mine ↦ (kept, retained, rw mine (below kept (apply_outcome o d now claimed x) there))
        | inr other ↦ (kept, retained, rw other (inr there))
      ]
    where
      below :
          (kept : Rec) (n : Option Rec)
          → Has kept (complete_each o d now claimed rs).0
          → Has kept (finish o d (complete_each o d now claimed rs).0 n)
      below kept none k = k
      below kept (some x2) k = inr k

  pub best_effort-Retained :
      (ls : List Line)
      → safe_to_evict r ≡ false
      → EndsRetained
      → Has (row r) ls
      → (kept : Rec) × Retained r kept
        × Has (row kept) (best_effort (complete_claim o d now claimed) ls)
  unfolding read_nolock
  best_effort-Retained ls stays ends h = by_queue (read_nolock false ls) refl
    where
      by_change :
          (rs : List Rec) (x : Option (Change Bool))
          → complete_claim o d now claimed rs ≡ x
          → Has r rs
          → (kept : Rec) × Retained r kept × Has (row kept) (best_effort_change ls x)
      by_change rs none e there = (r, (refl, refl, stays), h)
      by_change rs (some (none, b)) e there = (r, (refl, refl, stays), h)
      by_change rs (some (some done, b)) e there =
          let (kept, retained, in_each) = complete_each-Retained rs stays ends there in
          (
            kept,
            retained,
            Has-write_nolock kept done
                (subst (Has kept) (sym (after-complete_claim o d now claimed rs e).0) in_each),
          )

      by_queue :
          (q : Queue)
          → read_nolock false ls ≡ q
          → (kept : Rec) × Retained r kept
            × Has (row kept) (best_effort_on (complete_claim o d now claimed) ls q)
      by_queue (corrupt n) e = (r, (refl, refl, stays), h)
      by_queue (queue rs) e =
          by_change rs (complete_claim o d now claimed rs) refl (read_lines-Has r 1 ls rs e h)

-- A failure whose outcome is unknown keeps the record.
pub failure-Retained :
    (d : Details) (now : ℕ) (claimed r : Rec)
    → d.submission_state ≡ some unknown
    → EndsRetained failure d now claimed r
unfolding apply_outcome on_failure drop_claim safe_to_evict set_safe_to_discard
failure-Retained d now claimed r e =
    (on_failure d now claimed r, refl, rw e (refl, refl, ground arith))

-- An acceptance keeps the record.
pub acceptance-Retained :
    (d : Details) (now : ℕ) (claimed r : Rec)
    → d.submission_state ≡ none
    → EndsRetained acceptance d now claimed r
unfolding apply_outcome on_acceptance drop_claim safe_to_evict set_safe_to_discard
acceptance-Retained d now claimed r e = (
  on_acceptance d now claimed r,
  refl,
  rw e (by_answer (apply_accepted d.order now d.provider_name safe) refl),
)
  where
    safe : Rec
    safe = set_safe_to_discard false r

    by_answer :
        (x : Option Rec)
        → apply_accepted d.order now d.provider_name safe ≡ x
        → Retained r (drop_claim (accept_or_count now claimed safe x))
    by_answer none f = (refl, refl, ground arith)
    by_answer (some r') f =
        let (same_id, same_client, kept) =
          apply_accepted-id d.order now d.provider_name safe r' f in
        (same_id, same_client, ground arith)
