-- ===== src/Placing/Tracked.antt =====
-- The record of an order over the attempts to write its acceptance (`complete_accepted_claim`,
-- accepted_order_persistence.py).
use binance.Base.{
  ℕ, ◌≡◌, refl, subst, sym, arith, Bool, false, Option, none, some, List, [], ◌∷◌, Has, All, true,
  if◌then◌else◌,
}
use binance.Outbox.Types.{Rec}
use binance.Outbox.Guards.{safe_to_evict}
use binance.Outbox.File.{Line, row, Queue, queue, corrupt, read_nolock, Change}
use binance.Outbox.Response.{Response}
use binance.Outbox.Complete.{Outcome, acceptance, Details, complete_claim}
use binance.Outbox.Ownership.{complete_claim-written}
use binance.Placing.Tracking.{
  confirmed_change, confirmed_on, confirmed, accepted_is_durable, acceptance_of,
  complete_accepted_claim, best_effort_change, best_effort_on, best_effort,
}
use binance.Placing.Retained.{Retained, best_effort-Retained, acceptance-Retained}

module _ (o : Outcome) (d : Details) (now : ℕ) (claimed : Rec) where
  -- Where the end of the lease returns false, the file is as it was.
  best_effort-unanswered :
      (ls : List Line)
      → confirmed (complete_claim o d now claimed) ls ≡ false
      → best_effort (complete_claim o d now claimed) ls ≡ ls
  unfolding read_nolock
  best_effort-unanswered ls h = by_queue (read_nolock false ls) h
    where
      by_change :
          (rs : List Rec) (x : Option (Change Bool))
          → complete_claim o d now claimed rs ≡ x
          → confirmed_change x ≡ false
          → best_effort_change ls x ≡ ls
      by_change rs none e f = refl
      by_change rs (some (none, b)) e f = refl
      by_change rs (some (some done, b)) e f =
          let wrote : b ≡ true = complete_claim-written o d now claimed rs done e in
          absurd (ground arith)

      by_queue :
          (q : Queue)
          → confirmed_on (complete_claim o d now claimed) q ≡ false
          → best_effort_on (complete_claim o d now claimed) ls q ≡ ls
      by_queue (corrupt n) f = refl
      by_queue (queue rs) f = by_change rs (complete_claim o d now claimed rs) refl f

-- What others make of the file before an attempt leaves the record where it is.
abbrev pub KeepsRow : Rec → ℕ × (List Line → List Line) → Type 0
KeepsRow r (now, others) = (ls : List Line) → Has (row r) ls → Has (row r) (others ls)

module _ (order : Response) (provider : ℕ) (r : Rec) (stays : safe_to_evict r ≡ false) where
  abbrev details : Details
  details = acceptance_of order provider

  either_way :
      (now : ℕ) (ls : List Line)
      → Has (row r) ls
      → (a b : Bool) (rest : Bool × List Line)
      → (a ≡ false → (kept : Rec) × Retained r kept × Has (row kept) rest.1)
      → let done = best_effort (complete_claim acceptance details now r) ls in
        (kept : Rec) × Retained r kept
        × Has (row kept) (if a then (true, done) else if b then (true, done) else rest).1
  either_way now ls there true b rest k =
      best_effort-Retained acceptance details now r r ls stays
        (acceptance-Retained details now r r refl) there
  either_way now ls there false true rest k =
      best_effort-Retained acceptance details now r r ls stays
        (acceptance-Retained details now r r refl) there
  either_way now ls there false false rest k = k refl

  -- However the attempts end, the record is kept.
  pub complete_accepted_claim-Retained :
      (now : ℕ) (others : List Line → List Line) (attempts : List (ℕ × (List Line → List Line)))
      (ls : List Line)
      → Has (row r) (others ls)
      → All (KeepsRow r) attempts
      → (kept : Rec) × Retained r kept
        × Has (row kept) (complete_accepted_claim r order provider ((now, others) ∷ attempts) ls).1
  complete_accepted_claim-Retained now others [] ls there keep =
      either_way now (others ls) there
        (confirmed (complete_claim acceptance details now r) (others ls))
        (accepted_is_durable r order
          (best_effort (complete_claim acceptance details now r) (others ls)))
        (false, best_effort (complete_claim acceptance details now r) (others ls))
        (λ f. (
          r,
          (refl, refl, stays),
          subst (Has (row r)) (sym (best_effort-unanswered acceptance details now r (others ls) f))
              there,
        ))
  complete_accepted_claim-Retained now others ((later, others2) ∷ attempts) ls there (keep, keeps) =
      let done : List Line = best_effort (complete_claim acceptance details now r) (others ls) in
      either_way now (others ls) there
        (confirmed (complete_claim acceptance details now r) (others ls))
        (accepted_is_durable r order done)
        (complete_accepted_claim r order provider ((later, others2) ∷ attempts) done)
        (λ f.
          complete_accepted_claim-Retained later others2 attempts done
            (keep done (
              subst (Has (row r))
                (sym (best_effort-unanswered acceptance details now r (others ls) f)) there))
            keeps)
