-- ===== src/Outbox/Replacement.antt =====
-- Replacements that wait for a cancellation, and the bound on the audit trail.
use binance.Base.{
  ℕ, zero, suc, ◌-◌, ◌≤◌, ◌≡◌, refl, sym, ap, ◌∙◌, true, false, inl, inr, Option, none, some, List,
  [], ◌∷◌, ◌++◌, arith, Has, Bool-cases, length, ◌==◌,
}
use binance.Outbox.Types.{
  Rec, side_eq, Config, HistoryRow, OrderStatus, is_awaiting, submit_pending,
}
use binance.Outbox.Guards.{is_possibly_submitted, safe_to_evict, text}
use binance.Outbox.File.{Change}
use binance.Outbox.Request.{Request, stored}
use binance.Outbox.Enqueue.{enqueue_on, existing_replacement, same_replacement}
use binance.Outbox.Response.{append_order_history, last_twenty, drop_front, add_row}
use binance.Outbox.Cleanup.{Activation, not_activated, resolved, activated, exceeds}

length-drop_front : {A : Type 0} (n : ℕ) (xs : List A) → length (drop_front n xs) ≡ length xs - n
length-drop_front n [] = omega arith
length-drop_front zero (x ∷ xs) = omega arith
length-drop_front (suc n) (x ∷ xs) = omega (arith, length-drop_front n xs)

length-last_twenty : (hs : List HistoryRow) → length (last_twenty hs) ≤ 20
unfolding last_twenty
length-last_twenty hs = omega (arith, length-drop_front (length hs - 20) hs)

-- The audit trail of a record with at most 20 rows has at most 20 rows after one more order.
pub append_order_history_bound :
    (now : ℕ) (status : Option OrderStatus) (r : Rec)
    → length r.order_history ≤ 20
    → length (append_order_history now status r).order_history ≤ 20
unfolding append_order_history
append_order_history_bound now status r h = elim (Bool-cases (r.order_id == 0)) [
  | inl no_order ↦ rw no_order h
  | inr order ↦
      let row : HistoryRow = record {
        order_id = r.order_id;
        client_order_id = r.client_order_id;
        revision = r.revision;
        observed_at = now;
        status = status;
      } in
      rw order (length-last_twenty (add_row row r.order_history))
]

-- A replacement that waits for the same order of the same provider, symbol and side is found.
existing_replacement-Has :
    (new r : Rec) (rs : List Rec)
    → is_awaiting new.lifecycle ≡ true
    → same_replacement new r ≡ true
    → Has r rs
    → (x : Rec) × Has x rs
      × (same_replacement new x ≡ true)
      × (existing_replacement new rs ≡ some x.id)
unfolding existing_replacement
existing_replacement-Has new r [] waits same h = absurd h
existing_replacement-Has new r (x ∷ rs) waits same (inl here) =
    let first : same_replacement new x ≡ true = ap (same_replacement new) (sym here) ∙ same in
    (x, inl refl, first, rw (waits, first) refl)
existing_replacement-Has new r (x ∷ rs) waits same (inr h) =
    elim (Bool-cases (same_replacement new x)) [
      | inl first ↦ (x, inl refl, first, rw (waits, first) refl)
      | inr other ↦
          let (y, there, fits, e) = existing_replacement-Has new r rs waits same h in
          (y, inr there, fits, rw (waits, other) e)
    ]

-- A record that waits to replace the order that the new one is to replace, at the same provider and symbol and on the
-- same side.
abbrev pub IsSameReplacement : Rec → Rec → Type 0
IsSameReplacement new x =
    (is_awaiting x.lifecycle ≡ true)
    × (text x.provider_name ≡ text new.provider_name)
    × (x.symbol ≡ new.symbol)
    × (side_eq x.side new.side ≡ true)
    × (x.replaces_order_id ≡ new.replaces_order_id)

-- While a replacement for an order waits in the queue, enqueueing a replacement for the same order of
-- the same provider, symbol and side writes nothing, and answers with the ID of a record of the queue that waits
-- to replace that order, at the same provider and symbol and on the same side.
pub enqueue_on-same_replacement :
    (c : Config) (q : Request) (now : ℕ) (new r : Rec) (rs : List Rec)
    → is_awaiting new.lifecycle ≡ true
    → same_replacement new r ≡ true
    → Has r rs
    → (x : Rec) × Has x rs
      × IsSameReplacement new x
      × (enqueue_on c q now new rs ≡ (none, stored x.id))
unfolding enqueue_on same_replacement
enqueue_on-same_replacement c q now new r rs waits same h =
    let (x, there, fits, e) = existing_replacement-Has new r rs waits same h in
    (x, there, fits_of x fits, rw e refl)
  where
    fits_of : (x : Rec) → same_replacement new x ≡ true → IsSameReplacement new x
    fits_of x k = (ground arith, ground arith, ground arith, ground arith, ground arith)

-- What activation makes of the record that was claimed, which waited for at least about that quantity.
pub record IsActivated (claimed x r : Rec) (qty : ℕ) : Type 0 where
  pub waited : is_awaiting x.lifecycle ≡ true
  pub fits : exceeds qty x.qty ≡ false
  pub id_claimed : x.id ≡ claimed.id
  pub revision_claimed : some x.revision ≡ claimed.claim_revision
  pub token_claimed : x.claim_token ≡ claimed.claim_token
  pub same_id : r.id ≡ x.id
  pub same_revision : r.revision ≡ x.revision
  pub same_client : r.client_order_id ≡ x.client_order_id
  pub asked : r.qty ≡ qty
  pub pending : r.lifecycle ≡ submit_pending
  pub not_submitted : is_possibly_submitted r ≡ false
  pub lease_kept : r.claim_token ≡ claimed.claim_token
  pub kept : safe_to_evict r ≡ false

module _ (claimed : Rec) (qty now : ℕ) where
  -- The record is exchanged in its place, and every other record stays.
  abbrev pub IsExchanged : List Rec → List Rec → Type 0
  IsExchanged rs done =
      (x r : Rec) × (before behind_it : List Rec) × (rs ≡ before ++ (x ∷ behind_it))
      × (done ≡ before ++ (r ∷ behind_it))
      × IsActivated claimed x r qty

  abbrev Activates : List Rec → Change Activation → Type 0
  Activates rs (w, activated) = (done : List Rec) × (w ≡ some done) × IsExchanged rs done
  Activates rs (w, not_activated) = Unit
  Activates rs (w, resolved) = Unit
