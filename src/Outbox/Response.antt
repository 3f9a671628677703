-- ===== src/Outbox/Response.antt =====
-- The answers of a venue: `extract_order_id` (providers/strategy_executor.py), and what
-- `_append_order_history` and `_apply_accepted` (order_retry.py) write of them into a record.
use binance.Base.{
  ℕ, suc, ◌-◌, false, Option, none, some, List, [], ◌∷◌, ◌==◌, if◌then◌else◌, length, ◌≡◌, refl,
  subst, Bool-cases, inl, inr,
}
use binance.Outbox.Types.{Rec, HistoryRow, OrderStatus, accepted, accepted_state}
use binance.Outbox.Guards.{set_safe_to_discard}

-- A native answer: nothing, a Boolean, a bare ID, or an object. `txid` may hold a list of IDs.
pub data Response : Type 0 where
  no_response flag : Response
  bare : ℕ → Response
  body : Option ℕ → Option ℕ → Option ℕ → List ℕ → Option ℕ → Response

abbrev first_present : List ℕ → Option ℕ
first_present [] = none
first_present (n ∷ ns) = if n == 0 then first_present ns else some n

abbrev nonempty : ℕ → Option ℕ
nonempty n = if n == 0 then none else some n

abbrev pick_id : Option ℕ → Option ℕ → Option ℕ → List ℕ → Option ℕ
pick_id (some n) order_id id txid = nonempty n
pick_id none (some n) id txid = nonempty n
pick_id none none (some n) txid = nonempty n
pick_id none none none txid = first_present txid

-- `orderId`, else `order_id`, else `id`, else the first ID of `txid`; an empty text is no ID.
unfoldable pub extract_order_id : Response → Option ℕ
extract_order_id no_response = none
extract_order_id flag = none
extract_order_id (bare n) = nonempty n
extract_order_id (body order_id1 order_id2 id txid status) = pick_id order_id1 order_id2 id txid

abbrev pub response_status : Response → Option ℕ → Option ℕ
response_status (body o p i t (some status)) old = some status
response_status _ old = old

-- The last row takes the new values if it is of the same order.
unfoldable pub add_row : HistoryRow → List HistoryRow → List HistoryRow
add_row row [] = row ∷ []
add_row row (h ∷ []) =
    if h.order_id == row.order_id
    then record row { status = elim row.status [ none ↦ h.status | some s ↦ some s ] } ∷ []
    else h ∷ row ∷ []
add_row row (h ∷ k ∷ hs) = h ∷ add_row row (k ∷ hs)

abbrev pub drop_front {ℓ} : {A : Type ℓ} → ℕ → List A → List A
drop_front n [] = []
drop_front ℕ.zero (x ∷ xs) = x ∷ xs
drop_front (suc n) (x ∷ xs) = drop_front n xs

-- `history[-20:]`
unfoldable pub last_twenty : List HistoryRow → List HistoryRow
last_twenty hs = drop_front (length hs - 20) hs

unfoldable pub append_order_history : ℕ → Option OrderStatus → Rec → Rec
unfolding add_row last_twenty
append_order_history now status r = if r.order_id == 0 then r else record r {
  order_history = last_twenty (
      add_row
        (record {
          order_id = r.order_id;
          client_order_id = r.client_order_id;
          revision = r.revision;
          observed_at = now;
          status = status;
        })
        r.order_history);
}

abbrev pub or_keep {ℓ} : {A : Type ℓ} → Option A → Option A → Option A
or_keep none old = old
or_keep (some new) old = some new

accept_with : ℕ → Response → ℕ → Option ℕ → Rec → Rec
accept_with order_id order now provider r =
    append_order_history now none (record (set_safe_to_discard false r) {
      order_id = order_id;
      lifecycle = accepted;
      accepted_ts = some now;
      last_status_ts = 0;
      last_failure_reason = none;
      submission_state = some accepted_state;
      provider_name = or_keep provider r.provider_name;
      submit_status = response_status order r.submit_status;
    })

-- `none` where the answer holds no order ID: the source then returns False.
unfoldable pub apply_accepted : Response → ℕ → Option ℕ → Rec → Option Rec
unfolding accept_with
apply_accepted order now provider r = elim (extract_order_id order) [
  | none ↦ none
  | some id ↦ some (accept_with id order now provider r)
]

append_order_history-id :
    (now : ℕ) (status : Option OrderStatus) (r : Rec)
    → ((append_order_history now status r).id ≡ r.id)
      × ((append_order_history now status r).client_order_id ≡ r.client_order_id)
      × ((append_order_history now status r).safe_to_discard ≡ r.safe_to_discard)
unfolding append_order_history
append_order_history-id now status r = elim (Bool-cases (r.order_id == 0)) [
  | inl none_yet ↦ rw none_yet (refl, refl, refl)
  | inr known ↦ rw known (refl, refl, refl)
]

-- An accepted answer keeps the identity of the intent, and never leaves it free to be discarded.
pub apply_accepted-id :
    (order : Response) (now : ℕ) (provider : Option ℕ) (r r' : Rec)
    → apply_accepted order now provider r ≡ some r'
    → (r'.id ≡ r.id) × (r'.client_order_id ≡ r.client_order_id) × (r'.safe_to_discard ≡ false)
unfolding apply_accepted accept_with set_safe_to_discard
apply_accepted-id order now provider r r' h = by_id (extract_order_id order) h
  where
    by_id :
        (x : Option ℕ)
        → elim x [ none ↦ none | some id ↦ some (accept_with id order now provider r) ] ≡ some r'
        → (r'.id ≡ r.id) × (r'.client_order_id ≡ r.client_order_id) × (r'.safe_to_discard ≡ false)
    by_id none e = absurd (cc)
    by_id (some id) e =
        let same : accept_with id order now provider r ≡ r' = cc in
        subst
          (λ x.
            (x.id ≡ r.id) × (x.client_order_id ≡ r.client_order_id) × (x.safe_to_discard ≡ false))
          same (append_order_history-id now none _)
