-- ===== src/Outbox/Delivery.antt =====
-- What the end of a lease does to quantities and to ownership.
use binance.Base.{ℕ, ◌+◌, ◌-◌, ◌<◌, ◌≡◌, refl, ap, ◌∙◌, false, Option, some, arith, min}
use binance.Outbox.Types.{Rec, OrderStatus, derive_client_id, negligible, submit_pending}
use binance.Outbox.Guards.{safe_to_evict, set_safe_to_discard}
use binance.Outbox.Response.{append_order_history}
use binance.Outbox.Complete.{
  retry_terminal, Details, filled_of, apply_outcome, on_retry_terminal, next_revision,
  count_delivered,
}

history_keeps :
    (now : ℕ) (status : Option OrderStatus) (r : Rec)
    → let h = append_order_history now status r in
      (h.qty ≡ r.qty)
      × (h.delivered_qty ≡ r.delivered_qty)
      × (h.revision ≡ r.revision)
      × (h.id ≡ r.id)
unfolding append_order_history
history_keeps now status r = ground arith

module _ (now : ℕ) (status : Option OrderStatus) (r : Rec) where
  count_delivered_keeps :
      let h = count_delivered now status r in
      (h.qty ≡ r.qty)
      × (h.delivered_qty ≡ r.delivered_qty + min r.qty (filled_of status))
      × (h.revision ≡ r.revision)
      × (h.id ≡ r.id)
  unfolding count_delivered
  count_delivered_keeps = ground (arith, history_keeps now status r)

  next_revision_fields :
      let n = next_revision now status r in
      (n.delivered_qty ≡ r.delivered_qty)
      × (n.qty ≡ r.qty - filled_of status)
      × (n.lifecycle ≡ submit_pending)
      × (n.revision ≡ r.revision + 1)
      × (n.client_order_id ≡ some (derive_client_id r.id (r.revision + 1)))
      × (n.order_id ≡ 0)
      × (n.safe_to_discard ≡ false)
  unfolding next_revision set_safe_to_discard
  next_revision_fields = (refl, refl, refl, refl, refl, refl, refl)

undiscardable : (r : Rec) → r.safe_to_discard ≡ false → safe_to_evict r ≡ false
unfolding safe_to_evict
undiscardable r h = ground arith

negligible-false : (a q : ℕ) → negligible a q ≡ false → 0 < a
unfolding negligible
negligible-false a q h = ground arith

on_retry_terminal-eq :
    (d : Details) (now : ℕ) (r : Rec) {r' : Rec}
    → on_retry_terminal d now r ≡ some r'
    → (negligible (r.qty - filled_of d.status) r.qty ≡ false)
      × (next_revision now d.status (count_delivered now d.status r) ≡ r')
unfolding on_retry_terminal
on_retry_terminal-eq d now r e = ground arith

-- A remainder revision: what was delivered and what is asked for again add up to what was delivered
-- and asked for before; something is left to ask; the record is pending again under the next
-- revision with that revision's client order ID, holds no venue order, and is not to be evicted.
pub retry_terminal_conserves :
    (d : Details) (now : ℕ) (claimed r : Rec) {r' : Rec}
    → apply_outcome retry_terminal d now claimed r ≡ some r'
    → (r'.delivered_qty + r'.qty ≡ r.delivered_qty + r.qty)
      × (0 < r'.qty)
      × (r'.lifecycle ≡ submit_pending)
      × (r'.revision ≡ r.revision + 1)
      × (r'.client_order_id ≡ some (derive_client_id r.id (r.revision + 1)))
      × (r'.order_id ≡ 0)
      × (safe_to_evict r' ≡ false)
unfolding apply_outcome
retry_terminal_conserves d now claimed r {r'} e =
    let (left, same) = on_retry_terminal-eq d now r e in
    let h : Rec = count_delivered now d.status r in
    let (delivered, qty, pending, revision, client, order, safe) =
      next_revision_fields now d.status h in
    let (q, del, rev, id) = count_delivered_keeps now d.status r in
    let some_left = negligible-false (r.qty - filled_of d.status) r.qty left in
    rw (← same) (
      omega (arith, delivered, qty, q, del),
      omega (arith, qty, q, some_left),
      pending,
      revision ∙ ap (λ (n : ℕ). n + 1) rev,
      rw (client, id, rev) refl,
      order,
      undiscardable (next_revision now d.status h) safe,
    )
