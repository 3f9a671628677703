-- ===== src/Worker/Replacement.antt =====
-- A claimed replacement that waits for the cancellation of the order it replaces (order_retry_worker.py).
use binance.Base.{ℕ, ◌-◌, Bool, true, false, Option, none, some, if◌then◌else◌}
use binance.Outbox.Types.{Rec, OrderStatus, VenueStatus, venue_canceled, terminal}
use binance.Outbox.Complete.{Outcome, success, release, status_failed, no_details}
use binance.Outbox.Cleanup.{
  Activation, activated, resolved, not_activated, activate_claimed_replacement,
}
use binance.Worker.Effects.{
  Setting, StatusAnswer, status_raises, status_is, status_read, Run, ◌>>=◌, ◌>>◌, pure, skip, ask,
  transaction, complete, provider_name,
}

abbrev pub is_venue_canceled : VenueStatus → Bool
is_venue_canceled venue_canceled = true
is_venue_canceled _ = false

-- The text "cancel_activation_failed".
abbrev pub activation_failed : ℕ
activation_failed = 1

module _ (s : Setting) where
  abbrev pub complete_quietly : Outcome → Rec → Run (Unit {0})
  complete_quietly o r = complete s o no_details r >> skip

  abbrev pub complete_failed : ℕ → Rec → Run (Unit {0})
  complete_failed error r =
      complete s status_failed (record no_details { error_text = some error }) r >> skip

  abbrev pub after_activation : Rec → Activation → Run (Unit {0})
  after_activation r activated = complete_quietly release r
  after_activation r resolved = skip
  after_activation r not_activated = complete_failed activation_failed r

  -- An original quantity that is missing becomes -1, which no activation accepts.
  abbrev pub activation_of : Rec → Option ℕ → ℕ → Run Activation
  activation_of r none filled = pure not_activated
  activation_of r (some original) filled =
      transaction s (activate_claimed_replacement r (original - filled) s.now)

  unfoldable pub on_canceled : Rec → OrderStatus → Run (Unit {0})
  on_canceled r status = do
    activation ← activation_of r r.replaces_original_qty status.filled_qty
    after_activation r activation

  unfoldable pub on_replaced_status : Rec → StatusAnswer → Run (Unit {0})
  unfolding on_canceled
  on_replaced_status r (status_raises error) = complete_failed error r
  on_replaced_status r (status_is status) =
      if is_venue_canceled status.venue_status
      then on_canceled r status
      else if terminal status
      then complete_quietly success r
      else complete_quietly release r

  unfoldable pub await_cancellation : Rec → Run (Unit {0})
  unfolding on_replaced_status
  await_cancellation r = do
    answer ←
        ask (λ l. s.status l r.symbol r.replaces_order_id (provider_name s r))
          (λ a. status_read r.replaces_order_id)
    on_replaced_status r answer
