-- ===== src/Worker/Observe.antt =====
-- One status of a claimed order that the venue has accepted (order_retry_worker.py).
use binance.Base.{◌+◌}
use binance.Outbox.Types.{Rec}
use binance.Outbox.Status.{
  Action, act_observed, act_filled, act_retry_terminal, act_terminal, advance_claimed_status,
}
use binance.Worker.Effects.{
  Setting, Stats, StatusAnswer, status_raises, status_is, status_read, Run, ◌>>=◌, ◌>>◌, tally, ask,
  guarded, provider_name,
}
use binance.Worker.Replacement.{complete_failed}

abbrev pub count_action : Action → Stats → Stats
count_action act_observed n = n
count_action act_filled n = record n { filled = n.filled + 1 }
count_action act_retry_terminal n = record n { terminal_retried = n.terminal_retried + 1 }
count_action act_terminal n = record n { terminal_failed = n.terminal_failed + 1 }

module _ (s : Setting) where
  unfoldable pub on_order_status : Rec → StatusAnswer → Run (Unit {0})
  on_order_status r (status_raises error) = complete_failed s error r
  on_order_status r (status_is status) = do
    transition ← guarded s (advance_claimed_status r status s.now)
    tally (count_action transition.action)

  unfoldable pub observe_order : Rec → Run (Unit {0})
  unfolding on_order_status
  observe_order r = do
    tally (λ n. record n { observed = n.observed + 1 })
    answer ←
        ask (λ l. s.status l r.symbol r.order_id (provider_name s r)) (λ a. status_read r.order_id)
    on_order_status r answer
