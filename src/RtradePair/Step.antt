-- ===== src/RtradePair/Step.antt =====
-- One step of a round (strategies/rtrade_pair.py).
use binance.Base.{
  ℕ, zero, suc, ◌+◌, Bool, true, false, ◌&&◌, ◌||◌, Option, none, some, List, [], ◌∷◌, ltb, leb,
  ◌==◌, or_default, if◌then◌else◌,
}
use binance.Base.Dict.{lookup}
use binance.Base.Stateful.{◌>>=◌, ◌>>◌, pure, raise, skip, for_each}
use binance.RtradePair.Types.{
  Side, buy, sell, other_side, same_side, is_open, Ticket, Snapshot, Policy, Phase, idle,
  startup_recovery, exposed, closing, stopping, hard_stop_recovery, complete, expired, failed,
  hard_stopped, is_terminal, inventory_hard_stop, Reason, stop_reason, entry_cancel_failed,
  entry_cancel_ambiguous, hard_stop_cancel_ambiguous, hard_stop_exposure_changed,
  hard_stop_recovery_pending, hard_stop_retry_failed, hard_stop_missing_order,
  balanced_cancel_pending, price_unavailable, quote_cancel_pending, quote_ttl_passed,
  is_recovery_pending, Pair, Exposure, price_call, Venue, Run, ask, change, set_reason,
}
use binance.RtradePair.Orders.{
  filled, is_flat, exit_side_of, record_first_fill, places, has_active_tickets, CancelEnd,
  is_settled, refresh, cancel_and_reconcile, cancel, cancel_each, cancel_until,
}
use binance.RtradePair.Recovery.{recover_persisted_intents}
use binance.RtradePair.Exit.{exposure_of, cancel_failure, ensure_anchored_exit}
use binance.RtradePair.Stop.{reason_of, submit_hard_stop, retry_terminal_hard_stop}

abbrev pub has_fill : Pair → Bool
has_fill p = ltb 0 (filled buy p) || ltb 0 (filled sell p)

-- The reasons after which no order is placed in the same step.
abbrev pub blocks_exit : Option Reason → Bool
blocks_exit (some hard_stop_cancel_ambiguous) = true
blocks_exit (some hard_stop_exposure_changed) = true
blocks_exit (some hard_stop_recovery_pending) = true
blocks_exit _ = false

abbrev pub is_retry_failed : Option Reason → Bool
is_retry_failed (some hard_stop_retry_failed) = true
is_retry_failed _ = false

abbrev pub end_round : Phase → Option Reason → Run (Unit {0})
end_round phase r = change (λ p. record p { phase = phase; reason = r })

abbrev pub enter : Phase → Run (Unit {0})
enter phase = change (λ p. record p { phase = phase })

abbrev pub stop_status : Pair → Option Snapshot
stop_status p = elim p.stop_order [ none ↦ none | some id ↦ lookup id p.snapshots ]

abbrev pub if_recovered : Run (Unit {0}) → Bool → Run (Unit {0})
if_recovered rest true = rest
if_recovered rest false = skip

module _ (v : Venue) (policy : Policy) where
  abbrev pub fail_entry : CancelEnd → Run Bool
  fail_entry end =
      set_reason (cancel_failure entry_cancel_failed entry_cancel_ambiguous end) >> pure false

  -- `_cancel_entry_remainder`
  unfoldable pub cancel_entry : Side → List (ℕ × Ticket) → Run Bool
  cancel_entry side [] = pure true
  cancel_entry side ((i, t) ∷ ts) =
      if same_side t.side side && t.active
      then (cancel_and_reconcile v (i, t) >>= λ end.
          if is_settled end then cancel_entry side ts else fail_entry end)
      else cancel_entry side ts

  -- Every active order is canceled, and the venue is read again.
  abbrev pub settle_all : Run Bool
  settle_all w =
      (cancel_each v (places 0 w.pair.tickets) >>= λ ambiguous. refresh v >> pure ambiguous) w

  abbrev pub finish : Bool → Run (Unit {0})
  finish ambiguous w =
      (if ambiguous || has_active_tickets w.pair
          then end_round closing (some balanced_cancel_pending)
          else end_round complete none)
        w

  abbrev pub after_stop : Exposure → ℕ → Bool → Run (Unit {0})
  after_stop e current true w = skip w
  after_stop e current false w =
      (if blocks_exit w.pair.reason then skip else ensure_anchored_exit v policy e current) w

  abbrev pub close_at : Exposure → ℕ → Run (Unit {0})
  close_at e current =
      if current == 0
      then set_reason price_unavailable
      else (submit_hard_stop v policy e current >>= after_stop e current)

  unfoldable pub close_exposure : Run (Unit {0})
  close_exposure w = (ask price_call v.current_price >>= close_at (exposure_of w.pair)) w

  unfoldable pub finish_or_close : Bool → Run (Unit {0})
  unfolding close_exposure
  finish_or_close ambiguous w = (if is_flat w.pair then finish ambiguous else close_exposure) w

  unfoldable pub rebalance : Run (Unit {0})
  unfolding finish_or_close
  rebalance w =
      (if is_flat w.pair
          then (enter closing >> (settle_all >>= finish_or_close))
          else close_exposure)
        w

  abbrev pub after_entry : Bool → Run (Unit {0})
  after_entry true = refresh v >> rebalance
  after_entry false = skip

  unfoldable pub carry_on : Run (Unit {0})
  unfolding rebalance
  carry_on w =
      (enter exposed
          >> (cancel_entry (other_side (exit_side_of w.pair)) (places 0 w.pair.tickets)
              >>= after_entry))
        w

  abbrev pub finish_or_carry_on : Bool → Run (Unit {0})
  finish_or_carry_on ambiguous w = (if is_flat w.pair then finish ambiguous else carry_on) w

  unfoldable pub expose : Run (Unit {0})
  unfolding carry_on
  expose w = (if is_flat w.pair then (settle_all >>= finish_or_carry_on) else carry_on) w

  -- The quotes have had their time.
  abbrev pub after_ttl : Run (Unit {0}) → Run (Unit {0})
  after_ttl again w =
      (if has_fill w.pair
          then again
          else if has_active_tickets w.pair
          then set_reason quote_cancel_pending
          else end_round expired (some quote_ttl_passed))
        w

  abbrev pub expire : Run (Unit {0}) → Run (Unit {0})
  expire again w =
      ((for_each (cancel v) (places 0 w.pair.tickets) >> refresh v) >> after_ttl again) w

  unfoldable pub trade : ℕ → Run (Unit {0}) → Run (Unit {0})
  unfolding expose
  trade now again w =
      (if has_fill w.pair
          then expose
          else if leb (w.pair.started_at + policy.quote_ttl) now
          then expire again
          else skip)
        w

  abbrev pub retry_if : Option Snapshot → Run (Unit {0})
  retry_if none = skip
  retry_if (some s) = if is_open s.status then skip else retry_terminal_hard_stop v

  unfoldable pub watch_stop : Run (Unit {0})
  watch_stop w =
      (if is_flat w.pair
          then change
              (λ p. record p { phase = hard_stopped; reason = some (stop_reason (reason_of p)) })
          else retry_if (stop_status w.pair))
        w

  abbrev pub resume_stop : Run (Unit {0})
  resume_stop w =
      (if is_flat w.pair
          then change (λ p. record p {
            phase = hard_stopped;
            reason = some (stop_reason (or_default p.hard_stop_reason inventory_hard_stop));
          })
          else elim w.pair.stop_order [
            | none ↦ set_reason hard_stop_missing_order
            | some id ↦ enter stopping >> watch_stop
          ])
        w

  unfoldable pub recover_stop : Run (Unit {0})
  unfolding watch_stop
  recover_stop w =
      (if is_retry_failed w.pair.reason
          then retry_terminal_hard_stop v
          else if is_recovery_pending w.pair.reason
          then (recover_persisted_intents v >>= if_recovered resume_stop)
          else skip)
        w

  abbrev pub after_unwind : ℕ → Run (Unit {0}) → CancelEnd → Run (Unit {0})
  after_unwind now again end w =
      (if is_settled end
          then (if is_flat w.pair then enter failed else (enter exposed >> trade now again))
          else skip)
        w

  abbrev pub unwind : ℕ → Run (Unit {0}) → Run (Unit {0})
  unwind now again w = (cancel_until v (places 0 w.pair.tickets) >>= after_unwind now again) w

  unfoldable pub recover_start : ℕ → Run (Unit {0}) → Run (Unit {0})
  unfolding trade
  recover_start now again w =
      (if is_recovery_pending w.pair.reason
          then (recover_persisted_intents v >>= if_recovered (unwind now again))
          else unwind now again)
        w

  abbrev pub by_phase : ℕ → Run (Unit {0}) → Phase → Run (Unit {0})
  by_phase now again startup_recovery = recover_start now again
  by_phase now again hard_stop_recovery = recover_stop
  by_phase now again stopping = watch_stop
  by_phase now again phase = trade now again

  abbrev pub observed : ℕ → Run (Unit {0}) → Run (Unit {0})
  observed now again w =
      ((refresh v >> change (record_first_fill policy now))
          >> (λ u. by_phase now again u.pair.phase u))
        w

  abbrev pub step_in : ℕ → Run (Unit {0}) → Phase → Run (Unit {0})
  step_in now again idle = raise
  step_in now again phase = if is_terminal phase then skip else observed now again

  -- `step`, with the depth of calls of itself that is left; past it the interpreter raises.
  unfoldable pub step : ℕ → ℕ → Run (Unit {0})
  unfolding recover_start recover_stop
  step zero now w = raise w
  step (suc depth) now w = step_in now (step depth now) w.pair.phase w
