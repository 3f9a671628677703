-- ===== src/RtradePair/Stop.antt =====
-- The hard stop: the market order that closes exposure at a loss (strategies/rtrade_pair.py).
use binance.Base.{
  ℕ, ◌+◌, ◌-◌, ◌*◌, Bool, true, false, Option, none, some, [], ◌∷◌, ◌++◌, leb, ◌==◌, or_default,
  if◌then◌else◌,
}
use binance.Base.Stateful.{◌>>=◌, ◌>>◌, pure, raise, skip}
use binance.RtradePair.Types.{
  Side, buy, sell, Ticket, Policy, hard_stopped, stopping, hard_stop_recovery, StopReason,
  fast_fill_hard_stop, inventory_hard_stop, stop_reason, market_exit_waiting,
  hard_stop_cancel_failed, hard_stop_cancel_ambiguous, hard_stop_exposure_changed,
  hard_stop_recovery_pending, hard_stop_place_failed, hard_stop_with_exposure,
  hard_stop_retry_failed, is_recovery_pending, Pair, Exposure, preflight_call, allowed_call,
  market_sent, market_ticketed, market_refused, Log, Venue, Run, ask, note, change, set_reason,
}
use binance.RtradePair.Prices.{million}
use binance.RtradePair.Orders.{
  filled, tolerance, net_of, is_flat, exit_side_of, active_ticket, has_ticket, CancelEnd, settled,
  cancel_and_reconcile,
}
use binance.RtradePair.Recovery.{no_stop}
use binance.RtradePair.Start.{place_failure_reason}
use binance.RtradePair.Exit.{is_covered, cancel_failure}

abbrev pub stop_fraction : Policy → Pair → ℕ
stop_fraction policy p = if p.shock then policy.shock_stop else policy.hard_stop

abbrev pub is_breached : Side → ℕ → ℕ → ℕ → ℕ → Bool
is_breached sell fraction cost qty current =
    leb (current * qty * million) (cost * (million - fraction))
is_breached buy fraction cost qty current =
    leb (cost * (million + fraction)) (current * qty * million)

-- The loss as a part of the cost.
abbrev pub loss : Exposure → ℕ → ℕ
loss e current = elim e.exit_side [
  | sell ↦ e.cost - current * e.qty
  | buy ↦ current * e.qty - e.cost
]

abbrev pub reason_of : Pair → StopReason
reason_of p = if p.shock then fast_fill_hard_stop else inventory_hard_stop

-- The object that the venue returned is the stop, and is held unless its order ID is known.
abbrev pub hold_stop : Ticket → Pair → Pair
hold_stop t p = record p {
  tickets =
      if has_ticket t.order_id p.tickets
      then no_stop p.tickets
      else no_stop p.tickets ++ (record t { is_stop = true } ∷ []);
  stop_order = some t.order_id;
  phase = stopping;
}

abbrev pub stop_refused : Bool → Run (Unit {0})
stop_refused true =
    change (λ p. record p { phase = hard_stop_recovery; reason = some hard_stop_recovery_pending })
stop_refused false = set_reason hard_stop_place_failed

abbrev pub note_market : Side → ℕ → ℕ → Run (Unit {0})
note_market side qty revision =
    note (λ p. market_sent side qty revision (filled buy p) (filled sell p))

abbrev pub retry_refused : Bool → Run (Unit {0})
retry_refused unresolved =
    set_reason (if unresolved then hard_stop_recovery_pending else hard_stop_retry_failed)

module _ (v : Venue) where
  abbrev pub is_unresolved : Side → Run Bool
  is_unresolved side w =
      (if v.recovery_blocked w.log
          then pure true
          else (place_failure_reason v side >>= λ r. pure (is_recovery_pending (some r))))
        w

  abbrev pub on_stop : Side → StopReason → Option (Option Ticket) → Run Bool
  on_stop side r none = raise
  on_stop side r (some none) = do
    note (λ p. market_refused)
    unresolved ← is_unresolved side
    stop_refused unresolved
    pure false
  on_stop side r (some (some t)) = do
    note (λ p. market_ticketed)
    change (λ p. record (hold_stop t p) { hard_stop_reason = some r })
    pure true

  unfoldable pub send_stop : Side → StopReason → ℕ → Option ℕ → Run Bool
  send_stop side r qty permit w =
      (note_market side qty w.pair.hard_stop_revision >> (λ u.
          on_stop side r
            (v.place_market_exit u.log side qty r u.pair.pair_id permit u.pair.hard_stop_revision)
            u))
        w

  unfoldable pub stop_canceled : Exposure → StopReason → ℕ → Run Bool
  unfolding send_stop
  stop_canceled e r permit w =
      (if is_flat w.pair
          then (change (λ p. record p { reason = some (stop_reason r); phase = hard_stopped })
              >> pure true)
          else if is_covered e w.pair
          then send_stop e.exit_side r (net_of w.pair) (some permit)
          else (set_reason hard_stop_exposure_changed >> pure false))
        w

  abbrev pub after_stop_cancel : Exposure → StopReason → ℕ → CancelEnd → Run Bool
  after_stop_cancel e r permit settled = stop_canceled e r permit
  after_stop_cancel e r permit end =
      set_reason (cancel_failure hard_stop_cancel_failed hard_stop_cancel_ambiguous end)
      >> pure false

  abbrev pub stop_by : Exposure → StopReason → Option (ℕ × Ticket) → Run Bool
  stop_by e r none = send_stop e.exit_side r e.net none
  stop_by e r (some it) = do
    permit ← ask preflight_call (λ l. v.preflight_order l e.exit_side e.net none)
    end ← cancel_and_reconcile v it
    after_stop_cancel e r permit end

  abbrev pub is_allowed :
      Option (Log → Side → ℕ → ℕ → StopReason → Option Bool) → Exposure → ℕ → StopReason → Run Bool
  is_allowed none e lost r = pure true
  is_allowed (some allow) e lost r = ask allowed_call (λ l. allow l e.exit_side lost e.cost r)

  abbrev pub if_allowed : Exposure → StopReason → Bool → Run Bool
  if_allowed e r true w = stop_by e r (active_ticket e.exit_side w.pair) w
  if_allowed e r false w = (set_reason market_exit_waiting >> pure false) w

  -- A cost of 0 is divided by.
  unfoldable pub breach : Exposure → ℕ → Run Bool
  unfolding stop_canceled
  breach e current w =
      (if e.cost == 0
          then raise
          else (is_allowed v.market_exit_allowed e (loss e current) (reason_of w.pair)
              >>= if_allowed e (reason_of w.pair)))
        w

  -- `_submit_hard_stop`
  unfoldable pub submit_hard_stop : Policy → Exposure → ℕ → Run Bool
  unfolding breach
  submit_hard_stop policy e current w =
      (if leb e.net tolerance
          then pure false
          else if is_breached e.exit_side (stop_fraction policy w.pair) e.cost e.qty current
          then breach e current
          else pure false)
        w

  abbrev pub refuse_retry : Side → Run (Unit {0})
  refuse_retry side = do
    change (λ p. record p { phase = hard_stop_recovery })
    unresolved ← is_unresolved side
    retry_refused unresolved

  abbrev pub on_retry : Side → StopReason → Option (Option Ticket) → Run (Unit {0})
  on_retry side r (some (some t)) = do
    note (λ p. market_ticketed)
    change (λ p. record (hold_stop t p) {
      hard_stop_revision = p.hard_stop_revision + 1;
      reason = some (stop_reason r);
    })
  on_retry side r _ = note (λ p. market_refused) >> refuse_retry side

  -- An exception of either call is a refusal.
  abbrev pub retry_with : Side → StopReason → ℕ → Option ℕ → Run (Unit {0})
  retry_with side r qty none w = refuse_retry side w
  retry_with side r qty (some permit) w =
      (note_market side qty (w.pair.hard_stop_revision + 1) >> (λ u.
          on_retry side r
            (v.place_market_exit u.log side qty r u.pair.pair_id (some permit)
              (u.pair.hard_stop_revision + 1))
            u))
        w

  abbrev pub retry_now : Side → ℕ → StopReason → Run (Unit {0})
  retry_now side qty r = do
    permit ← ask preflight_call (λ l. some (v.preflight_order l side qty none))
    retry_with side r qty permit

  -- `_retry_terminal_hard_stop`, whose answer is not read
  unfoldable pub retry_terminal_hard_stop : Run (Unit {0})
  retry_terminal_hard_stop w =
      (if is_flat w.pair
          then skip
          else if leb 1 w.pair.hard_stop_revision
          then change
              (λ p. record p { phase = hard_stop_recovery; reason = some hard_stop_with_exposure })
          else retry_now (exit_side_of w.pair) (net_of w.pair)
              (or_default w.pair.hard_stop_reason (reason_of w.pair)))
        w
