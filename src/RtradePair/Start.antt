-- ===== src/RtradePair/Start.antt =====
-- The start of a round: both quotes are sent (strategies/rtrade_pair.py).
use binance.Base.{ℕ, Bool, true, false, ◌||◌, Option, none, some, [], ◌∷◌, ◌++◌, if◌then◌else◌}
use binance.Base.Stateful.{returned, ◌>>=◌, ◌>>◌, pure, raise}
use binance.RtradePair.Types.{
  Side, buy, sell, other_side, Ticket, Policy, Phase, idle, quoting, startup_recovery, exposed,
  failed, is_terminal, Reason, venue_text, place_failed, leg_recovery_pending, is_recovery_pending,
  Pair, price_call, round_started, quote_sent, Venue, Run, ask, note, look, change,
}
use binance.RtradePair.Prices.{quote_prices}
use binance.RtradePair.Orders.{is_flat, CancelEnd, is_settled, cancel_and_reconcile}

abbrev pub can_start : Phase → Bool
can_start idle = true
can_start phase = is_terminal phase

-- The state of a new round, which keeps the quantity, the first side, the phase and nothing else.
abbrev pub reset : ℕ → ℕ → Pair → Pair
reset pair_id now p = record p {
  pair_id = pair_id;
  started_at = now;
  first_fill_at = none;
  first_fill_side = none;
  shock = false;
  reason = none;
  tickets = [];
  snapshots = [];
  stop_order = none;
  buy_revision = 0;
  sell_revision = 0;
  hard_stop_revision = 0;
  hard_stop_reason = none;
}

abbrev pub price_at : Side → ℕ × ℕ → ℕ
price_at buy (bid, ask') = bid
price_at sell (bid, ask') = ask'

abbrev pub end_in : Phase → Reason → Run (Unit {0})
end_in phase r = change (λ p. record p { phase = phase; reason = some r })

abbrev pub failure : Side → Option (ℕ × Bool) → Reason
failure side none = place_failed side
failure side (some (text, pending)) = venue_text text pending

abbrev pub recovery_reason : Side → Reason → Reason
recovery_reason side r = if is_recovery_pending (some r) then r else leg_recovery_pending side

abbrev pub hold_quote : Ticket → Run (Unit {0})
hold_quote t = change (λ p. record p { tickets = p.tickets ++ (record t { is_stop = false } ∷ []) })

-- A leg that was answered by a ticket, by none, or by an exception.
pub data Leg : Type 0 where
  placed : Ticket → Leg
  unplaced : Bool → Leg

abbrev pub leg : Option (Option Ticket) → Leg
leg none = unplaced true
leg (some none) = unplaced false
leg (some (some t)) = placed t

module _ (v : Venue) where
  abbrev pub failure_by : Side → Option (Option (ℕ × Bool)) → Run Reason
  failure_by side none = raise
  failure_by side (some detail) = pure (failure side detail)

  -- `_place_failure_reason`
  unfoldable pub place_failure_reason : Side → Run Reason
  place_failure_reason side w = failure_by side (v.last_place_failure_reason w.log side) w

  -- The exception was raised, the reason says so, or the venue is blocked.
  abbrev pub is_unknown : Bool → Reason → Run Bool
  is_unknown raised' r w =
      (returned (raised' || is_recovery_pending (some r) || v.recovery_blocked w.log), w)

  abbrev pub send_quote : Side → ℕ → Run Leg
  send_quote side price = do
    note (λ p. quote_sent side price p.qty)
    (λ w. (returned (leg (v.place_limit w.log side price w.pair.qty w.pair.pair_id none 0)), w))

  abbrev pub without_first : Side → Bool → Run (Unit {0})
  without_first side raised' = do
    r ← place_failure_reason side
    unknown ← is_unknown raised' r
    (if unknown then end_in startup_recovery (recovery_reason side r) else end_in failed r)

  abbrev pub unwind : Side → Reason → Bool → CancelEnd → Run (Unit {0})
  unwind side r unknown end =
      if is_settled end
      then (if unknown
          then end_in startup_recovery (recovery_reason side r)
          else (look is_flat >>= λ flat. if flat then end_in failed r else end_in exposed r))
      else end_in startup_recovery r

  abbrev pub without_second : Side → Ticket → Bool → Run (Unit {0})
  without_second side first raised' = do
    r ← place_failure_reason side
    end ← cancel_and_reconcile v (0, first)
    unknown ← is_unknown raised' r
    unwind side r unknown end

  abbrev pub second_leg : Side → Ticket → Leg → Run (Unit {0})
  second_leg side first (unplaced raised') = without_second side first raised'
  second_leg side first (placed t) = hold_quote t >> change (λ p. record p { phase = quoting })

  abbrev pub first_leg : Side → ℕ × ℕ → Leg → Run (Unit {0})
  first_leg side prices (unplaced raised') = without_first side raised'
  first_leg side prices (placed t) = do
    hold_quote t
    second ← send_quote (other_side side) (price_at (other_side side) prices)
    second_leg (other_side side) t second

  abbrev pub mid_price : Option ℕ → Run ℕ
  mid_price none = ask price_call v.current_price
  mid_price (some mid) = pure mid

  abbrev pub open_round : ℕ → ℕ → Option (ℕ × ℕ) → Run (Unit {0})
  open_round pair_id now none = raise
  open_round pair_id now (some prices) = do
    change (reset pair_id now)
    note (λ p. round_started)
    side ← look (λ p. p.start_side)
    first ← send_quote side (price_at side prices)
    first_leg side prices first

  -- `start`
  unfoldable pub start : Policy → Option ℕ → ℕ → ℕ → Run (Unit {0})
  unfolding place_failure_reason
  start policy mid pair_id now w =
      (if can_start w.pair.phase
          then (mid_price mid >>= λ m. open_round pair_id now (quote_prices policy m))
          else raise)
        w
