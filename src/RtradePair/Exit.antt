-- ===== src/RtradePair/Exit.antt =====
-- The limit order that closes exposure at an anchored price (strategies/rtrade_pair.py).
use binance.Base.{
  ℕ, ◌+◌, ◌-◌, ◌*◌, max, Bool, false, not, ◌&&◌, ◌||◌, Option, none, some, [], ◌∷◌, ◌++◌, leb, ◌==◌,
  if◌then◌else◌,
}
use binance.Base.Stateful.{◌>>=◌, ◌>>◌, raise, skip}
use binance.RtradePair.Types.{
  Side, buy, sell, other_side, same_side, is_open, Ticket, Policy, complete, Reason,
  exit_cancel_failed, exit_cancel_ambiguous, exit_revision_exhausted, exit_exposure_changed,
  exit_status_unconfirmed, exit_place_failed, Pair, Exposure, preflight_call, exit_sent, Venue, Run,
  or_raise, ask, note, change, set_reason,
}
use binance.RtradePair.Prices.{million, anchored_exit_price}
use binance.RtradePair.Orders.{
  filled, spent, tolerance, gap, net_of, is_flat, exit_side_of, places, last_where, active_ticket,
  has_ticket, snapshot_of, CancelEnd, settled, cancel_refused, cancel_and_reconcile,
}

-- `_MAX_LIMIT_REVISION`
abbrev pub max_revision : ℕ
max_revision = 1_000_000

abbrev pub revision_of : Side → Pair → ℕ
revision_of buy p = p.buy_revision
revision_of sell p = p.sell_revision

abbrev pub set_revision : Side → ℕ → Pair → Pair
set_revision buy r p = record p { buy_revision = r }
set_revision sell r p = record p { sell_revision = r }

-- The exposure by the last snapshots; a round holds the side that it has traded more.
abbrev pub exposure_of : Pair → Exposure
exposure_of p =
    let side = exit_side_of p in
    record {
      exit_side = side;
      net = net_of p;
      cost = spent (other_side side) p;
      qty = filled (other_side side) p;
    }

-- `math.isclose(remaining, net, rel_tol=1e-6, abs_tol=1e-8)`
abbrev pub is_close : ℕ → ℕ → Bool
is_close a b = leb (gap a b * million) (max a b) || leb (gap a b) tolerance

abbrev pub adequate_price : Side → ℕ → ℕ → Bool
adequate_price sell price target = leb target price
adequate_price buy price target = leb price target

abbrev pub is_adequate : Exposure → ℕ → Pair → Ticket → Bool
is_adequate e target p t =
    adequate_price e.exit_side t.price target
    && is_close (t.qty - (snapshot_of p.snapshots t).filled_qty) e.net

-- What is left after a cancellation is to be closed on the same side, and is not more than before.
abbrev pub is_covered : Exposure → Pair → Bool
is_covered e p = same_side (exit_side_of p) e.exit_side && leb (net_of p) (e.net + tolerance)

abbrev pub hold : Ticket → Pair → Pair
hold t p =
    if has_ticket t.order_id p.tickets
    then p
    else record p { tickets = p.tickets ++ (record t { is_stop = false } ∷ []) }

-- `exit_ticket` is an order of the side that is not the stop.
abbrev pub latest_exit : Side → Pair → Option (ℕ × Ticket)
latest_exit side p = last_where (λ t. same_side t.side side && not t.is_stop) (places 0 p.tickets)

abbrev pub cancel_failure : Reason → Reason → CancelEnd → Reason
cancel_failure refused ambiguous cancel_refused = refused
cancel_failure refused ambiguous _ = ambiguous

module _ (v : Venue) where
  abbrev pub on_exit : Option (Option Ticket) → Run (Unit {0})
  on_exit none = raise
  on_exit (some none) = set_reason exit_place_failed
  on_exit (some (some t)) = change (hold t)

  abbrev pub send_exit : Side → ℕ → ℕ → Option ℕ → Run (Unit {0})
  send_exit side target qty permit = do
    note (λ p. exit_sent side target qty (revision_of side p) (filled buy p) (filled sell p))
    (λ w.
        on_exit
          (v.place_limit w.log side target qty w.pair.pair_id permit (revision_of side w.pair)) w)

  -- The order that was canceled is terminal, so its revision is spent.
  unfoldable pub replace_canceled : Exposure → ℕ → ℕ → Run (Unit {0})
  replace_canceled e target permit w =
      (if is_flat w.pair
          then change (λ p. record p { phase = complete; reason = none })
          else if leb max_revision (revision_of e.exit_side w.pair)
          then set_reason exit_revision_exhausted
          else (change (λ p. set_revision e.exit_side (revision_of e.exit_side p + 1) p)
              >> (if is_covered e w.pair
                  then send_exit e.exit_side target (net_of w.pair) (some permit)
                  else set_reason exit_exposure_changed)))
        w

  abbrev pub after_exit_cancel : Exposure → ℕ → ℕ → CancelEnd → Run (Unit {0})
  after_exit_cancel e target permit settled = replace_canceled e target permit
  after_exit_cancel e target permit end =
      set_reason (cancel_failure exit_cancel_failed exit_cancel_ambiguous end)

  unfoldable pub replace_active : Exposure → ℕ → ℕ × Ticket → Run (Unit {0})
  unfolding replace_canceled
  replace_active e target it = do
    permit ← ask preflight_call (λ l. v.preflight_order l e.exit_side e.net (some target))
    end ← cancel_and_reconcile v it
    after_exit_cancel e target permit end

  -- A terminal order of the newest revision spends it, too.
  unfoldable pub send_after : Exposure → ℕ → ℕ → Run (Unit {0})
  send_after e target represented w =
      let slot = max represented (revision_of e.exit_side w.pair) in
      (change (set_revision e.exit_side slot)
          >> (if represented == slot
              then (if leb max_revision slot
                  then set_reason exit_revision_exhausted
                  else (change (set_revision e.exit_side (slot + 1))
                      >> send_exit e.exit_side target e.net none))
              else send_exit e.exit_side target e.net none))
        w

  unfoldable pub place_anew : Exposure → ℕ → Option (ℕ × Ticket) → Run (Unit {0})
  unfolding send_after
  place_anew e target none w = send_exit e.exit_side target e.net none w
  place_anew e target (some (i, t)) w =
      (if is_open (snapshot_of w.pair.snapshots t).status
          then set_reason exit_status_unconfirmed
          else send_after e target t.revision)
        w

  abbrev pub ensure_by : Exposure → ℕ → Option (ℕ × Ticket) → Run (Unit {0})
  ensure_by e target none w = place_anew e target (latest_exit e.exit_side w.pair) w
  ensure_by e target (some (i, t)) w =
      (if is_adequate e target w.pair t then skip else replace_active e target (i, t)) w

  -- `_ensure_anchored_exit`, whose answer is not read
  unfoldable pub ensure_anchored_exit : Policy → Exposure → ℕ → Run (Unit {0})
  unfolding replace_active place_anew
  ensure_anchored_exit policy e current =
      (λ w. or_raise (anchored_exit_price policy e.exit_side e.cost e.qty current) w) >>= λ target.
      λ w. ensure_by e target (active_ticket e.exit_side w.pair) w
