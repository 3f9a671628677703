-- ===== src/RtradePair/Orders.antt =====
-- The orders of a round: what they filled, their cancellation and their refresh (strategies/rtrade_pair.py).
use binance.Base.{
  ℕ, ◌+◌, ◌-◌, ◌*◌, Bool, true, false, not, ◌&&◌, ◌||◌, Option, none, some, is_some, List, [], ◌∷◌,
  any, ltb, leb, ◌==◌, or_default, if◌then◌else◌,
}
use binance.Base.Dict.{Dict, lookup, insert, erase}
use binance.Base.Stateful.{◌>>=◌, ◌>>◌, pure, skip, for_each}
use binance.RtradePair.Types.{
  Side, buy, sell, same_side, open_order, is_open, Ticket, Snapshot, Policy, Phase,
  is_startup_recovery, FirstFill, on_side, on_both, Pair, status_call, cancel_call, Venue, Run, ask,
  change,
}
use binance.RtradePair.Prices.{million}

-- `OrderSnapshot()`
abbrev pub no_snapshot : Snapshot
no_snapshot = record { status = open_order; filled_qty = 0; cost = 0; fee = 0 }

abbrev pub snapshot_of : Dict Snapshot → Ticket → Snapshot
snapshot_of d t = or_default (lookup t.order_id d) no_snapshot

-- `_side_totals`, one number of each order.
unfoldable pub side_total : (Snapshot → ℕ) → Side → Dict Snapshot → List Ticket → ℕ
side_total f side d [] = 0
side_total f side d (t ∷ ts) =
    (if same_side t.side side then f (snapshot_of d t) else 0) + side_total f side d ts

-- What the venue's last snapshots say was bought and sold.
unfoldable pub filled : Side → Pair → ℕ
filled side p = side_total (λ s. s.filled_qty) side p.snapshots p.tickets

unfoldable pub spent : Side → Pair → ℕ
spent side p = side_total (λ s. s.cost) side p.snapshots p.tickets

-- 10^-8
abbrev pub tolerance : ℕ
tolerance = 10_000

-- `abs(buy_qty - sell_qty)`
abbrev pub gap : ℕ → ℕ → ℕ
gap bought sold = (bought - sold) + (sold - bought)

abbrev pub net_of : Pair → ℕ
net_of p = gap (filled buy p) (filled sell p)

abbrev pub is_flat : Pair → Bool
is_flat p = leb (net_of p) tolerance

-- The side of the order that closes the exposure.
abbrev pub exit_side_of : Pair → Side
exit_side_of p = if ltb (filled sell p) (filled buy p) then sell else buy

-- `_record_first_fill`
abbrev pub first_side : Bool → Bool → FirstFill
first_side true false = on_side buy
first_side false true = on_side sell
first_side _ _ = on_both

unfoldable pub record_first_fill : Policy → ℕ → Pair → Pair
record_first_fill policy now p =
    let bought = ltb 0 (filled buy p) in
    let sold = ltb 0 (filled sell p) in
    if is_some p.first_fill_at || not (bought || sold) then p else record p {
      first_fill_at = some now;
      first_fill_side = some (first_side bought sold);
      shock = leb ((now - p.started_at) * million) (policy.quote_ttl * policy.fast_fill);
    }

-- The tickets with their places.
abbrev pub places : ℕ → List Ticket → List (ℕ × Ticket)
places i [] = []
places i (t ∷ ts) = (i, t) ∷ places (i + 1) ts

-- `ticket.active = b` for the ticket at a place.
abbrev pub set_active : ℕ → Bool → List Ticket → List Ticket
set_active i b [] = []
set_active i b (t ∷ ts) =
    if i == 0 then record t { active = b } ∷ ts else t ∷ set_active (i - 1) b ts

-- The last ticket that passes a test, with its place.
abbrev pub last_where : (Ticket → Bool) → List (ℕ × Ticket) → Option (ℕ × Ticket)
last_where f [] = none
last_where f ((i, t) ∷ ts) = elim (last_where f ts) [
  | some found ↦ some found
  | none ↦ if f t then some (i, t) else none
]

-- `_active_ticket`
abbrev pub active_ticket : Side → Pair → Option (ℕ × Ticket)
active_ticket side p = last_where (λ t. same_side t.side side && t.active) (places 0 p.tickets)

abbrev pub has_active_tickets : Pair → Bool
has_active_tickets p = any (λ t. t.active) p.tickets

abbrev pub has_ticket : ℕ → List Ticket → Bool
has_ticket id ts = any (λ t. t.order_id == id) ts

-- `_compact_zero_fill_history`
abbrev pub is_latest_limit : Ticket → List Ticket → Bool
is_latest_limit t later =
    not t.is_stop && not (any (λ u. same_side u.side t.side && not u.is_stop) later)

abbrev pub is_kept : Phase → Bool → Dict Snapshot → Ticket → List Ticket → Bool
is_kept phase has_fill d t later =
    t.active
    || ltb 0 (snapshot_of d t).filled_qty
    || t.is_stop
    || (has_fill && is_latest_limit t later)
    || is_startup_recovery phase

unfoldable pub kept : Phase → Bool → Dict Snapshot → List Ticket → List Ticket × Dict Snapshot
kept phase has_fill d [] = ([], d)
kept phase has_fill d (t ∷ ts) =
    let keep = is_kept phase has_fill d t ts in
    let (ts', d') = kept phase has_fill (if keep then d else erase t.order_id d) ts in
    ((if keep then t ∷ ts' else ts'), d')

unfoldable pub compact : Pair → Pair
unfolding kept
compact p =
    let has_fill = any (λ t. ltb 0 (snapshot_of p.snapshots t).filled_qty) p.tickets in
    let (ts, d) = kept p.phase has_fill p.snapshots p.tickets in
    record p { tickets = ts; snapshots = d }

-- A new snapshot of the ticket at a place decides whether it is active.
abbrev pub observe : ℕ → ℕ → Snapshot → Pair → Pair
observe i id s p = record p {
  snapshots = insert id s p.snapshots;
  tickets = set_active i (is_open s.status) p.tickets;
}

-- How `_cancel_and_reconcile` ends: only the first is no failure.
pub data CancelEnd : Type 0 where
  settled cancel_refused status_unavailable status_unconfirmed : CancelEnd

abbrev pub is_settled : CancelEnd → Bool
is_settled settled = true
is_settled _ = false

module _ (v : Venue) where
  abbrev pub refresh_one : ℕ × Ticket → Run (Unit {0})
  refresh_one (i, t) = do
    s ← ask (status_call t.order_id) (λ l. v.order_status l t.order_id)
    change (observe i t.order_id s)

  -- `_refresh`
  unfoldable pub refresh : Run (Unit {0})
  unfolding compact
  refresh w = (for_each refresh_one (places 0 w.pair.tickets) >> change compact) w

  abbrev pub settle_by : ℕ → Ticket → Option Snapshot → Run CancelEnd
  settle_by i t none = do
    change (λ p. record p { tickets = set_active i true p.tickets })
    pure status_unavailable
  settle_by i t (some s) = do
    change (observe i t.order_id s)
    pure (if is_open s.status then status_unconfirmed else settled)

  abbrev pub confirm_by : ℕ → Ticket → Bool → Run CancelEnd
  confirm_by i t false = pure cancel_refused
  confirm_by i t true =
      ask (status_call t.order_id) (λ l. some (v.order_status l t.order_id)) >>= settle_by i t

  -- `_cancel_and_reconcile`, which catches the exceptions of both calls
  unfoldable pub cancel_and_reconcile : ℕ × Ticket → Run CancelEnd
  cancel_and_reconcile (i, t) =
      ask (cancel_call t.order_id) (λ l. some (or_default (v.cancel l t.order_id) false))
      >>= confirm_by i t

  -- `_cancel`
  abbrev pub cancel_if : ℕ → Bool → Run (Unit {0})
  cancel_if i true = change (λ p. record p { tickets = set_active i false p.tickets })
  cancel_if i false = skip

  unfoldable pub cancel : ℕ × Ticket → Run (Unit {0})
  cancel (i, t) =
      if t.active
      then ask (cancel_call t.order_id) (λ l. v.cancel l t.order_id) >>= cancel_if i
      else skip

  -- Cancels the active tickets and tells whether one was not settled.
  unfoldable pub cancel_each : List (ℕ × Ticket) → Run Bool
  cancel_each [] = pure false
  cancel_each ((i, t) ∷ ts) =
      if t.active
      then (cancel_and_reconcile (i, t) >>= λ end.
          cancel_each ts >>= λ ambiguous. pure (not (is_settled end) || ambiguous))
      else cancel_each ts

  -- Cancels the active tickets up to the first that is not settled, and tells whether all were.
  unfoldable pub cancel_until : List (ℕ × Ticket) → Run CancelEnd
  cancel_until [] = pure settled
  cancel_until ((i, t) ∷ ts) =
      if t.active
      then (cancel_and_reconcile (i, t) >>= λ end.
          if is_settled end then cancel_until ts else pure end)
      else cancel_until ts
