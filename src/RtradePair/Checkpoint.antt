-- ===== src/RtradePair/Checkpoint.antt =====
-- The checkpoint of a coordinator (strategies/rtrade_pair.py): `export_state`, `from_state`.
use binance.Base.{
  ℕ, ◌+◌, ◌-◌, Bool, true, false, ◌&&◌, Option, none, some, List, [], ◌∷◌, leb, or_default,
  if◌then◌else◌,
}
use binance.Base.Fallible.{◌>>=◌, ◌>>◌, require}
use binance.Base.Dict.{Dict}
use binance.RtradePair.Types.{
  Side, Ticket, Snapshot, Phase, stopping, Reason, StopReason, FirstFill, Pair,
}
use binance.RtradePair.Orders.{has_ticket}
use binance.RtradePair.Recovery.{adopt_first}
use binance.RtradePair.Exit.{max_revision}

pub record SavedTicket : Type 0 where
  pub order_id : ℕ
  pub side : Side
  pub price : ℕ
  pub qty : ℕ
  pub active : Bool
  pub revision : ℕ

-- A checkpoint; a key that older programs did not write may be missing.
pub record Saved : Type 0 where
  pub pair_id : ℕ
  pub qty : ℕ
  pub start_side : Side
  pub phase : Phase
  pub reason : Option Reason
  pub shock : Option Bool
  pub elapsed : Option ℕ
  pub first_fill_elapsed : Option ℕ
  pub first_fill_side : Option FirstFill
  pub stop_order : Option ℕ
  pub buy_revision : Option ℕ
  pub sell_revision : Option ℕ
  pub hard_stop_revision : Option ℕ
  pub hard_stop_reason : Option StopReason
  pub tickets : List SavedTicket
  pub snapshots : Option (Dict Snapshot)

-- `incomplete` lacks one of the keys that are required.
pub data SavedState : Type 0 where
  incomplete : SavedState
  saved : Saved → SavedState

abbrev pub save_ticket : Ticket → SavedTicket
save_ticket t = record {
  order_id = t.order_id;
  side = t.side;
  price = t.price;
  qty = t.qty;
  active = t.active;
  revision = t.revision;
}

abbrev pub save_tickets : List Ticket → List SavedTicket
save_tickets [] = []
save_tickets (t ∷ ts) = save_ticket t ∷ save_tickets ts

abbrev pub first_elapsed : ℕ → Option ℕ → Option ℕ
first_elapsed start none = none
first_elapsed start (some first) = some (first - start)

-- `export_state` at a time of the clock; a time before the start counts as the start.
unfoldable pub export_state : ℕ → Pair → SavedState
export_state now p = saved (record {
  pair_id = p.pair_id;
  qty = p.qty;
  start_side = p.start_side;
  phase = p.phase;
  reason = p.reason;
  shock = some p.shock;
  elapsed = some (now - p.started_at);
  first_fill_elapsed = first_elapsed p.started_at p.first_fill_at;
  first_fill_side = p.first_fill_side;
  stop_order = p.stop_order;
  buy_revision = some p.buy_revision;
  sell_revision = some p.sell_revision;
  hard_stop_revision = some p.hard_stop_revision;
  hard_stop_reason = p.hard_stop_reason;
  tickets = save_tickets p.tickets;
  snapshots = some p.snapshots;
})

-- `OrderTicket.__post_init__`; no ticket is the stop ticket yet.
unfoldable pub load_ticket : SavedTicket → Option Ticket
load_ticket t =
    if leb 1 t.price && leb 1 t.qty && leb t.revision max_revision
    then some (record {
      order_id = t.order_id;
      side = t.side;
      price = t.price;
      qty = t.qty;
      active = t.active;
      revision = t.revision;
      is_stop = false;
    })
    else none

abbrev pub load_tickets : List SavedTicket → Option (List Ticket)
load_tickets [] = some []
load_tickets (t ∷ ts) = do first ← load_ticket t; rest ← load_tickets ts; some (first ∷ rest)

abbrev pub mark : Ticket → Ticket
mark t = record t { is_stop = true }

abbrev pub mark_last : Ticket → List Ticket → List Ticket
mark_last t [] = mark t ∷ []
mark_last t (u ∷ us) = t ∷ mark_last u us

abbrev pub last_id : Ticket → List Ticket → ℕ
last_id t [] = t.order_id
last_id t (u ∷ us) = last_id u us

-- A stopping round without the ID of its stop order, as older programs wrote it: the last ticket is taken.
abbrev pub adopt_last : Phase → List Ticket → List Ticket × Option ℕ
adopt_last stopping (t ∷ ts) = (mark_last t ts, some (last_id t ts))
adopt_last _ ts = (ts, none)

abbrev pub adopt_stop : Phase → Option ℕ → List Ticket → List Ticket × Option ℕ
adopt_stop phase none ts = adopt_last phase ts
adopt_stop phase (some id) ts =
    if has_ticket id ts then (adopt_first id mark ts, some id) else adopt_last phase ts

abbrev pub first_at : ℕ → Option ℕ → Option ℕ
first_at start none = none
first_at start (some elapsed) = some (start + elapsed)

-- The clock of the process that adopts the round stands at `now`. Only differences of its times count, so its
-- zero is taken to lie before the start of every round that is adopted.
abbrev pub restored : ℕ → Saved → List Ticket × Option ℕ → Pair
restored now s (tickets, stop_order) =
    let started_at = now - or_default s.elapsed 0 in
    record {
      qty = s.qty;
      start_side = s.start_side;
      pair_id = s.pair_id;
      started_at = started_at;
      first_fill_at = first_at started_at s.first_fill_elapsed;
      first_fill_side = s.first_fill_side;
      shock = or_default s.shock false;
      phase = s.phase;
      reason = s.reason;
      tickets = tickets;
      snapshots = or_default s.snapshots [];
      stop_order = stop_order;
      buy_revision = or_default s.buy_revision 0;
      sell_revision = or_default s.sell_revision 0;
      hard_stop_revision = or_default s.hard_stop_revision 0;
      hard_stop_reason = s.hard_stop_reason;
    }

-- `from_state`; `none` is an exception.
unfoldable pub from_state : ℕ → SavedState → Option Pair
from_state now incomplete = none
from_state now (saved s) = do
  require (leb 1 s.qty)
  tickets ← load_tickets s.tickets
  require (leb (or_default s.buy_revision 0) max_revision)
  require (leb (or_default s.sell_revision 0) max_revision)
  some (restored now s (adopt_stop s.phase s.stop_order tickets))
