-- ===== src/RtradePair/Recovery.antt =====
-- The adoption of orders that an earlier process sent for a round (strategies/rtrade_pair.py).
use binance.Base.{
  ℕ, max, Bool, true, false, not, Option, none, some, List, [], ◌∷◌, ◌++◌, ◌==◌, or_default,
  if◌then◌else◌,
}
use binance.Base.Dict.{insert}
use binance.Base.Stateful.{returned, ◌>>=◌, ◌>>◌, pure}
use binance.RtradePair.Types.{
  Side, buy, sell, is_open, Ticket, stopping, inventory_hard_stop, Pair, Kind, limit_kind,
  hard_stop_kind, other_kind, Recovered, recovery_call, Log, Venue, Run, ask, change,
}
use binance.RtradePair.Orders.{has_ticket}

abbrev pub stop_revision : ℕ → ℕ → Pair → Pair
stop_revision id r p = record p {
  hard_stop_revision = max p.hard_stop_revision r;
  stop_order = some id;
  hard_stop_reason = some (or_default p.hard_stop_reason inventory_hard_stop);
  phase = stopping;
}

-- The first ticket of an order ID takes what was recovered; under a stop it is the stop ticket.
abbrev pub adopt_first : ℕ → (Ticket → Ticket) → List Ticket → List Ticket
adopt_first id f [] = []
adopt_first id f (t ∷ ts) = if t.order_id == id then f t ∷ ts else t ∷ adopt_first id f ts

abbrev pub no_stop : List Ticket → List Ticket
no_stop [] = []
no_stop (t ∷ ts) = record t { is_stop = false } ∷ no_stop ts

abbrev pub raise_revision : Side → ℕ → Pair → Pair
raise_revision buy r p = record p { buy_revision = max p.buy_revision r }
raise_revision sell r p = record p { sell_revision = max p.sell_revision r }

-- The side of the ticket that is held under an order ID.
abbrev pub side_in : ℕ → Side → List Ticket → Side
side_in id default [] = default
side_in id default (t ∷ ts) = if t.order_id == id then t.side else side_in id default ts

abbrev pub adopt_kind : ℕ → Side → Kind → Pair → Pair
adopt_kind id side other_kind p = p
adopt_kind id side (limit_kind r) p =
    raise_revision (side_in id side p.tickets) r
      (record p { tickets = adopt_first id (λ t. record t { revision = r }) p.tickets })
adopt_kind id side (hard_stop_kind r) p = stop_revision id r (record p {
  tickets = adopt_first id (λ t. record t { revision = r; is_stop = true }) (no_stop p.tickets);
})

abbrev pub hold : Ticket → List Ticket → List Ticket
hold t ts = if has_ticket t.order_id ts then ts else ts ++ (record t { is_stop = false } ∷ [])

unfoldable pub adopt : Recovered → Pair → Pair
adopt r p = adopt_kind r.ticket.order_id r.ticket.side r.kind (record p {
  tickets =
      adopt_first r.ticket.order_id (λ t. record t { active = is_open r.snapshot.status })
        (hold r.ticket p.tickets);
  snapshots = insert r.ticket.order_id r.snapshot p.snapshots;
})

abbrev pub adopt_all : List Recovered → Pair → Pair
adopt_all [] p = p
adopt_all (r ∷ rs) p = adopt_all rs (adopt r p)

module _ (v : Venue) where
  abbrev pub is_unblocked : Option (Log → ℕ → Option Bool) → Run Bool
  is_unblocked none w = (returned (not (v.recovery_blocked w.log)), w)
  is_unblocked (some blocked) w =
      (ask recovery_call (λ l. blocked l w.pair.pair_id) >>= λ b. pure (not b)) w

  abbrev pub adopt_answer : Option (List Recovered) → Run Bool
  adopt_answer none = pure false
  adopt_answer (some rs) = change (adopt_all rs) >> is_unblocked v.pair_recovery_blocked

  abbrev pub recover_by : Option (Log → ℕ → Option (List Recovered)) → Run Bool
  recover_by none w = (returned false, w)
  recover_by (some recover) w =
      (ask recovery_call (λ l. some (recover l w.pair.pair_id)) >>= adopt_answer) w

  -- `_recover_persisted_intents`
  unfoldable pub recover_persisted_intents : Run Bool
  unfolding adopt
  recover_persisted_intents = recover_by v.recover_pair_intents
