-- ===== src/RtradePair/Restored.antt =====
-- A round that is adopted from its checkpoint goes on as it was (strategies/rtrade_pair.py).
use binance.Base.{
  ℕ, ◌+◌, ◌-◌, ◌≤◌, ◌≡◌, ◌≢◌, refl, sym, ap, ◌∙◌, ◌⊎◌, inl, inr, arith, true, false, Option, none,
  some, List, [], ◌∷◌, leb, All, ◌==◌,
}
use binance.Base.Fallible.{require}
use binance.RtradePair.Types.{Ticket, Phase, stopping, Pair}
use binance.RtradePair.Orders.{has_ticket}
use binance.RtradePair.Recovery.{adopt_first, no_stop}
use binance.RtradePair.Exit.{max_revision}
use binance.RtradePair.Checkpoint.{
  first_elapsed, first_at, save_ticket, save_tickets, export_state, load_ticket, load_tickets, mark,
  adopt_stop, adopt_last, from_state,
}

-- What the constructor of a ticket has checked.
abbrev pub IsTicket : Ticket → Type 0
IsTicket t = (1 ≤ t.price) × (1 ≤ t.qty) × (t.revision ≤ max_revision)

abbrev pub IsUnmarked : Ticket → Type 0
IsUnmarked t = t.is_stop ≡ false

-- The stop ticket is the first of its order ID, and no other ticket is.
abbrev pub IsMarked : ℕ → List Ticket → Type 0
IsMarked id [] = ⊥
IsMarked id (t ∷ ts) =
    ((t.order_id ≡ id) × (t.is_stop ≡ true) × All IsUnmarked ts)
    ⊎ ((t.order_id ≢ id) × (t.is_stop ≡ false) × IsMarked id ts)

abbrev pub HasStop : Phase → Option ℕ → List Ticket → Type 0
HasStop phase none ts = (phase ≢ stopping) × All IsUnmarked ts
HasStop phase (some id) ts = IsMarked id ts

pub record IsSaveable (p : Pair) : Type 0 where
  pub positive : 1 ≤ p.qty
  pub tickets : All IsTicket p.tickets
  pub stop : HasStop p.phase p.stop_order p.tickets
  pub buys : p.buy_revision ≤ max_revision
  pub sells : p.sell_revision ≤ max_revision

-- The same round by another clock: the time since its start and the time to its first fill are kept.
abbrev pub first_after : ℕ → ℕ → Option ℕ → Option ℕ
first_after old new none = none
first_after old new (some first) = some (new + (first - old))

abbrev pub rebased : ℕ → ℕ → Pair → Pair
rebased before now p =
    let start = now - (before - p.started_at) in
    record p { started_at = start; first_fill_at = first_after p.started_at start p.first_fill_at }

load_ticket-save_ticket :
    (t : Ticket) → IsTicket t → load_ticket (save_ticket t) ≡ some (record t { is_stop = false })
unfolding load_ticket
load_ticket-save_ticket t h = ground arith

load_tickets-save_tickets :
    (ts : List Ticket) → All IsTicket ts → load_tickets (save_tickets ts) ≡ some (no_stop ts)
load_tickets-save_tickets [] h = refl
load_tickets-save_tickets (t ∷ ts) h =
    rw (load_ticket-save_ticket t h.0, load_tickets-save_tickets ts h.1) refl

no_stop-IsUnmarked : (ts : List Ticket) → All IsUnmarked ts → no_stop ts ≡ ts
no_stop-IsUnmarked [] h = refl
no_stop-IsUnmarked (t ∷ ts) h =
    ap (λ x. record t { is_stop = x } ∷ no_stop ts) (sym h.0)
    ∙ ap (λ x. t ∷ x) (no_stop-IsUnmarked ts h.1)

has_ticket-IsMarked :
    (id : ℕ) (ts : List Ticket) → IsMarked id ts → has_ticket id (no_stop ts) ≡ true
has_ticket-IsMarked id [] h = absurd h
has_ticket-IsMarked id (t ∷ ts) (inl h) = ground arith
has_ticket-IsMarked id (t ∷ ts) (inr h) =
    let rest : has_ticket id (no_stop ts) ≡ true = has_ticket-IsMarked id ts h.2 in ground arith

adopt_first-IsMarked :
    (id : ℕ) (ts : List Ticket) → IsMarked id ts → adopt_first id mark (no_stop ts) ≡ ts
adopt_first-IsMarked id [] h = absurd h
adopt_first-IsMarked id (t ∷ ts) (inl h) =
    let here : (t.order_id == id) ≡ true = ground arith in
    rw here (
      ap (λ x. record t { is_stop = x } ∷ no_stop ts) (sym h.1)
      ∙ ap (λ x. t ∷ x) (no_stop-IsUnmarked ts h.2))
adopt_first-IsMarked id (t ∷ ts) (inr h) =
    let apart : (t.order_id == id) ≡ false = ground arith in
    rw apart (
      ap (λ x. record t { is_stop = x } ∷ adopt_first id mark (no_stop ts)) (sym h.1)
      ∙ ap (λ x. t ∷ x) (adopt_first-IsMarked id ts h.2))

adopt_last-not_stopping :
    (phase : Phase) (ts : List Ticket) → phase ≢ stopping → adopt_last phase ts ≡ (ts, none)
adopt_last-not_stopping phase ts h = ground arith

adopt_stop-HasStop :
    (phase : Phase) (stop_order : Option ℕ) (ts : List Ticket)
    → HasStop phase stop_order ts
    → adopt_stop phase stop_order (no_stop ts) ≡ (ts, stop_order)
adopt_stop-HasStop phase none ts h =
    adopt_last-not_stopping phase (no_stop ts) h.0 ∙ ap (λ x. (x, none)) (no_stop-IsUnmarked ts h.1)
adopt_stop-HasStop phase (some id) ts h =
    rw (has_ticket-IsMarked id ts h) (ap (λ x. (x, some id)) (adopt_first-IsMarked id ts h))

first_at-first_elapsed :
    (old new : ℕ) (first : Option ℕ)
    → first_at new (first_elapsed old first) ≡ first_after old new first
first_at-first_elapsed old new none = refl
first_at-first_elapsed old new (some first) = refl

require-≤ : (n m : ℕ) → n ≤ m → require (leb n m) ≡ some tt
require-≤ n m h = let within : leb n m ≡ true = ground arith in rw within refl

-- A coordinator whose quantity, tickets and revisions are in range, and whose stop ticket is the first of its
-- order ID and there if the round is stopping, is adopted from its checkpoint as the same round: only its times
-- are moved, and where the clock that reads it has run for long enough, the same time has passed since its start.
pub from_state-export_state :
    (p : Pair) (before now : ℕ)
    → IsSaveable p
    → before - p.started_at ≤ now
    → (from_state now (export_state before p) ≡ some (rebased before now p))
      × (now - (rebased before now p).started_at ≡ before - p.started_at)
unfolding from_state export_state
from_state-export_state p before now h run =
    let start : ℕ = now - (before - p.started_at) in
    (
      rw
          (
            require-≤ 1 p.qty h.positive,
            load_tickets-save_tickets p.tickets h.tickets,
            require-≤ p.buy_revision max_revision h.buys,
            require-≤ p.sell_revision max_revision h.sells,
            adopt_stop-HasStop p.phase p.stop_order p.tickets h.stop,
            first_at-first_elapsed p.started_at start p.first_fill_at,
          )
          refl,
      omega arith,
    )
