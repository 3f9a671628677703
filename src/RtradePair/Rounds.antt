-- ===== src/RtradePair/Rounds.antt =====
-- Rounds over a coordinator, in any sequence of starts and steps (strategies/rtrade_pair.py).
use binance.Base.{ℕ, ◌≤◌, ◌≡◌, refl, true, false, Option, none, List, [], ◌∷◌, arith}
use binance.RtradePair.Types.{Side, Policy, idle, is_terminal, Pair, Venue, World}
use binance.RtradePair.Orders.{tolerance, net_of}
use binance.RtradePair.Start.{start}
use binance.RtradePair.Step.{step}
use binance.RtradePair.Ledger.{ticketed, IsSized, IsSound}
use binance.RtradePair.Stepped.{step-IsSound}
use binance.RtradePair.Opened.{start-IsSound}

-- `PairCoordinator.__init__`
abbrev pub new_pair : ℕ → Side → Pair
new_pair qty start_side = record {
  qty = qty;
  start_side = start_side;
  pair_id = 0;
  started_at = 0;
  first_fill_at = none;
  first_fill_side = none;
  shock = false;
  phase = idle;
  reason = none;
  tickets = [];
  snapshots = [];
  stop_order = none;
  buy_revision = 0;
  sell_revision = 0;
  hard_stop_revision = 0;
  hard_stop_reason = none;
}

abbrev pub new_world : ℕ → Side → World
new_world qty start_side = record { pair = new_pair qty start_side; log = [] }

-- A call of the scheduler, which goes on after an exception.
pub data Move : Type 0 where
  starting : Option ℕ → ℕ → ℕ → Move
  stepping : ℕ → Move

module _ (v : Venue) (policy : Policy) (depth : ℕ) where
  abbrev move : Move → World → World
  move (starting mid pair_id now) w = (start v policy mid pair_id now w).1
  move (stepping now) w = (step v policy depth now w).1

  -- What is left of a coordinator after the moves.
  unfoldable pub drive : List Move → World → World
  drive [] w = w
  drive (m ∷ ms) w = drive ms (move m w)

  drive-IsSound : (ms : List Move) (w : World) → IsSound w → IsSound (drive ms w)
  unfolding drive
  drive-IsSound [] w h = h
  drive-IsSound (starting mid pair_id now ∷ ms) w h =
      drive-IsSound ms (move (starting mid pair_id now) w)
        (start-IsSound v policy mid pair_id now w h)
  drive-IsSound (stepping now ∷ ms) w h =
      drive-IsSound ms (move (stepping now) w) (step-IsSound v policy depth now w h)

  new_world-IsSound : (qty : ℕ) (side : Side) → IsSound (new_world qty side)
  new_world-IsSound qty side = record {
    sized = tt;
    bounded = (omega arith, λ _. omega arith);
    unstopped = λ early. refl;
    flat = λ ended. cc;
  }

-- A round ends only even: where the phase of a coordinator is a terminal one, complete, expired, failed or
-- stopped, what the venue's last snapshots say was bought and sold differs by at most 10^-8. It holds after
-- any starts and steps, returned or raised, whatever the venue answers.
pub drive_flat :
    (v : Venue) (policy : Policy) (depth qty : ℕ) (side : Side) (ms : List Move)
    → is_terminal (drive v policy depth ms (new_world qty side)).pair.phase ≡ true
    → net_of (drive v policy depth ms (new_world qty side)).pair ≤ tolerance
drive_flat v policy depth qty side ms ended = ground (
  arith,
  (drive-IsSound v policy depth ms (new_world qty side)
        (new_world-IsSound v policy depth qty side)).flat
      ended,
)

-- The venue answers at most two market orders of a round with a ticket: after any starts and steps, returned
-- or raised, whatever the venue answers, the log has no more than two such answers since the last round was
-- opened. Market orders whose answer is lost, or that a later recovery finds, are not counted.
pub drive_stops :
    (v : Venue) (policy : Policy) (depth qty : ℕ) (side : Side) (ms : List Move)
    → ticketed (drive v policy depth ms (new_world qty side)).log ≤ 2
drive_stops v policy depth qty side ms =
    (drive-IsSound v policy depth ms (new_world qty side)
      (new_world-IsSound v policy depth qty side)).bounded.0

-- No order closes more than there is: after any starts and steps, returned or raised, whatever the venue
-- answers, every market order of the log is on the side and for the quantity that makes equal what the
-- snapshots of that moment say was bought and sold, and is above 10^-8; so is every limit order that closes
-- exposure, unless a market order was refused right before.
pub drive-IsSized :
    (v : Venue) (policy : Policy) (depth qty : ℕ) (side : Side) (ms : List Move)
    → IsSized (drive v policy depth ms (new_world qty side)).log
drive-IsSized v policy depth qty side ms =
    (drive-IsSound v policy depth ms (new_world qty side)
      (new_world-IsSound v policy depth qty side)).sized
