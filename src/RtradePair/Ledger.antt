-- ===== src/RtradePair/Ledger.antt =====
-- What the log of a round shows (strategies/rtrade_pair.py).
use binance.Base.{
  ℕ, suc, ◌+◌, ◌≤◌, ◌<◌, ◌≡◌, refl, Bool, true, false, ◌⊎◌, [], ◌∷◌, ltb, arith, if◌then◌else◌,
}
use binance.Base.Stateful.{Result, returned, raised, ◌>>=◌, Keeps}
use binance.RtradePair.Types.{
  Side, buy, sell, same_side, Phase, is_terminal, is_early, Pair, round_started, asked, quote_sent,
  exit_sent, market_sent, market_ticketed, market_refused, Log, World, Run,
}
use binance.RtradePair.Orders.{filled, tolerance, net_of, is_flat, exit_side_of}

-- The market orders of this round that the venue has answered with a ticket. One whose answer is lost,
-- or that a later recovery finds, is not counted.
abbrev pub ticketed : Log → ℕ
ticketed [] = 0
ticketed (round_started ∷ l) = 0
ticketed (asked c ∷ l) = ticketed l
ticketed (quote_sent side price qty ∷ l) = ticketed l
ticketed (exit_sent side price qty revision bought sold ∷ l) = ticketed l
ticketed (market_sent side qty revision bought sold ∷ l) = ticketed l
ticketed (market_ticketed ∷ l) = suc (ticketed l)
ticketed (market_refused ∷ l) = ticketed l

-- An order of the side for the quantity makes what was bought and sold equal, which differ by more than 10^-8.
abbrev pub IsClosing : Side → ℕ → ℕ → ℕ → Type 0
IsClosing sell qty bought sold = (sold + qty ≡ bought) × (tolerance < qty)
IsClosing buy qty bought sold = (bought + qty ≡ sold) × (tolerance < qty)

abbrev pub IsRefused : Log → Type 0
IsRefused (market_refused ∷ l) = Unit
IsRefused _ = ⊥

-- Every order that closes exposure is for exactly the exposure of the last snapshots; a limit order need not
-- be right after a refused market order.
abbrev pub IsSized : Log → Type 0
IsSized [] = Unit
IsSized (round_started ∷ l) = IsSized l
IsSized (asked c ∷ l) = IsSized l
IsSized (quote_sent side price qty ∷ l) = IsSized l
IsSized (exit_sent side price qty revision bought sold ∷ l) =
    (IsClosing side qty bought sold ⊎ IsRefused l) × IsSized l
IsSized (market_sent side qty revision bought sold ∷ l) = IsClosing side qty bought sold × IsSized l
IsSized (market_ticketed ∷ l) = IsSized l
IsSized (market_refused ∷ l) = IsSized l

-- A property of the phase, the revision of the hard stop and the market orders answered with a ticket.
abbrev pub Guarded : (Phase → ℕ → ℕ → Type 0) → World → Type 0
Guarded n w = n w.pair.phase w.pair.hard_stop_revision (ticketed w.log) × IsSized w.log

abbrev pub Open : Phase → ℕ → ℕ → Type 0
Open phase revision count = (is_terminal phase ≡ false) × (count ≡ 0)

abbrev pub IsBounded : ℕ → ℕ → Type 0
IsBounded revision count = (count ≤ 2) × (revision ≡ 0 → count ≤ 1)

abbrev pub Stopping : Phase → ℕ → ℕ → Type 0
Stopping phase revision count =
    (is_early phase ≡ false) × (is_terminal phase ≡ false) × IsBounded revision count

-- What every start and step of a round keeps.
pub record IsSound (w : World) : Type 0 where
  pub sized : IsSized w.log
  pub bounded : IsBounded w.pair.hard_stop_revision (ticketed w.log)
  pub unstopped : is_early w.pair.phase ≡ true → ticketed w.log ≡ 0
  pub flat : is_terminal w.pair.phase ≡ true → is_flat w.pair ≡ true

pub Open-IsSound : (w : World) → Guarded Open w → IsSound w
Open-IsSound w ((going, none_yet), sized) = record {
  sized = sized;
  bounded = (omega arith, λ _. omega arith);
  unstopped = λ _. none_yet;
  flat = λ ended. cc;
}

pub Stopping-IsSound : (w : World) → Guarded Stopping w → IsSound w
Stopping-IsSound w ((late, going, bounded), sized) = record {
  sized = sized;
  bounded = bounded;
  unstopped = λ early. cc;
  flat = λ ended. cc;
}

-- What holds after the code, however it ends.
abbrev pub Leads : {A : Type 0} → (World → Type 0) → (World → Type 0) → Run A → Type 0
Leads P Q m = (w : World) → P w → Q (m w).1

pub bind-Leads :
    {A B : Type 0} (P Q : World → Type 0) (m : Run A) (f : A → Run B)
    → Keeps P m
    → ((w : World) → P w → Q w)
    → ((a : A) → Leads P Q (f a))
    → Leads P Q (m >>= f)
bind-Leads {A} {B} P Q m f first weaken rest w h = by_result (m w) (first w h)
  where
    by_result :
        (o : Result A × World)
        → P o.1
        → Q
            (elim o.0 as (λ _. Result B × World) [
              | returned a ↦ f a o.1
              | raised ↦ (raised, o.1)
            ]).1
    by_result (returned a, w') h = rest a w' h
    by_result (raised, w') h = weaken w' h

-- An order on the side of the exposure for all of it closes it.
pub net_of-IsClosing :
    (p : Pair)
    → is_flat p ≡ false
    → IsClosing (exit_side_of p) (net_of p) (filled buy p) (filled sell p)
net_of-IsClosing p exposed = by_side (ltb (filled sell p) (filled buy p)) refl
  where
    by_side :
        (b : Bool)
        → ltb (filled sell p) (filled buy p) ≡ b
        → IsClosing (if b then sell else buy) (net_of p) (filled buy p) (filled sell p)
    by_side true more = (ground arith, ground arith)
    by_side false less = (ground arith, ground arith)

pub exit_side_of-IsClosing :
    (p : Pair) (side : Side)
    → is_flat p ≡ false
    → same_side (exit_side_of p) side ≡ true
    → IsClosing side (net_of p) (filled buy p) (filled sell p)
exit_side_of-IsClosing p side exposed same =
    by_sides (exit_side_of p) side same (net_of-IsClosing p exposed)
  where
    by_sides :
        (s t : Side)
        → same_side s t ≡ true
        → IsClosing s (net_of p) (filled buy p) (filled sell p)
        → IsClosing t (net_of p) (filled buy p) (filled sell p)
    by_sides buy buy same h = h
    by_sides sell sell same h = h
    by_sides buy sell same h = cc
    by_sides sell buy same h = cc
