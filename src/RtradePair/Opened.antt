-- ===== src/RtradePair/Opened.antt =====
-- The start of a round leaves it sound (strategies/rtrade_pair.py).
use binance.Base.{
  ℕ, ◌≡◌, refl, ap, ◌∙◌, Bool, true, false, ◌||◌, Option, none, some, List, [], ◌∷◌, ◌++◌, arith,
  if◌then◌else◌,
}
use binance.Base.Stateful.{Result, returned, raised, ◌>>=◌, raise, After, if-at}
use binance.RtradePair.Types.{
  Side, buy, sell, other_side, Ticket, Policy, Phase, failed, exposed, startup_recovery, Reason,
  Pair, round_started, asked, price_call, is_recovery_pending, Venue, World, or_raise,
}
use binance.RtradePair.Prices.{quote_prices}
use binance.RtradePair.Orders.{
  side_total, filled, is_flat, CancelEnd, cancel_refused, is_settled, cancel_and_reconcile,
}
use binance.RtradePair.Start.{
  can_start, reset, price_at, end_in, failure, recovery_reason, Leg, placed, unplaced, failure_by,
  place_failure_reason, is_unknown, send_quote, without_first, unwind, without_second, second_leg,
  first_leg, mid_price, open_round, start,
}
use binance.RtradePair.Ledger.{Guarded, IsSound, Open-IsSound, Leads, bind-Leads}
use binance.RtradePair.Quiet.{cancel_and_reconcile-Ends}

-- No market order has been answered with a ticket, whatever the phase.
abbrev Unstopped : Phase → ℕ → ℕ → Type 0
Unstopped phase revision count = count ≡ 0

-- Nothing is known of any order.
abbrev IsFresh : World → Type 0
IsFresh w = Guarded Unstopped w × (w.pair.snapshots ≡ [])

side_total-fresh : (side : Side) (ts : List Ticket) → side_total (λ s. s.filled_qty) side [] ts ≡ 0
unfolding side_total
side_total-fresh side [] = refl
side_total-fresh side (t ∷ ts) = ground (arith, side_total-fresh side ts)

filled-fresh : (side : Side) (p : Pair) → p.snapshots ≡ [] → filled side p ≡ 0
unfolding filled
filled-fresh side p fresh =
    ap (λ d. side_total (λ s. s.filled_qty) side d p.tickets) fresh
    ∙ side_total-fresh side p.tickets

fresh-flat : (p : Pair) → p.snapshots ≡ [] → is_flat p ≡ true
fresh-flat p fresh = ground (arith, filled-fresh buy p fresh, filled-fresh sell p fresh)

IsFresh-IsSound : (w : World) → IsFresh w → IsSound w
IsFresh-IsSound w ((none_yet, sized), fresh) = record {
  sized = sized;
  bounded = (omega arith, λ _. omega arith);
  unstopped = λ early. none_yet;
  flat = λ ended. fresh-flat w.pair fresh;
}

module _ (v : Venue) where
  without_first-IsSound :
      (side : Side) (raised' : Bool) → Leads IsFresh IsSound (without_first v side raised')
  unfolding place_failure_reason
  without_first-IsSound side raised' w h = by_detail (v.last_place_failure_reason w.log side)
    where
      by_unknown :
          (r : Reason) (b : Bool)
          → IsSound
              ((if b then end_in startup_recovery (recovery_reason side r) else end_in failed r)
                w).1
      by_unknown r true = Open-IsSound _ ((refl, h.0.0), h.0.1)
      by_unknown r false = IsFresh-IsSound _ h

      by_detail :
          (o : Option (Option (ℕ × Bool)))
          → IsSound
              ((failure_by v side o >>= λ r. is_unknown v raised' r >>= λ unknown.
                  if unknown
                  then end_in startup_recovery (recovery_reason side r)
                  else end_in failed r)
                w).1
      by_detail none = IsFresh-IsSound w h
      by_detail (some detail) =
          by_unknown (failure side detail) (
            raised' || is_recovery_pending (some (failure side detail)) || v.recovery_blocked w.log)

  unwind-IsSound :
      (side : Side) (r : Reason) (unknown : Bool) (end : CancelEnd) (w : World)
      → Guarded Unstopped w
      → IsSound (unwind v side r unknown end w).1
  unfolding filled
  unwind-IsSound side r unknown end w (none_yet, sized) =
      if-at (λ o. IsSound o.1) (is_settled end) _ (end_in startup_recovery r) w
        (λ _.
          if-at (λ o. IsSound o.1) unknown (end_in startup_recovery (recovery_reason side r)) _ w
            (λ _. Open-IsSound _ ((refl, none_yet), sized))
            (λ _.
              if-at (λ o. IsSound o.1) (is_flat w.pair) (end_in failed r) (end_in exposed r) w
                (λ even. record {
                  sized = sized;
                  bounded = (omega arith, λ _. omega arith);
                  unstopped = λ early. none_yet;
                  flat = λ ended. even;
                })
                (λ _. Open-IsSound _ ((refl, none_yet), sized))))
        (λ _. Open-IsSound _ ((refl, none_yet), sized))

  without_second-IsSound :
      (side : Side) (first : Ticket) (raised' : Bool)
      → Leads IsFresh IsSound (without_second v side first raised')
  unfolding place_failure_reason
  without_second-IsSound side first raised' w h = by_detail (v.last_place_failure_reason w.log side)
    where
      by_end :
          (r : Reason) (o : Result CancelEnd × World)
          → After
              (λ end u. Guarded Unstopped u × (end ≡ cancel_refused → u.pair ≡ w.pair))
              (λ _. ⊥)
              o
          → IsSound
              (elim o.0 as (λ _. Result (Unit {0}) × World) [
                | returned end ↦
                    (is_unknown v raised' r >>= λ unknown. unwind v side r unknown end) o.1
                | raised ↦ (raised, o.1)
              ]).1
      by_end r (returned end, u) (k, same) =
          unwind-IsSound side r
            (raised' || is_recovery_pending (some r) || v.recovery_blocked u.log) end u k
      by_end r (raised, u) k = absurd k

      by_detail :
          (o : Option (Option (ℕ × Bool)))
          → IsSound
              ((failure_by v side o >>= λ r. cancel_and_reconcile v (0, first) >>= λ end.
                  is_unknown v raised' r >>= λ unknown. unwind v side r unknown end)
                w).1
      by_detail none = IsFresh-IsSound w h
      by_detail (some detail) =
          by_end (failure side detail) (cancel_and_reconcile v (0, first) w)
            (cancel_and_reconcile-Ends v Unstopped (0, first) w h.0)

  second_leg-IsSound :
      (side : Side) (first : Ticket) (l : Leg) → Leads IsFresh IsSound (second_leg v side first l)
  second_leg-IsSound side first (unplaced raised') w h =
      without_second-IsSound side first raised' w h
  second_leg-IsSound side first (placed t) w h = Open-IsSound _ ((refl, h.0.0), h.0.1)

  first_leg-IsSound :
      (side : Side) (prices : ℕ × ℕ) (l : Leg) → Leads IsFresh IsSound (first_leg v side prices l)
  first_leg-IsSound side prices (unplaced raised') w h = without_first-IsSound side raised' w h
  first_leg-IsSound side prices (placed t) w h =
      bind-Leads IsFresh IsSound
        (send_quote v (other_side side) (price_at (other_side side) prices))
        (second_leg v (other_side side) t) (λ u k. k) IsFresh-IsSound
        (second_leg-IsSound (other_side side) t)
        (record w {
          pair = record w.pair { tickets = w.pair.tickets ++ (record t { is_stop = false } ∷ []) };
        })
        h

  open_round-IsSound :
      (pair_id now : ℕ) (prices : Option (ℕ × ℕ))
      → Leads IsSound IsSound (open_round v pair_id now prices)
  open_round-IsSound pair_id now none w h = h
  open_round-IsSound pair_id now (some prices) w h =
      bind-Leads IsFresh IsSound
        (send_quote v w.pair.start_side (price_at w.pair.start_side prices))
        (first_leg v w.pair.start_side prices) (λ u k. k) IsFresh-IsSound
        (first_leg-IsSound w.pair.start_side prices)
        (record w { pair = reset pair_id now w.pair; log = round_started ∷ w.log })
        ((refl, h.sized), refl)

  pub start-IsSound :
      (policy : Policy) (mid : Option ℕ) (pair_id now : ℕ)
      → Leads IsSound IsSound (start v policy mid pair_id now)
  unfolding start
  start-IsSound policy mid pair_id now w h =
      if-at (λ o. IsSound o.1) (can_start w.pair.phase) _ raise w (λ _. by_mid mid) (λ _. h)
    where
      asking : World
      asking = record w { log = asked price_call ∷ w.log }

      asking-IsSound : IsSound asking
      asking-IsSound = record {
        sized = h.sized;
        bounded = h.bounded;
        unstopped = h.unstopped;
        flat = h.flat;
      }

      by_price :
          (o : Option ℕ)
          → IsSound
              (((λ (_ : World). or_raise o asking) >>= λ m.
                  open_round v pair_id now (quote_prices policy m))
                w).1
      by_price none = asking-IsSound
      by_price (some m) =
          open_round-IsSound pair_id now (quote_prices policy m) asking asking-IsSound

      by_mid :
          (o : Option ℕ)
          → IsSound ((mid_price v o >>= λ m. open_round v pair_id now (quote_prices policy m)) w).1
      by_mid none = by_price (v.current_price w.log)
      by_mid (some m) = open_round-IsSound pair_id now (quote_prices policy m) w h
