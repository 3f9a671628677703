-- ===== src/RtradePair/Traded.antt =====
-- A round that trades is kept sound by a step (strategies/rtrade_pair.py).
use binance.Base.{
  ℕ, ◌+◌, ◌≡◌, refl, Bool, true, false, ◌||◌, inl, inr, Option, none, some, ◌∷◌, leb, ◌==◌, arith,
}
use binance.Base.Stateful.{
  Result, returned, raised, ◌>>=◌, ◌>>◌, skip, for_each, bind-Keeps, for_each-Keeps, After, if-at,
}
use binance.RtradePair.Types.{
  buy, sell, other_side, quote_ttl_passed, Policy, exposed, closing, complete, expired, Pair,
  Exposure, price_call, asked, Venue, World, Run, or_raise,
}
use binance.RtradePair.Orders.{
  filled, is_flat, exit_side_of, places, has_active_tickets, refresh, cancel,
}
use binance.RtradePair.Exit.{exposure_of, ensure_anchored_exit}
use binance.RtradePair.Stop.{submit_hard_stop}
use binance.RtradePair.Step.{
  has_fill, blocks_exit, cancel_entry, settle_all, finish, after_stop, close_at, close_exposure,
  finish_or_close, rebalance, after_entry, carry_on, finish_or_carry_on, expose, after_ttl, expire,
  trade,
}
use binance.RtradePair.Ledger.{
  IsClosing, Guarded, Open, IsSound, Open-IsSound, Leads, bind-Leads, net_of-IsClosing,
}
use binance.RtradePair.Quiet.{refresh-Keeps, cancel-Keeps}
use binance.RtradePair.Closing.{ensure_anchored_exit-IsSound}
use binance.RtradePair.Stopped.{Submitted, submit_hard_stop-Ended}
use binance.RtradePair.Settled.{even-IsSound, cancel_entry-Keeps, settle_all-Keeps}

module _ (v : Venue) (policy : Policy) where
  after_stop-IsSound :
      (e : Exposure) (current : ℕ) (b : Bool) (w : World)
      → Submitted e b w
      → IsSound (after_stop v policy e current b w).1
  after_stop-IsSound e current true w h = h
  after_stop-IsSound e current false w (h, inl blocked) =
      if-at (λ o. IsSound o.1) (blocks_exit w.pair.reason) skip
        (ensure_anchored_exit v policy e current) w (λ _. Open-IsSound w h) (λ free. cc)
  after_stop-IsSound e current false w (h, inr claimed) =
      if-at (λ o. IsSound o.1) (blocks_exit w.pair.reason) skip
        (ensure_anchored_exit v policy e current) w (λ _. Open-IsSound w h)
        (λ free. ensure_anchored_exit-IsSound v policy e current w h claimed)

  close_at-IsSound :
      (e : Exposure) (current : ℕ) (w : World)
      → Guarded Open w
      → IsClosing e.exit_side e.net (filled buy w.pair) (filled sell w.pair)
      → IsSound (close_at v policy e current w).1
  close_at-IsSound e current w h closes =
      if-at (λ o. IsSound o.1) (current == 0) _
        (submit_hard_stop v policy e current >>= after_stop v policy e current) w
        (λ _. Open-IsSound _ h)
        (λ _.
          by_stop (submit_hard_stop v policy e current w)
            (submit_hard_stop-Ended v e policy current w h closes))
    where
      by_stop :
          (o : Result Bool × World)
          → After (Submitted e) IsSound o
          → IsSound
              (elim o.0 as (λ _. Result (Unit {0}) × World) [
                | returned b ↦ after_stop v policy e current b o.1
                | raised ↦ (raised, o.1)
              ]).1
      by_stop (returned b, u) k = after_stop-IsSound e current b u k
      by_stop (raised, u) k = k

  close_exposure-IsSound :
      (w : World) → Guarded Open w → is_flat w.pair ≡ false → IsSound (close_exposure v policy w).1
  unfolding close_exposure
  close_exposure-IsSound w h exposed' = by_price (v.current_price w.log)
    where
      u : World
      u = record w { log = asked price_call ∷ w.log }

      by_price :
          (o : Option ℕ)
          → IsSound (((λ (_ : World). or_raise o u) >>= close_at v policy (exposure_of w.pair)) w).1
      by_price none = Open-IsSound u h
      by_price (some current) =
          close_at-IsSound (exposure_of w.pair) current u h (net_of-IsClosing w.pair exposed')

  finish-IsSound :
      (ambiguous : Bool) (w : World)
      → Guarded Open w
      → is_flat w.pair ≡ true
      → IsSound (finish v policy ambiguous w).1
  unfolding filled
  finish-IsSound ambiguous w h even =
      if-at (λ o. IsSound o.1) (ambiguous || has_active_tickets w.pair) _ _ w
        (λ _. Open-IsSound _ ((refl, h.0.1), h.1))
        (λ _. even-IsSound (record w { pair = record w.pair { reason = none } }) h even complete)

  finish_or_close-IsSound : (b : Bool) → Leads (Guarded Open) IsSound (finish_or_close v policy b)
  unfolding finish_or_close
  finish_or_close-IsSound b w h =
      if-at (λ o. IsSound o.1) (is_flat w.pair) _ _ w (finish-IsSound b w h)
        (close_exposure-IsSound w h)

  rebalance-IsSound : Leads (Guarded Open) IsSound (rebalance v policy)
  unfolding rebalance
  rebalance-IsSound w h =
      if-at (λ o. IsSound o.1) (is_flat w.pair) _ _ w
        (λ _.
          bind-Leads (Guarded Open) IsSound (settle_all v policy) (finish_or_close v policy)
            (settle_all-Keeps v Open policy) Open-IsSound finish_or_close-IsSound
            (record w { pair = record w.pair { phase = closing } }) ((refl, h.0.1), h.1))
        (close_exposure-IsSound w h)

  after_entry-IsSound : (b : Bool) → Leads (Guarded Open) IsSound (after_entry v policy b)
  after_entry-IsSound false w h = Open-IsSound w h
  after_entry-IsSound true w h =
      bind-Leads (Guarded Open) IsSound (refresh v) (λ _. rebalance v policy) (refresh-Keeps v Open)
        Open-IsSound (λ _. rebalance-IsSound) w h

  carry_on-IsSound : Leads (Guarded Open) IsSound (carry_on v policy)
  unfolding carry_on
  carry_on-IsSound w h =
      bind-Leads (Guarded Open) IsSound
        (cancel_entry v policy (other_side (exit_side_of w.pair)) (places 0 w.pair.tickets))
        (after_entry v policy)
        (cancel_entry-Keeps v Open policy (other_side (exit_side_of w.pair))
          (places 0 w.pair.tickets))
        Open-IsSound after_entry-IsSound (record w { pair = record w.pair { phase = exposed } })
        ((refl, h.0.1), h.1)

  finish_or_carry_on-IsSound :
      (b : Bool) → Leads (Guarded Open) IsSound (finish_or_carry_on v policy b)
  finish_or_carry_on-IsSound b w h =
      if-at (λ o. IsSound o.1) (is_flat w.pair) _ _ w (finish-IsSound b w h)
        (λ _. carry_on-IsSound w h)

  expose-IsSound : Leads (Guarded Open) IsSound (expose v policy)
  unfolding expose
  expose-IsSound w h =
      if-at (λ o. IsSound o.1) (is_flat w.pair) _ _ w
        (λ _.
          bind-Leads (Guarded Open) IsSound (settle_all v policy) (finish_or_carry_on v policy)
            (settle_all-Keeps v Open policy) Open-IsSound finish_or_carry_on-IsSound w h)
        (λ _. carry_on-IsSound w h)

  -- Where nothing is filled, the round is even.
  unfilled-flat : (p : Pair) → has_fill p ≡ false → is_flat p ≡ true
  unfilled-flat p none_filled = ground arith

  module _ (now : ℕ) (again : Run (Unit {0})) (again-IsSound : Leads IsSound IsSound again) where
    after_ttl-IsSound : Leads (Guarded Open) IsSound (after_ttl v policy again)
    unfolding filled
    after_ttl-IsSound w h =
        if-at (λ o. IsSound o.1) (has_fill w.pair) again _ w
          (λ _. again-IsSound w (Open-IsSound w h))
          (λ unfilled.
            if-at (λ o. IsSound o.1) (has_active_tickets w.pair) _ _ w (λ _. Open-IsSound _ h)
              (λ _.
                even-IsSound (record w { pair = record w.pair { reason = some quote_ttl_passed } })
                  h (unfilled-flat w.pair unfilled) expired))

    expire-IsSound : Leads (Guarded Open) IsSound (expire v policy again)
    expire-IsSound w =
        bind-Leads (Guarded Open) IsSound
          (for_each (cancel v) (places 0 w.pair.tickets) >> refresh v)
          (λ _. after_ttl v policy again)
          (bind-Keeps (Guarded Open) (for_each (cancel v) (places 0 w.pair.tickets))
            (λ _. refresh v)
            (for_each-Keeps (Guarded Open) (cancel v) (places 0 w.pair.tickets)
              (cancel-Keeps v Open))
            (λ _. refresh-Keeps v Open))
          Open-IsSound (λ _. after_ttl-IsSound) w

    pub trade-IsSound : Leads (Guarded Open) IsSound (trade v policy now again)
    unfolding trade
    trade-IsSound w h =
        if-at (λ o. IsSound o.1) (has_fill w.pair) _ _ w (λ _. expose-IsSound w h)
          (λ _.
            if-at (λ o. IsSound o.1) (leb (w.pair.started_at + policy.quote_ttl) now)
              (expire v policy again) skip w (λ _. expire-IsSound w h) (λ _. Open-IsSound w h))
