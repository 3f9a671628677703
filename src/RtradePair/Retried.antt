-- ===== src/RtradePair/Retried.antt =====
-- A hard stop is tried once more at most (strategies/rtrade_pair.py).
use binance.Base.{ℕ, ◌+◌, ◌≡◌, refl, Bool, false, Option, none, some, ◌∷◌, leb, or_default, arith}
use binance.Base.Stateful.{Result, returned, raised, skip, After, if-at}
use binance.RtradePair.Types.{
  Side, buy, sell, Ticket, hard_stop_recovery, StopReason, preflight_call, asked, market_sent,
  market_refused, Venue, World,
}
use binance.RtradePair.Orders.{filled, net_of, is_flat, exit_side_of}
use binance.RtradePair.Stop.{
  reason_of, is_unresolved, retry_refused, refuse_retry, on_retry, retry_with, retry_now,
  retry_terminal_hard_stop,
}
use binance.RtradePair.Ledger.{
  IsSized, Guarded, Stopping, IsSound, Stopping-IsSound, Leads, net_of-IsClosing,
}
use binance.RtradePair.Stopped.{is_unresolved-same}

module _ (v : Venue) where
  refuse_retry-IsSound :
      (side : Side) (w : World) → Guarded Stopping w → IsSound (refuse_retry v side w).1
  refuse_retry-IsSound side w ((late, going, bounded), sized) =
      by_answer (is_unresolved v side u) (is_unresolved-same v side u)
    where
      u : World
      u = record w { pair = record w.pair { phase = hard_stop_recovery } }

      by_answer :
          (o : Result Bool × World)
          → After (λ b x. x ≡ u) (λ x. x ≡ u) o
          → IsSound
              (elim o.0 as (λ _. Result (Unit {0}) × World) [
                | returned b ↦ retry_refused b o.1
                | raised ↦ (raised, o.1)
              ]).1
      by_answer (returned b, x) same = rw same (Stopping-IsSound _ ((refl, refl, bounded), sized))
      by_answer (raised, x) same = rw same (Stopping-IsSound u ((refl, refl, bounded), sized))

  retry_now-IsSound :
      (r : StopReason) (w : World)
      → Guarded Stopping w
      → is_flat w.pair ≡ false
      → leb 1 w.pair.hard_stop_revision ≡ false
      → IsSound (retry_now v (exit_side_of w.pair) (net_of w.pair) r w).1
  retry_now-IsSound r w ((late, going, bounded), sized) exposed fresh =
      by_permit (v.preflight_order w.log side (net_of w.pair) none)
    where
      side : Side
      side = exit_side_of w.pair

      asking : World
      asking = record w { log = asked preflight_call ∷ w.log }

      u : World
      u = record w {
        log =
            market_sent side (net_of w.pair) (w.pair.hard_stop_revision + 1) (filled buy w.pair)
              (filled sell w.pair)
            ∷ asking.log;
      }

      sent : IsSized u.log
      sent = (net_of-IsClosing w.pair exposed, sized)

      by_answer : (o : Option (Option Ticket)) → IsSound (on_retry v side r o u).1
      by_answer none =
          refuse_retry-IsSound side (record u { log = market_refused ∷ u.log })
            ((late, going, bounded), sent)
      by_answer (some none) =
          refuse_retry-IsSound side (record u { log = market_refused ∷ u.log })
            ((late, going, bounded), sent)
      by_answer (some (some t)) = record {
        sized = sent;
        bounded = (ground (arith, bounded.1), λ zero_now. ground arith);
        unstopped = λ early. cc;
        flat = λ ended. cc;
      }

      by_permit : (o : Option ℕ) → IsSound (retry_with v side r (net_of w.pair) o asking).1
      by_permit none = refuse_retry-IsSound side asking ((late, going, bounded), sized)
      by_permit (some permit) = by_answer (
          v.place_market_exit u.log side (net_of w.pair) r u.pair.pair_id (some permit)
            (u.pair.hard_stop_revision + 1))

  pub retry_terminal_hard_stop-IsSound :
      Leads (Guarded Stopping) IsSound (retry_terminal_hard_stop v)
  unfolding retry_terminal_hard_stop
  retry_terminal_hard_stop-IsSound w ((late, going, bounded), sized) =
      if-at (λ o. IsSound o.1) (is_flat w.pair) skip _ w
        (λ even. Stopping-IsSound w ((late, going, bounded), sized))
        (λ exposed.
          if-at (λ o. IsSound o.1) (leb 1 w.pair.hard_stop_revision) _ _ w
            (λ spent. Stopping-IsSound _ ((refl, refl, bounded), sized))
            (λ fresh.
              retry_now-IsSound (or_default w.pair.hard_stop_reason (reason_of w.pair)) w
                ((late, going, bounded), sized) exposed fresh))
