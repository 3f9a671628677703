-- ===== src/RtradePair/Stopped.antt =====
-- The hard stop is for exactly the exposure, and is answered with a ticket twice at most (strategies/rtrade_pair.py).
use binance.Base.{
  ℕ, ◌≡◌, refl, sym, subst, Bool, true, false, ◌⊎◌, inl, inr, Option, none, some, ◌∷◌, leb, ◌==◌,
  arith,
}
use binance.Base.Stateful.{Result, returned, raised, ◌>>=◌, ◌>>◌, pure, After, if-at}
use binance.RtradePair.Types.{
  Side, buy, sell, Ticket, Policy, StopReason, Pair, Exposure, preflight_call, allowed_call, asked,
  market_sent, market_refused, is_recovery_pending, Log, Venue, World, or_raise,
}
use binance.RtradePair.Orders.{
  filled, tolerance, net_of, is_flat, active_ticket, CancelEnd, settled, cancel_refused,
  status_unavailable, status_unconfirmed, cancel_and_reconcile,
}
use binance.RtradePair.Start.{failure_by, place_failure_reason}
use binance.RtradePair.Exit.{is_covered}
use binance.RtradePair.Stop.{
  is_breached, loss, reason_of, stop_fraction, is_unresolved, stop_refused, on_stop, send_stop,
  stop_canceled, after_stop_cancel, stop_by, is_allowed, if_allowed, breach, submit_hard_stop,
}
use binance.RtradePair.Step.{blocks_exit}
use binance.RtradePair.Ledger.{
  IsClosing, IsRefused, Guarded, Open, IsSound, Open-IsSound, exit_side_of-IsClosing,
}
use binance.RtradePair.Quiet.{cancel_and_reconcile-Ends}
use binance.RtradePair.Closing.{IsClaimed}

-- Where no stop was placed, the round may go on only with an order for all of the exposure.
abbrev pub Submitted : Exposure → Bool → World → Type 0
Submitted e true w = IsSound w
Submitted e false w =
    Guarded Open w × ((blocks_exit w.pair.reason ≡ true) ⊎ IsClaimed e.exit_side e.net w)

module _ (v : Venue) where
  -- Whether a refused order is unresolved is found without a change of the round.
  pub is_unresolved-same :
      (side : Side) (w : World) → After (λ b u. u ≡ w) (λ u. u ≡ w) (is_unresolved v side w)
  unfolding place_failure_reason
  is_unresolved-same side w =
      if-at (After (λ b u. u ≡ w) (λ u. u ≡ w)) (v.recovery_blocked w.log) _ _ w (λ blocked. refl)
        (λ clear. by_detail (v.last_place_failure_reason w.log side))
    where
      by_detail :
          (o : Option (Option (ℕ × Bool)))
          → After
              (λ b u. u ≡ w)
              (λ u. u ≡ w)
              ((failure_by v side o >>= λ r. pure (is_recovery_pending (some r))) w)
      by_detail none = refl
      by_detail (some detail) = refl

  module _ (e : Exposure) where
    abbrev Ended : Result Bool × World → Type 0
    Ended = After (Submitted e) IsSound

    refused-Ended :
        (side : Side) (w : World)
        → Guarded Open w
        → IsRefused w.log
        → Ended ((is_unresolved v side >>= λ b. stop_refused b >> pure false) w)
    refused-Ended side w h refused = by_answer (is_unresolved v side w) (is_unresolved-same side w)
      where
        by_bool : (b : Bool) (u : World) → u ≡ w → Ended ((stop_refused b >> pure false) u)
        by_bool true u same = rw same (((refl, h.0.1), h.1), inl refl)
        by_bool false u same = rw same (h, inr (inr refused))

        by_answer :
            (o : Result Bool × World)
            → After (λ b u. u ≡ w) (λ u. u ≡ w) o
            → Ended (elim o.0 as (λ _. Result Bool × World) [
              | returned b ↦ (stop_refused b >> pure false) o.1
              | raised ↦ (raised, o.1)
            ])
        by_answer (returned b, u) same = by_bool b u same
        by_answer (raised, u) same = rw same (Open-IsSound w h)

    send_stop-Ended :
        (side : Side) (r : StopReason) (qty : ℕ) (permit : Option ℕ) (w : World)
        → Guarded Open w
        → IsClosing side qty (filled buy w.pair) (filled sell w.pair)
        → Ended (send_stop v side r qty permit w)
    unfolding send_stop
    send_stop-Ended side r qty permit w ((going, none_yet), sized) closes =
        by_answer
          (v.place_market_exit u.log side qty r u.pair.pair_id permit u.pair.hard_stop_revision)
      where
        u : World
        u = record w {
          log =
              market_sent side qty w.pair.hard_stop_revision (filled buy w.pair)
                (filled sell w.pair)
              ∷ w.log;
        }

        by_answer : (o : Option (Option Ticket)) → Ended (on_stop v side r o u)
        by_answer none = Open-IsSound u ((going, none_yet), (closes, sized))
        by_answer (some none) =
            refused-Ended side (record u { log = market_refused ∷ u.log })
              ((going, none_yet), (closes, sized)) tt
        by_answer (some (some t)) = record {
          sized = (closes, sized);
          bounded = (omega arith, λ _. omega arith);
          unstopped = λ early. cc;
          flat = λ ended. cc;
        }

    stop_canceled-Ended :
        (r : StopReason) (permit : ℕ) (w : World)
        → Guarded Open w
        → Ended (stop_canceled v e r permit w)
    unfolding stop_canceled filled
    stop_canceled-Ended r permit w h =
        if-at Ended (is_flat w.pair) _ _ w
          (λ even. record {
            sized = h.1;
            bounded = (Open-IsSound w h).bounded;
            unstopped = λ early. h.0.1;
            flat = λ ended. even;
          })
          (λ exposed.
            if-at Ended (is_covered e w.pair) _ _ w
              (λ covered.
                send_stop-Ended e.exit_side r (net_of w.pair) (some permit) w h
                  (exit_side_of-IsClosing w.pair e.exit_side exposed (ground arith)))
              (λ changed. (h, inl refl)))

    stop_by-Ended :
        (r : StopReason) (o : Option (ℕ × Ticket)) (w : World)
        → Guarded Open w
        → IsClosing e.exit_side e.net (filled buy w.pair) (filled sell w.pair)
        → Ended (stop_by v e r o w)
    unfolding filled
    stop_by-Ended r none w h closes = send_stop-Ended e.exit_side r e.net none w h closes
    stop_by-Ended r (some it) w h closes =
        by_permit (v.preflight_order w.log e.exit_side e.net none)
      where
        u : World
        u = record w { log = asked preflight_call ∷ w.log }

        refused-IsClosing :
            (p : Pair) → p ≡ w.pair → IsClosing e.exit_side e.net (filled buy p) (filled sell p)
        refused-IsClosing p same = rw same closes

        by_end :
            (permit : ℕ) (o : Result CancelEnd × World)
            → After (λ end x. Guarded Open x × (end ≡ cancel_refused → x.pair ≡ w.pair)) (λ _. ⊥) o
            → Ended (elim o.0 as (λ _. Result Bool × World) [
              | returned end ↦ after_stop_cancel v e r permit end o.1
              | raised ↦ (raised, o.1)
            ])
        by_end permit (raised, x) k = absurd k
        by_end permit (returned settled, x) (k, same) = stop_canceled-Ended r permit x k
        by_end permit (returned cancel_refused, x) (k, same) =
            (k, inr (inl (refused-IsClosing x.pair (same refl))))
        by_end permit (returned status_unavailable, x) (k, same) = (k, inl refl)
        by_end permit (returned status_unconfirmed, x) (k, same) = (k, inl refl)

        by_permit :
            (o : Option ℕ)
            → Ended (
                ((λ (_ : World). or_raise o u) >>= λ permit.
                cancel_and_reconcile v it >>= after_stop_cancel v e r permit)
                  w)
        by_permit none = Open-IsSound u h
        by_permit (some permit) =
            by_end permit (cancel_and_reconcile v it u) (cancel_and_reconcile-Ends v Open it u h)

    breach-Ended :
        (current : ℕ) (w : World)
        → Guarded Open w
        → IsClosing e.exit_side e.net (filled buy w.pair) (filled sell w.pair)
        → Ended (breach v e current w)
    unfolding breach filled
    breach-Ended current w h closes =
        if-at Ended (e.cost == 0) _ _ w (λ free. Open-IsSound w h)
          (λ paid. by_rule v.market_exit_allowed)
      where
        r : StopReason
        r = reason_of w.pair

        by_permission :
            (b : Bool) (u : World) → u.pair ≡ w.pair → Guarded Open u → Ended (if_allowed v e r b u)
        by_permission true u same k = stop_by-Ended r (active_ticket e.exit_side u.pair) u k (
            subst (λ p. IsClosing e.exit_side e.net (filled buy p) (filled sell p)) (sym same)
              closes)
        by_permission false u same k = (
          k,
          inr (
              inl (
                subst (λ p. IsClosing e.exit_side e.net (filled buy p) (filled sell p)) (sym same)
                  closes)),
        )

        by_answer :
            (o : Option Bool)
            → Ended (
                ((λ (_ : World). or_raise o (record w { log = asked allowed_call ∷ w.log }))
                    >>= if_allowed v e r)
                  w)
        by_answer none = Open-IsSound _ h
        by_answer (some b) = by_permission b _ refl h

        by_rule :
            (o : Option (Log → Side → ℕ → ℕ → StopReason → Option Bool))
            → Ended ((is_allowed v o e (loss e current) r >>= if_allowed v e r) w)
        by_rule none = by_permission true w refl h
        by_rule (some allow) = by_answer (allow w.log e.exit_side (loss e current) e.cost r)

    pub submit_hard_stop-Ended :
        (policy : Policy) (current : ℕ) (w : World)
        → Guarded Open w
        → IsClosing e.exit_side e.net (filled buy w.pair) (filled sell w.pair)
        → After (Submitted e) IsSound (submit_hard_stop v policy e current w)
    unfolding submit_hard_stop
    submit_hard_stop-Ended policy current w h closes =
        if-at Ended (leb e.net tolerance) _ _ w (λ small. (h, inr (inl closes)))
          (λ large.
            if-at Ended (is_breached e.exit_side (stop_fraction policy w.pair) e.cost e.qty current)
              _ _ w (λ breached. breach-Ended current w h closes) (λ within. (h, inr (inl closes))))
