-- ===== src/RtradePair/Stepped.antt =====
-- A step keeps a round sound, in every phase (strategies/rtrade_pair.py).
use binance.Base.{ℕ, zero, suc, ◌≡◌, refl, Bool, true, false, Option, none, some, arith}
use binance.Base.Stateful.{◌>>=◌, ◌>>◌, skip, bind-Keeps, if-at}
use binance.RtradePair.Types.{
  hard_stop_missing_order, is_recovery_pending, set_reason, is_open, Snapshot, Policy, Phase, idle,
  quoting, startup_recovery, exposed, closing, stopping, hard_stop_recovery, complete, expired,
  failed, hard_stopped, is_early, is_terminal, Venue, World, Run, change,
}
use binance.RtradePair.Orders.{
  filled, is_flat, record_first_fill, places, is_settled, CancelEnd, refresh, cancel_until,
}
use binance.RtradePair.Recovery.{recover_persisted_intents}
use binance.RtradePair.Stop.{retry_terminal_hard_stop}
use binance.RtradePair.Step.{
  is_retry_failed, enter, stop_status, retry_if, watch_stop, resume_stop, if_recovered,
  recover_stop, after_unwind, unwind, recover_start, by_phase, observed, step_in, step,
}
use binance.RtradePair.Ledger.{
  Guarded, Open, Stopping, IsSound, Open-IsSound, Stopping-IsSound, Leads, bind-Leads,
}
use binance.RtradePair.Quiet.{refresh-Keeps, cancel_until-Keeps, record_first_fill-Keeps}
use binance.RtradePair.Retried.{retry_terminal_hard_stop-IsSound}
use binance.RtradePair.Settled.{even-IsSound, recover-Keeps}
use binance.RtradePair.Traded.{trade-IsSound}

module _ (v : Venue) (policy : Policy) where
  -- The phases in which no market order has been answered with a ticket, while a step runs.
  abbrev Early : Phase → ℕ → ℕ → Type 0
  Early phase revision count = Open phase revision count × (is_early phase ≡ true)

  stopped-IsSound :
      (w : World)
      → Guarded Stopping w
      → is_flat w.pair ≡ true
      → IsSound (record w { pair = record w.pair { phase = hard_stopped } })
  unfolding filled
  stopped-IsSound w ((late, going, bounded), sized) even = record {
    sized = sized;
    bounded = bounded;
    unstopped = λ early. cc;
    flat = λ ended. even;
  }

  watch_stop-IsSound : Leads (Guarded Stopping) IsSound (watch_stop v policy)
  unfolding watch_stop filled
  watch_stop-IsSound w h =
      if-at (λ o. IsSound o.1) (is_flat w.pair) _ (retry_if v policy (stop_status w.pair)) w
        (λ even. stopped-IsSound (record w { pair = record w.pair { reason = _ } }) h even)
        (λ _. by_status (stop_status w.pair))
    where
      by_status : (o : Option Snapshot) → IsSound (retry_if v policy o w).1
      by_status none = Stopping-IsSound w h
      by_status (some s) =
          if-at (λ o. IsSound o.1) (is_open s.status) skip (retry_terminal_hard_stop v) w
            (λ _. Stopping-IsSound w h) (λ _. retry_terminal_hard_stop-IsSound v w h)

  resume_stop-IsSound : Leads (Guarded Stopping) IsSound (resume_stop v policy)
  unfolding filled
  resume_stop-IsSound w h =
      if-at (λ o. IsSound o.1) (is_flat w.pair) _ _ w
        (λ even. stopped-IsSound (record w { pair = record w.pair { reason = _ } }) h even)
        (λ _. by_stop w.pair.stop_order)
    where
      by_stop :
          (o : Option ℕ)
          → IsSound
              ((elim o as (λ _. Run (Unit {0})) [
                | none ↦ set_reason hard_stop_missing_order
                | some id ↦ enter stopping >> watch_stop v policy
              ])
                w).1
      by_stop none = Stopping-IsSound _ h
      by_stop (some id) =
          watch_stop-IsSound (record w { pair = record w.pair { phase = stopping } })
            ((refl, refl, h.0.2), h.1)

  recover_stop-IsSound : Leads (Guarded Stopping) IsSound (recover_stop v policy)
  unfolding recover_stop
  recover_stop-IsSound w h =
      if-at (λ o. IsSound o.1) (is_retry_failed w.pair.reason) (retry_terminal_hard_stop v) _ w
        (λ _. retry_terminal_hard_stop-IsSound v w h)
        (λ _.
          if-at (λ o. IsSound o.1) (is_recovery_pending w.pair.reason)
            (recover_persisted_intents v >>= if_recovered (resume_stop v policy)) skip w
            (λ _.
              bind-Leads (Guarded Stopping) IsSound (recover_persisted_intents v)
                (if_recovered (resume_stop v policy))
                (recover-Keeps v Stopping (λ phase r k x (late, going, (few, fewer)).
                  (refl, refl, (few, λ none_yet. fewer (omega arith)))))
                Stopping-IsSound resumed w h)
            (λ _. Stopping-IsSound w h))
    where
      resumed :
          (b : Bool) → Leads (Guarded Stopping) IsSound (if_recovered (resume_stop v policy) b)
      resumed true u k = resume_stop-IsSound u k
      resumed false u k = Stopping-IsSound u k

  module _ (now : ℕ) (again : Run (Unit {0})) (again-IsSound : Leads IsSound IsSound again) where
    after_unwind-IsSound :
        (end : CancelEnd) → Leads (Guarded Open) IsSound (after_unwind v policy now again end)
    after_unwind-IsSound end w h =
        if-at (λ o. IsSound o.1) (is_settled end) _ skip w
          (λ _.
            if-at (λ o. IsSound o.1) (is_flat w.pair) (enter failed) _ w
              (λ even. even-IsSound w h even failed)
              (λ _.
                trade-IsSound v policy now again again-IsSound
                  (record w { pair = record w.pair { phase = exposed } }) ((refl, h.0.1), h.1)))
          (λ _. Open-IsSound w h)

    unwind-IsSound : Leads (Guarded Open) IsSound (unwind v policy now again)
    unwind-IsSound w =
        bind-Leads (Guarded Open) IsSound (cancel_until v (places 0 w.pair.tickets))
          (after_unwind v policy now again) (cancel_until-Keeps v Open (places 0 w.pair.tickets))
          Open-IsSound after_unwind-IsSound w

    recover_start-IsSound : Leads (Guarded Open) IsSound (recover_start v policy now again)
    unfolding recover_start
    recover_start-IsSound w h =
        if-at (λ o. IsSound o.1) (is_recovery_pending w.pair.reason)
          (recover_persisted_intents v >>= if_recovered (unwind v policy now again))
          (unwind v policy now again) w
          (λ _.
            bind-Leads (Guarded Open) IsSound (recover_persisted_intents v)
              (if_recovered (unwind v policy now again))
              (recover-Keeps v Open (λ phase r k x (going, none_yet). (refl, none_yet)))
              Open-IsSound resumed w h)
          (λ _. unwind-IsSound w h)
      where
        resumed :
            (b : Bool) → Leads (Guarded Open) IsSound (if_recovered (unwind v policy now again) b)
        resumed true u k = unwind-IsSound u k
        resumed false u k = Open-IsSound u k

    by_phase-IsSound_before :
        (phase : Phase) (u : World)
        → u.pair.phase ≡ phase
        → Guarded Early u
        → IsSound (by_phase v policy now again phase u).1
    by_phase-IsSound_before startup_recovery u same ((going, early), sized) =
        recover_start-IsSound u (going, sized)
    by_phase-IsSound_before idle u same ((going, early), sized) =
        trade-IsSound v policy now again again-IsSound u (going, sized)
    by_phase-IsSound_before quoting u same ((going, early), sized) =
        trade-IsSound v policy now again again-IsSound u (going, sized)
    by_phase-IsSound_before exposed u same ((going, early), sized) =
        trade-IsSound v policy now again again-IsSound u (going, sized)
    by_phase-IsSound_before closing u same ((going, early), sized) =
        trade-IsSound v policy now again again-IsSound u (going, sized)
    by_phase-IsSound_before stopping u same h = cc
    by_phase-IsSound_before hard_stop_recovery u same h = cc
    by_phase-IsSound_before complete u same h = cc
    by_phase-IsSound_before expired u same h = cc
    by_phase-IsSound_before failed u same h = cc
    by_phase-IsSound_before hard_stopped u same h = cc

    by_phase-IsSound_after :
        (phase : Phase) (u : World)
        → u.pair.phase ≡ phase
        → Guarded Stopping u
        → IsSound (by_phase v policy now again phase u).1
    by_phase-IsSound_after stopping u same h = watch_stop-IsSound u h
    by_phase-IsSound_after hard_stop_recovery u same h = recover_stop-IsSound u h
    by_phase-IsSound_after startup_recovery u same h = cc
    by_phase-IsSound_after idle u same h = cc
    by_phase-IsSound_after quoting u same h = cc
    by_phase-IsSound_after exposed u same h = cc
    by_phase-IsSound_after closing u same h = cc
    by_phase-IsSound_after complete u same h = cc
    by_phase-IsSound_after expired u same h = cc
    by_phase-IsSound_after failed u same h = cc
    by_phase-IsSound_after hard_stopped u same h = cc

    observed-IsSound :
        (n : Phase → ℕ → ℕ → Type 0)
        → ((u : World) → Guarded n u → IsSound u)
        → ((u : World) → Guarded n u → IsSound (by_phase v policy now again u.pair.phase u).1)
        → Leads (Guarded n) IsSound (observed v policy now again)
    observed-IsSound n weaken rest w h =
        bind-Leads (Guarded n) IsSound (refresh v >> change (record_first_fill policy now))
          (λ _. λ u. by_phase v policy now again u.pair.phase u)
          (bind-Keeps (Guarded n) (refresh v) (λ _. change (record_first_fill policy now))
            (refresh-Keeps v n) (λ _. record_first_fill-Keeps v n policy now))
          weaken (λ _. rest) w h

    observed-IsSound_before :
        (w : World)
        → IsSound w
        → is_early w.pair.phase ≡ true
        → is_terminal w.pair.phase ≡ false
        → IsSound (observed v policy now again w).1
    observed-IsSound_before w h early going =
        observed-IsSound Early (λ u k. Open-IsSound u (k.0.0, k.1))
          (λ u k. by_phase-IsSound_before u.pair.phase u refl k) w
          (((going, h.unstopped early), early), h.sized)

    observed-IsSound_after :
        (w : World)
        → IsSound w
        → is_early w.pair.phase ≡ false
        → is_terminal w.pair.phase ≡ false
        → IsSound (observed v policy now again w).1
    observed-IsSound_after w h late going =
        observed-IsSound Stopping Stopping-IsSound
          (λ u k. by_phase-IsSound_after u.pair.phase u refl k) w
          ((late, going, h.bounded), h.sized)

    step_in-IsSound :
        (phase : Phase) (w : World)
        → w.pair.phase ≡ phase
        → IsSound w
        → IsSound (step_in v policy now again phase w).1
    step_in-IsSound idle w same h = h
    step_in-IsSound complete w same h = h
    step_in-IsSound expired w same h = h
    step_in-IsSound failed w same h = h
    step_in-IsSound hard_stopped w same h = h
    step_in-IsSound quoting w same h = observed-IsSound_before w h (cc) (cc)
    step_in-IsSound startup_recovery w same h = observed-IsSound_before w h (cc) (cc)
    step_in-IsSound exposed w same h = observed-IsSound_before w h (cc) (cc)
    step_in-IsSound closing w same h = observed-IsSound_before w h (cc) (cc)
    step_in-IsSound stopping w same h = observed-IsSound_after w h (cc) (cc)
    step_in-IsSound hard_stop_recovery w same h = observed-IsSound_after w h (cc) (cc)

  pub step-IsSound : (depth now : ℕ) → Leads IsSound IsSound (step v policy depth now)
  unfolding step
  step-IsSound zero now w h = h
  step-IsSound (suc depth) now w h =
      step_in-IsSound now (step v policy depth now) (step-IsSound depth now) w.pair.phase w refl h
