-- ===== src/RtradePair/Settled.antt =====
-- Cancellations and recovery leave what the log shows (strategies/rtrade_pair.py).
use binance.Base.{
  ℕ, ◌≡◌, max, Bool, true, ◌&&◌, Option, none, some, List, [], ◌∷◌, not, if◌then◌else◌,
}
use binance.Base.Stateful.{◌>>=◌, ◌>>◌, pure, Keeps, bind-Keeps, if-at}
use binance.RtradePair.Types.{
  Side, buy, sell, same_side, Ticket, Policy, Phase, stopping, Pair, Kind, limit_kind,
  hard_stop_kind, other_kind, Recovered, recovery_call, asked, Log, Venue, World, or_raise,
}
use binance.RtradePair.Orders.{
  filled, is_flat, places, is_settled, refresh, cancel_and_reconcile, cancel_each,
}
use binance.RtradePair.Recovery.{
  raise_revision, adopt_kind, adopt, adopt_all, is_unblocked, adopt_answer, recover_by,
  recover_persisted_intents,
}
use binance.RtradePair.Step.{fail_entry, cancel_entry, settle_all}
use binance.RtradePair.Ledger.{Guarded, Open, IsSound, Open-IsSound}
use binance.RtradePair.Quiet.{refresh-Keeps, cancel_each-Keeps, cancel_and_reconcile-Keeps}

-- A round that ends even is sound.
pub even-IsSound :
    (w : World)
    → Guarded Open w
    → is_flat w.pair ≡ true
    → (phase : Phase) → IsSound (record w { pair = record w.pair { phase = phase } })
unfolding filled
even-IsSound w h even phase = record {
  sized = h.1;
  bounded = (Open-IsSound w h).bounded;
  unstopped = λ early. h.0.1;
  flat = λ ended. even;
}

module _ (v : Venue) (n : Phase → ℕ → ℕ → Type 0) where
  pub cancel_entry-Keeps :
      (policy : Policy) (side : Side) (its : List (ℕ × Ticket))
      → Keeps (Guarded n) (cancel_entry v policy side its)
  unfolding cancel_entry
  cancel_entry-Keeps policy side [] w h = h
  cancel_entry-Keeps policy side ((i, t) ∷ its) w h =
      if-at (λ o. Guarded n o.1) (same_side t.side side && t.active) _
        (cancel_entry v policy side its) w
        (λ _.
          bind-Keeps (Guarded n) (cancel_and_reconcile v (i, t))
            (λ end.
              if is_settled end then cancel_entry v policy side its else fail_entry v policy end)
            (cancel_and_reconcile-Keeps v n (i, t))
            (λ end u k.
              if-at (λ o. Guarded n o.1) (is_settled end) (cancel_entry v policy side its)
                (fail_entry v policy end) u (λ _. cancel_entry-Keeps policy side its u k) (λ _. k))
            w h)
        (λ _. cancel_entry-Keeps policy side its w h)

  pub settle_all-Keeps : (policy : Policy) → Keeps (Guarded n) (settle_all v policy)
  settle_all-Keeps policy w =
      bind-Keeps (Guarded n) (cancel_each v (places 0 w.pair.tickets))
        (λ ambiguous. refresh v >> pure ambiguous) (cancel_each-Keeps v n (places 0 w.pair.tickets))
        (λ b. bind-Keeps (Guarded n) (refresh v) (λ _. pure b) (refresh-Keeps v n) (λ _ u k. k)) w

  module _ (stopped : (phase : Phase) (r k x : ℕ) → n phase r k → n stopping (max r x) k) where
    adopt-Guarded :
        (r : Recovered) (w : World) → Guarded n w → Guarded n (record w { pair = adopt r w.pair })
    unfolding adopt
    adopt-Guarded r w (h, sized) = by_kind r.kind _ (h, sized)
      where
        by_side :
            (s : Side) (x : ℕ) (p : Pair)
            → Guarded n (record w { pair = p })
            → Guarded n (record w { pair = raise_revision s x p })
        by_side buy x p k = k
        by_side sell x p k = k

        by_kind :
            (kind : Kind) (p : Pair)
            → Guarded n (record w { pair = p })
            → Guarded n (record w { pair = adopt_kind r.ticket.order_id r.ticket.side kind p })
        by_kind other_kind p k = k
        by_kind (limit_kind x) p k = by_side _ x _ k
        by_kind (hard_stop_kind x) p (k, sized') =
            (stopped p.phase p.hard_stop_revision _ x k, sized')

    adopt_all-Guarded :
        (rs : List Recovered) (w : World)
        → Guarded n w
        → Guarded n (record w { pair = adopt_all rs w.pair })
    adopt_all-Guarded [] w h = h
    adopt_all-Guarded (r ∷ rs) w h =
        adopt_all-Guarded rs (record w { pair = adopt r w.pair }) (adopt-Guarded r w h)

    pub recover-Keeps : Keeps (Guarded n) (recover_persisted_intents v)
    unfolding recover_persisted_intents
    recover-Keeps w h = by_method v.recover_pair_intents
      where
        is_unblocked-Keeps :
            (o : Option (Log → ℕ → Option Bool)) → Keeps (Guarded n) (is_unblocked v o)
        is_unblocked-Keeps none u k = k
        is_unblocked-Keeps (some blocked) u k = by_answer (blocked u.log u.pair.pair_id)
          where
            by_answer :
                (o : Option Bool)
                → Guarded n
                    (((λ (_ : World). or_raise o (record u { log = asked recovery_call ∷ u.log }))
                        >>= λ (b : Bool). pure (not b))
                      u).1
            by_answer none = k
            by_answer (some b) = k

        by_answer :
            (o : Option (List Recovered)) (u : World)
            → Guarded n u
            → Guarded n (adopt_answer v o u).1
        by_answer none u k = k
        by_answer (some rs) u k =
            is_unblocked-Keeps v.pair_recovery_blocked _ (adopt_all-Guarded rs u k)

        by_method :
            (o : Option (Log → ℕ → Option (List Recovered))) → Guarded n (recover_by v o w).1
        by_method none = h
        by_method (some recover) = by_answer (recover w.log w.pair.pair_id) _ h
