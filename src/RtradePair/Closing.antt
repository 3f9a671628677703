-- ===== src/RtradePair/Closing.antt =====
-- The limit order that closes exposure is for exactly the exposure (strategies/rtrade_pair.py).
use binance.Base.{ℕ, ◌+◌, max, ◌⊎◌, inl, Option, none, some, ◌∷◌, leb, ◌==◌, arith}
use binance.Base.Stateful.{◌>>=◌, skip, if-at}
use binance.RtradePair.Types.{
  Side, buy, sell, is_open, Ticket, Policy, Exposure, preflight_call, exit_sent, Venue, World, ask,
  or_raise,
}
use binance.RtradePair.Prices.{anchored_exit_price}
use binance.RtradePair.Orders.{
  filled, net_of, is_flat, active_ticket, has_ticket, snapshot_of, CancelEnd, settled,
  cancel_refused, status_unavailable, status_unconfirmed, cancel_and_reconcile,
}
use binance.RtradePair.Exit.{
  max_revision, revision_of, set_revision, is_adequate, is_covered, latest_exit, on_exit, send_exit,
  replace_canceled, after_exit_cancel, replace_active, send_after, place_anew, ensure_by,
  ensure_anchored_exit,
}
use binance.RtradePair.Ledger.{
  IsClosing, IsRefused, Guarded, Open, IsSound, Open-IsSound, Leads, bind-Leads,
  exit_side_of-IsClosing,
}
use binance.RtradePair.Quiet.{ask-Keeps, either, cancel_and_reconcile-Keeps}

-- The order closes the exposure by the last snapshots, or a market order was refused right before.
abbrev pub IsClaimed : Side → ℕ → World → Type 0
IsClaimed side qty w = IsClosing side qty (filled buy w.pair) (filled sell w.pair) ⊎ IsRefused w.log

set_revision-Guarded :
    (side : Side) (r : ℕ) (w : World)
    → Guarded Open w
    → Guarded Open (record w { pair = set_revision side r w.pair })
set_revision-Guarded buy r w h = h
set_revision-Guarded sell r w h = h

set_revision-IsClaimed :
    (side s : Side) (r qty : ℕ) (w : World)
    → IsClaimed s qty w
    → IsClaimed s qty (record w { pair = set_revision side r w.pair })
unfolding filled
set_revision-IsClaimed buy s r qty w h = h
set_revision-IsClaimed sell s r qty w h = h

module _ (v : Venue) where
  send_exit-IsSound :
      (side : Side) (target qty : ℕ) (permit : Option ℕ) (w : World)
      → Guarded Open w
      → IsClaimed side qty w
      → IsSound (send_exit v side target qty permit w).1
  send_exit-IsSound side target qty permit w (going, sized) claimed =
      by_answer
        (v.place_limit u.log side target qty u.pair.pair_id permit (revision_of side u.pair))
    where
      u : World
      u = record w {
        log =
            exit_sent side target qty (revision_of side w.pair) (filled buy w.pair)
              (filled sell w.pair)
            ∷ w.log;
      }

      by_answer : (o : Option (Option Ticket)) → IsSound (on_exit v o u).1
      by_answer none = Open-IsSound u (going, (claimed, sized))
      by_answer (some none) = Open-IsSound _ (going, (claimed, sized))
      by_answer (some (some t)) = Open-IsSound _ (
          either v Open (has_ticket t.order_id u.pair.tickets) u u.pair _ (going, (claimed, sized))
            (going, (claimed, sized)))

  replace_canceled-IsSound :
      (e : Exposure) (target permit : ℕ)
      → Leads (Guarded Open) IsSound (replace_canceled v e target permit)
  unfolding replace_canceled filled
  replace_canceled-IsSound e target permit w h =
      if-at (λ o. IsSound o.1) (is_flat w.pair) _ _ w
        (λ even. record {
          sized = h.1;
          bounded = (Open-IsSound w h).bounded;
          unstopped = λ early. h.0.1;
          flat = λ ended. even;
        })
        (λ exposed.
          if-at (λ o. IsSound o.1) (leb max_revision (revision_of e.exit_side w.pair)) _ _ w
            (λ full. Open-IsSound _ h)
            (λ room.
              if-at (λ o. IsSound o.1) (is_covered e w.pair) _ _ advanced
                (λ covered.
                  send_exit-IsSound e.exit_side target (net_of w.pair) (some permit) advanced
                    (set_revision-Guarded e.exit_side (revision_of e.exit_side w.pair + 1) w h)
                    (set_revision-IsClaimed e.exit_side e.exit_side
                      (revision_of e.exit_side w.pair + 1) (net_of w.pair) w
                      (inl (exit_side_of-IsClosing w.pair e.exit_side exposed (ground arith)))))
                (λ changed.
                  Open-IsSound _
                    (set_revision-Guarded e.exit_side (revision_of e.exit_side w.pair + 1) w h))))
    where
      advanced : World
      advanced = record w {
        pair = set_revision e.exit_side (revision_of e.exit_side w.pair + 1) w.pair;
      }

  after_exit_cancel-IsSound :
      (e : Exposure) (target permit : ℕ) (end : CancelEnd)
      → Leads (Guarded Open) IsSound (after_exit_cancel v e target permit end)
  after_exit_cancel-IsSound e target permit settled w h =
      replace_canceled-IsSound e target permit w h
  after_exit_cancel-IsSound e target permit cancel_refused w h = Open-IsSound _ h
  after_exit_cancel-IsSound e target permit status_unavailable w h = Open-IsSound _ h
  after_exit_cancel-IsSound e target permit status_unconfirmed w h = Open-IsSound _ h

  replace_active-IsSound :
      (e : Exposure) (target : ℕ) (it : ℕ × Ticket)
      → Leads (Guarded Open) IsSound (replace_active v e target it)
  unfolding replace_active
  replace_active-IsSound e target it =
      bind-Leads (Guarded Open) IsSound
        (ask preflight_call (λ l. v.preflight_order l e.exit_side e.net (some target)))
        (λ permit. cancel_and_reconcile v it >>= after_exit_cancel v e target permit)
        (ask-Keeps v Open preflight_call (λ l. v.preflight_order l e.exit_side e.net (some target)))
        Open-IsSound
        (λ permit.
          bind-Leads (Guarded Open) IsSound (cancel_and_reconcile v it)
            (after_exit_cancel v e target permit) (cancel_and_reconcile-Keeps v Open it)
            Open-IsSound (after_exit_cancel-IsSound e target permit))

  send_after-IsSound :
      (e : Exposure) (target represented : ℕ) (w : World)
      → Guarded Open w
      → IsClaimed e.exit_side e.net w
      → IsSound (send_after v e target represented w).1
  unfolding send_after
  send_after-IsSound e target represented w h claimed =
      if-at (λ o. IsSound o.1) (represented == slot) _ _ at_slot
        (λ spent.
          if-at (λ o. IsSound o.1) (leb max_revision slot) _ _ at_slot
            (λ full. Open-IsSound _ going)
            (λ room.
              send_exit-IsSound e.exit_side target e.net none
                (record at_slot { pair = set_revision e.exit_side (slot + 1) at_slot.pair })
                (set_revision-Guarded e.exit_side (slot + 1) at_slot going)
                (set_revision-IsClaimed e.exit_side e.exit_side (slot + 1) e.net at_slot claims)))
        (λ free. send_exit-IsSound e.exit_side target e.net none at_slot going claims)
    where
      slot : ℕ
      slot = max represented (revision_of e.exit_side w.pair)

      at_slot : World
      at_slot = record w { pair = set_revision e.exit_side slot w.pair }

      going : Guarded Open at_slot
      going = set_revision-Guarded e.exit_side slot w h

      claims : IsClaimed e.exit_side e.net at_slot
      claims = set_revision-IsClaimed e.exit_side e.exit_side slot e.net w claimed

  place_anew-IsSound :
      (e : Exposure) (target : ℕ) (latest : Option (ℕ × Ticket)) (w : World)
      → Guarded Open w
      → IsClaimed e.exit_side e.net w
      → IsSound (place_anew v e target latest w).1
  unfolding place_anew
  place_anew-IsSound e target none w h claimed =
      send_exit-IsSound e.exit_side target e.net none w h claimed
  place_anew-IsSound e target (some (i, t)) w h claimed =
      if-at (λ o. IsSound o.1) (is_open (snapshot_of w.pair.snapshots t).status) _ _ w
        (λ live. Open-IsSound _ h) (λ ended. send_after-IsSound e target t.revision w h claimed)

  pub ensure_anchored_exit-IsSound :
      (policy : Policy) (e : Exposure) (current : ℕ) (w : World)
      → Guarded Open w
      → IsClaimed e.exit_side e.net w
      → IsSound (ensure_anchored_exit v policy e current w).1
  unfolding ensure_anchored_exit
  ensure_anchored_exit-IsSound policy e current w h claimed =
      by_price (anchored_exit_price policy e.exit_side e.cost e.qty current)
    where
      by_ticket : (target : ℕ) (o : Option (ℕ × Ticket)) → IsSound (ensure_by v e target o w).1
      by_ticket target none =
          place_anew-IsSound e target (latest_exit e.exit_side w.pair) w h claimed
      by_ticket target (some (i, t)) =
          if-at (λ o. IsSound o.1) (is_adequate e target w.pair t) skip
            (replace_active v e target (i, t)) w (λ fine. Open-IsSound w h)
            (λ poor. replace_active-IsSound e target (i, t) w h)

      by_price :
          (o : Option ℕ)
          → IsSound
              (((λ (u : World). or_raise o u) >>= λ target.
                  λ u. ensure_by v e target (active_ticket e.exit_side u.pair) u)
                w).1
      by_price none = Open-IsSound w h
      by_price (some target) = by_ticket target (active_ticket e.exit_side w.pair)
