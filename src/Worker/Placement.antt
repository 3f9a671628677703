-- ===== src/Worker/Placement.antt =====
-- The submission of a claimed record keeps the log safe (order_retry_worker.py).
use binance.Base.{
  ℕ, ◌+◌, ◌≡◌, refl, Bool, true, false, ◌&&◌, inl, inr, ◌⊎◌, Option, none, some, List, ◌∷◌, Has,
  is_some, if◌then◌else◌, Bool-cases,
}
use binance.Outbox.Types.{Rec, ClientId}
use binance.Outbox.Guards.{is_non_failure_deferral}
use binance.Outbox.Due.{price_gate_ok}
use binance.Outbox.File.{Change, after}
use binance.Outbox.Response.{Response, extract_order_id}
use binance.Outbox.Claim.{begin_claimed_submit, is_refused}
use binance.Outbox.Complete.{
  Outcome, Details, success, failure, deferral, release, acceptance, no_details, complete_claim,
}
use binance.Outbox.Dispatch.{IsDispatched, begin_claimed_submit-IsDispatched}
use binance.Worker.Effects.{
  Lookup, found, not_found, unavailable, Event, price_read, Log, Placement, Setting, World, Run,
  ◌>>=◌, ◌>>◌, skip, tally, complete, provider_name,
}
use binance.Worker.Reconcile.{reconcile_client_order, lookup_if}
use binance.Worker.Replacement.{complete_quietly}
use binance.Worker.Submit.{
  is_terminal_refusal, refusal_of, state_of, with_reason, as_reason, accept, refuse,
  after_second_lookup, after_place, on_dispatch, submit, on_price, at_current_price, hold,
}
use binance.Worker.Safety.{
  IsSubmittable, IsNotAtVenue, IsSafe, Keeps, bind-Keeps, guarded-Keeps, if-Keeps, then-Keeps,
}

module _ (s : Setting) where
  pub complete-Keeps : (o : Outcome) (d : Details) (r : Rec) → Keeps s (complete s o d r >> skip)
  complete-Keeps o d r =
      then-Keeps s (complete s o d r) skip (guarded-Keeps s (complete_claim o d s.now r)) (λ w h. h)

  pub lookup-Keeps :
      (symbol : ℕ) (client : Option ClientId) (provider : Option ℕ)
      → Keeps s (reconcile_client_order s symbol client provider)
  unfolding reconcile_client_order
  lookup-Keeps symbol client provider = by_support s.has_lookup client
    where
      by_support : (b : Bool) (c : Option ClientId) → Keeps s (lookup_if s b symbol c provider)
      by_support true (some c) w h = h
      by_support true none w h = h
      by_support false c w h = h

  pub accept-Keeps : (snapshot r : Rec) (order : Response) → Keeps s (accept s snapshot r order)
  unfolding accept
  accept-Keeps snapshot r order w h =
      complete-Keeps acceptance
        (record no_details { order = order; provider_name = provider_name s snapshot }) r _ h

  refuse-Keeps : (r : Rec) (p : Placement) → Keeps s (refuse s r p)
  unfolding refuse
  refuse-Keeps r p =
      if-Keeps s (is_terminal_refusal (refusal_of p) && is_refused (state_of p))
        (complete_quietly s success r >> drop_one)
        (if is_non_failure_deferral (some (as_reason (refusal_of p)))
          then (complete s deferral (with_reason p) r >> skip)
          else (complete s failure (with_reason p) r >> skip))
        (then-Keeps s (complete_quietly s success r) drop_one (complete-Keeps success no_details r)
          (λ w h. h))
        (if-Keeps s (is_non_failure_deferral (some (as_reason (refusal_of p))))
          (complete s deferral (with_reason p) r >> skip)
          (complete s failure (with_reason p) r >> skip) (complete-Keeps deferral (with_reason p) r)
          (complete-Keeps failure (with_reason p) r))
    where
      drop_one : Run (Unit {0})
      drop_one = tally (λ n. record n { terminal_failed = n.terminal_failed + 1 })

  after_second_lookup-Keeps :
      (snapshot r : Rec) (p : Placement) (a : Lookup × Response)
      → Keeps s (after_second_lookup s snapshot r p a)
  unfolding after_second_lookup
  after_second_lookup-Keeps snapshot r p (found, order) w h = accept-Keeps snapshot r order _ h
  after_second_lookup-Keeps snapshot r p (not_found, order) w h = refuse-Keeps r p w h
  after_second_lookup-Keeps snapshot r p (unavailable, order) w h = refuse-Keeps r p w h

  after_place-Keeps : (snapshot r : Rec) (p : Placement) → Keeps s (after_place s snapshot r p)
  unfolding after_place
  after_place-Keeps snapshot r p =
      if-Keeps s (is_some (extract_order_id p.order)) (accept s snapshot r p.order)
        (look >>= after_second_lookup s snapshot r p) (accept-Keeps snapshot r p.order)
        (bind-Keeps s look (after_second_lookup s snapshot r p)
          (lookup-Keeps snapshot.symbol snapshot.client_order_id (provider_name s snapshot))
          (after_second_lookup-Keeps snapshot r p))
    where
      look : Run (Lookup × Response)
      look =
          reconcile_client_order s snapshot.symbol snapshot.client_order_id
            (provider_name s snapshot)

  -- The one step that places an order.
  pub submit-Keeps :
      (r : Rec) (price : ℕ) (w : World)
      → IsSubmittable r
      → IsNotAtVenue s r w.log
      → price_gate_ok s.config r (some price) ≡ true
      → IsSafe s w.log
      → IsSafe s (submit s r price w).1.log
  unfolding submit on_dispatch
  submit-Keeps r price w fit absent good safe =
      by_dispatch (s.others w.log w.queue)
        (begin_claimed_submit s.host r s.now s.config.claim_lease (s.others w.log w.queue))
        (λ r' e.
          begin_claimed_submit-IsDispatched s.host r s.now s.config.claim_lease
            (s.others w.log w.queue) e)
    where
      by_dispatch :
          (rs : List Rec) (c : Change (Option Rec))
          → ((r' : Rec)
              → c.1 ≡ some r'
              → IsDispatched r r' (s.now + s.config.claim_lease) × Has r' (after rs c.0))
          → IsSafe s (on_dispatch s r price c.1 (record w { queue = after rs c.0 })).1.log
      by_dispatch rs (c, none) known = safe
      by_dispatch rs (c, some r') known = after_place-Keeps r r' (s.place w.log r' price) _ (
        record {
          submittable = fit;
          not_at_venue = absent;
          acceptable = good;
          dispatched = (known r' refl).0;
          stored = (known r' refl).1;
        },
        safe,
      )

  pub release-Keeps : (r : Rec) → Keeps s (complete_quietly s release r)
  release-Keeps r = complete-Keeps release no_details r

  on_price-IsSafe :
      (r : Rec) (price : Option ℕ) (w : World)
      → IsSubmittable r
      → IsNotAtVenue s r w.log
      → IsSafe s w.log
      → IsSafe s (on_price s r price w).1.log
  unfolding on_price
  on_price-IsSafe r none w fit absent safe = release-Keeps r w safe
  on_price-IsSafe r (some price) w fit absent safe =
      by_gate (Bool-cases (price_gate_ok s.config r (some price)))
    where
      skip_one : Run (Unit {0})
      skip_one = tally (λ n. record n { skipped_price = n.skipped_price + 1 })

      by_gate :
          (price_gate_ok s.config r (some price) ≡ true)
            ⊎ (price_gate_ok s.config r (some price) ≡ false)
          → IsSafe s (on_price s r (some price) w).1.log
      by_gate (inl good) = rw good (submit-Keeps r price w fit absent good safe)
      by_gate (inr bad) =
          rw bad (
            then-Keeps s (complete_quietly s release r) skip_one (release-Keeps r) (λ v h. h) w
              safe)

  IsNotAtVenue-later :
      (r : Rec) (e : Event) (l : Log) → IsNotAtVenue s r l → IsNotAtVenue s r (e ∷ l)
  IsNotAtVenue-later r e l (inl h) = inl h
  IsNotAtVenue-later r e l (inr (client, same, asked, good)) = inr (client, same, inr asked, good)

  pub at_current_price-IsSafe :
      (r : Rec) (w : World)
      → IsSubmittable r
      → IsNotAtVenue s r w.log
      → IsSafe s w.log
      → IsSafe s (at_current_price s r w).1.log
  unfolding at_current_price
  at_current_price-IsSafe r w fit absent safe =
      on_price-IsSafe r (s.price w.log r.symbol) (record w { log = price_read r.symbol ∷ w.log })
        fit (IsNotAtVenue-later r (price_read r.symbol) w.log absent) safe

  pub hold-Keeps : (r : Rec) → Keeps s (hold s r)
  hold-Keeps r w h = release-Keeps r _ h
