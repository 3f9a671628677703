-- ===== src/Worker/Safety.antt =====
-- The log of a pass: an order is placed only where it may be.
use binance.Base.{
  ℕ, ◌+◌, ◌≡◌, Bool, true, false, ◌||◌, ◌⊎◌, Option, none, some, List, [], ◌∷◌, Has, if◌then◌else◌,
}
use binance.Base.Stateful
use binance.Outbox.Types.{Rec, is_accepted, is_awaiting, ClientId}
use binance.Outbox.Due.{price_gate_ok}
use binance.Outbox.File.{Change}
use binance.Outbox.Dispatch.{IsDispatched}
use binance.Worker.Effects.{
  not_found, looked_up, status_read, price_read, placed, Log, Setting, World, Run, ◌>>=◌, ◌>>◌,
  for_each, guarded, provider_name, commit,
}
use binance.Worker.Reconcile.{requires_reconciliation, not_found_is_reliable}

-- Neither accepted nor waiting for a cancellation.
abbrev pub IsSubmittable : Rec → Type 0
IsSubmittable r = (is_accepted r.lifecycle || is_awaiting r.lifecycle) ≡ false

-- The record was never doubtful, or the market has denied its client order ID, reliably.
abbrev pub IsNotAtVenue : Setting → Rec → Log → Type 0
IsNotAtVenue s r l =
    (requires_reconciliation r ≡ false)
    ⊎ ((client : ClientId) × (r.client_order_id ≡ some client)
        × Has (looked_up client not_found) l
        × (not_found_is_reliable s r (provider_name s r) ≡ true))

-- What holds when a record is placed at a price, with `l` the log until then.
pub record IsJustified (s : Setting) (snapshot r : Rec) (queue : List Rec) (price : ℕ) (l : Log)
    : Type 0 where
  pub submittable : IsSubmittable snapshot
  pub not_at_venue : IsNotAtVenue s snapshot l
  pub acceptable : price_gate_ok s.config snapshot (some price) ≡ true
  pub dispatched : IsDispatched snapshot r (s.now + s.config.claim_lease)
  pub stored : Has r queue

abbrev pub IsSafe : Setting → Log → Type 0
IsSafe s [] = Unit
IsSafe s (placed snapshot r queue price ∷ l) = IsJustified s snapshot r queue price l × IsSafe s l
IsSafe s (looked_up c a ∷ l) = IsSafe s l
IsSafe s (status_read id ∷ l) = IsSafe s l
IsSafe s (price_read symbol ∷ l) = IsSafe s l

module _ (s : Setting) where
  -- A run that starts from a safe log ends with one, whether it returns or raises.
  abbrev pub Keeps : {A : Type 0} → Run A → Type 0
  Keeps m = (w : World) → IsSafe s w.log → IsSafe s (m w).1.log

  pub bind-Keeps :
      {A B : Type 0} (m : Run A) (f : A → Run B)
      → Keeps m
      → ((a : A) → Keeps (f a))
      → Keeps (m >>= f)
  bind-Keeps m f = Stateful.bind-Keeps (λ (w : World). IsSafe s w.log) m f

  pub guarded-Keeps : {A : Type 0} (op : List Rec → Option (Change A)) → Keeps (guarded s op)
  guarded-Keeps {A} op w h = by_change (s.others w.log w.queue) (op (s.others w.log w.queue))
    where
      by_change : (rs : List Rec) (c : Option (Change A)) → IsSafe s (commit s w rs c).1.log
      by_change rs none = h
      by_change rs (some (c, a)) = h

  pub if-Keeps :
      {A : Type 0} (b : Bool) (m k : Run A) → Keeps m → Keeps k → Keeps (if b then m else k)
  if-Keeps true m k first second = first
  if-Keeps false m k first second = second

  pub for_each-Keeps :
      (f : Rec → Run (Unit {0})) (rs : List Rec) → ((r : Rec) → Keeps (f r)) → Keeps (for_each f rs)
  for_each-Keeps f rs = Stateful.for_each-Keeps (λ (w : World). IsSafe s w.log) f rs

  pub then-Keeps : {A B : Type 0} (m : Run A) (k : Run B) → Keeps m → Keeps k → Keeps (m >> k)
  then-Keeps m k first second = bind-Keeps m (λ _. k) first (λ _. second)
