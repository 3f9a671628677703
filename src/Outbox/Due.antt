-- ===== src/Outbox/Due.antt =====
-- The tests of order_retry.py on time and price: what has expired, what is due, and whether a price
-- is acceptable for a retry.
use binance.Base.{
  ℕ, ◌+◌, ◌-◌, ◌*◌, Bool, true, false, ◌&&◌, ◌||◌, Option, none, some, max, ltb, leb, ◌==◌,
  or_default, if◌then◌else◌,
}
use binance.Outbox.Types.{Side, buy, sell, bad_side, Rec, Config, million, is_accepted, is_awaiting}
use binance.Outbox.Guards.{is_non_failure_deferral, is_possibly_submitted}

-- `now - ttl_started > TTL`, or the attempts are used up
unfoldable pub is_expired : Config → ℕ → Rec → Bool
is_expired c now r =
    let ttl_started = or_default r.ttl_started_ts r.created_ts in
    if is_accepted r.lifecycle || is_awaiting r.lifecycle || is_possibly_submitted r
    then false
    else if r.created_ts == 0 || ttl_started == 0
    then true
    else if ltb now (or_default r.claim_until 0)
    then false
    else if is_non_failure_deferral r.last_failure_reason
    then false
    else ltb (ttl_started + c.ttl) now || ltb 0 c.max_attempts && leb c.max_attempts r.attempts

due_base : Rec → ℕ
due_base r =
    if is_accepted r.lifecycle || is_awaiting r.lifecycle
    then max (max r.last_status_ts (or_default r.accepted_ts 0)) r.created_ts
    else max r.last_attempt_ts r.created_ts

unfoldable pub is_due : Config → ℕ → Rec → Bool
unfolding due_base
is_due c now r = leb (or_default r.claim_until 0) now && leb (due_base r + c.interval) now

unfoldable pub price_ok : Side → ℕ → ℕ → ℕ → Bool
price_ok sell price req tol = leb (req * (million - tol)) (price * million)
price_ok buy price req tol = leb (price * million) (req * (million + tol))
price_ok bad_side price req tol = false

unfoldable pub price_ok_against : ℕ → Side → ℕ → Option ℕ → Bool
unfolding price_ok
price_ok_against tol side price none = false
price_ok_against tol side price (some req) =
    if price == 0 || req == 0 then false else price_ok side price req tol

-- Prices are ticks; 0 is what the source rejects as not positive.
unfoldable pub price_gate_ok : Config → Rec → Option ℕ → Bool
unfolding price_ok_against
price_gate_ok c r none = false
price_gate_ok c r (some price) = price_ok_against c.price_tol r.side price r.requested_price
