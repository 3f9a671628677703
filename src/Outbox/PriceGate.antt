-- ===== src/Outbox/PriceGate.antt =====
-- The price gate accepts every price that is at least as good as one it accepts.
use binance.Base.{ℕ, ◌≤◌, ◌<◌, ◌≡◌, true, Option, none, some, arith}
use binance.Outbox.Types.{Side, buy, sell, bad_side, Rec, Config}
use binance.Outbox.Due.{price_gate_ok, price_ok_against, price_ok}

-- At least as good for the side: lower for a buyer, higher for a seller.
abbrev pub IsNoWorse : Side → ℕ → ℕ → Type 0
IsNoWorse buy price old = price ≤ old
IsNoWorse sell price old = old ≤ price
IsNoWorse bad_side price old = Unit

price_ok_mono :
    (side : Side) (price old req tol : ℕ)
    → IsNoWorse side price old
    → price_ok side old req tol ≡ true
    → price_ok side price req tol ≡ true
unfolding price_ok
price_ok_mono buy price old req tol better h = ground arith
price_ok_mono sell price old req tol better h = ground arith
price_ok_mono bad_side price old req tol better h = h

price_ok_against_mono :
    (tol : ℕ) (side : Side) (price old : ℕ) (req : Option ℕ)
    → 0 < price
    → IsNoWorse side price old
    → price_ok_against tol side old req ≡ true
    → price_ok_against tol side price req ≡ true
unfolding price_ok_against
price_ok_against_mono tol side price old none positive better h = h
price_ok_against_mono tol side price old (some req) positive better h =
    ground (arith, price_ok_mono side price old req tol better)

-- Where the gate lets a retry through at one price, it does so at every positive price that is no worse
-- for the side of the order.
pub price_gate_ok_mono :
    (c : Config) (r : Rec) (price old : ℕ)
    → 0 < price
    → IsNoWorse r.side price old
    → price_gate_ok c r (some old) ≡ true
    → price_gate_ok c r (some price) ≡ true
unfolding price_gate_ok
price_gate_ok_mono c r price old positive better h =
    price_ok_against_mono c.price_tol r.side price old r.requested_price positive better h
