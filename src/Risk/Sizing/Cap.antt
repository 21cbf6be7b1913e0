-- ===== src/Risk/Sizing/Cap.antt =====
-- The cumulative cap: what a BUY adds never takes the ticker past its share of the equity.
use alpha_live.Prelude.{ℕ, ◌+◌, ◌-◌, ◌*◌, ◌/◌, ◌≤◌, ◌<◌, ◌≡◌, ◌⊎◌, inl, inr, ℤ, pos_part, arith}
use alpha_live.Risk.Types.{OrderType, market, limit, dollar, share, milli, whole}
use alpha_live.Risk.Sizing.{headroom, market_size, limit_size, size_for, calculate_position_size}

div-mul-le : (a b : ℕ) → a / b * b ≤ a
div-mul-le a b = grind arith

-- Rounding down to whole granules, in value.
floor-le : (budget price g : ℕ) → budget / (price * whole * g) * g * (price * whole) ≤ budget
floor-le budget price g = omega (arith, div-mul-le budget (price * whole * g))

-- A market size is 0 or the rounded one, and then it is worth a dollar.
market_size-cases :
    (budget price : ℕ)
    → (market_size budget price ≡ 0)
      ⊎ ((market_size budget price ≡ budget / (price * whole * milli) * milli)
          × (dollar ≤ budget / (price * whole * milli) * milli * price))
unfolding market_size
market_size-cases budget price = ground arith

market_size-le : (budget price : ℕ) → market_size budget price * (price * whole) ≤ budget
market_size-le budget price = elim (market_size-cases budget price) [
  | inl e ↦ rw e (omega arith)
  | inr (e, d) ↦ rw e (floor-le budget price milli)
]

limit_size-le : (budget price : ℕ) → limit_size budget price * (price * whole) ≤ budget
unfolding limit_size
limit_size-le budget price = ground (arith, div-mul-le budget (price * whole * share))

lt-div-mul : (a b : ℕ) → 0 < b → a < (a / b + 1) * b
lt-div-mul a b h = grind arith

size_for-le :
    (t : OrderType) (budget price : ℕ) → size_for t budget price * (price * whole) ≤ budget
unfolding size_for
size_for-le market budget price = market_size-le budget price
size_for-le limit budget price = limit_size-le budget price

-- A size above 0 says that the guards were passed, and where it was computed.
sized :
    (t : OrderType) (pct : ℕ) (price equity existing : ℤ)
    → 0 < calculate_position_size t pct price equity existing
    → (calculate_position_size t pct price equity existing
        ≡ size_for t (headroom (pos_part equity) pct (pos_part existing)) (pos_part price))
      × (0 < pos_part price)
      × (pos_part existing * whole ≤ pos_part equity * pct)
unfolding calculate_position_size headroom
sized t pct price equity existing h = ground arith

cap_arith : (s v e : ℕ) → s ≤ e - v → v ≤ e → s + v ≤ e
cap_arith s v e h k = omega arith

-- Sizing respects the cumulative cap: the value of the shares to buy and of the position already
-- held are together at most the ticker's percentage of the equity, whenever anything is bought.
pub size_within_cap :
    (t : OrderType) (pct : ℕ) (price equity existing : ℤ)
    → 0 < calculate_position_size t pct price equity existing
    → calculate_position_size t pct price equity existing * (pos_part price * whole)
        + pos_part existing * whole
      ≤ pos_part equity * pct
unfolding headroom
size_within_cap t pct price equity existing h =
    let (e, p, v) = sized t pct price equity existing h in
    cap_arith _ (pos_part existing * whole) (pos_part equity * pct)
      (rw e (size_for-le t (headroom (pos_part equity) pct (pos_part existing)) (pos_part price))) v

-- The smallest step between two sizes: a thousandth of a share for a market order, else a share.
abbrev pub granule : OrderType → ℕ
granule market = milli
granule limit = share

lt-floor :
    (budget price g : ℕ)
    → 0 < price * whole * g
    → budget < (budget / (price * whole * g) * g + g) * (price * whole)
lt-floor budget price g h = omega (arith, lt-div-mul budget (price * whole * g) h)

market_size-next :
    (budget price : ℕ)
    → 0 < price
    → 0 < market_size budget price
    → budget < (market_size budget price + milli) * (price * whole)
market_size-next budget price h k = elim (market_size-cases budget price) [
  | inl e ↦ absurd (omega (arith, e))
  | inr (e, d) ↦ rw e (lt-floor budget price milli (omega arith))
]

limit_size-next :
    (budget price : ℕ) → 0 < price → budget < (limit_size budget price + share) * (price * whole)
unfolding limit_size
limit_size-next budget price h = ground (arith, lt-div-mul budget (price * whole * share))

size_for-next :
    (t : OrderType) (budget price : ℕ)
    → 0 < price
    → 0 < size_for t budget price
    → budget < (size_for t budget price + granule t) * (price * whole)
unfolding size_for
size_for-next market budget price h k = market_size-next budget price h k
size_for-next limit budget price h k = limit_size-next budget price h

-- Sizing wastes nothing: whenever anything is bought, one more step of size (a thousandth of a
-- share for a market order, a whole share for a limit order) would exceed the cumulative cap.
pub size_maximal :
    (t : OrderType) (pct : ℕ) (price equity existing : ℤ)
    → 0 < calculate_position_size t pct price equity existing
    → pos_part equity * pct
      < (calculate_position_size t pct price equity existing + granule t) * (pos_part price * whole)
        + pos_part existing * whole
unfolding headroom
size_maximal t pct price equity existing h =
    let (e, p, v) = sized t pct price equity existing h in
    let k =
      size_for-next t (headroom (pos_part equity) pct (pos_part existing)) (pos_part price) p
        (rw e at h) in
    rw e (omega (arith, k, v))

market_size-min :
    (budget price : ℕ) → 0 < market_size budget price → dollar ≤ market_size budget price * price
market_size-min budget price h = elim (market_size-cases budget price) [
  | inl e ↦ absurd (omega (arith, e))
  | inr (e, d) ↦ rw e d
]

-- A market order that is sent is worth at least one dollar, the broker's minimum.
pub market_size_notional :
    (pct : ℕ) (price equity existing : ℤ)
    → 0 < calculate_position_size market pct price equity existing
    → dollar ≤ calculate_position_size market pct price equity existing * pos_part price
unfolding size_for
market_size_notional pct price equity existing h =
    let (e, p, v) = sized market pct price equity existing h in
    rw e (
      market_size-min (headroom (pos_part equity) pct (pos_part existing)) (pos_part price)
        (rw e at h))
