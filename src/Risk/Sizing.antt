-- ===== src/Risk/Sizing.antt =====
-- `calculate_position_size`. The code's `max_dollars` is the exact fraction `budget / whole`.
pub mod Cap
mod Tests
use alpha_live.Prelude.{ℕ, ◌-◌, ◌*◌, ◌/◌, Bool, ◌&&◌, ℤ, pos, pos_part, ltb, leb_ℤ, if◌then◌else◌}
use alpha_live.Risk.Types.{OrderType, market, limit, dollar, share, milli, whole}

-- `max(0.0, max_dollars - existing_position_value)`, times `whole`.
unfoldable pub headroom : ℕ → ℕ → ℕ → ℕ
headroom equity pct existing = equity * pct - existing * whole

-- `int((max_dollars / current_price) * 1000) / 1000.0`, or 0 below the minimum of one dollar.
unfoldable pub market_size : ℕ → ℕ → ℕ
market_size budget price =
    let shares = budget / (price * whole * milli) * milli in
    if ltb (shares * price) dollar then 0 else shares

-- `int(max_dollars / current_price)`
unfoldable pub limit_size : ℕ → ℕ → ℕ
limit_size budget price = budget / (price * whole * share) * share

unfoldable pub size_for : OrderType → ℕ → ℕ → ℕ
unfolding market_size limit_size
size_for market budget price = market_size budget price
size_for limit budget price = limit_size budget price

unfoldable pub calculate_position_size : OrderType → ℕ → ℤ → ℤ → ℤ → ℕ
unfolding size_for headroom
calculate_position_size order_type pct price equity existing =
    if leb_ℤ price (pos 0)
    then 0
    else if leb_ℤ equity (pos 0)
    then 0
    else if ltb 0 (pos_part existing)
        && ltb (headroom (pos_part equity) pct (pos_part existing)) (dollar * whole)
    then 0
    else size_for order_type (headroom (pos_part equity) pct (pos_part existing)) (pos_part price)
