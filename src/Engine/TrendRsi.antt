-- ===== src/Engine/TrendRsi.antt =====
-- `_trend_adaptive_rsi_signal`: thresholds that follow the regime. `none` for a bar stands for a warm-up
-- that is not complete, or columns that are missing.
use alpha_live.Prelude.{
  ℕ, ◌*◌, Bool, true, false, ◌&&◌, not, Option, none, some, ltb, if◌then◌else◌,
}
use alpha_live.Risk.Types.{Signal, buy, sell, hold}
use alpha_live.Engine.State.{Engine}

pub record Thresholds : Type 0 where
  pub buy_below : ℕ
  pub sell_above : ℕ

pub record Params : Type 0 where
  pub uptrend : Thresholds
  pub downtrend : Thresholds
  pub range : Thresholds

-- `sma_prev` is the average `trend_lookback` bars before.
pub record Levels : Type 0 where
  pub price : ℕ
  pub sma : ℕ
  pub sma_prev : Option ℕ
  pub rsi : ℕ

-- `sma_slope > 0.005`, and `sma_slope < -0.005`; a slope from 0 or from NaN counts as 0.
unfoldable pub rises : ℕ → Option ℕ → Bool
rises sma none = false
rises sma (some prev) = ltb 0 prev && ltb (prev * 1005) (sma * 1000)

unfoldable pub falls : ℕ → Option ℕ → Bool
falls sma none = false
falls sma (some prev) = ltb 0 prev && ltb (sma * 1000) (prev * 995)

unfoldable pub thresholds : Params → Levels → Thresholds
unfolding rises falls
thresholds p l =
    if ltb l.sma l.price && rises l.sma l.sma_prev
    then p.uptrend
    else if not (ltb l.sma l.price) && falls l.sma l.sma_prev
    then p.downtrend
    else p.range

unfoldable pub on_thresholds : Thresholds → ℕ → Engine → Engine × Signal
on_thresholds t rsi e =
    if e.in_position
    then (if ltb t.sell_above rsi then (record e { in_position = false }, sell) else (e, hold))
    else if ltb rsi t.buy_below
    then (record e { in_position = true }, buy)
    else (e, hold)

unfoldable pub trend_adaptive_rsi_signal : Params → Option Levels → Engine → Engine × Signal
unfolding thresholds on_thresholds
trend_adaptive_rsi_signal p none e = (e, hold)
trend_adaptive_rsi_signal p (some l) e = on_thresholds (thresholds p l) l.rsi e
