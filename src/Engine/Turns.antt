-- ===== src/Engine/Turns.antt =====
-- The strategies that hold a position or none take turns.
mod Kept
mod Replays
mod Tests
use alpha_live.Prelude.{
  ◌≡◌, ◌∙◌, refl, sym, ap, subst, if◌then◌else◌, Bool, true, false, ◌&&◌, ◌||◌, Option, none, some,
  List, ◌∷◌, ltb, leb, Bool-cases, Option-cases, inl, inr, ℕ, arith, not,
}
use alpha_live.Risk.Types.{Signal, buy, sell, hold}
use alpha_live.Engine.State.{Engine}
use alpha_live.Engine.Alternate.{Flips, Alternates, run, run-Alternates}
use alpha_live.Engine.TrendRsi as TrendRsi
use alpha_live.Engine.TrendRsi.{on_thresholds, Thresholds, trend_adaptive_rsi_signal}
use alpha_live.Engine.Combo as Combo
use alpha_live.Engine.Combo.{bollinger_rsi_combo_signal}
use alpha_live.Engine.Greenblatt as Greenblatt
use alpha_live.Engine.Greenblatt.{greenblatt_weekly_signal}
use alpha_live.Engine.Cooldown.{too_soon}
use alpha_live.Engine.Breakout as Breakout
use alpha_live.Engine.Momentum as Momentum
use alpha_live.Engine.MeanReversion as MeanReversion
use alpha_live.Engine.Turns.Kept.{trend-Flips, combo-Flips, greenblatt-Flips}
use alpha_live.Engine.Turns.Replays.{breakout-Flips, momentum-Flips, reversion-Flips}

-- The six long-only strategies take turns. Over any bars, from any state, a BUY is given only when the
-- strategy holds no position and a SELL only when it holds one, so no two BUYs come without a SELL
-- between them: the trend-adaptive RSI, the Bollinger and RSI combination and the weekly Greenblatt
-- strategy, which keep their position between checks, and the Bollinger breakout, the momentum
-- breakout and the RSI mean reversion, which replay it over the window.
pub signals_alternate :
    (trend : TrendRsi.Params) (trend_bars : List (Option TrendRsi.Levels)) (combo : Combo.Params)
    (combo_bars : List (Option Combo.Levels)) (weekly : Greenblatt.Params)
    (weekly_bars : List (Option Greenblatt.Levels)) (e : Engine) (breakout : Breakout.Params)
    (breakout_bars : List Breakout.Bar) (b : Breakout.Replay) (momentum : Momentum.Params)
    (momentum_bars : List Momentum.Bar) (m : Momentum.Replay) (reversion : MeanReversion.Params)
    (reversion_bars : List MeanReversion.Bar) (r : MeanReversion.Replay)
    → Alternates e.in_position (run (trend_adaptive_rsi_signal trend) trend_bars e).1
      × Alternates e.in_position (run (bollinger_rsi_combo_signal combo) combo_bars e).1
      × Alternates e.in_position (run (greenblatt_weekly_signal weekly) weekly_bars e).1
      × Alternates b.in_pos (run (Breakout.step breakout) breakout_bars b).1
      × Alternates m.in_pos (run (Momentum.step momentum) momentum_bars m).1
      × Alternates r.in_position (run (MeanReversion.step reversion) reversion_bars r).1
unfolding Breakout.step Momentum.step MeanReversion.step
signals_alternate trend ts combo cs weekly ws e breakout bs b momentum ms m reversion rs r =
    let long : Engine → Bool = (λ s. s.in_position) in
    (
      run-Alternates (trend_adaptive_rsi_signal trend) long (trend-Flips trend) ts e,
      run-Alternates (bollinger_rsi_combo_signal combo) long (combo-Flips combo) cs e,
      run-Alternates (greenblatt_weekly_signal weekly) long (greenblatt-Flips weekly) ws e,
      run-Alternates (Breakout.step breakout) (λ s. s.in_pos)
          (λ x s. breakout-Flips breakout x (record s { past = Breakout.is_above x ∷ s.past })) bs
          b,
      run-Alternates (Momentum.step momentum) (λ s. s.in_pos) (momentum-Flips momentum) ms m,
      run-Alternates (MeanReversion.step reversion) (λ s. s.in_position)
          (λ x. reversion-Flips reversion x x.rsi) rs r,
    )
