-- ===== src/Engine/Turns/Tests.antt =====
-- Runs of the strategies on a few bars.
use alpha_live.Prelude.{ℕ, ◌≡◌, refl, true, false, Option, none, some, List, [], ◌∷◌, pos}
use alpha_live.Risk.Types.{buy, sell, hold}
use alpha_live.Engine.State.{Engine, new_engine}
use alpha_live.Engine.Alternate.{Alternates, run}
use alpha_live.Engine.TrendRsi as TrendRsi
use alpha_live.Engine.TrendRsi.{trend_adaptive_rsi_signal}
use alpha_live.Engine.Combo as Combo
use alpha_live.Engine.Combo.{bollinger_rsi_combo_signal}
use alpha_live.Engine.Greenblatt as Greenblatt
use alpha_live.Engine.Greenblatt.{greenblatt_weekly_signal}
use alpha_live.Engine.Breakout as Breakout
use alpha_live.Engine.Momentum as Momentum
use alpha_live.Engine.MeanReversion as MeanReversion
use alpha_live.Engine.Turns.{signals_alternate}

abbrev fresh : Engine
fresh = new_engine false

-- Buys on a dip below 40 in the uptrend, and sells above 80.
abbrev trend : TrendRsi.Params
trend = record {
  uptrend = record { buy_below = 40; sell_above = 80 };
  downtrend = record { buy_below = 20; sell_above = 50 };
  range = record { buy_below = 30; sell_above = 70 };
}

abbrev trend_bar : ℕ → Option TrendRsi.Levels
trend_bar rsi = some (record { price = 120; sma = 110; sma_prev = some 100; rsi = rsi })

abbrev trend_bars : List (Option TrendRsi.Levels)
trend_bars = none ∷ trend_bar 35 ∷ trend_bar 75 ∷ trend_bar 85 ∷ []

rsi_test :
    (run (trend_adaptive_rsi_signal trend) trend_bars fresh).1 ≡ hold ∷ buy ∷ hold ∷ sell ∷ []
unfolding run trend_adaptive_rsi_signal new_engine
rsi_test = refl

abbrev combo : Combo.Params
combo = record { oversold = 30; overbought = 70; exit_at_middle = true }

abbrev combo_bar : ℕ → Option Combo.Levels
combo_bar price = some (record { price = price; bb_lower = 90; bb_middle = 100; rsi = 25 })

abbrev combo_bars : List (Option Combo.Levels)
combo_bars = combo_bar 95 ∷ combo_bar 89 ∷ combo_bar 95 ∷ combo_bar 100 ∷ []

combination_test :
    (run (bollinger_rsi_combo_signal combo) combo_bars fresh).1 ≡ hold ∷ buy ∷ hold ∷ sell ∷ []
unfolding run bollinger_rsi_combo_signal new_engine
combination_test = refl

-- A trailing stop of a tenth, and no other exit.
abbrev weekly : Greenblatt.Params
weekly = record {
  oversold = 30;
  overbought = 70;
  trailing_stop_fraction = 100000;
  exit_rsi = false;
  exit_sma = false;
}

abbrev weekly_bar : ℕ → ℕ → ℕ → Option Greenblatt.Levels
weekly_bar timestamp price rsi = some (record {
  timestamp = timestamp;
  price = price;
  rsi = rsi;
  fast = 100;
  slow = 100;
  fast_prev = some 100;
  slow_prev = some 100;
  highest_since = λ ts. none;
  min_hold_met = some false;
})

-- The peak is 200, so 181 is kept and 180 is sold.
abbrev weekly_bars : List (Option Greenblatt.Levels)
weekly_bars =
    weekly_bar 1 150 25 ∷ weekly_bar 2 200 60 ∷ weekly_bar 3 181 50 ∷ weekly_bar 4 180 50 ∷ []

trailing_test :
    (run (greenblatt_weekly_signal weekly) weekly_bars fresh).1 ≡ buy ∷ hold ∷ hold ∷ sell ∷ []
unfolding run greenblatt_weekly_signal new_engine
trailing_test = refl

abbrev breakout : Breakout.Params
breakout = record {
  confirmation = 2;
  volume_filter = true;
  volume_threshold = 1500000;
  cooldown = 1;
}

abbrev breakout_bar : ℕ → Breakout.Bar
breakout_bar close = record {
  close = close;
  volume = 300;
  bb_upper = some 110;
  bb_middle = some 100;
  volume_ma = some 200;
}

abbrev breakout_bars : List Breakout.Bar
breakout_bars = breakout_bar 111 ∷ breakout_bar 112 ∷ breakout_bar 105 ∷ breakout_bar 101 ∷ []

breakout_run : Breakout.bollinger_breakout_signal breakout breakout_bars ≡ sell
unfolding Breakout.bollinger_breakout_signal
breakout_run = refl

abbrev momentum : Momentum.Params
momentum = record {
  lookback = 1;
  surge = 1500000;
  rsi_min = 50;
  stop_loss_atr_mult = 2000000;
  trailing_stop_atr_mult = 3000000;
  cooldown = 1;
}

abbrev momentum_bar : ℕ → Momentum.Bar
momentum_bar close = record {
  close = close;
  volume = 400;
  atr = some 5;
  rsi = some 60;
  high = some 100;
  low = some 50;
  volume_ma = some 200;
}

abbrev momentum_bars : List Momentum.Bar
momentum_bars = momentum_bar 100 ∷ momentum_bar 110 ∷ momentum_bar 130 ∷ momentum_bar 115 ∷ []

-- From the peak of 130 the trailing stop is at 115.
momentum_run : Momentum.momentum_breakout_signal momentum momentum_bars ≡ sell
unfolding Momentum.momentum_breakout_signal alpha_live.Prelude.Int.◌-ℤ◌
momentum_run = refl

abbrev reversion : MeanReversion.Params
reversion = record {
  oversold = 30;
  overbought = 70;
  confirms_upper = false;
  confirms_lower = false;
  filters_adx = false;
  adx_threshold = 25;
  stop_loss_atr_mult = 2000000;
  max_holding_days = 2;
  cooldown = 1;
}

abbrev reversion_bar : ℕ → MeanReversion.Bar
reversion_bar rsi = record {
  close = 100;
  rsi = some rsi;
  bb_upper = none;
  bb_lower = none;
  adx = none;
  atr = some 5;
}

abbrev reversion_bars : List MeanReversion.Bar
reversion_bars = reversion_bar 25 ∷ reversion_bar 50 ∷ reversion_bar 50 ∷ []

-- Held for two bars.
reversion_run : MeanReversion.rsi_mean_reversion_signal reversion reversion_bars ≡ sell
unfolding MeanReversion.rsi_mean_reversion_signal alpha_live.Prelude.Int.◌-ℤ◌
reversion_run = refl

signals_alternate_example :
    Alternates false (run (trend_adaptive_rsi_signal trend) trend_bars fresh).1
    × Alternates false (run (bollinger_rsi_combo_signal combo) combo_bars fresh).1
    × Alternates false (run (greenblatt_weekly_signal weekly) weekly_bars fresh).1
    × Alternates false (run (Breakout.step breakout) breakout_bars Breakout.start).1
    × Alternates false (run (Momentum.step momentum) momentum_bars (Momentum.start 1)).1
    × Alternates false (run (MeanReversion.step reversion) reversion_bars MeanReversion.start).1
unfolding new_engine
signals_alternate_example =
    signals_alternate trend trend_bars combo combo_bars weekly weekly_bars fresh breakout
      breakout_bars Breakout.start momentum momentum_bars (Momentum.start 1) reversion
      reversion_bars MeanReversion.start
