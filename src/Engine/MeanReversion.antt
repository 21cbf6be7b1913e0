-- ===== src/Engine/MeanReversion.antt =====
-- `_rsi_mean_reversion_signal`, replayed over a window. Multiples are in millionths; stops are on the
-- scale of Engine/Momentum.antt.
use alpha_live.Prelude.{
  ℕ, ◌+◌, ◌-◌, Bool, true, false, ◌&&◌, ◌||◌, not, Option, none, some, List, ℤ, pos, leb_ℤ, ltb,
  leb, if◌then◌else◌,
}
use alpha_live.Risk.Types.{Signal, buy, sell, hold}
use alpha_live.Engine.Alternate.{run}
use alpha_live.Engine.Cooldown.{too_soon}
use alpha_live.Engine.Breakout.{last_of}
use alpha_live.Engine.Momentum.{scaled, stop_below}

-- The flags say that the filter is on and its column is there.
pub record Params : Type 0 where
  pub oversold : ℕ
  pub overbought : ℕ
  pub confirms_upper : Bool
  pub confirms_lower : Bool
  pub filters_adx : Bool
  pub adx_threshold : ℕ
  pub stop_loss_atr_mult : ℕ
  pub max_holding_days : ℕ
  pub cooldown : ℕ

pub record Bar : Type 0 where
  pub close : ℕ
  pub rsi : Option ℕ
  pub bb_upper : Option ℕ
  pub bb_lower : Option ℕ
  pub adx : Option ℕ
  pub atr : Option ℕ

pub record Replay : Type 0 where
  pub bar : ℕ
  pub in_position : Bool
  pub entry_bar : ℕ
  pub stop_loss : ℤ
  pub last_signal_bar : Option ℕ

abbrev pub start : Replay
start = record {
  bar = 0;
  in_position = false;
  entry_bar = 0;
  stop_loss = pos 0;
  last_signal_bar = none;
}

-- `close >= bb_upper`, and `close > bb_lower`.
abbrev pub touches_upper : Bar → Bool
touches_upper b = elim b.bb_upper [ none ↦ false | some u ↦ leb u b.close ]

abbrev pub is_over_lower : Bar → Bool
is_over_lower b = elim b.bb_lower [ none ↦ false | some l ↦ ltb l b.close ]

-- A missing ADX does not pass.
abbrev pub is_trendless : Params → Bar → Bool
is_trendless p b = elim b.adx [ none ↦ false | some a ↦ leb a p.adx_threshold ]

unfoldable pub is_exit : Params → Bar → ℕ → Replay → Bool
is_exit p b rsi r =
    ltb p.overbought rsi && (not p.confirms_upper || touches_upper b)
    || leb_ℤ (pos (scaled b.close)) r.stop_loss
    || leb p.max_holding_days (r.bar - r.entry_bar)

unfoldable pub is_entry : Params → Bar → ℕ → Bool
is_entry p b rsi =
    ltb rsi p.oversold
    && not (p.confirms_lower && is_over_lower b)
    && (not p.filters_adx || is_trendless p b)

unfoldable pub enter : Params → Bar → Replay → Replay
unfolding stop_below
enter p b r = record r {
  in_position = true;
  entry_bar = r.bar;
  stop_loss = stop_below b.close p.stop_loss_atr_mult b.atr;
  last_signal_bar = some r.bar;
}

unfoldable pub on_rsi : Params → Bar → ℕ → Replay → Replay × Signal
unfolding is_exit is_entry enter
on_rsi p b rsi r =
    if r.in_position
    then (if is_exit p b rsi r
        then (record r { in_position = false; last_signal_bar = some r.bar }, sell)
        else (r, hold))
    else if too_soon p.cooldown r.bar r.last_signal_bar
    then (r, hold)
    else if is_entry p b rsi
    then (enter p b r, buy)
    else (r, hold)

unfoldable pub decide : Params → Bar → Option ℕ → Replay → Replay × Signal
unfolding on_rsi
decide p b none r = (r, hold)
decide p b (some rsi) r = on_rsi p b rsi r

abbrev advance : Replay × Signal → Replay × Signal
advance (r, s) = (record r { bar = r.bar + 1 }, s)

-- A bar without an RSI is passed over.
unfoldable pub step : Params → Bar → Replay → Replay × Signal
unfolding decide
step p b r = advance (decide p b b.rsi r)

-- For a window whose last RSI is there.
unfoldable pub rsi_mean_reversion_signal : Params → List Bar → Signal
unfolding step run last_of
rsi_mean_reversion_signal p bars = last_of (run (step p) bars start).1
