-- ===== src/Engine/Combo.antt =====
-- `_bollinger_rsi_combo_signal`.
use alpha_live.Prelude.{
  ℕ, Bool, true, false, ◌&&◌, ◌||◌, Option, none, some, ltb, leb, if◌then◌else◌,
}
use alpha_live.Risk.Types.{Signal, buy, sell, hold}
use alpha_live.Engine.State.{Engine}

pub record Params : Type 0 where
  pub oversold : ℕ
  pub overbought : ℕ
  pub exit_at_middle : Bool

pub record Levels : Type 0 where
  pub price : ℕ
  pub bb_lower : ℕ
  pub bb_middle : ℕ
  pub rsi : ℕ

unfoldable pub on_levels : Params → Levels → Engine → Engine × Signal
on_levels p l e =
    if e.in_position
    then (if p.exit_at_middle && leb l.bb_middle l.price || ltb p.overbought l.rsi
        then (record e { in_position = false }, sell)
        else (e, hold))
    else if leb l.price l.bb_lower && ltb l.rsi p.oversold
    then (record e { in_position = true; entry_price = l.price }, buy)
    else (e, hold)

unfoldable pub bollinger_rsi_combo_signal : Params → Option Levels → Engine → Engine × Signal
unfolding on_levels
bollinger_rsi_combo_signal p none e = (e, hold)
bollinger_rsi_combo_signal p (some l) e = on_levels p l e
