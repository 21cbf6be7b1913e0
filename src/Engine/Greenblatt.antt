-- ===== src/Engine/Greenblatt.antt =====
-- `_greenblatt_weekly_signal`. Fractions are in millionths. What the window shows of the closes since a
-- timestamp, the highest and when it was, is part of the bar, and so is what the minimum-hold checker
-- answers, `none` if there is no checker.
use alpha_live.Prelude.{
  ℕ, ◌-◌, ◌*◌, Bool, true, false, ◌&&◌, ◌||◌, Option, none, some, ltb, leb, if◌then◌else◌,
}
use alpha_live.Risk.Types.{Signal, buy, sell, hold}
use alpha_live.Engine.State.{Engine}

pub record Params : Type 0 where
  pub oversold : ℕ
  pub overbought : ℕ
  pub trailing_stop_fraction : ℕ
  pub exit_rsi : Bool
  pub exit_sma : Bool

pub record Levels : Type 0 where
  pub timestamp : ℕ
  pub price : ℕ
  pub rsi : ℕ
  pub fast : ℕ
  pub slow : ℕ
  pub fast_prev : Option ℕ
  pub slow_prev : Option ℕ
  pub highest_since : ℕ → Option (ℕ × ℕ)
  pub min_hold_met : Option Bool

abbrev pub whole_fraction : ℕ
whole_fraction = 1000000

-- `a >= b`, where either may be NaN.
abbrev pub reaches : Option ℕ → Option ℕ → Bool
reaches none b = false
reaches (some a) none = false
reaches (some a) (some b) = leb b a

unfoldable pub cross_down : Levels → Bool
cross_down l = ltb l.fast l.slow && reaches l.fast_prev l.slow_prev

unfoldable pub cross_up : Levels → Bool
cross_up l = ltb l.slow l.fast && reaches l.slow_prev l.fast_prev

-- The peak as the present history shows it.
unfoldable pub anchored_at : Option (ℕ × ℕ) → Engine → Engine
anchored_at none e = e
anchored_at (some (high, at)) e = record e { peak_price = high; peak_bar_ts = some at }

unfoldable pub re_anchor : Levels → Engine → Engine
unfolding anchored_at
re_anchor l e = elim e.peak_bar_ts [
  | none ↦ e
  | some ts ↦ if e.in_position then anchored_at (l.highest_since ts) e else e
]

unfoldable pub raise_peak : Levels → Engine → Engine
raise_peak l e =
    if e.in_position && ltb e.peak_price l.price
    then record e { peak_price = l.price; peak_bar_ts = some l.timestamp }
    else e

abbrev pub closed : Engine → Engine
closed e = record e { in_position = false; entry_price = 0; peak_price = 0 }

abbrev pub opened : Levels → Engine → Engine
opened l e = record e {
  in_position = true;
  entry_price = l.price;
  peak_price = l.price;
  peak_bar_ts = some l.timestamp;
}

-- `price_now <= self._peak_price * (1 - trailing_stop_fraction)`, for a fraction up to 1.
unfoldable pub is_stopped : Params → Levels → Engine → Bool
is_stopped p l e =
    leb (l.price * whole_fraction) (e.peak_price * (whole_fraction - p.trailing_stop_fraction))

-- The optional exits.
unfoldable pub wants_exit : Params → Levels → Bool
unfolding cross_down
wants_exit p l = p.exit_rsi && ltb p.overbought l.rsi || p.exit_sma && cross_down l

abbrev pub is_held_back : Option Bool → Bool
is_held_back none = false
is_held_back (some true) = false
is_held_back (some false) = true

unfoldable pub when_long : Params → Levels → Engine → Engine × Signal
unfolding is_stopped wants_exit
when_long p l e =
    if is_stopped p l e
    then (closed e, sell)
    else if wants_exit p l
    then (if is_held_back l.min_hold_met then (e, hold) else (closed e, sell))
    else (e, hold)

unfoldable pub when_flat : Params → Levels → Engine → Engine × Signal
unfolding cross_up
when_flat p l e = if ltb l.rsi p.oversold || cross_up l then (opened l e, buy) else (e, hold)

unfoldable pub on_levels : Params → Levels → Engine → Engine × Signal
unfolding when_long when_flat re_anchor raise_peak
on_levels p l e =
    let a = raise_peak l (re_anchor l e) in
    if a.in_position then when_long p l a else when_flat p l a

unfoldable pub greenblatt_weekly_signal : Params → Option Levels → Engine → Engine × Signal
unfolding on_levels
greenblatt_weekly_signal p none e = (e, hold)
greenblatt_weekly_signal p (some l) e = on_levels p l e
