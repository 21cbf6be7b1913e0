-- ===== src/Engine/Vwap.antt =====
-- `_vwap_reversion_signal`. The deviation threshold is in millionths, and a price is compared with the
-- band exactly. What a bar brings is given: its close, its VWAP and deviation, its RSI.
pub mod Position
pub mod Spacing
mod Tests
use alpha_live.Prelude.{
  ℕ, ◌+◌, ◌*◌, Bool, true, false, ◌&&◌, Option, none, some, List, [], ◌∷◌, ℤ, pos, negsuc, leb, ltb,
  ◌==◌, if◌then◌else◌,
}
use alpha_live.Risk.Types.{Signal, buy, sell, hold}
use alpha_live.Engine.State.{Engine, far}

pub record Params : Type 0 where
  pub deviation : ℕ
  pub oversold : ℕ
  pub overbought : ℕ
  pub cooldown : ℕ

-- The indicators of a bar whose warm-up is complete.
pub record Levels : Type 0 where
  pub price : ℕ
  pub vwap : ℕ
  pub std : ℕ
  pub rsi : ℕ

-- A bar as it is checked: whether it is a new one, and its levels, `none` during the warm-up.
pub record Bar : Type 0 where
  pub is_new : Bool
  pub levels : Option Levels

abbrev pub million : ℕ
million = 1000000

-- `price < vwap - deviation * std`, and `price > vwap + deviation * std`.
abbrev pub is_below : Params → Levels → Bool
is_below p l = ltb (l.price * million + p.deviation * l.std) (l.vwap * million)

abbrev pub is_above : Params → Levels → Bool
is_above p l = ltb (l.vwap * million + p.deviation * l.std) (l.price * million)

-- `_emit`, with the position that the signal leads to.
unfoldable pub emit : ℤ → Bool → Signal → Engine → Engine × Signal
emit position in_position signal e = (
  record e { vwap_position = position; in_position = in_position; vwap_bars_since_signal = 0 },
  signal,
)

unfoldable pub from_flat : Params → Levels → Engine → Engine × Signal
unfolding emit
from_flat p l e =
    if is_below p l && ltb l.rsi p.oversold
    then emit (pos 1) true buy e
    else if is_above p l && ltb p.overbought l.rsi
    then emit (negsuc 0) true sell e
    else (e, hold)

unfoldable pub from_long : Levels → Engine → Engine × Signal
unfolding emit
from_long l e = if leb l.vwap l.price then emit (pos 0) false sell e else (e, hold)

unfoldable pub from_short : Levels → Engine → Engine × Signal
unfolding emit
from_short l e = if leb l.price l.vwap then emit (pos 0) false buy e else (e, hold)

-- The position 0, 1, or anything else, which is treated as short.
unfoldable pub by_position : Params → Levels → Engine → ℤ → Engine × Signal
unfolding from_flat from_long from_short
by_position p l e (pos n) =
    if n == 0 then from_flat p l e else if n == 1 then from_long l e else from_short l e
by_position p l e (negsuc n) = from_short l e

-- One more bar since the last signal.
unfoldable pub count_bar : Bool → Engine → Engine
count_bar is_new e =
    if is_new && ltb e.vwap_bars_since_signal far
    then record e { vwap_bars_since_signal = e.vwap_bars_since_signal + 1 }
    else e

unfoldable pub on_levels : Params → Option Levels → Engine → Engine × Signal
unfolding by_position
on_levels p none e = (e, hold)
on_levels p (some l) e =
    if leb e.vwap_bars_since_signal p.cooldown then (e, hold) else by_position p l e e.vwap_position

unfoldable pub vwap_signal : Params → Bar → Engine → Engine × Signal
unfolding count_bar on_levels
vwap_signal p b e = on_levels p b.levels (count_bar b.is_new (record e { is_new_bar = b.is_new }))

-- A run over bars: the engine at the end, and the signal of each bar.
unfoldable pub run : Params → List Bar → Engine → Engine × List Signal
unfolding vwap_signal
run p [] e = (e, [])
run p (b ∷ bs) e =
    let (e', s) = vwap_signal p b e in let (e'', rest) = run p bs e' in (e'', s ∷ rest)
