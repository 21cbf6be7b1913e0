-- ===== src/Engine/Momentum.antt =====
-- `_momentum_breakout_signal`, replayed over a window. Multiples are in millionths, and a stop is kept
-- 50 million times, so that the two hundredths of a missing ATR are exact.
use alpha_live.Prelude.{
  ℕ, ◌+◌, ◌*◌, Bool, true, false, ◌&&◌, ◌||◌, Option, none, some, List, [], ◌∷◌, ℤ, pos, ◌-ℤ◌,
  leb_ℤ, ltb, leb, if◌then◌else◌, zero, suc,
}
use alpha_live.Prelude.Lists.{length}
use alpha_live.Risk.Types.{Signal, buy, sell, hold}
use alpha_live.Engine.Alternate.{run}
use alpha_live.Engine.Cooldown.{too_soon}
use alpha_live.Engine.Breakout.{last_of}

pub record Params : Type 0 where
  pub lookback : ℕ
  pub surge : ℕ
  pub rsi_min : ℕ
  pub stop_loss_atr_mult : ℕ
  pub trailing_stop_atr_mult : ℕ
  pub cooldown : ℕ

pub record Bar : Type 0 where
  pub close : ℕ
  pub volume : ℕ
  pub atr : Option ℕ
  pub rsi : Option ℕ
  pub high : Option ℕ
  pub low : Option ℕ
  pub volume_ma : Option ℕ

pub record Replay : Type 0 where
  pub bar : ℕ
  pub in_pos : Bool
  pub stop : ℤ
  pub trail : ℤ
  pub peak : ℕ
  pub last_sig : Option ℕ

abbrev pub start : ℕ → Replay
start lookback = record {
  bar = lookback;
  in_pos = false;
  stop = pos 0;
  trail = pos 0;
  peak = 0;
  last_sig = none;
}

-- A price on the scale of the stops.
abbrev pub scaled : ℕ → ℕ
scaled price = price * 50000000

-- `price - mult * atr`, where a missing ATR is two hundredths of the price.
unfoldable pub stop_below : ℕ → ℕ → Option ℕ → ℤ
stop_below price mult none = pos (scaled price) -ℤ pos (mult * price)
stop_below price mult (some a) = pos (scaled price) -ℤ pos (mult * (50 * a))

-- A new peak raises the trailing stop.
unfoldable pub ratchet : Params → Bar → Replay → Replay
unfolding stop_below
ratchet p b r =
    if ltb r.peak b.close
    then record r { peak = b.close; trail = stop_below b.close p.trailing_stop_atr_mult b.atr }
    else r

abbrev pub breaks_down : Bar → Bool
breaks_down b = elim b.low [ none ↦ false | some l ↦ ltb b.close l ]

unfoldable pub is_exit : Bar → Replay → Bool
is_exit b r =
    leb_ℤ (pos (scaled b.close)) r.stop || leb_ℤ (pos (scaled b.close)) r.trail || breaks_down b

abbrev pub breaks_out : Bar → Bool
breaks_out b = elim b.high [ none ↦ false | some h ↦ ltb h b.close ]

abbrev pub surges : Params → Bar → Bool
surges p b = elim b.volume_ma [
  | none ↦ false
  | some v ↦ ltb 0 v && ltb (v * p.surge) (b.volume * 1000000)
]

abbrev pub is_strong : Params → Bar → Bool
is_strong p b = elim b.rsi [ none ↦ false | some x ↦ ltb p.rsi_min x ]

unfoldable pub enter : Params → Bar → Replay → Replay
unfolding stop_below
enter p b r = record r {
  in_pos = true;
  stop = stop_below b.close p.stop_loss_atr_mult b.atr;
  trail = stop_below b.close p.trailing_stop_atr_mult b.atr;
  peak = b.close;
  last_sig = some r.bar;
}

abbrev pub leave : Replay → Replay
leave r = record r { in_pos = false; last_sig = some r.bar }

unfoldable pub when_long : Params → Bar → Replay → Replay × Signal
unfolding ratchet is_exit
when_long p b r = let q = ratchet p b r in if is_exit b q then (leave q, sell) else (q, hold)

unfoldable pub when_flat : Params → Bar → Replay → Replay × Signal
unfolding enter
when_flat p b r =
    if too_soon p.cooldown r.bar r.last_sig
    then (r, hold)
    else if breaks_out b && surges p b && is_strong p b
    then (enter p b r, buy)
    else (r, hold)

unfoldable pub decide : Params → Bar → Replay → Replay × Signal
unfolding when_long when_flat
decide p b r = if r.in_pos then when_long p b r else when_flat p b r

abbrev advance : Replay × Signal → Replay × Signal
advance (r, s) = (record r { bar = r.bar + 1 }, s)

unfoldable pub step : Params → Bar → Replay → Replay × Signal
unfolding decide
step p b r = advance (decide p b r)

unfoldable pub drop : ℕ → List Bar → List Bar
drop zero bs = bs
drop (suc n) [] = []
drop (suc n) (b ∷ bs) = drop n bs

unfoldable pub momentum_breakout_signal : Params → List Bar → Signal
unfolding step run last_of drop
momentum_breakout_signal p bars =
    if leb (length bars) p.lookback
    then hold
    else last_of (run (step p) (drop p.lookback bars) (start p.lookback)).1
