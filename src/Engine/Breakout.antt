-- ===== src/Engine/Breakout.antt =====
-- `_bollinger_breakout_signal`, replayed over a window. The volume threshold is in millionths.
use alpha_live.Prelude.{
  ℕ, ◌+◌, ◌*◌, Bool, true, false, ◌&&◌, Option, none, some, List, [], ◌∷◌, ltb, leb, if◌then◌else◌,
}
use alpha_live.Prelude.Lists.{count, take}
use alpha_live.Risk.Types.{Signal, buy, sell, hold}
use alpha_live.Engine.Alternate.{run}
use alpha_live.Engine.Cooldown.{too_soon}

pub record Params : Type 0 where
  pub confirmation : ℕ
  pub volume_filter : Bool
  pub volume_threshold : ℕ
  pub cooldown : ℕ

pub record Bar : Type 0 where
  pub close : ℕ
  pub volume : ℕ
  pub bb_upper : Option ℕ
  pub bb_middle : Option ℕ
  pub volume_ma : Option ℕ

-- `past` says of the bars up to now, the newest first, whether they closed above the upper band.
pub record Replay : Type 0 where
  pub bar : ℕ
  pub past : List Bool
  pub in_pos : Bool
  pub last_sig : Option ℕ

abbrev pub start : Replay
start = record { bar = 0; past = []; in_pos = false; last_sig = none }

abbrev pub is_above : Bar → Bool
is_above b = elim b.bb_upper [ none ↦ false | some u ↦ ltb u b.close ]

abbrev pub is_true : Bool → Bool
is_true b = b

-- `rolling(confirmation).sum() >= confirmation`
unfoldable pub confirmed : ℕ → List Bool → Bool
confirmed n past = leb n (count is_true (take n past))

abbrev pub in_exit_zone : Bar → Bool
in_exit_zone b = elim b.bb_middle [ none ↦ false | some m ↦ leb (b.close * 100) (m * 101) ]

abbrev pub has_volume : Params → Bar → Bool
has_volume p b =
    if p.volume_filter
    then (elim b.volume_ma [
      | none ↦ false
      | some v ↦ leb (v * p.volume_threshold) (b.volume * 1000000)
    ])
    else true

-- The decision at a bar that is already counted in `past`.
unfoldable pub decide : Params → Bar → Replay → Replay × Signal
unfolding confirmed
decide p b r =
    if r.in_pos
    then (if in_exit_zone b
        then (record r { in_pos = false; last_sig = some r.bar }, sell)
        else (r, hold))
    else if too_soon p.cooldown r.bar r.last_sig
    then (r, hold)
    else if confirmed p.confirmation r.past && has_volume p b
    then (record r { in_pos = true; last_sig = some r.bar }, buy)
    else (r, hold)

abbrev advance : Replay × Signal → Replay × Signal
advance (r, s) = (record r { bar = r.bar + 1 }, s)

unfoldable pub step : Params → Bar → Replay → Replay × Signal
unfolding decide
step p b r = advance (decide p b (record r { past = is_above b ∷ r.past }))

unfoldable pub last_of : List Signal → Signal
last_of [] = hold
last_of (s ∷ []) = s
last_of (s ∷ t ∷ ss) = last_of (t ∷ ss)

unfoldable pub bollinger_breakout_signal : Params → List Bar → Signal
unfolding step run last_of
bollinger_breakout_signal p bars = last_of (run (step p) bars start).1
