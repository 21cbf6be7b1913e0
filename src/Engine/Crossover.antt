-- ===== src/Engine/Crossover.antt =====
-- `_ma_crossover_signal`. The minimum separation is in units of 10⁻⁶ percent.
use alpha_live.Prelude.{
  ℕ, ◌*◌, Bool, true, false, ◌&&◌, Option, none, some, List, [], ◌∷◌, pos, ◌-ℤ◌, abs, ltb, leb,
  ◌==◌, if◌then◌else◌,
}
use alpha_live.Risk.Types.{Signal, buy, sell, hold, whole}
use alpha_live.Engine.Cooldown.{apply_cooldown}
use alpha_live.Engine.Breakout.{last_of}

-- `confirms_volume` says that the confirmation is on and its column is there.
pub record Params : Type 0 where
  pub confirms_volume : Bool
  pub min_separation_pct : ℕ
  pub cooldown : ℕ

pub record Row : Type 0 where
  pub fast : Option ℕ
  pub slow : Option ℕ
  pub volume : ℕ
  pub volume_ma : Option ℕ

-- Both averages, if both are there.
abbrev pub averages : Row → Option (ℕ × ℕ)
averages r = elim r.fast [
  | none ↦ none
  | some f ↦ elim r.slow [ none ↦ none | some s ↦ some (f, s) ]
]

-- `abs(f - s) / s * 100 >= min_separation_pct`; 0 / 0 is NaN, and NaN counts as 0.
unfoldable pub separated : ℕ → Option (ℕ × ℕ) → Bool
separated min none = min == 0
separated min (some (f, s)) =
    if f == 0 && s == 0 then min == 0 else leb (min * s) (abs (pos f -ℤ pos s) * whole)

abbrev pub has_volume : Params → Row → Bool
has_volume p r =
    if p.confirms_volume
    then (elim r.volume_ma [ none ↦ false | some v ↦ ltb v r.volume ])
    else true

-- The crossing between two bars.
abbrev pub crossing : Option (ℕ × ℕ) → Option (ℕ × ℕ) → Signal
crossing none now = hold
crossing (some before) none = hold
crossing (some (pf, ps)) (some (f, s)) =
    if leb pf ps && ltb s f then buy else if leb ps pf && ltb f s then sell else hold

unfoldable pub raw_at : Params → Option (ℕ × ℕ) → Row → Signal
unfolding separated
raw_at p before r =
    if separated p.min_separation_pct before && has_volume p r
    then crossing before (averages r)
    else hold

-- The raw signals, after the averages of the bar before.
unfoldable pub raw_signals : Params → Option (ℕ × ℕ) → List Row → List Signal
unfolding raw_at
raw_signals p before [] = []
raw_signals p before (r ∷ rs) = raw_at p before r ∷ raw_signals p (averages r) rs

-- For a window whose last averages are there.
unfoldable pub ma_crossover_signal : Params → List Row → Signal
unfolding raw_signals last_of apply_cooldown
ma_crossover_signal p rows = last_of (apply_cooldown p.cooldown (raw_signals p none rows))
