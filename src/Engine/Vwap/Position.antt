-- ===== src/Engine/Vwap/Position.antt =====
-- The position of the VWAP strategy is what its signals add up to.
use alpha_live.Prelude.{
  ℕ, ◌≡◌, ◌∙◌, refl, ap, sym, subst, Bool, true, false, ◌⊎◌, inl, inr, Option, none, some, List, [],
  ◌∷◌, ℤ, pos, negsuc, ◌+ℤ◌, arith, pos_part, neg_part, ◌+◌, ◌≤◌, +ℤ_assoc, Bool-cases, ◌&&◌, ltb,
  leb, ◌==◌,
}
use alpha_live.Risk.Types.{Signal, buy, sell, hold}
use alpha_live.Engine.State.{Engine}
use alpha_live.Engine.Vwap.{
  Params, Levels, Bar, is_below, is_above, emit, from_flat, from_long, from_short, by_position,
  count_bar, on_levels, vwap_signal, run,
}

-- What a signal adds to the position.
abbrev pub step_of : Signal → ℤ
step_of buy = pos 1
step_of sell = negsuc 0
step_of hold = pos 0

unfoldable pub total : List Signal → ℤ
total [] = pos 0
total (s ∷ ss) = step_of s +ℤ total ss

-- Flat, long or short.
abbrev pub IsPosition : ℤ → Type 0
IsPosition z = (z ≡ pos 0) ⊎ ((z ≡ pos 1) ⊎ (z ≡ negsuc 0))

-- The step from one position to the next.
abbrev Steps : Engine → Engine × Signal → Type 0
Steps e (e', s) = IsPosition e'.vwap_position × (e'.vwap_position ≡ e.vwap_position +ℤ step_of s)

from_flat-Steps :
    (p : Params) (l : Levels) (e : Engine) → e.vwap_position ≡ pos 0 → Steps e (from_flat p l e)
unfolding from_flat emit alpha_live.Prelude.Int.◌+ℤ◌
from_flat-Steps p l e h = elim (Bool-cases (is_below p l && ltb l.rsi p.oversold)) [
  | inl low ↦ rw (low, from_flat) (inr (inl refl), rw h refl)
  | inr high ↦ elim (Bool-cases (is_above p l && ltb p.overbought l.rsi)) [
    | inl up ↦ rw (high, up, from_flat) (inr (inr refl), rw h refl)
    | inr mid ↦ rw (high, mid, from_flat) (inl h, rw h refl)
  ]
]

from_long-Steps : (l : Levels) (e : Engine) → e.vwap_position ≡ pos 1 → Steps e (from_long l e)
unfolding from_long emit alpha_live.Prelude.Int.◌+ℤ◌
from_long-Steps l e h = ground arith

from_short-Steps : (l : Levels) (e : Engine) → e.vwap_position ≡ negsuc 0 → Steps e (from_short l e)
unfolding from_short emit alpha_live.Prelude.Int.◌+ℤ◌
from_short-Steps l e h = ground arith

by_position-Steps :
    (p : Params) (l : Levels) (e : Engine) (z : ℤ)
    → e.vwap_position ≡ z
    → IsPosition z
    → Steps e (by_position p l e z)
unfolding by_position
by_position-Steps p l e z h (inl flat) = rw (flat, by_position) (from_flat-Steps p l e (h ∙ flat))
by_position-Steps p l e z h (inr (inl long)) =
    rw (long, by_position) (from_long-Steps l e (h ∙ long))
by_position-Steps p l e z h (inr (inr short)) =
    rw (short, by_position) (from_short-Steps l e (h ∙ short))

stays : (z : ℤ) → z ≡ z +ℤ pos 0
unfolding alpha_live.Prelude.Int.◌+ℤ◌
stays z = ground arith

on_levels-Steps :
    (p : Params) (l : Option Levels) (e : Engine)
    → IsPosition e.vwap_position
    → Steps e (on_levels p l e)
unfolding on_levels
on_levels-Steps p none e h = (h, stays e.vwap_position)
on_levels-Steps p (some l) e h = elim (Bool-cases (leb e.vwap_bars_since_signal p.cooldown)) [
  | inl cooling ↦ rw (cooling, on_levels) (h, stays e.vwap_position)
  | inr free ↦ rw (free, on_levels) (by_position-Steps p l e e.vwap_position refl h)
]

count_bar-position : (b : Bool) (e : Engine) → (count_bar b e).vwap_position ≡ e.vwap_position
unfolding count_bar
count_bar-position b e = ground arith

vwap_signal-Steps :
    (p : Params) (b : Bar) (e : Engine) → IsPosition e.vwap_position → Steps e (vwap_signal p b e)
unfolding vwap_signal
vwap_signal-Steps p b e h =
    let c = count_bar b.is_new (record e { is_new_bar = b.is_new }) in
    let same : c.vwap_position ≡ e.vwap_position = count_bar-position b.is_new _ in
    let (q, t) = on_levels-Steps p b.levels c (subst IsPosition (sym same) h) in
    (q, t ∙ ap (λ z. z +ℤ step_of (on_levels p b.levels c).1) same)

-- The VWAP strategy never loses count of its position: over any bars, from a position that is flat,
-- long or short, it stays one of these, and ends where the signals that it gave lead, a BUY adding one
-- and a SELL taking one off. So it never signals a second entry on top of a first.
pub run-IsPosition :
    (p : Params) (bs : List Bar) (e : Engine)
    → IsPosition e.vwap_position
    → let (e', ss) = run p bs e in
      IsPosition e'.vwap_position × (e'.vwap_position ≡ e.vwap_position +ℤ total ss)
unfolding run total
run-IsPosition p [] e h = (h, stays e.vwap_position)
run-IsPosition p (b ∷ bs) e h =
    let (e', s) = vwap_signal p b e in
    let (q, t) = vwap_signal-Steps p b e h in
    let (q', t') = run-IsPosition p bs e' q in
    (
      q',
      t'
          ∙ ap (λ z. z +ℤ total (run p bs e').1) t
          ∙ +ℤ_assoc e.vwap_position (step_of s) (total (run p bs e').1),
    )
