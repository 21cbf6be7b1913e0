-- ===== src/Engine/Vwap/Spacing.antt =====
-- The cooldown of the VWAP strategy.
use alpha_live.Prelude.{
  ℕ, ◌+◌, ◌≤◌, ◌<◌, ◌≡◌, refl, Bool, true, false, ◌&&◌, inl, inr, Option, none, some, List, [], ◌∷◌,
  ℤ, pos, negsuc, arith, leb, ltb, leb→gt, ◌==◌, Bool-cases,
}
use alpha_live.Risk.Types.{Signal, buy, sell, hold}
use alpha_live.Engine.State.{Engine}
use alpha_live.Engine.Vwap.{
  Params, Levels, Bar, emit, is_below, is_above, from_flat, from_long, from_short, by_position,
  count_bar, on_levels, vwap_signal, run,
}

-- How many bars there have been since the last signal, with this one.
abbrev pub bars_now : Bool → ℕ → ℕ
bars_now true n = n + 1
bars_now false n = n

-- Every signal comes more than `c` new bars after the last one, which was `n` new bars ago.
abbrev pub Spaced : ℕ → ℕ → List Bar → List Signal → Type 0
Spaced c n [] ss = Unit
Spaced c n (b ∷ bs) [] = Unit
Spaced c n (b ∷ bs) (hold ∷ ss) = Spaced c (bars_now b.is_new n) bs ss
Spaced c n (b ∷ bs) (s ∷ ss) = (c < bars_now b.is_new n) × Spaced c 0 bs ss

-- A signal starts the count again, and no signal leaves it.
abbrev Counts : Engine → Engine × Signal → Type 0
Counts e (e', hold) = e'.vwap_bars_since_signal ≡ e.vwap_bars_since_signal
Counts e (e', s) = e'.vwap_bars_since_signal ≡ 0

from_flat-Counts : (p : Params) (l : Levels) (e : Engine) → Counts e (from_flat p l e)
unfolding from_flat emit
from_flat-Counts p l e = elim (Bool-cases (is_below p l && ltb l.rsi p.oversold)) [
  | inl low ↦ rw (low, from_flat) refl
  | inr high ↦ elim (Bool-cases (is_above p l && ltb p.overbought l.rsi)) [
    | inl up ↦ rw (high, up, from_flat) refl
    | inr mid ↦ rw (high, mid, from_flat) refl
  ]
]

from_long-Counts : (l : Levels) (e : Engine) → Counts e (from_long l e)
unfolding from_long emit
from_long-Counts l e = elim (Bool-cases (leb l.vwap l.price)) [
  | inl up ↦ rw (up, from_long) refl
  | inr low ↦ rw (low, from_long) refl
]

from_short-Counts : (l : Levels) (e : Engine) → Counts e (from_short l e)
unfolding from_short emit
from_short-Counts l e = elim (Bool-cases (leb l.price l.vwap)) [
  | inl low ↦ rw (low, from_short) refl
  | inr up ↦ rw (up, from_short) refl
]

by_position-Counts : (p : Params) (l : Levels) (e : Engine) (z : ℤ) → Counts e (by_position p l e z)
unfolding by_position
by_position-Counts p l e (negsuc n) = from_short-Counts l e
by_position-Counts p l e (pos n) = elim (Bool-cases (n == 0)) [
  | inl flat ↦ rw (flat, by_position) (from_flat-Counts p l e)
  | inr some_held ↦ elim (Bool-cases (n == 1)) [
    | inl long ↦ rw (some_held, long, by_position) (from_long-Counts l e)
    | inr other ↦ rw (some_held, other, by_position) (from_short-Counts l e)
  ]
]

-- What one bar does: no signal, and the count goes on; or a signal, past the cooldown.
abbrev Obeys : ℕ → Engine → Engine × Signal → Type 0
Obeys c e (e', hold) = e'.vwap_bars_since_signal ≡ e.vwap_bars_since_signal
Obeys c e (e', s) = (c < e.vwap_bars_since_signal) × (e'.vwap_bars_since_signal ≡ 0)

Counts-Obeys :
    (c : ℕ) (e : Engine) (r : Engine × Signal)
    → c < e.vwap_bars_since_signal
    → Counts e r
    → Obeys c e r
Counts-Obeys c e (e', hold) h k = k
Counts-Obeys c e (e', buy) h k = (h, k)
Counts-Obeys c e (e', sell) h k = (h, k)

on_levels-Obeys :
    (p : Params) (l : Option Levels) (e : Engine) → Obeys p.cooldown e (on_levels p l e)
unfolding on_levels
on_levels-Obeys p none e = refl
on_levels-Obeys p (some l) e = elim (Bool-cases (leb e.vwap_bars_since_signal p.cooldown)) [
  | inl cooling ↦ rw (cooling, on_levels) refl
  | inr free ↦
      rw (free, on_levels)
        (Counts-Obeys p.cooldown e (by_position p l e e.vwap_position)
          (leb→gt e.vwap_bars_since_signal p.cooldown free)
          (by_position-Counts p l e e.vwap_position))
]

count_bar-le :
    (b : Bool) (e : Engine) (n : ℕ)
    → e.vwap_bars_since_signal ≤ n
    → (count_bar b e).vwap_bars_since_signal ≤ bars_now b n
unfolding count_bar
count_bar-le true e n h = ground arith
count_bar-le false e n h = h

module _ (p : Params) where
  Spaced-next :
      (n : ℕ) (b : Bar) (bs : List Bar) (ss : List Signal) (e : Engine) (r : Engine × Signal)
      → e.vwap_bars_since_signal ≤ bars_now b.is_new n
      → Obeys p.cooldown e r
      → ((m : ℕ) → r.0.vwap_bars_since_signal ≤ m → Spaced p.cooldown m bs ss)
      → Spaced p.cooldown n (b ∷ bs) (r.1 ∷ ss)
  Spaced-next n b bs ss e (e', hold) h o rest = rest (bars_now b.is_new n) (omega (arith, h, o))
  Spaced-next n b bs ss e (e', buy) h (late, zeroed) rest =
      (omega (arith, h, late), rest 0 (omega (arith, zeroed)))
  Spaced-next n b bs ss e (e', sell) h (late, zeroed) rest =
      (omega (arith, h, late), rest 0 (omega (arith, zeroed)))

  -- Every signal of the VWAP strategy, entry or exit, comes more than `cooldown` new bars after the one
  -- before it; checks that look at the same bar again do not count. Over any bars, from any engine whose
  -- counter claims no more bars since the last signal than there were.
  pub run-Spaced :
      (n : ℕ) (bs : List Bar) (e : Engine)
      → e.vwap_bars_since_signal ≤ n
      → Spaced p.cooldown n bs (run p bs e).1
  unfolding run vwap_signal
  run-Spaced n [] e h = tt
  run-Spaced n (b ∷ bs) e h =
      let c = count_bar b.is_new (record e { is_new_bar = b.is_new }) in
      Spaced-next n b bs (run p bs (on_levels p b.levels c).0).1 c (on_levels p b.levels c)
        (count_bar-le b.is_new (record e { is_new_bar = b.is_new }) n h)
        (on_levels-Obeys p b.levels c) (λ m k. run-Spaced m bs (on_levels p b.levels c).0 k)
