-- ===== src/Utils/EnvBool/Normal.antt =====
-- Padding and letter case do not change how a flag is read, and only a recognised word is read.
use mathlib.Core.List.{reverse, reverse-append, reverse-cons, map-append}
use alpha_live.Prelude.{
  ℕ, ◌≡◌, refl, ap, Bool, true, some, List, [], ◌∷◌, ◌++◌, map, inl, inr, Bool-cases, arith,
}
use alpha_live.Prelude.Lists.{All}
use alpha_live.Utils.EnvBool.{is_space, drop_spaces, strip, lower, to_lower, parse_bool_env}

abbrev pub IsBlank : List ℕ → Type 0
IsBlank = All (λ c. is_space c ≡ true)

drop_spaces-append : (w s : List ℕ) → IsBlank w → drop_spaces (w ++ s) ≡ drop_spaces s
unfolding drop_spaces
drop_spaces-append [] s h = refl
drop_spaces-append (c ∷ w) s h = rw h.0 (drop_spaces-append w s h.1)

drop_spaces-blank : (w : List ℕ) → IsBlank w → drop_spaces w ≡ []
unfolding drop_spaces
drop_spaces-blank [] h = refl
drop_spaces-blank (c ∷ w) h = rw h.0 (drop_spaces-blank w h.1)

All-append : (v w : List ℕ) → IsBlank v → IsBlank w → IsBlank (v ++ w)
All-append [] w h k = k
All-append (c ∷ v) w h k = (h.0, All-append v w h.1 k)

reverse-IsBlank : (w : List ℕ) → IsBlank w → IsBlank (reverse w)
reverse-IsBlank [] h = tt
reverse-IsBlank (c ∷ w) h =
    rw (reverse-append (c ∷ []) w)
      (All-append (reverse w) (c ∷ []) (reverse-IsBlank w h.1) (h.0, tt))

drop_spaces-reverse :
    (s w : List ℕ)
    → IsBlank w
    → drop_spaces (reverse (drop_spaces (s ++ w))) ≡ drop_spaces (reverse (drop_spaces s))
unfolding drop_spaces
drop_spaces-reverse [] w h = rw (drop_spaces-blank w h)
drop_spaces-reverse (c ∷ s) w h = elim (Bool-cases (is_space c)) [
  | inl space ↦ rw space (drop_spaces-reverse s w h)
  | inr solid ↦ rw solid (
      rw (reverse-append (c ∷ s) w)
        (drop_spaces-append (reverse w) (reverse (c ∷ s)) (reverse-IsBlank w h)))
]

pub strip-pad : (v s w : List ℕ) → IsBlank v → IsBlank w → strip (v ++ (s ++ w)) ≡ strip s
unfolding strip
strip-pad v s w hv hw =
    rw (drop_spaces-append v (s ++ w) hv) (ap reverse (drop_spaces-reverse s w hw))

-- White space before and after the value of a flag changes nothing: the padded value parses to
-- what the value itself parses to, errors included.
pub parse_bool_env-pad :
    (v s w : List ℕ) (default : Bool)
    → IsBlank v
    → IsBlank w
    → parse_bool_env (some (v ++ (s ++ w))) default ≡ parse_bool_env (some s) default
unfolding parse_bool_env
parse_bool_env-pad v s w default hv hw = rw (strip-pad v s w hv hw)

-- Lowering a code point neither makes nor removes white space.
is_space-to_lower : (c : ℕ) → is_space (to_lower c) ≡ is_space c
unfolding is_space to_lower
is_space-to_lower c = ground arith

lower-drop_spaces : (s : List ℕ) → lower (drop_spaces s) ≡ drop_spaces (lower s)
unfolding lower drop_spaces
lower-drop_spaces [] = refl
lower-drop_spaces (c ∷ s) = elim (Bool-cases (is_space c)) [
  | inl space ↦ rw (is_space-to_lower c, space) (lower-drop_spaces s)
  | inr solid ↦ rw (is_space-to_lower c, solid) refl
]

lower-reverse : (s : List ℕ) → lower (reverse s) ≡ reverse (lower s)
unfolding lower
lower-reverse [] = refl
lower-reverse (c ∷ s) =
    rw (reverse-cons c s, reverse-cons (to_lower c) (map to_lower s), map-append)
      (ap (λ t. t ++ to_lower c ∷ []) (lower-reverse s))

pub lower-strip : (s : List ℕ) → lower (strip s) ≡ strip (lower s)
unfolding strip
lower-strip s = simp (lower-reverse, lower-drop_spaces)

-- The case of letters changes nothing: two values that are the same in lower case parse alike.
pub parse_bool_env-fold :
    (s t : List ℕ) (default : Bool)
    → lower s ≡ lower t
    → parse_bool_env (some s) default ≡ parse_bool_env (some t) default
unfolding parse_bool_env
parse_bool_env-fold s t default h = rw (lower-strip s, lower-strip t, h)
