-- ===== src/Utils/EnvBool.antt =====
-- alphalive/utils/env_bool.py. A text is the list of its code points.
pub mod Normal
mod Tests
use Prim.Native.Char.{code}
use Prim.Native.String.{String}
use alpha_live.Prelude.{
  ℕ, ◌+◌, Bool, true, false, ◌&&◌, ◌||◌, Option, none, some, List, [], ◌∷◌, map, leb, ◌==◌,
  if◌then◌else◌, Outcome, ok, raise, value_error,
}
use alpha_live.Prelude.Lists.{any}
use mathlib.Core.List.{reverse}

abbrev pub codes : String → List ℕ
codes String.[] = []
codes (String.◌∷◌ c s) = code c ∷ codes s

-- The code points that `str.strip` removes.
unfoldable pub is_space : ℕ → Bool
is_space c =
    (leb 9 c && leb c 13)
    || (leb 28 c && leb c 32)
    || c == 133
    || c == 160
    || c == 5760
    || (leb 8192 c && leb c 8202)
    || c == 8232
    || c == 8233
    || c == 8239
    || c == 8287
    || c == 12288

unfoldable pub drop_spaces : List ℕ → List ℕ
drop_spaces [] = []
drop_spaces (c ∷ s) = if is_space c then drop_spaces s else c ∷ s

-- `s.strip()`
unfoldable pub strip : List ℕ → List ℕ
unfolding drop_spaces
strip s = reverse (drop_spaces (reverse (drop_spaces s)))

-- `str.lower` on one code point. Beyond ASCII only the Kelvin sign becomes one of the letters
-- a to z by itself, and no other code point takes part in the words below.
unfoldable pub to_lower : ℕ → ℕ
to_lower c = if leb b'A' c && leb c b'Z' then c + 32 else if c == 8490 then b'k' else c

unfoldable pub lower : List ℕ → List ℕ
unfolding to_lower
lower = map to_lower

unfoldable pub eq_text : List ℕ → List ℕ → Bool
eq_text [] [] = true
eq_text (a ∷ s) (b ∷ t) = a == b && eq_text s t
eq_text _ _ = false

abbrev pub truthy : List (List ℕ)
truthy = codes "true" ∷ codes "1" ∷ codes "yes" ∷ codes "on" ∷ []

abbrev pub falsy : List (List ℕ)
falsy = codes "false" ∷ codes "0" ∷ codes "no" ∷ codes "off" ∷ []

-- `s in words`
unfoldable pub is_among : List ℕ → List (List ℕ) → Bool
unfolding eq_text
is_among s words = any (eq_text s) words

unfoldable pub parse_normalized : List ℕ → Bool → Outcome Bool
unfolding is_among
parse_normalized [] default = ok default
parse_normalized (c ∷ s) default =
    if is_among (c ∷ s) truthy
    then ok true
    else if is_among (c ∷ s) falsy
    then ok false
    else raise value_error

unfoldable pub parse_bool_env : Option (List ℕ) → Bool → Outcome Bool
unfolding parse_normalized strip lower
parse_bool_env none default = ok default
parse_bool_env (some raw) default = parse_normalized (lower (strip raw)) default
