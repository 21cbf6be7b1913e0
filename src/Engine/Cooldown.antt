-- ===== src/Engine/Cooldown.antt =====
-- `_apply_cooldown_stateless`, on a window of raw signals: 1 is `buy`, -1 `sell` and 0 `hold`.
pub mod Reference
mod Tests
use alpha_live.Prelude.{
  ℕ, ◌+◌, ◌-◌, Bool, true, false, ◌&&◌, Option, none, some, List, [], ◌∷◌, leb, ◌==◌, if◌then◌else◌,
}
use alpha_live.Risk.Types.{Signal, buy, sell, hold}

abbrev pub is_hold : Signal → Bool
is_hold hold = true
is_hold _ = false

abbrev pub is_buy : Signal → Bool
is_buy buy = true
is_buy _ = false

-- `i - last_signal_idx <= cooldown`; `none` is the index before the window, which is too far back.
abbrev pub too_soon : ℕ → ℕ → Option ℕ → Bool
too_soon cooldown i none = false
too_soon cooldown i (some last) = leb (i - last) cooldown

-- The loop from bar `i`.
unfoldable pub cool : ℕ → ℕ → Option ℕ → List Signal → List Signal
cool cooldown i last [] = []
cool cooldown i last (v ∷ vs) =
    if is_hold v
    then hold ∷ cool cooldown (i + 1) last vs
    else if is_buy v && too_soon cooldown i last
    then hold ∷ cool cooldown (i + 1) last vs
    else v ∷ cool cooldown (i + 1) (some i) vs

unfoldable pub apply_cooldown : ℕ → List Signal → List Signal
unfolding cool
apply_cooldown cooldown raw = if cooldown == 0 then raw else cool cooldown 0 none raw
