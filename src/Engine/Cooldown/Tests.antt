-- ===== src/Engine/Cooldown/Tests.antt =====
-- Runs of the cooldown.
use alpha_live.Prelude.{◌≡◌, refl, [], ◌∷◌}
use alpha_live.Risk.Types.{buy, sell, hold}
use alpha_live.Engine.Cooldown.{apply_cooldown}

-- The second BUY is held back, and the SELL is not.
cooldown_run :
    apply_cooldown 2 (buy ∷ buy ∷ sell ∷ hold ∷ hold ∷ buy ∷ [])
    ≡ buy ∷ hold ∷ sell ∷ hold ∷ hold ∷ buy ∷ []
unfolding apply_cooldown
cooldown_run = refl
