-- ===== src/Engine/Cooldown/Reference.antt =====
-- The cooldown as a rule on what has been let through, with no index and no last signal.
use alpha_live.Prelude.{
  ℕ, zero, suc, ◌-◌, ◌<◌, ◌≡◌, Bool, false, ◌&&◌, ◌||◌, not, Option, none, some, List, [], ◌∷◌, leb,
  if◌then◌else◌,
}
use alpha_live.Risk.Types.{Signal, hold}
use alpha_live.Engine.Cooldown.{is_hold, is_buy}

-- One of the last `n` bars let a signal through; the newest bar comes first.
abbrev pub recent : ℕ → List Signal → Bool
recent zero past = false
recent (suc n) [] = false
recent (suc n) (v ∷ past) = not (is_hold v) || recent n past

-- What becomes of a raw signal: only a BUY is held back, by a signal in the last `cooldown` bars.
abbrev pub let_through : ℕ → List Signal → Signal → Signal
let_through cooldown past v = if is_buy v && recent cooldown past then hold else v

-- Every bar, after the bars that are past.
unfoldable pub rule : ℕ → List Signal → List Signal → List Signal
rule cooldown past [] = []
rule cooldown past (v ∷ vs) = let w = let_through cooldown past v in w ∷ rule cooldown (w ∷ past) vs

-- The index of the last signal before bar `i` fits the past.
abbrev Fits : ℕ → Option ℕ → List Signal → Type 0
Fits i none past = (n : ℕ) → recent n past ≡ false
Fits i (some last) past = (last < i) × ((n : ℕ) → recent n past ≡ leb (i - last) n)
