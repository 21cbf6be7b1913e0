-- ===== src/Engine/Alternate.antt =====
-- Machines that hold a position or none: a run over bars, and signals that take turns.
use alpha_live.Prelude.{◌≡◌, subst, Bool, true, false, List, [], ◌∷◌}
use alpha_live.Risk.Types.{Signal, buy, sell, hold}

-- What a signal says of the position before and after: a BUY opens one, a SELL closes one.
abbrev pub Flips : Bool → Bool → Signal → Type 0
Flips before after buy = (before ≡ false) × (after ≡ true)
Flips before after sell = (before ≡ true) × (after ≡ false)
Flips before after hold = after ≡ before

-- From a position or none, each BUY comes when there is none, and each SELL when there is one.
abbrev pub Alternates : Bool → List Signal → Type 0
Alternates b [] = Unit
Alternates b (buy ∷ ss) = (b ≡ false) × Alternates true ss
Alternates b (sell ∷ ss) = (b ≡ true) × Alternates false ss
Alternates b (hold ∷ ss) = Alternates b ss

pub Flips-Alternates :
    (before after : Bool) (s : Signal) (ss : List Signal)
    → Flips before after s
    → Alternates after ss
    → Alternates before (s ∷ ss)
Flips-Alternates before after buy ss (b, a) h = (b, subst (λ x. Alternates x ss) a h)
Flips-Alternates before after sell ss (b, a) h = (b, subst (λ x. Alternates x ss) a h)
Flips-Alternates before after hold ss f h = subst (λ x. Alternates x ss) f h

module _ {S B : Type 0} (step : B → S → S × Signal) where
  -- The state at the end, and the signal of each bar.
  unfoldable pub run : List B → S → S × List Signal
  run [] s = (s, [])
  run (b ∷ bs) s = let (t, x) = step b s in let (u, xs) = run bs t in (u, x ∷ xs)

  pub run-Alternates :
      (long : S → Bool)
      → ((b : B) (s : S) → Flips (long s) (long (step b s).0) (step b s).1)
      → (bs : List B) (s : S) → Alternates (long s) (run bs s).1
  unfolding run
  run-Alternates long flips [] s = tt
  run-Alternates long flips (b ∷ bs) s =
      Flips-Alternates (long s) (long (step b s).0) (step b s).1 (run bs (step b s).0).1 (flips b s)
        (run-Alternates long flips bs (step b s).0)
