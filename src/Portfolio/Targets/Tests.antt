-- ===== src/Portfolio/Targets/Tests.antt =====
-- Targets of concrete candidates.
use alpha_live.Prelude.{ℕ, ◌≤◌, ◌≡◌, refl, List, [], ◌∷◌}
use alpha_live.Prelude.Lists.{length, All}
use alpha_live.Prelude.Dict.{Dict, lookup}
use alpha_live.Portfolio.Targets.{Candidate, compute_target_positions}
use alpha_live.Portfolio.Targets.Sum.{cost, IsFull, targets_fit}

abbrev ranked : List Candidate
ranked =
    record { ticker = 1; combined_rank = 9 }
    ∷ record { ticker = 2; combined_rank = 4 }
    ∷ record { ticker = 3; combined_rank = 7 }
    ∷ []

-- Ticker 3 has no price.
abbrev prices : Dict ℕ
prices = (1, 30) ∷ (2, 70) ∷ []

-- The two best are chosen, and the one that has a price gets everything: 14 shares of 70.
targets_run :
    compute_target_positions ranked prices 1000 2
    ≡ record { ticker = 2; rank = 4; parts = 1; target_shares = 14; price = 70 } ∷ []
unfolding compute_target_positions lookup
targets_run = refl

targets_fit_example :
    let ps = compute_target_positions ranked prices 1000 3 in
    (cost ps ≤ 1000) × (length ps ≤ 3) × All (IsFull 1000) ps
targets_fit_example = targets_fit ranked prices 1000 3
