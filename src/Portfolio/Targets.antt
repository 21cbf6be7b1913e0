-- ===== src/Portfolio/Targets.antt =====
-- alphalive/portfolio/target_weights.py. A weight is one part of `parts`; the dollars of a target are
-- the exact fraction of the portfolio value, before they are rounded down to whole shares. The
-- portfolio value is in units of 10⁻⁶ dollars and a price in the same units a share.
pub mod Sum
mod Tests
use alpha_live.Prelude.{
  ℕ, ◌*◌, ◌/◌, Bool, true, false, Option, none, some, List, [], ◌∷◌, ltb, leb, if◌then◌else◌, map,
  get_or,
}
use alpha_live.Prelude.Lists.{length, keep, take}
use alpha_live.Prelude.Dict.{Dict, lookup}

pub record Candidate : Type 0 where
  pub ticker : ℕ
  pub combined_rank : ℕ

-- `target_weight` is `1 / parts`.
pub record TargetPosition : Type 0 where
  pub ticker : ℕ
  pub rank : ℕ
  pub parts : ℕ
  pub target_shares : ℕ
  pub price : ℕ

-- A stable sort by rank.
unfoldable pub place : Candidate → List Candidate → List Candidate
place c [] = c ∷ []
place c (d ∷ ds) =
    let rest = place c ds in if ltb d.combined_rank c.combined_rank then d ∷ rest else c ∷ d ∷ ds

unfoldable pub by_rank : List Candidate → List Candidate
unfolding place
by_rank [] = []
by_rank (c ∷ cs) = place c (by_rank cs)

unfoldable pub select_top_n : List Candidate → ℕ → List Candidate
unfolding by_rank
select_top_n ranked top_n = take top_n (by_rank ranked)

-- `prices.get(ticker, 0)`
abbrev pub price_of : Dict ℕ → Candidate → ℕ
price_of prices c = get_or (lookup c.ticker prices) 0

abbrev pub is_priced : Dict ℕ → Candidate → Bool
is_priced prices c = ltb 0 (price_of prices c)

-- `int(target_dollars / price) if price > 0 else 0`
unfoldable pub shares_for : ℕ → ℕ → ℕ → ℕ
shares_for value parts price = if ltb 0 price then value / (parts * price) else 0

unfoldable pub position_for : Dict ℕ → ℕ → ℕ → Candidate → TargetPosition
unfolding shares_for
position_for prices value parts c = record {
  ticker = c.ticker;
  rank = c.combined_rank;
  parts = parts;
  target_shares = shares_for value parts (price_of prices c);
  price = price_of prices c;
}

unfoldable pub positions_for : Dict ℕ → ℕ → ℕ → List Candidate → List TargetPosition
unfolding position_for
positions_for prices value parts [] = []
positions_for prices value parts (c ∷ cs) =
    position_for prices value parts c ∷ positions_for prices value parts cs

unfoldable pub compute_target_positions : List Candidate → Dict ℕ → ℕ → ℕ → List TargetPosition
unfolding select_top_n positions_for
compute_target_positions ranked prices value top_n =
    let available = keep (is_priced prices) (select_top_n ranked top_n) in
    positions_for prices value (length available) available
