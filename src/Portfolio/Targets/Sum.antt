-- ===== src/Portfolio/Targets/Sum.antt =====
-- The targets fit the portfolio.
use alpha_live.Prelude.{
  ℕ, zero, suc, ◌+◌, ◌*◌, ◌/◌, ◌≤◌, ◌<◌, ◌≡◌, refl, Bool, true, List, [], ◌∷◌, arith, ltb,
  Bool-cases, inl, inr,
}
use alpha_live.Prelude.Lists.{length, keep, take, All}
use alpha_live.Prelude.Dict.{Dict}
use alpha_live.Portfolio.Targets.{
  Candidate, TargetPosition, by_rank, select_top_n, is_priced, price_of, shares_for, position_for,
  positions_for, compute_target_positions,
}

-- What the shares of the targets cost.
abbrev pub cost : List TargetPosition → ℕ
cost [] = 0
cost (p ∷ ps) = p.target_shares * p.price + cost ps

div-mul-le : (a b : ℕ) → a / b * b ≤ a
div-mul-le a b = grind arith

div-mul-lt : (a b : ℕ) → 0 < b → a < (a / b + 1) * b
div-mul-lt a b h = grind arith

positive-mul : (a b : ℕ) → 0 < a → 0 < b → 0 < a * b
positive-mul a b h k = grind arith

cancel : (a b n : ℕ) → 0 < n → a * n ≤ b * n → a ≤ b
cancel a b n h k = grind arith

shares_for-le : (value parts price : ℕ) → shares_for value parts price * price * parts ≤ value
unfolding shares_for
shares_for-le value parts price = elim (Bool-cases (ltb 0 price)) [
  | inl some_price ↦ rw some_price (omega (arith, div-mul-le value (parts * price)))
  | inr free ↦ rw free (omega arith)
]

shares_for-lt :
    (value parts price : ℕ)
    → 0 < parts
    → 0 < price
    → value < (shares_for value parts price + 1) * price * parts
unfolding shares_for
shares_for-lt value parts price h k =
    let l = div-mul-lt value (parts * price) (positive-mul parts price h k) in ground (arith, l)

cost-le :
    (prices : Dict ℕ) (value parts : ℕ) (cs : List Candidate)
    → cost (positions_for prices value parts cs) * parts ≤ value * length cs
unfolding positions_for position_for
cost-le prices value parts [] = omega arith
cost-le prices value parts (c ∷ cs) =
    omega (arith, shares_for-le value parts (price_of prices c), cost-le prices value parts cs)

keep-All :
    (p : Candidate → Bool) (cs : List Candidate) → All (λ (c : Candidate). p c ≡ true) (keep p cs)
keep-All p [] = tt
keep-All p (c ∷ cs) = elim (Bool-cases (p c)) [
  | inl kept ↦ rw kept (kept, keep-All p cs)
  | inr dropped ↦ rw dropped (keep-All p cs)
]

length-keep : (p : Candidate → Bool) (cs : List Candidate) → length (keep p cs) ≤ length cs
length-keep p [] = omega arith
length-keep p (c ∷ cs) = ground (arith, length-keep p cs)

length-take : (n : ℕ) (cs : List Candidate) → length (take n cs) ≤ n
length-take zero cs = omega arith
length-take (suc n) [] = omega arith
length-take (suc n) (c ∷ cs) = omega (arith, length-take n cs)

-- One share more of a position would cost more than its part of the value.
abbrev pub IsFull : ℕ → TargetPosition → Type 0
IsFull value p = value < (p.target_shares + 1) * p.price * p.parts

positions_for-IsFull :
    (prices : Dict ℕ) (value parts : ℕ) (cs : List Candidate)
    → 0 < parts
    → All (λ (c : Candidate). is_priced prices c ≡ true) cs
    → All (IsFull value) (positions_for prices value parts cs)
unfolding positions_for position_for
positions_for-IsFull prices value parts [] h a = tt
positions_for-IsFull prices value parts (c ∷ cs) h (priced, a) = (
  shares_for-lt value parts (price_of prices c) h (ground arith),
  positions_for-IsFull prices value parts cs h a,
)

length-positions_for :
    (prices : Dict ℕ) (value parts : ℕ) (cs : List Candidate)
    → length (positions_for prices value parts cs) ≡ length cs
unfolding positions_for
length-positions_for prices value parts [] = refl
length-positions_for prices value parts (c ∷ cs) =
    omega (arith, length-positions_for prices value parts cs)

All-fit :
    (prices : Dict ℕ) (value : ℕ) (cs : List Candidate)
    → All (λ (c : Candidate). is_priced prices c ≡ true) cs
    → (cost (positions_for prices value (length cs) cs) ≤ value)
      × All (IsFull value) (positions_for prices value (length cs) cs)
unfolding positions_for
All-fit prices value [] a = (omega arith, tt)
All-fit prices value (c ∷ cs) a = (
  cancel (cost (positions_for prices value (suc (length cs)) (c ∷ cs))) value (suc (length cs))
      (omega arith) (cost-le prices value (suc (length cs)) (c ∷ cs)),
  positions_for-IsFull prices value (suc (length cs)) (c ∷ cs) (omega arith) a,
)

-- The targets fit the portfolio: all of them together cost at most its value, there are at most
-- `top_n`, and each is full, so that one share more would cost more than its equal part of the value.
pub targets_fit :
    (ranked : List Candidate) (prices : Dict ℕ) (value top_n : ℕ)
    → let ps = compute_target_positions ranked prices value top_n in
      (cost ps ≤ value) × (length ps ≤ top_n) × All (IsFull value) ps
unfolding compute_target_positions select_top_n
targets_fit ranked prices value top_n =
    let top = take top_n (by_rank ranked) in
    let available = keep (is_priced prices) top in
    let (fits, full) = All-fit prices value available (keep-All (is_priced prices) top) in
    (
      fits,
      omega (
        arith,
        length-positions_for prices value (length available) available,
        length-keep (is_priced prices) top,
        length-take top_n (by_rank ranked),
      ),
      full,
    )
