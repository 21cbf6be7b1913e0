-- ===== src/Orders/Placing/Classified.antt =====
-- What the classifier does with an exception, and powers of two.
use alpha_live.Prelude.{
  ℕ, zero, suc, ◌+◌, ◌*◌, ◌^◌, ◌≤◌, ◌≡◌, ◌⊎◌, inl, inr, refl, ap, ◌∙◌, Bool, true, false, ◌||◌,
  none, some, List, arith, leb, ◌==◌, if◌then◌else◌, Bool-cases,
}
use native.Mathlib.Omega.{pow_step}
use alpha_live.Utils.EnvBool.{codes, lower}
use alpha_live.Utils.Retry.{Verdict, throws}
use alpha_live.Orders.Placing.{
  BrokerException, mutation_blocked, api_error, other_value_error, other_runtime_error, other_error,
  insufficient_buying_power, market_closed, invalid_symbol, classify, classify_status, classify_422,
  is_within, back_off, give_up,
}

-- An exception that another attempt may not meet again.
abbrev pub is_retryable : BrokerException → Bool
is_retryable mutation_blocked = false
is_retryable (api_error none text) = true
is_retryable (api_error (some status) text) =
    if status == 403
    then false
    else if status == 409
    then false
    else if status == 422
    then false
    else true
is_retryable _ = true

pub pow_mono : (a b : ℕ) → a ≤ b → 2 ^ a ≤ 2 ^ b
pow_mono a zero h = ground arith
pow_mono a (suc b) h = elim (Bool-cases (leb a b)) [
  | inl le ↦ omega (arith, pow_mono a b (ground arith), pow_step 2 b)
  | inr gt ↦ let top : a ≡ suc b = ground arith in rw top (omega arith)
]

pub pow_next : (n : ℕ) → 2 ^ (n + 1) ≡ 2 * 2 ^ n
pow_next n = let next : n + 1 ≡ suc n = omega arith in ap (λ (k : ℕ). 2 ^ k) next ∙ pow_step 2 n

-- What the classifier does with an exception, by whether it is retryable.
abbrev pub Classified : ℕ → ℕ → BrokerException → Verdict BrokerException → Type 0
Classified max_retries attempt e v =
    ((x : BrokerException) × (v ≡ throws x))
    ⊎ (v ≡ give_up)
    ⊎ ((w : ℕ) × (w ≤ 2 * 2 ^ attempt)
        × (v ≡ back_off max_retries attempt w)
        × (is_retryable e ≡ true))

back-Classified :
    (max_retries attempt status : ℕ) (text : List ℕ)
    → (status == 403) ≡ false
    → (status == 409) ≡ false
    → (status == 422) ≡ false
    → (w : ℕ) × (w ≤ 2 * 2 ^ attempt)
      × (classify_status max_retries attempt status text ≡ back_off max_retries attempt w)
      × (is_retryable (api_error (some status) text) ≡ true)
unfolding classify_status
back-Classified max_retries attempt status text a b c = elim (Bool-cases (status == 429)) [
  | inl limited ↦
      (2 ^ attempt * 2, omega arith, rw (a, b, c, limited, classify_status) refl, ground arith)
  | inr other ↦ (2 ^ attempt, omega arith, rw (a, b, c, other, classify_status) refl, ground arith)
]

-- A verdict that ends the loop.
abbrev Stops : Verdict BrokerException → Type 0
Stops v = ((x : BrokerException) × (v ≡ throws x)) ⊎ (v ≡ give_up)

Stops-Classified :
    (max_retries attempt : ℕ) (e : BrokerException) (v : Verdict BrokerException)
    → Stops v
    → Classified max_retries attempt e v
Stops-Classified max_retries attempt e v (inl t) = inl t
Stops-Classified max_retries attempt e v (inr g) = inr (inl g)

text-Stops : (text : List ℕ) → Stops (classify_422 text)
unfolding classify_422
text-Stops text = elim (Bool-cases (is_within (codes "closed") (lower text))) [
  | inl closed ↦ inl (market_closed, rw (closed, classify_422) refl)
  | inr opened ↦
      elim (Bool-cases
        (is_within (codes "symbol") (lower text) || is_within (codes "unknown") (lower text))) [
          | inl symbol ↦ inl (invalid_symbol, rw (opened, symbol, classify_422) refl)
          | inr other ↦ inr (rw (opened, other, classify_422) refl)
        ]
]

status-Classified :
    (max_retries attempt status : ℕ) (text : List ℕ)
    → Classified max_retries attempt
        (api_error (some status) text)
        (classify_status max_retries attempt status text)
unfolding classify_status
status-Classified max_retries attempt status text = elim (Bool-cases (status == 403)) [
  | inl poor ↦ inl (insufficient_buying_power, rw (poor, classify_status) refl)
  | inr a ↦ elim (Bool-cases (status == 409)) [
    | inl taken ↦ inr (inl (rw (a, taken, classify_status) refl))
    | inr b ↦ elim (Bool-cases (status == 422)) [
      | inl refused ↦
          Stops-Classified max_retries attempt (api_error (some status) text) _
            (rw (a, b, refused, classify_status) (text-Stops text))
      | inr c ↦ inr (inr (back-Classified max_retries attempt status text a b c))
    ]
  ]
]

pub classify-Classified :
    (max_retries attempt : ℕ) (e : BrokerException)
    → Classified max_retries attempt e (classify max_retries attempt e)
unfolding classify classify_status classify_422
classify-Classified max_retries attempt mutation_blocked = inr (inl refl)
classify-Classified max_retries attempt (api_error none text) =
    inr (inr (2 ^ attempt, omega arith, refl, refl))
classify-Classified max_retries attempt (api_error (some status) text) =
    status-Classified max_retries attempt status text
classify-Classified max_retries attempt other_value_error =
    inr (inr (2 ^ attempt, omega arith, refl, refl))
classify-Classified max_retries attempt other_runtime_error =
    inr (inr (2 ^ attempt, omega arith, refl, refl))
classify-Classified max_retries attempt other_error =
    inr (inr (2 ^ attempt, omega arith, refl, refl))
classify-Classified max_retries attempt insufficient_buying_power =
    inr (inr (2 ^ attempt, omega arith, refl, refl))
classify-Classified max_retries attempt market_closed =
    inr (inr (2 ^ attempt, omega arith, refl, refl))
classify-Classified max_retries attempt invalid_symbol =
    inr (inr (2 ^ attempt, omega arith, refl, refl))
