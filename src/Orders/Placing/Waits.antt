-- ===== src/Orders/Placing/Waits.antt =====
-- How long placing an order waits, and what it tries again.
use alpha_live.Prelude.{
  ℕ, zero, suc, ◌+◌, ◌*◌, ◌^◌, ◌≤◌, ◌<◌, ◌≡◌, inl, inr, refl, ap, ◌∙◌, Bool, true, Option, List, [],
  ◌∷◌, arith, leb, Bool-cases,
}
use alpha_live.Utils.Retry.{
  Attempt, raises, Verdict, returned, raised, Run, on_exception, retry_from, retry_with_backoff,
}
use alpha_live.Utils.Retry.Bounds.{Attempt-cases}
use alpha_live.Orders.Placing.{BrokerException, classify, back_off, place_with_retry}
use alpha_live.Orders.Placing.Classified.{
  is_retryable, pow_mono, pow_next, Classified, classify-Classified,
}

abbrev pub sum_waits : List ℕ → ℕ
sum_waits [] = 0
sum_waits (w ∷ ws) = w + sum_waits ws

module _ {A : Type 0} (order_func : ℕ → Attempt BrokerException A) (max_retries : ℕ) where
  -- What is shown of the rest of the loop: its waits, and that it retries retryable failures only.
  abbrev Patient : ℕ → Run BrokerException A → Type 0
  Patient attempt r =
      (sum_waits r.waits + 2 * 2 ^ attempt ≤ 2 * 2 ^ max_retries)
      × ((j : ℕ)
          → attempt ≤ j
          → j + 1 < attempt + r.calls
          → (e : BrokerException) × (order_func j ≡ raises e) × (is_retryable e ≡ true))

  one_call-Patient :
      (attempt : ℕ) (r : Run BrokerException A)
      → attempt ≤ max_retries
      → r.calls ≡ 1
      → r.waits ≡ []
      → Patient attempt r
  one_call-Patient attempt r le c w = (
    rw w (omega (arith, pow_mono attempt max_retries le)),
    λ j low high. absurd (omega (arith, c)),
  )

  after_wait-Patient :
      (attempt w : ℕ) (e : BrokerException) (r rest : Run BrokerException A)
      → order_func attempt ≡ raises e
      → is_retryable e ≡ true
      → w ≤ 2 * 2 ^ attempt
      → r.calls ≡ suc rest.calls
      → r.waits ≡ w ∷ rest.waits
      → Patient (attempt + 1) rest
      → Patient attempt r
  after_wait-Patient attempt w e r rest failed again few c ws (sum, earlier) = (
    rw ws (omega (arith, sum, few, pow_next attempt)),
    λ j low high. elim (Bool-cases (leb j attempt)) [
      | inl here ↦ let same : j ≡ attempt = ground arith in (e, ap order_func same ∙ failed, again)
      | inr later ↦ earlier j (ground arith) (omega (arith, high, c))
    ],
  )

  on_exception-Patient :
      (attempt delay : ℕ) (e : BrokerException) (v : Verdict BrokerException)
      (rest : Run BrokerException A)
      → attempt ≤ max_retries
      → order_func attempt ≡ raises e
      → Classified max_retries attempt e v
      → (attempt < max_retries → Patient (attempt + 1) rest)
      → Patient attempt
          (on_exception order_func (classify max_retries) max_retries 2 attempt delay e v rest)
  unfolding on_exception back_off
  on_exception-Patient attempt delay e v rest le failed k h = elim k [
    | inl (x, thrown) ↦ rw thrown (
        one_call-Patient attempt (record { ending = raised x; calls = 1; waits = [] }) le refl refl)
    | inr (inl stop) ↦ rw stop (
        one_call-Patient attempt (record { ending = raised e; calls = 1; waits = [] }) le refl refl)
    | inr (inr (w, few, back, again)) ↦ elim (Bool-cases (leb max_retries attempt)) [
      | inl last ↦
          rw (back, last)
            (one_call-Patient attempt (record { ending = raised e; calls = 1; waits = [] }) le refl
              refl)
      | inr more ↦
          rw (back, more)
            (after_wait-Patient attempt w e
              (record { ending = rest.ending; calls = suc rest.calls; waits = w ∷ rest.waits }) rest
              failed again few refl refl (h (ground arith)))
    ]
  ]

  retry_from-Patient :
      (rounds attempt delay : ℕ)
      → 0 < rounds
      → attempt + rounds ≡ max_retries + 1
      → Patient attempt
          (retry_from order_func (classify max_retries) max_retries 2 rounds attempt delay)
  unfolding retry_from
  retry_from-Patient zero attempt delay h e = absurd (omega arith)
  retry_from-Patient (suc rounds) attempt delay h e = elim (Attempt-cases (order_func attempt)) [
    | inl (a, done) ↦
        rw (done, retry_from)
          (one_call-Patient attempt (record { ending = returned a; calls = 1; waits = [] })
            (omega arith) refl refl)
    | inr (x, failed) ↦
        rw (failed, retry_from)
          (on_exception-Patient attempt delay x _ _ (omega arith) failed
            (classify-Classified max_retries attempt x)
            (λ more.
              retry_from-Patient rounds (attempt + 1) (delay * 2) (omega arith) (omega arith)))
  ]

  -- Placing an order is patient within bounds: with at least one attempt allowed, all waits together
  -- stay below `2 * 2 ^ max_retries` seconds by at least 4, and a call is made again only after a
  -- failure that is retryable, never after a rejection (403, 422), a conflict (409) or a refusal of
  -- the read-only transport.
  pub place_with_retry_patient :
      (has_id : Bool) (existing : Attempt BrokerException (Option A))
      → 1 ≤ max_retries
      → let p = place_with_retry order_func max_retries has_id existing in
        (sum_waits p.waits + 4 ≤ 2 * 2 ^ max_retries)
        × ((j : ℕ)
            → 1 ≤ j
            → j < p.calls
            → (e : BrokerException) × (order_func j ≡ raises e) × (is_retryable e ≡ true))
  unfolding place_with_retry retry_with_backoff
  place_with_retry_patient has_id existing h =
      let (sum, earlier) = retry_from-Patient max_retries 1 2 h (omega arith) in
      (sum, λ j low high. earlier j low (omega arith))
