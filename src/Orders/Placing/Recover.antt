-- ===== src/Orders/Placing/Recover.antt =====
-- An order that reached the broker is found: a lost response does not lose the order.
use alpha_live.Prelude.{
  ℕ, zero, suc, ◌+◌, ◌*◌, ◌^◌, ◌≤◌, ◌<◌, ◌≡◌, ◌≢◌, ◌⊎◌, inl, inr, refl, ap, ◌∙◌, Bool, true, false,
  none, some, List, arith, leb, Bool-cases,
}
use alpha_live.Utils.Retry.{
  Attempt, returns, raises, returned, Run, on_exception, retry_from, retry_with_backoff,
}
use alpha_live.Orders.Placing.{
  BrokerException, mutation_blocked, api_error, other_value_error, other_runtime_error, other_error,
  insufficient_buying_power, market_closed, invalid_symbol, classify, classify_status, back_off,
  recover, settle, place_with_retry,
}

-- A failure that leaves open whether the request arrived: no answer, or a server error.
abbrev pub is_lost : BrokerException → Bool
is_lost other_error = true
is_lost (api_error none text) = true
is_lost (api_error (some status) text) = leb 500 status
is_lost _ = false

lost-back_off :
    (max_retries attempt : ℕ) (e : BrokerException)
    → is_lost e ≡ true
    → classify max_retries attempt e ≡ back_off max_retries attempt (2 ^ attempt)
unfolding classify classify_status
lost-back_off max_retries attempt mutation_blocked h = cc
lost-back_off max_retries attempt (api_error none text) h = refl
lost-back_off max_retries attempt (api_error (some status) text) h = ground arith
lost-back_off max_retries attempt other_value_error h = cc
lost-back_off max_retries attempt other_runtime_error h = cc
lost-back_off max_retries attempt other_error h = refl
lost-back_off max_retries attempt insufficient_buying_power h = cc
lost-back_off max_retries attempt market_closed h = cc
lost-back_off max_retries attempt invalid_symbol h = cc

module _ {A : Type 0} (order : A) where
  -- What an attempt can do while the broker holds the order: return it, lose the answer, or say that
  -- the client order id is taken.
  abbrev pub IsHonest : Attempt BrokerException A → Type 0
  IsHonest t =
      (t ≡ returns order)
      ⊎ ((e : BrokerException) × (t ≡ raises e) × (is_lost e ≡ true))
      ⊎ ((text : List ℕ) × (t ≡ raises (api_error (some 409) text)))

  -- An attempt whose answer is not lost.
  abbrev pub IsAnswered : Attempt BrokerException A → Type 0
  IsAnswered t = (e : BrokerException) → is_lost e ≡ true → t ≢ raises e

  module _ (order_func : ℕ → Attempt BrokerException A) (max_retries : ℕ) where
    -- While attempts are left, backing off goes on with the rest of the loop.
    on_exception-back_off :
        (attempt delay wait : ℕ) (e : BrokerException) (rest : Run BrokerException A)
        → attempt < max_retries
        → (on_exception order_func
            (classify max_retries)
            max_retries
            2
            attempt
            delay
            e
            (back_off max_retries attempt wait)
            rest).ending
          ≡ rest.ending
    unfolding on_exception back_off
    on_exception-back_off attempt delay wait e rest h = ground arith

    -- An attempt that loses its answer is not the one that is answered.
    later :
        (attempt j : ℕ) (x : BrokerException)
        → attempt ≤ j
        → IsAnswered (order_func j)
        → order_func attempt ≡ raises x
        → is_lost x ≡ true
        → attempt < j
    later attempt j x low answered failed lost = elim (Bool-cases (leb j attempt)) [
      | inl le ↦
          let same : j ≡ attempt = ground arith in
          absurd (answered x lost (ap order_func same ∙ failed))
      | inr gt ↦ ground arith
    ]

    retry_from-recovers :
        (rounds attempt delay j : ℕ)
        → attempt + rounds ≡ max_retries + 1
        → ((n : ℕ) → IsHonest (order_func n))
        → attempt ≤ j
        → j ≤ max_retries
        → IsAnswered (order_func j)
        → settle true
            (returns (some order))
            (retry_from order_func (classify max_retries) max_retries 2 rounds attempt delay).ending
          ≡ returned order
    unfolding retry_from settle
    retry_from-recovers zero attempt delay j e honest low high answered = absurd (omega arith)
    retry_from-recovers (suc rounds) attempt delay j e honest low high answered =
        elim (honest attempt) [
          | inl done ↦ rw (done, retry_from) refl
          | inr (inl (x, failed, lost)) ↦
              let more = later attempt j x low answered failed lost in
              rw (failed, retry_from, lost-back_off max_retries attempt x lost)
                (rw (on_exception-back_off attempt delay (2 ^ attempt) x _ (omega arith)) (
                  retry_from-recovers rounds (attempt + 1) (delay * 2) j (omega arith) honest
                    (omega arith) high answered))
          | inr (inr (text, taken)) ↦
              rw (taken, retry_from) (unfold on_exception classify classify_status recover in refl)
        ]

    -- A lost answer loses no order. Suppose the broker holds the order under the client order id and
    -- answers every attempt with it, with a 409, or not at all (a server error or a lost connection).
    -- If at least one attempt within the allowed ones is answered, the call returns that order.
    pub place_with_retry_recovers :
        (j : ℕ)
        → ((n : ℕ) → IsHonest (order_func n))
        → 1 ≤ j
        → j ≤ max_retries
        → IsAnswered (order_func j)
        → (place_with_retry order_func max_retries true (returns (some order))).ending
          ≡ returned order
    unfolding place_with_retry retry_with_backoff
    place_with_retry_recovers j honest low high answered =
        retry_from-recovers max_retries 1 2 j (omega arith) honest low high answered
