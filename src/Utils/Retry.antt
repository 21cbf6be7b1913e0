-- ===== src/Utils/Retry.antt =====
-- alphalive/utils/retry.py. What each call of `func` does is given by its attempt number, and the
-- classifier sees that number too, as the classifiers that count their calls do. Delays are in
-- seconds.
pub mod Bounds
mod Tests
use alpha_live.Prelude.{
  ℕ, zero, suc, ◌+◌, ◌*◌, Bool, true, false, ◌||◌, Option, List, [], ◌∷◌, leb, get_or,
  if◌then◌else◌,
}

-- `RetryDecision`
pub data RetryDecision : Type 0 where
  retry fatal : RetryDecision

-- `RetryOutcome`, without its log message.
pub record RetryOutcome : Type 0 where
  pub decision : RetryDecision
  pub delay_override : Option ℕ

-- What one call of `func` does.
pub data Attempt {ℓ} (E A : Type ℓ) : Type ℓ where
  returns : A → Attempt E A
  raises : E → Attempt E A

-- What a classifier does with an exception: it answers, or raises another one.
pub data Verdict {ℓ} (E : Type ℓ) : Type ℓ where
  answers : RetryOutcome → Verdict E
  throws : E → Verdict E

pub data Ending {ℓ} (E A : Type ℓ) : Type ℓ where
  returned : A → Ending E A
  raised : E → Ending E A
  assertion_error : Ending E A

-- How a run ended, the number of calls of `func`, and the waits between them.
pub record Run {ℓ} (E A : Type ℓ) : Type ℓ where
  pub ending : Ending E A
  pub calls : ℕ
  pub waits : List ℕ

abbrev pub is_fatal : RetryDecision → Bool
is_fatal fatal = true
is_fatal retry = false

module _ {ℓ} {E A : Type ℓ} (func : ℕ → Attempt E A) (classify : ℕ → E → Verdict E)
    (max_retries multiplier : ℕ) where
  abbrev one_call : Ending E A → Run E A
  one_call e = record { ending = e; calls = 1; waits = [] }

  abbrev after_wait : ℕ → Run E A → Run E A
  after_wait w r = record { ending = r.ending; calls = suc r.calls; waits = w ∷ r.waits }

  -- The `except` branch; `rest` is the loop from the next attempt on.
  unfoldable pub on_exception : ℕ → ℕ → E → Verdict E → Run E A → Run E A
  on_exception attempt delay e (throws e') rest = one_call (raised e')
  on_exception attempt delay e (answers o) rest =
      if is_fatal o.decision || leb max_retries attempt
      then one_call (raised e)
      else after_wait (get_or o.delay_override delay) rest

  -- The loop, from an attempt on, with the rounds left.
  unfoldable pub retry_from : ℕ → ℕ → ℕ → Run E A
  unfolding on_exception
  retry_from zero attempt delay = record { ending = assertion_error; calls = 0; waits = [] }
  retry_from (suc rounds) attempt delay =
      let rest = retry_from rounds (attempt + 1) (delay * multiplier) in
      elim (func attempt) [
        | returns a ↦ one_call (returned a)
        | raises e ↦ on_exception attempt delay e (classify attempt e) rest
      ]

  unfoldable pub retry_with_backoff : ℕ → Run E A
  unfolding retry_from
  retry_with_backoff base_delay = retry_from max_retries 1 base_delay
