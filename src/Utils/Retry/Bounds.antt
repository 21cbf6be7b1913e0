-- ===== src/Utils/Retry/Bounds.antt =====
-- The retry loop ends by itself: it makes at most `max_retries` calls, and its `AssertionError`
-- is never reached.
use alpha_live.Prelude.{ℕ, ◌+◌, ◌≤◌, ◌<◌, ◌≡◌, ◌≢◌, refl, ◌⊎◌, inl, inr}
use alpha_live.Prelude.Lists.{length}
use alpha_live.Utils.Retry.{Attempt, returns, raises, assertion_error, Run}

-- What one run of the loop may have done, with `rounds` attempts left.
pub record IsBounded {ℓ} {E A : Type ℓ} (rounds : ℕ) (r : Run E A) : Type ℓ where
  pub called : 0 < r.calls
  pub few : r.calls ≤ rounds
  pub spaced : length r.waits + 1 ≡ r.calls
  pub ended : r.ending ≢ assertion_error

pub Attempt-cases {ℓ} :
    {E A : Type ℓ} (t : Attempt E A) → ((a : A) × (t ≡ returns a)) ⊎ ((e : E) × (t ≡ raises e))
Attempt-cases (returns a) = inl (a, refl)
Attempt-cases (raises e) = inr (e, refl)
