-- ===== src/Utils/Retry/Tests.antt =====
-- Runs of the retry loop on concrete calls.
use alpha_live.Prelude.{ℕ, ◌≡◌, refl, none, [], ◌∷◌, ltb, if◌then◌else◌}
use alpha_live.Utils.Retry.{
  retry, Attempt, returns, raises, Verdict, answers, returned, retry_with_backoff,
}

-- Fails twice, then returns.
abbrev third_time : ℕ → Attempt ℕ ℕ
third_time n = if ltb n 3 then raises 503 else returns 7

abbrev always_retry : ℕ → ℕ → Verdict ℕ
always_retry n e = answers (record { decision = retry; delay_override = none })

third_time_run :
    retry_with_backoff third_time always_retry 3 2 2
    ≡ record { ending = returned 7; calls = 3; waits = 2 ∷ 4 ∷ [] }
unfolding retry_with_backoff
third_time_run = refl
