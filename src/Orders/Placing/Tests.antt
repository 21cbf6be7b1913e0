-- ===== src/Orders/Placing/Tests.antt =====
-- Runs of placing an order against concrete brokers.
use alpha_live.Prelude.{
  Bool-cases, ℕ, ◌≡◌, inl, inr, refl, true, false, none, some, [], ◌∷◌, arith, ltb, if◌then◌else◌,
}
use alpha_live.Utils.EnvBool.{codes}
use alpha_live.Utils.Retry.{Attempt, returns, raises, returned, raised}
use alpha_live.Orders.Placing.{
  BrokerException, api_error, other_error, invalid_symbol, invalid_symbol_alert, place_with_retry,
}
use alpha_live.Orders.Placing.Recover.{place_with_retry_recovers, IsHonest, IsAnswered}

-- The first answer is lost, and then the broker says that the client order id is taken.
abbrev lost_then_taken : ℕ → Attempt BrokerException ℕ
lost_then_taken n =
    if ltb n 2 then raises other_error else raises (api_error (some 409) (codes "duplicate"))

honest : (n : ℕ) → IsHonest 77 (lost_then_taken n)
honest n = elim (Bool-cases (ltb n 2)) [
  | inl early ↦ rw early (inr (inl (other_error, refl, refl)))
  | inr late ↦ rw late (inr (inr (codes "duplicate", refl)))
]

answered : IsAnswered 77 (lost_then_taken 2)
answered e lost = ground arith

recovered_run : place_with_retry lost_then_taken 3 true (returns (some 77)) ≡ record {
  ending = returned 77;
  calls = 2;
  waits = 2 ∷ [];
  alerts = [];
  trading_paused = false;
}
unfolding place_with_retry alpha_live.Utils.Retry.retry_with_backoff
recovered_run = refl

-- An unknown symbol pauses trading and is not tried again.
unknown_symbol_run :
    place_with_retry {A = ℕ}
      (λ n. raises (api_error (some 422) (codes "unknown Symbol")))
      3
      true
      (returns none)
    ≡ record {
      ending = raised invalid_symbol;
      calls = 1;
      waits = [];
      alerts = invalid_symbol_alert ∷ [];
      trading_paused = true;
    }
unfolding place_with_retry alpha_live.Utils.Retry.retry_with_backoff alpha_live.Utils.EnvBool.lower
unknown_symbol_run = refl

place_with_retry_recovers_example :
    (place_with_retry lost_then_taken 3 true (returns (some 77))).ending ≡ returned 77
place_with_retry_recovers_example =
    place_with_retry_recovers 77 lost_then_taken 3 2 honest (omega arith) (omega arith) answered
