-- ===== src/Orders/Placing.antt =====
-- `_place_with_retry` and `_is_definite_rejection`. What each attempt of the broker call does, and
-- what the broker answers about the client order id afterwards, are arguments.
pub mod Classified
pub mod Recover
pub mod Waits
mod Tests
use alpha_live.Prelude.{
  ℕ, ◌*◌, ◌^◌, Bool, true, false, ◌&&◌, ◌||◌, Option, none, some, List, [], ◌∷◌, leb, ◌==◌,
  if◌then◌else◌,
}
use alpha_live.Utils.EnvBool.{codes, lower}
use alpha_live.Utils.Retry.{
  retry, fatal, RetryOutcome, Attempt, returns, raises, Verdict, answers, throws, Ending, returned,
  raised, assertion_error, Run, retry_with_backoff,
}

-- What may be raised: by the read-only transport, by the broker with or without an HTTP status, by
-- other code, and by the classifier itself.
pub data BrokerException : Type 0 where
  mutation_blocked : BrokerException
  api_error : Option ℕ → List ℕ → BrokerException
  other_value_error other_runtime_error other_error : BrokerException
  insufficient_buying_power market_closed invalid_symbol : BrokerException

-- The alerts of the classifier.
pub data OrderAlert : Type 0 where
  buying_power_alert market_closed_alert invalid_symbol_alert : OrderAlert

unfoldable pub starts_with : List ℕ → List ℕ → Bool
starts_with [] s = true
starts_with (a ∷ w) [] = false
starts_with (a ∷ w) (b ∷ s) = a == b && starts_with w s

-- `word in text`
unfoldable pub is_within : List ℕ → List ℕ → Bool
unfolding starts_with
is_within word [] = starts_with word []
is_within word (c ∷ s) = starts_with word (c ∷ s) || is_within word s

-- Give up.
abbrev pub give_up : Verdict BrokerException
give_up = answers (record { decision = fatal; delay_override = none })

-- Try again after a wait; on the last attempt no wait is set.
unfoldable pub back_off : ℕ → ℕ → ℕ → Verdict BrokerException
back_off max_retries attempt wait = answers (record {
  decision = retry;
  delay_override = if leb max_retries attempt then none else some wait;
})

unfoldable pub classify_422 : List ℕ → Verdict BrokerException
unfolding is_within
classify_422 text =
    let error_str = lower text in
    if is_within (codes "closed") error_str
    then throws market_closed
    else if is_within (codes "symbol") error_str || is_within (codes "unknown") error_str
    then throws invalid_symbol
    else give_up

unfoldable pub classify_status : ℕ → ℕ → ℕ → List ℕ → Verdict BrokerException
unfolding back_off classify_422
classify_status max_retries attempt status text =
    if status == 403
    then throws insufficient_buying_power
    else if status == 409
    then give_up
    else if status == 422
    then classify_422 text
    else if status == 429
    then back_off max_retries attempt (2 ^ attempt * 2)
    else back_off max_retries attempt (2 ^ attempt)

-- `_classify`
unfoldable pub classify : ℕ → ℕ → BrokerException → Verdict BrokerException
unfolding back_off classify_status
classify max_retries attempt mutation_blocked = give_up
classify max_retries attempt (api_error (some status) text) =
    classify_status max_retries attempt status text
classify max_retries attempt _ = back_off max_retries attempt (2 ^ attempt)

abbrev pub is_conflict : BrokerException → Bool
is_conflict (api_error (some status) text) = status == 409
is_conflict _ = false

-- What the classifier sends and sets on its way out.
abbrev pub alerts_of : {A : Type 0} → Ending BrokerException A → List OrderAlert
alerts_of (raised insufficient_buying_power) = buying_power_alert ∷ []
alerts_of (raised market_closed) = market_closed_alert ∷ []
alerts_of (raised invalid_symbol) = invalid_symbol_alert ∷ []
alerts_of _ = []

abbrev pub pauses_trading : {A : Type 0} → Ending BrokerException A → Bool
pauses_trading (raised invalid_symbol) = true
pauses_trading _ = false

-- `trading_paused` says that TRADING_PAUSED was set to true.
pub record Placed (A : Type 0) : Type 0 where
  pub ending : Ending BrokerException A
  pub calls : ℕ
  pub waits : List ℕ
  pub alerts : List OrderAlert
  pub trading_paused : Bool

module _ {A : Type 0} where
  -- The recovery of a 409, if the call has a client order id.
  unfoldable pub recover :
      Bool → Attempt BrokerException (Option A) → BrokerException → Ending BrokerException A
  recover false existing e = raised e
  recover true (raises x) e = raised x
  recover true (returns none) e = raised e
  recover true (returns (some order)) e = returned order

  unfoldable pub settle :
      Bool
      → Attempt BrokerException (Option A)
      → Ending BrokerException A
      → Ending BrokerException A
  unfolding recover
  settle has_id existing (returned order) = returned order
  settle has_id existing (raised e) = if is_conflict e then recover has_id existing e else raised e
  settle has_id existing assertion_error = assertion_error

  unfoldable pub place_with_retry :
      (ℕ → Attempt BrokerException A) → ℕ → Bool → Attempt BrokerException (Option A) → Placed A
  unfolding settle classify
  place_with_retry order_func max_retries has_id existing =
      let r = retry_with_backoff order_func (classify max_retries) max_retries 2 2 in
      record {
        ending = settle has_id existing r.ending;
        calls = r.calls;
        waits = r.waits;
        alerts = alerts_of r.ending;
        trading_paused = pauses_trading r.ending;
      }

-- `_is_definite_rejection`; BrokerMutationBlocked is a RuntimeError.
unfoldable pub is_definite_rejection : BrokerException → Bool
is_definite_rejection (api_error none text) = false
is_definite_rejection (api_error (some status) text) = status == 422
is_definite_rejection other_error = false
is_definite_rejection _ = true
