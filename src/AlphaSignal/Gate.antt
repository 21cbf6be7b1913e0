-- ===== src/AlphaSignal/Gate.antt =====
-- `AlphaSignalClient` with `check_identity`, `is_execution_allowed` and `_evaluate`, and
-- `run_pre_execution_checks`. What the service answers is given; log messages are left out.
use alpha_live.Prelude.{
  ℕ, Bool, true, false, ◌&&◌, ◌||◌, not, Option, none, some, List, ℤ, pos, ◌-ℤ◌, leb_ℤ, ltb, leb,
  ◌==◌, if◌then◌else◌, is_some, Outcome, Exception, ok, raise, value_error,
}
use alpha_live.Utils.EnvBool.{codes, eq_text}
use alpha_live.AlphaSignal.{
  Response, Sentiment, normalize, is_stale, is_no_data, is_full, is_partial,
}

pub data FailPolicy : Type 0 where
  open_policy closed_policy : FailPolicy

pub data Identity : Type 0 where
  unchecked verified wrong_service unreachable : Identity

pub record Client : Type 0 where
  pub has_base_url : Bool
  pub verify_identity : Bool
  pub identity : Identity
  pub sentiment_threshold : ℤ
  pub fail_policy : FailPolicy

pub data GateStatus : Type 0 where
  disabled_bypass neutral_bypass error_bypass no_data_bypass stale_bypass invalid_response_bypass :
      GateStatus
  full_degraded_bypass partial_degraded_bypass partial_degraded_pass partial_degraded_block :
      GateStatus
  available_pass available_block misconfigured_block : GateStatus

-- The gate's report.
pub record Prediction : Type 0 where
  pub gate_status : GateStatus
  pub sentiment : Option Sentiment
  pub fail_policy : Option FailPolicy

abbrev pub Verdict : Type 0
Verdict = Bool × Prediction

-- `__init__`, with the text of the policy.
unfoldable pub new_client : Bool → Bool → ℤ → List ℕ → Outcome Client
new_client has_base_url verify_identity threshold policy =
    let made : FailPolicy → Client = (λ p. record {
      has_base_url = has_base_url;
      verify_identity = verify_identity;
      identity = unchecked;
      sentiment_threshold = threshold;
      fail_policy = p;
    }) in
    if eq_text policy (codes "open")
    then ok (made open_policy)
    else if eq_text policy (codes "closed")
    then ok (made closed_policy)
    else raise value_error

-- A JSON object's `service`, if it is a text, and its `sentiment_contract` as a text.
pub record HealthBody : Type 0 where
  pub service : Option (List ℕ)
  pub contract : List ℕ

-- What `/health/` gives: an HTTP error, another exception, or a status code and a body, `none` if it is
-- not a JSON object.
pub data Health : Type 0 where
  http_error : Health
  fault : Exception → Health
  answered : ℕ → Option HealthBody → Health

unfoldable pub judge_body : Option HealthBody → Identity
judge_body none = wrong_service
judge_body (some b) = elim b.service [
  | none ↦ wrong_service
  | some s ↦
      if not (eq_text s (codes "alphasignal"))
      then wrong_service
      else if not (eq_text b.contract (codes "2"))
      then wrong_service
      else verified
]

unfoldable pub judge_health : Health → Outcome Identity
unfolding judge_body
judge_health http_error = ok unreachable
judge_health (fault e) = raise e
judge_health (answered code body) = if leb 500 code then ok unreachable else ok (judge_body body)

abbrev pub identified : Client → Outcome Identity → Outcome Client
identified c (ok i) = ok (record c { identity = i })
identified c (raise e) = raise e

unfoldable pub check_identity : Client → Health → Outcome Client
unfolding judge_health
check_identity c h =
    if not c.has_base_url
    then ok (record c { identity = wrong_service })
    else identified c (judge_health h)

-- The two statuses of an evaluated score.
abbrev pub pass_or_block : Bool → GateStatus → GateStatus → GateStatus
pass_or_block allowed pass block = if allowed then pass else block

abbrev pub report : GateStatus → Option Sentiment → Prediction
report g s = record { gate_status = g; sentiment = s; fail_policy = none }

-- Long is 2 and short is 0.
unfoldable pub confirms : ℤ → ℕ → ℤ → Bool
confirms threshold direction score =
    if direction == 2
    then leb_ℤ threshold score
    else if direction == 0
    then leb_ℤ score (pos 0 -ℤ threshold)
    else true

unfoldable pub scored : ℤ → ℕ → ℤ → GateStatus → GateStatus → Sentiment → Verdict
unfolding confirms
scored threshold direction score pass block s =
    let allowed = confirms threshold direction score in
    (allowed, report (pass_or_block allowed pass block) (some s))

abbrev pub has_reliable : Option ℕ → Bool
has_reliable none = false
has_reliable (some n) = ltb 0 n

-- A response that is degraded.
unfoldable pub weigh_degraded : ℤ → ℕ → Sentiment → Option ℤ → Verdict
unfolding scored
weigh_degraded threshold direction s none = (true, report full_degraded_bypass (some s))
weigh_degraded threshold direction s (some score) =
    if is_partial s.degradation_reason && has_reliable s.reliable_chunk_count
    then scored threshold direction score partial_degraded_pass partial_degraded_block s
    else if is_full s.degradation_reason
    then (true, report full_degraded_bypass (some s))
    else (true, report partial_degraded_bypass (some s))

unfoldable pub weigh_score : ℤ → ℕ → Sentiment → Option ℤ → Verdict
unfolding scored
weigh_score threshold direction s none = (true, report no_data_bypass (some s))
weigh_score threshold direction s (some score) =
    scored threshold direction score available_pass available_block s

-- `not sentiment.get("data_available", True)`
abbrev pub lacks_data : Sentiment → Bool
lacks_data s = elim s.data_available [ none ↦ true | some b ↦ not b ]

unfoldable pub weigh : ℤ → ℕ → Sentiment → Verdict
unfolding weigh_degraded weigh_score
weigh threshold direction s =
    if is_some s.contract_issue
    then (true, report invalid_response_bypass (some s))
    else if lacks_data s || is_no_data s.status
    then (true, report no_data_bypass (some s))
    else if is_stale s.status
    then (true, report stale_bypass (some s))
    else if s.is_degraded
    then weigh_degraded threshold direction s s.latest_score
    else weigh_score threshold direction s s.sentiment_score

-- The answer to `get_sentiment`: `none` for a request or a body that raises.
unfoldable pub weigh_answer : ℤ → ℕ → Option Response → Verdict
unfolding weigh normalize
weigh_answer threshold direction none = (true, report error_bypass none)
weigh_answer threshold direction (some d) = weigh threshold direction (normalize d)

unfoldable pub evaluate : Client → ℕ → Option Response → Verdict
unfolding weigh_answer
evaluate c direction answer =
    if direction == 1
    then (true, report neutral_bypass none)
    else weigh_answer c.sentiment_threshold direction answer

-- NON_EVALUATING_STATUSES
abbrev pub is_non_evaluating : GateStatus → Bool
is_non_evaluating no_data_bypass = true
is_non_evaluating error_bypass = true
is_non_evaluating full_degraded_bypass = true
is_non_evaluating partial_degraded_bypass = true
is_non_evaluating invalid_response_bypass = true
is_non_evaluating stale_bypass = true
is_non_evaluating _ = false

abbrev pub is_open_policy : FailPolicy → Bool
is_open_policy open_policy = true
is_open_policy closed_policy = false

unfoldable pub apply_policy : FailPolicy → Verdict → Verdict
apply_policy policy (allowed, pred) =
    if is_non_evaluating pred.gate_status
    then (is_open_policy policy, record pred { fail_policy = some policy })
    else (allowed, pred)

abbrev pub is_verified : Identity → Bool
is_verified verified = true
is_verified _ = false

abbrev pub is_wrong : Identity → Bool
is_wrong wrong_service = true
is_wrong _ = false

unfoldable pub gate : Client → ℕ → Option Response → Verdict
unfolding apply_policy evaluate
gate c direction answer = apply_policy c.fail_policy (evaluate c direction answer)

-- Once the identity has been checked.
unfoldable pub after_identity : ℕ → Option Response → Outcome Client → Outcome (Client × Verdict)
unfolding gate
after_identity direction answer (raise e) = raise e
after_identity direction answer (ok c) =
    if is_wrong c.identity
    then ok (c, (false, report misconfigured_block none))
    else ok (c, gate c direction answer)

unfoldable pub is_execution_allowed :
    ℕ → Health → Option Response → Client → Outcome (Client × Verdict)
unfolding after_identity check_identity gate
is_execution_allowed direction health answer c =
    if c.verify_identity && not (is_verified c.identity)
    then after_identity direction answer (check_identity c health)
    else ok (c, gate c direction answer)

-- An exception counts as an outcome that is not evaluated.
unfoldable pub checked : Client → Outcome (Client × Verdict) → Client × Verdict
checked c (ok r) = r
checked c (raise e) = (
  c,
  (
    is_open_policy c.fail_policy,
    record { gate_status = error_bypass; sentiment = none; fail_policy = some c.fail_policy },
  ),
)

unfoldable pub run_pre_execution_checks :
    Option Client → ℕ → Health → Option Response → Option Client × Verdict
unfolding is_execution_allowed checked
run_pre_execution_checks none direction health answer = (none, (true, report disabled_bypass none))
run_pre_execution_checks (some c) direction health answer =
    let (c', v) = checked c (is_execution_allowed direction health answer c) in (some c', v)
