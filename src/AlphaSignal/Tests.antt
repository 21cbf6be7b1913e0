-- ===== src/AlphaSignal/Tests.antt =====
-- The gate on a few answers.
use alpha_live.Prelude.{◌≡◌, ◌⊎◌, refl, true, false, none, some, [], ◌∷◌, ℤ, pos, negsuc}
use alpha_live.Utils.EnvBool.{codes}
use alpha_live.AlphaSignal.{Response, status_ok, stale, degraded, partial_extraction_failure}
use alpha_live.AlphaSignal.Gate.{
  Client, FailPolicy, open_policy, closed_policy, unchecked, Health, http_error, answered, evaluate,
  run_pre_execution_checks, stale_bypass, partial_degraded_pass, misconfigured_block,
}
use alpha_live.AlphaSignal.Scores.{HasScore}
use alpha_live.AlphaSignal.Entries.{IsMisconfigured, closed_needs_evidence, open_blocks_on_evidence}

-- Scores below -0.3 block.
abbrev client : FailPolicy → Client
client policy = record {
  has_base_url = true;
  verify_identity = true;
  identity = unchecked;
  sentiment_threshold = negsuc 299999;
  fail_policy = policy;
}

abbrev scored_at : ℤ → Response
scored_at score = record {
  latest_score = some score;
  signals = record { confidence = 900000; source = 1 } ∷ [];
  last_document_date = some 20000;
  data_available = some (some true);
  status = some status_ok;
  is_degraded = none;
  degradation_reason = none;
  reliable_chunk_count = none;
  total_chunk_count = none;
}

abbrev partially : Response
partially = record (scored_at (pos 0)) {
  status = some degraded;
  is_degraded = some true;
  degradation_reason = some partial_extraction_failure;
  reliable_chunk_count = some 1;
  total_chunk_count = some 3;
}

abbrev old : Response
old = record (scored_at (pos 0)) { status = some stale; latest_score = none }

abbrev health : Health
health = answered 200 (some (record { service = some (codes "alphasignal"); contract = codes "2" }))

stale_run : (run_pre_execution_checks (some (client closed_policy)) 2 health (some old)).1.0 ≡ false
unfolding run_pre_execution_checks alpha_live.Utils.EnvBool.eq_text
stale_run = refl

stale_status : (evaluate (client closed_policy) 2 (some old)).1.gate_status ≡ stale_bypass
unfolding evaluate
stale_status = refl

partial_run :
    (run_pre_execution_checks
      (some (client closed_policy))
      2
      health
      (some partially)).1.1.gate_status
    ≡ partial_degraded_pass
unfolding run_pre_execution_checks alpha_live.Utils.EnvBool.eq_text
partial_run = refl

wrong_service_run :
    (run_pre_execution_checks
      (some (client open_policy))
      2
      (answered 404 none)
      none).1.1.gate_status
    ≡ misconfigured_block
unfolding run_pre_execution_checks
wrong_service_run = refl

closed_needs_evidence_example : HasScore (negsuc 299999) (some (scored_at (negsuc 299999))) true
unfolding run_pre_execution_checks alpha_live.Utils.EnvBool.eq_text
closed_needs_evidence_example =
    closed_needs_evidence (client closed_policy) health (some (scored_at (negsuc 299999))) refl refl

open_blocks_on_evidence_example :
    HasScore (negsuc 299999) (some (scored_at (negsuc 300000))) false
    ⊎ IsMisconfigured (client open_policy) http_error
unfolding run_pre_execution_checks
open_blocks_on_evidence_example =
    open_blocks_on_evidence (client open_policy) http_error (some (scored_at (negsuc 300000))) refl
      refl
