-- ===== src/AlphaSignal.antt =====
-- What AlphaSignal answers, and what `get_sentiment` makes of it (alphalive/services/alphasignal_client.py).
-- Scores and confidences are in millionths. The round-trip time is left out.
pub mod Gate
pub mod Scores
pub mod Entries
mod Tests
use alpha_live.Prelude.{
  ℕ, Bool, true, false, ◌&&◌, Option, none, some, List, [], ◌∷◌, map, ℤ, ltb, if◌then◌else◌, get_or,
  is_some,
}

pub data ServiceStatus : Type 0 where
  status_ok no_data stale degraded other_status : ServiceStatus

pub data Degradation : Type 0 where
  partial_extraction_failure full_extraction_failure other_reason : Degradation

pub record Evidence : Type 0 where
  pub confidence : ℕ
  pub source : ℕ

-- The JSON body of `/sentiment/{ticker}`: `none` for a key that is missing or null, but a
-- `data_available` that is null is `some none`.
pub record Response : Type 0 where
  pub latest_score : Option ℤ
  pub signals : List Evidence
  pub last_document_date : Option ℕ
  pub data_available : Option (Option Bool)
  pub status : Option ServiceStatus
  pub is_degraded : Option Bool
  pub degradation_reason : Option Degradation
  pub reliable_chunk_count : Option ℕ
  pub total_chunk_count : Option ℕ

pub data ContractIssue : Type 0 where
  ok_without_data stale_with_score failed_with_score too_many_reliable : ContractIssue

pub record Sentiment : Type 0 where
  pub sentiment_score : Option ℤ
  pub latest_score : Option ℤ
  pub confidence : ℕ
  pub sources : List ℕ
  pub last_document_date : Option ℕ
  pub data_available : Option Bool
  pub status : Option ServiceStatus
  pub is_degraded : Bool
  pub degradation_reason : Option Degradation
  pub reliable_chunk_count : Option ℕ
  pub total_chunk_count : Option ℕ
  pub contract_issue : Option ContractIssue

abbrev pub is_ok : Option ServiceStatus → Bool
is_ok (some status_ok) = true
is_ok _ = false

abbrev pub is_stale : Option ServiceStatus → Bool
is_stale (some stale) = true
is_stale _ = false

abbrev pub is_no_data : Option ServiceStatus → Bool
is_no_data (some no_data) = true
is_no_data _ = false

abbrev pub is_full : Option Degradation → Bool
is_full (some full_extraction_failure) = true
is_full _ = false

abbrev pub is_partial : Option Degradation → Bool
is_partial (some partial_extraction_failure) = true
is_partial _ = false

-- `data_available is False`
abbrev pub is_unavailable : Option (Option Bool) → Bool
is_unavailable (some (some false)) = true
is_unavailable _ = false

-- Both counts are there, and more are reliable than there are.
abbrev pub exceeds : Option ℕ → Option ℕ → Bool
exceeds (some reliable) (some total) = ltb total reliable
exceeds _ _ = false

unfoldable pub detect_contract_issue : Response → Option ContractIssue
detect_contract_issue d =
    if is_ok d.status && is_unavailable d.data_available
    then some ok_without_data
    else if is_stale d.status && is_some d.latest_score
    then some stale_with_score
    else if is_full d.degradation_reason && is_some d.latest_score
    then some failed_with_score
    else if exceeds d.reliable_chunk_count d.total_chunk_count
    then some too_many_reliable
    else none

abbrev first_confidence : List Evidence → ℕ
first_confidence [] = 0
first_confidence (s ∷ ss) = s.confidence

-- What `get_sentiment` returns for a body; a request that fails is AlphaSignal/Gate.antt's.
unfoldable pub normalize : Response → Sentiment
unfolding detect_contract_issue
normalize d = record {
  sentiment_score = d.latest_score;
  latest_score = d.latest_score;
  confidence = first_confidence d.signals;
  sources = map (λ s. s.source) d.signals;
  last_document_date = d.last_document_date;
  data_available = get_or d.data_available (some true);
  status = d.status;
  is_degraded = get_or d.is_degraded false;
  degradation_reason = d.degradation_reason;
  reliable_chunk_count = d.reliable_chunk_count;
  total_chunk_count = d.total_chunk_count;
  contract_issue = detect_contract_issue d;
}
