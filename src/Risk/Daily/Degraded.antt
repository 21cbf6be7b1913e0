-- ===== src/Risk/Daily/Degraded.antt =====
-- Degraded mode: entered after enough broker failures in a row, announced once, left by a success.
use alpha_live.Prelude.{
  ℕ, zero, suc, ◌+◌, ◌<◌, ◌≡◌, false, ◌&&◌, [], ◌∷◌, arith, leb, if◌then◌else◌,
}
use alpha_live.Prelude.Lists.{length, length-append}
use alpha_live.Risk.Types.{RiskManager, degraded_alert}
use alpha_live.Risk.Daily.{record_broker_failure, record_broker_success, exit_degraded_mode}

-- `n` failures in a row.
unfoldable pub failures : ℕ → RiskManager → RiskManager
unfolding record_broker_failure
failures zero m = m
failures (suc n) m = record_broker_failure (failures n m)

-- What has happened after `n` failures from a manager `m` that is not degraded.
record Failed (m : RiskManager) (n : ℕ) (m' : RiskManager) : Type 0 where
  counted : m'.broker_consecutive_failures ≡ m.broker_consecutive_failures + n
  mode :
      m'.degraded_mode ≡ leb m.limits.broker_failure_threshold (m.broker_consecutive_failures + n)
  alerted : length m'.sent ≡ length m.sent + (if m.notifier && m'.degraded_mode then 1 else 0)
  same_limits : m'.limits ≡ m.limits
  same_notifier : m'.notifier ≡ m.notifier

Failed-next :
    (m : RiskManager) (n : ℕ) (m' : RiskManager)
    → m.broker_consecutive_failures < m.limits.broker_failure_threshold
    → Failed m n m'
    → Failed m (suc n) (record_broker_failure m')
unfolding record_broker_failure
Failed-next m n m' k f =
    ground (arith, length-append m'.sent (degraded_alert (m'.broker_consecutive_failures + 1) ∷ []))

failures-Failed :
    (m : RiskManager) (n : ℕ)
    → m.degraded_mode ≡ false
    → m.broker_consecutive_failures < m.limits.broker_failure_threshold
    → Failed m n (failures n m)
unfolding failures
failures-Failed m zero h k = ground arith
failures-Failed m (suc n) h k = Failed-next m n (failures n m) k (failures-Failed m n h k)

-- Degraded mode begins exactly when the failures in a row reach the threshold, is announced once
-- (if there is a notifier) however many failures follow, and ends with the next successful call,
-- which also sets the count back to zero.
pub degraded_mode_once :
    (m : RiskManager) (n : ℕ)
    → m.degraded_mode ≡ false
    → m.broker_consecutive_failures < m.limits.broker_failure_threshold
    → let f = failures n m in
      let s = exit_degraded_mode (record_broker_success f) in
      (f.degraded_mode ≡ leb m.limits.broker_failure_threshold (m.broker_consecutive_failures + n))
      × (length f.sent ≡ length m.sent + (if m.notifier && f.degraded_mode then 1 else 0))
      × (s.degraded_mode ≡ false)
      × (s.broker_consecutive_failures ≡ 0)
unfolding record_broker_success exit_degraded_mode
degraded_mode_once m n h k =
    let f = failures-Failed m n h k in (f.mode, f.alerted, ground arith, ground arith)
