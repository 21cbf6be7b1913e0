-- ===== src/Risk/Gate.antt =====
-- `can_trade` and the checks that it makes. The environment enters as `Controls`: the value of
-- TRADING_PAUSED, and what the global risk manager answers about operator pauses, if there is one.
pub mod Exact
pub mod Frame
mod Tests
use alpha_live.Prelude.{
  ℕ, ◌+◌, ◌*◌, Bool, true, false, ◌&&◌, Option, none, some, List, [], ◌∷◌, ℤ, pos, negsuc, neg_part,
  leb, ltb, ltb_ℤ, leb_ℤ, if◌then◌else◌, Outcome, ok, raise, zero_division, ◌>>=◌,
}
use alpha_live.Prelude.Dict.{lookup}
use alpha_live.Prelude.Lists.{count}
use alpha_live.Utils.EnvBool.{parse_bool_env}
use alpha_live.Risk.Types.{
  RiskConfig, Signal, buy, sell, hold, whole, trades_halt_alert, api_halt_alert, RiskManager,
}
use alpha_live.Risk.Daily.{send}

-- Why the global risk manager pauses new entries (`entries_paused_reason`).
pub data PauseCause : Type 0 where
  telegram dashboard : PauseCause

pub record Controls : Type 0 where
  pub trading_paused_env : Option (List ℕ)
  pub global_pause : Option PauseCause

-- `current_bar`: the completed bars' timestamps, or an integer bar index.
pub data Bars : Type 0 where
  index : List ℕ → Bars
  bar : ℕ → Bars

pub record Request : Type 0 where
  pub ticker : ℕ
  pub signal : Signal
  pub account_equity : ℤ
  pub current_positions_count : ℕ
  pub total_portfolio_positions : ℕ
  pub current_bar : Option Bars

-- The reasons of a blocked trade, in the order of the checks.
pub data Reason : Type 0 where
  env_malformed env_paused manual_pause : Reason
  global_paused : PauseCause → Reason
  max_trades : ℕ → Reason
  api_limit : ℕ → Reason
  degraded daily_loss circuit_breaker max_positions portfolio_positions cooldown : Reason

pub data Verdict : Type 0 where
  allowed : Verdict
  blocked : Reason → Verdict

-- `check_daily_loss_limit`. The percentage of the equity that is lost is computed, for the log,
-- before the limit is tested.
unfoldable pub loss_limit : RiskConfig → ℕ → ℤ → Outcome Bool
loss_limit r lost (pos equity) =
    if ltb 0 equity
    then ok (leb (equity * r.max_daily_loss_pct) (lost * whole))
    else raise zero_division
loss_limit r lost (negsuc equity) = ok true

unfoldable pub check_daily_loss_limit : RiskManager → ℤ → Outcome Bool
unfolding loss_limit
check_daily_loss_limit m equity =
    if leb_ℤ (pos 0) m.daily_pnl
    then ok false
    else loss_limit m.risk_config (neg_part m.daily_pnl) equity

unfoldable pub check_max_positions : RiskManager → ℕ → Bool
check_max_positions m n = ltb n m.risk_config.max_open_positions

unfoldable pub cooled_index : ℕ → List ℕ → Option ℕ → Bool
cooled_index need bars none = true
cooled_index need bars (some last) = leb need (count (ltb last) bars)

-- `current_bar - last_bar >= cooldown_bars`
unfoldable pub cooled_bar : ℕ → ℕ → Option ℕ → Bool
cooled_bar need current none = true
cooled_bar need current (some last) = leb (last + need) current

unfoldable pub check_cooldown : RiskManager → ℕ → Bars → Bool
unfolding cooled_index cooled_bar
check_cooldown m ticker (index bars) =
    cooled_index m.execution_config.cooldown_bars bars (lookup ticker m.last_trade_bar_ts)
check_cooldown m ticker (bar n) =
    cooled_bar m.execution_config.cooldown_bars n (lookup ticker m.last_trade_bar)

-- Checks 1, 2 and 2b.
abbrev env_check : Outcome Bool → Option Reason
env_check (raise e) = some env_malformed
env_check (ok true) = some env_paused
env_check (ok false) = none

unfoldable pub operator_check : RiskManager → Controls → Option Reason
operator_check m c = elim (env_check (parse_bool_env c.trading_paused_env false)) [
  | some r ↦ some r
  | none ↦
      if m.trading_paused_manual
      then some manual_pause
      else elim c.global_pause [ none ↦ none | some p ↦ some (global_paused p) ]
]

-- Checks 8, 9 and 10.
abbrev is_cooling : RiskManager → Request → Bool
is_cooling m r = elim r.current_bar [
  | none ↦ false
  | some bars ↦ if check_cooldown m r.ticker bars then false else true
]

unfoldable pub position_checks : RiskManager → Request → Verdict
unfolding check_max_positions
position_checks m r =
    if check_max_positions m r.current_positions_count
    then if leb m.risk_config.portfolio_max_positions r.total_portfolio_positions
      then blocked portfolio_positions
      else if is_cooling m r
      then blocked cooldown
      else allowed
    else blocked max_positions

-- Checks 5 to 10, which change nothing.
unfoldable pub loss_checks : RiskManager → Request → Bool → Verdict
unfolding position_checks
loss_checks m r true = blocked daily_loss
loss_checks m r false =
    if m.trading_paused_by_circuit_breaker then blocked circuit_breaker else position_checks m r

unfoldable pub entry_checks : RiskManager → Request → Outcome Verdict
unfolding check_daily_loss_limit loss_checks
entry_checks m r =
    if m.degraded_mode
    then ok (blocked degraded)
    else check_daily_loss_limit m r.account_equity >>= λ hit. ok (loss_checks m r hit)

-- The emergency halt of the cost limits.
abbrev halted : RiskManager → RiskManager
halted m = record m { trading_paused_manual = true }

-- Checks 3 to 10.
unfoldable pub limit_checks : RiskManager → Request → RiskManager × Outcome Verdict
unfolding entry_checks send
limit_checks m r =
    if leb m.limits.max_trades_per_day m.trades_today
    then (
      send (trades_halt_alert m.trades_today m.limits.max_trades_per_day) (halted m),
      ok (blocked (max_trades m.limits.max_trades_per_day)),
    )
    else if leb m.limits.max_api_calls_per_hour m.api_calls_this_hour
    then (
      send (api_halt_alert m.api_calls_this_hour m.limits.max_api_calls_per_hour) (halted m),
      ok (blocked (api_limit m.limits.max_api_calls_per_hour)),
    )
    else (m, entry_checks m r)

abbrev pub is_sell : Signal → Bool
is_sell sell = true
is_sell _ = false

unfoldable pub can_trade : RiskManager → Controls → Request → RiskManager × Outcome Verdict
unfolding operator_check limit_checks
can_trade m c r = if is_sell r.signal then (m, ok allowed) else elim (operator_check m c) [
  | some reason ↦ (m, ok (blocked reason))
  | none ↦ limit_checks m r
]
