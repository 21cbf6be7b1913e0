-- ===== src/Risk/Global.antt =====
-- `GlobalRiskManager`: the operator's pause and the daily loss limit over all strategies. The
-- registered managers stand in the state as they are at the time of a call; the Telegram pause that
-- `BotState` persists is passed along.
pub mod Halt
pub mod Pause
mod Tests
use alpha_live.Prelude.{
  ℕ, zero, suc, ◌+◌, ◌*◌, Bool, true, false, Option, none, some, List, [], ◌∷◌, ℤ, pos, negsuc,
  pos_part, neg_part, ◌+ℤ◌, leb, ◌==◌, if◌then◌else◌, get_or, Outcome, ok, raise, zero_division,
}
use alpha_live.Prelude.Dict.{Dict, insert}
use alpha_live.Risk.Types.{Now, RiskManager, whole}
use alpha_live.Risk.Gate.{PauseCause, telegram, dashboard}

-- `global_daily_stats`; the reason of a halt is the total profit and loss that it quotes.
pub record Stats : Type 0 where
  pub date : ℕ
  pub total_trades : ℕ
  pub total_pnl : ℤ
  pub start_equity : Option ℤ
  pub strategies_halted : Bool
  pub halt_reason : Option ℤ

-- Who asked for a pause: the reasons of `set_manual_pause`.
pub data PauseReason : Type 0 where
  restored_pause : PauseReason
  said : ℕ → PauseReason

-- `telegram_paused` and `telegram_pause_reason` of `BotState`.
pub record TelegramPause : Type 0 where
  pub paused : Bool
  pub reason : Option PauseReason

pub record GlobalRiskManager : Type 0 where
  pub stats : Stats
  pub strategy_managers : Dict RiskManager
  pub has_state : Bool
  pub manual_paused : Bool
  pub manual_pause_reason : Option PauseReason

unfoldable pub new_stats : ℕ → Stats
new_stats today = record {
  date = today;
  total_trades = 0;
  total_pnl = pos 0;
  start_equity = none;
  strategies_halted = false;
  halt_reason = none;
}

-- `__init__`
unfoldable pub init : Bool → Now → TelegramPause → GlobalRiskManager
unfolding new_stats
init has_state now t =
    let g : GlobalRiskManager = record {
      stats = new_stats now.date;
      strategy_managers = [];
      has_state = has_state;
      manual_paused = false;
      manual_pause_reason = none;
    } in
    if has_state
    then if t.paused
      then record g {
        manual_paused = true;
        manual_pause_reason = some (get_or t.reason restored_pause);
      }
      else g
    else g

-- `set_telegram_pause` of `BotState`
unfoldable pub set_telegram_pause : Bool → Option PauseReason → TelegramPause → TelegramPause
set_telegram_pause paused reason t = record {
  paused = paused;
  reason = if paused then reason else none;
}

unfoldable pub set_manual_pause :
    PauseReason → GlobalRiskManager → TelegramPause → GlobalRiskManager × TelegramPause
unfolding set_telegram_pause
set_manual_pause reason g t = (
  record g { manual_paused = true; manual_pause_reason = some reason },
  if g.has_state then set_telegram_pause true (some reason) t else t,
)

unfoldable pub clear_manual_pause :
    GlobalRiskManager → TelegramPause → GlobalRiskManager × TelegramPause
unfolding set_telegram_pause
clear_manual_pause g t = (
  record g { manual_paused = false; manual_pause_reason = none },
  if g.has_state then set_telegram_pause false none t else t,
)

-- `is_manual_paused`; `dashboard_paused` is what `check_dashboard_paused` reads.
unfoldable pub is_manual_paused : Bool → GlobalRiskManager → Bool
is_manual_paused dashboard_paused g =
    if g.manual_paused then true else if g.has_state then dashboard_paused else false

unfoldable pub entries_paused_reason : Bool → GlobalRiskManager → Option PauseCause
entries_paused_reason dashboard_paused g =
    if g.manual_paused
    then some telegram
    else if g.has_state
    then if dashboard_paused then some dashboard else none
    else none

unfoldable pub register_strategy : ℕ → RiskManager → GlobalRiskManager → GlobalRiskManager
register_strategy name m g = record g { strategy_managers = insert name m g.strategy_managers }

-- `_check_daily_reset`
unfoldable pub check_daily_reset : Now → GlobalRiskManager → GlobalRiskManager
unfolding new_stats
check_daily_reset now g =
    if g.stats.date == now.date then g else record g { stats = new_stats now.date }

unfoldable pub sum_pnl : Dict RiskManager → ℤ
sum_pnl [] = pos 0
sum_pnl ((name, m) ∷ d) = m.daily_pnl +ℤ sum_pnl d

-- `(total_pnl / start_equity) * 100 <= -max_daily_loss_pct`
unfoldable pub beyond_limit : ℤ → ℕ → ℤ → Outcome Bool
beyond_limit total pct (pos zero) = raise zero_division
beyond_limit total pct (pos (suc n)) =
    ok (leb (pos_part total * whole + suc n * pct) (neg_part total * whole))
beyond_limit total pct (negsuc n) =
    ok (leb (neg_part total * whole + suc n * pct) (pos_part total * whole))

-- `(True, "OK")`, or a reason.
pub data GlobalVerdict : Type 0 where
  go : GlobalVerdict
  halt : Option ℤ → GlobalVerdict

unfoldable pub judge :
    GlobalRiskManager → ℤ → Outcome Bool → GlobalRiskManager × Outcome GlobalVerdict
judge g total (raise e) = (g, raise e)
judge g total (ok true) = (
  record g {
    stats = record g.stats {
      total_pnl = total;
      strategies_halted = true;
      halt_reason = some total;
    };
  },
  ok (halt (some total)),
)
judge g total (ok false) = (record g { stats = record g.stats { total_pnl = total } }, ok go)

-- The check of a day that is not halted, with the start equity set.
unfoldable pub check_loss : ℕ → ℤ → GlobalRiskManager → GlobalRiskManager × Outcome GlobalVerdict
check_loss pct start g =
    let total = sum_pnl g.strategy_managers in
    judge (record g { stats = record g.stats { start_equity = some start } }) total
      (beyond_limit total pct start)

-- The check once the statistics are those of today.
unfoldable pub check_today : ℤ → ℕ → GlobalRiskManager → GlobalRiskManager × Outcome GlobalVerdict
check_today equity pct g =
    if g.stats.strategies_halted
    then (g, ok (halt g.stats.halt_reason))
    else check_loss pct (get_or g.stats.start_equity equity) g

unfoldable pub check_global_daily_loss :
    Now → ℤ → ℕ → GlobalRiskManager → GlobalRiskManager × Outcome GlobalVerdict
check_global_daily_loss now equity pct g = check_today equity pct (check_daily_reset now g)

unfoldable pub record_trade : Now → GlobalRiskManager → GlobalRiskManager
unfolding check_daily_reset
record_trade now g0 =
    let g = check_daily_reset now g0 in
    record g { stats = record g.stats { total_trades = g.stats.total_trades + 1 } }

unfoldable pub is_trading_halted : GlobalRiskManager → Bool
is_trading_halted g = g.stats.strategies_halted
