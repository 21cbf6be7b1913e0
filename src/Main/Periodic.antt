-- ===== src/Main/Periodic.antt =====
-- When a strategy is due, and how a check is marked (alphalive/main.py: should_run_signal_check, the first
-- part of _check_signal_for_strategy, _mark_periodic_check_done, _mark_periodic_check_attempted). A
-- clock's reading gives the date, the ISO week, the hour and minute in New York, and the seconds.
mod Tests
use Prim.Native.String.{String}
use alpha_live.Prelude.{
  ℕ, ◌+◌, ◌*◌, ◌%◌, Bool, true, false, ◌&&◌, not, Option, none, some, List, [], ◌∷◌, ◌++◌, leb,
  ◌==◌, if◌then◌else◌, get_or,
}
use alpha_live.Prelude.Lists.{any}
use alpha_live.Prelude.Dict.{Dict, lookup}
use alpha_live.Utils.EnvBool.{codes}
use alpha_live.Risk.Types.{Now, RiskManager, is_date}
use alpha_live.Risk.Global.{GlobalRiskManager}
use alpha_live.Engine.State.{Engine}
use alpha_live.State.Weekly.{
  Evals, try_begin_weekly_eval, end_weekly_eval, mark_weekly_eval_done, get_daily_eval_date,
  mark_daily_eval_done,
}

pub data Timeframe : Type 0 where
  one_day one_week one_hour fifteen_min : Timeframe

pub record Clock : Type 0 where
  pub now : Now
  pub week : ℕ
  pub minute : ℕ
  pub seconds : ℕ

pub data CheckAlert : Type 0 where
  not_persisted split_detected timed_out data_stale check_failed : ℕ → CheckAlert

-- What a check of one strategy works on.
pub record Bench : Type 0 where
  pub evals : Evals
  pub morning_checks_done : List ℕ
  pub last_signal_check : Dict ℕ
  pub managers : List RiskManager
  pub global_risk : GlobalRiskManager
  pub trading_paused_env : Option (List ℕ)
  pub engine : Engine
  pub alerts : List CheckAlert

abbrev pub alert : CheckAlert → Bench → Bench
alert a b = record b { alerts = b.alerts ++ a ∷ [] }

abbrev interval : Timeframe → Option ℕ
interval one_hour = some 60
interval fifteen_min = some 15
interval _ = none

-- At a bar boundary, and 35 seconds short of the interval since the last check.
unfoldable pub should_run_signal_check : Timeframe → Clock → ℕ → Bool
should_run_signal_check timeframe c last = elim (interval timeframe) [
  | none ↦ false
  | some n ↦ c.minute % n == 0 && leb (last + n * 60) (c.seconds + 35)
]

-- `morning_checks_done.add(ticker)`
abbrev pub has_checked : ℕ → Bench → Bool
has_checked ticker b = any (λ t. t == ticker) b.morning_checks_done

abbrev pub set_checked : ℕ → Bench → Bench
set_checked ticker b =
    if has_checked ticker b
    then b
    else record b { morning_checks_done = ticker ∷ b.morning_checks_done }

-- `now_et.hour == 9 and now_et.minute >= 35`
abbrev pub in_morning : Clock → Bool
in_morning c = c.now.hour == 9 && leb 35 c.minute

abbrev pub is_evaluated : ℕ → ℕ → Bench → Bool
is_evaluated ticker today b = is_date (get_daily_eval_date ticker b.evals.store.mem) today

unfoldable pub due_daily : ℕ → Clock → Bench → Bench × Bool
unfolding get_daily_eval_date
due_daily ticker c b =
    if is_evaluated ticker c.now.date b then (set_checked ticker b, false) else (b, true)

unfoldable pub due_weekly : ℕ → Clock → Bench → Bench × Bool
unfolding try_begin_weekly_eval
due_weekly ticker c b =
    let (evals, granted) = try_begin_weekly_eval ticker c.week b.evals in
    let b' = record b { evals = evals } in
    if granted then (b', true) else (set_checked ticker b', false)

abbrev pub morning : (Bench → Bench × Bool) → ℕ → Clock → Bench → Bench × Bool
morning due ticker c b = if in_morning c && not (has_checked ticker b) then due b else (b, false)

-- Whether the check goes on.
unfoldable pub due : Timeframe → ℕ → Clock → Bench → Bench × Bool
unfolding due_daily due_weekly should_run_signal_check
due one_day ticker c b = morning (due_daily ticker c) ticker c b
due one_week ticker c b = morning (due_weekly ticker c) ticker c b
due one_hour ticker c b =
    (b, should_run_signal_check one_hour c (get_or (lookup ticker b.last_signal_check) 0))
due fifteen_min ticker c b =
    (b, should_run_signal_check fifteen_min c (get_or (lookup ticker b.last_signal_check) 0))

-- A write that fails halts trading.
abbrev pub unless_persisted : Bool → ℕ → Bench → Bench
unless_persisted persisted ticker b =
    if persisted
    then b
    else alert (not_persisted ticker) (record b { trading_paused_env = some (codes "true") })

abbrev pub mark_week : ℕ → Clock → Bench → Bench
mark_week ticker c b =
    let (evals, persisted) =
      mark_weekly_eval_done ticker c.week (end_weekly_eval ticker c.week b.evals) in
    unless_persisted persisted ticker (record b { evals = evals })

abbrev pub mark_day : ℕ → Clock → Bench → Bench
mark_day ticker c b = record b {
  evals = record b.evals { store = (mark_daily_eval_done ticker c.now.date b.evals.store).0 };
}

unfoldable pub mark_periodic_check_done : Timeframe → ℕ → Clock → Bench → Bench
unfolding mark_weekly_eval_done end_weekly_eval mark_daily_eval_done
mark_periodic_check_done one_day ticker c b = mark_day ticker c (set_checked ticker b)
mark_periodic_check_done one_week ticker c b = mark_week ticker c (set_checked ticker b)
mark_periodic_check_done one_hour ticker c b = set_checked ticker b
mark_periodic_check_done fifteen_min ticker c b = set_checked ticker b

unfoldable pub mark_periodic_check_attempted : Timeframe → ℕ → Clock → Bench → Bench
unfolding end_weekly_eval
mark_periodic_check_attempted one_week ticker c b =
    let d = set_checked ticker b in record d { evals = end_weekly_eval ticker c.week d.evals }
mark_periodic_check_attempted one_day ticker c b = set_checked ticker b
mark_periodic_check_attempted one_hour ticker c b = set_checked ticker b
mark_periodic_check_attempted fifteen_min ticker c b = set_checked ticker b
