-- ===== src/State/Dates.antt =====
-- The marks of `BotState` that carry a date: the morning check, the summary at the end of the day, the
-- morning equity, the screener's month and the startup.
pub mod Marks
mod Tests
use alpha_live.Prelude.{ℕ, Bool, true, false, Option, none, some, ℤ, pos, ◌==◌, if◌then◌else◌}
use alpha_live.Risk.Types.{is_date}
use alpha_live.State.Types.{Dated, BotState}
use alpha_live.State.Disk.{Store, mutate}

unfoldable pub already_ran_morning_check : ℕ → BotState → Bool
unfolding is_date
already_ran_morning_check today s = is_date s.last_morning_check_date today

unfoldable pub mark_morning_check_done : ℕ → Store → Store
mark_morning_check_done today st =
    (mutate (λ s. record s { last_morning_check_date = some today }) st).0

unfoldable pub already_sent_eod : ℕ → BotState → Bool
unfolding is_date
already_sent_eod today s = is_date s.last_eod_summary_date today

unfoldable pub mark_eod_sent : ℕ → Store → Store
mark_eod_sent today st = (mutate (λ s. record s { last_eod_summary_date = some today }) st).0

unfoldable pub set_morning_equity : ℕ → ℤ → Store → Store
set_morning_equity today equity st =
    (mutate (λ s. record s { morning_equity = some (record { date = today; value = equity }) })
      st).0

unfoldable pub get_morning_equity : ℕ → BotState → Option ℤ
get_morning_equity today s = elim s.morning_equity [
  | none ↦ none
  | some e ↦ if e.date == today then some e.value else none
]

unfoldable pub get_last_screener_month : BotState → Option ℕ
get_last_screener_month s = s.last_screener_month

unfoldable pub set_last_screener_month : ℕ → Store → Store
set_last_screener_month month st =
    (mutate (λ s. record s { last_screener_month = some month }) st).0

unfoldable pub mark_startup : ℕ → Store → Store
mark_startup now st = (mutate (λ s. record s { last_startup = some now }) st).0

-- `reset_daily`. The code also empties a list of trades that nothing fills.
unfoldable pub reset_daily : ℕ → Store → Store
unfolding is_date
reset_daily today st =
    if is_date st.mem.last_morning_check_date today
    then st
    else (mutate
        (λ s. record s {
          daily_pnl = pos 0;
          last_morning_check_date = none;
          last_eod_summary_date = none;
        })
        st).0
