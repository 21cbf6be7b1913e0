-- ===== src/State/Dates/Marks.antt =====
-- The marks survive a restart, for their day.
use alpha_live.Prelude.{ℕ, ◌≡◌, ◌≢◌, ◌∙◌, refl, true, Option, none, some, List, arith, ℤ, ok}
use alpha_live.State.Types.{BotState}
use alpha_live.State.Disk.{File, load, Store, mutate}
use alpha_live.State.Disk.Load.{load-save}
use alpha_live.State.Dates.{
  already_ran_morning_check, mark_morning_check_done, already_sent_eod, mark_eod_sent,
  set_morning_equity, get_morning_equity, set_last_screener_month, get_last_screener_month,
}

-- A restart from the store's file loads a state of which `P` holds.
abbrev pub AfterRestart : File → Option (List ℕ) → Store → (BotState → Type 0) → Type 0
AfterRestart backup env st P = (s : BotState) × (load st.file backup env ≡ ok s) × P s

reloaded :
    (f : BotState → BotState) (st : Store) (backup : File) (env : Option (List ℕ))
    → st.file_ok ≡ true
    → load (mutate f st).0.file backup env ≡ ok (f st.mem)
reloaded f st backup env h = let l = load-save f st backup env in l.1 (l.0 ∙ h)

-- What was marked is remembered. If the write succeeds, then after a restart on the same day the
-- morning check and the summary count as done, the morning equity is the one stored, and is given on
-- no other day, and the screener's month is the one stored.
pub marks_survive_restart :
    (today month : ℕ) (equity : ℤ) (st : Store) (backup : File) (env : Option (List ℕ))
    → st.file_ok ≡ true
    → AfterRestart backup env
        (mark_morning_check_done today st)
        (λ s. already_ran_morning_check today s ≡ true)
      × AfterRestart backup env (mark_eod_sent today st) (λ s. already_sent_eod today s ≡ true)
      × AfterRestart backup env (set_morning_equity today equity st) (λ s.
        (get_morning_equity today s ≡ some equity)
        × ((d : ℕ) → d ≢ today → get_morning_equity d s ≡ none))
      × AfterRestart backup env
          (set_last_screener_month month st)
          (λ s. get_last_screener_month s ≡ some month)
unfolding already_ran_morning_check mark_morning_check_done already_sent_eod mark_eod_sent
    set_morning_equity get_morning_equity set_last_screener_month get_last_screener_month
marks_survive_restart today month equity st backup env h = (
  (
    record st.mem { last_morning_check_date = some today },
    reloaded _ st backup env h,
    ground arith,
  ),
  (record st.mem { last_eod_summary_date = some today }, reloaded _ st backup env h, ground arith),
  (
    record st.mem { morning_equity = some (record { date = today; value = equity }) },
    reloaded _ st backup env h,
    (ground arith, λ d ne. ground arith),
  ),
  (record st.mem { last_screener_month = some month }, reloaded _ st backup env h, refl),
)
