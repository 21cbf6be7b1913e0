-- ===== src/State/Dates/Tests.antt =====
-- The marks of a concrete day.
use alpha_live.Prelude.{◌≡◌, refl, false}
use alpha_live.State.Disk.{corrupted}
use alpha_live.State.Dates.{mark_morning_check_done, already_sent_eod, mark_eod_sent, reset_daily}
use alpha_live.State.Samples.{sample_store}

reset_run :
    already_sent_eod 7
      (reset_daily 8 (mark_eod_sent 7 (mark_morning_check_done 7 sample_store))).mem
    ≡ false
unfolding reset_daily mark_eod_sent mark_morning_check_done already_sent_eod
    alpha_live.State.Disk.mutate
reset_run = refl
