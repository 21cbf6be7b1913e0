-- ===== src/Main/Periodic/Tests.antt =====
-- Whether a strategy is due, at some times.
use alpha_live.Prelude.{◌≡◌, refl, true, false}
use alpha_live.Main.Periodic.{Clock, fifteen_min, one_hour, one_day, should_run_signal_check}

-- Half past the hour.
abbrev half_past : Clock
half_past = record {
  now = record { date = 20000; hour = 10; instant = 50000 };
  week = 2026;
  minute = 30;
  seconds = 50000;
}

-- The last check was 865 seconds ago, or 864; the hour is not over; days have a flag of their own.
due_run :
    (should_run_signal_check fifteen_min half_past 49135 ≡ true)
    × (should_run_signal_check fifteen_min half_past 49136 ≡ false)
    × (should_run_signal_check one_hour half_past 0 ≡ false)
    × (should_run_signal_check one_day half_past 0 ≡ false)
unfolding should_run_signal_check
due_run = (refl, refl, refl, refl)
