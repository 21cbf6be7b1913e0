-- ===== src/Risk/Daily/Tests.antt =====
-- Runs of the counters on concrete clocks.
use alpha_live.Prelude.{
  ℕ, ◌+◌, ◌≡◌, refl, Bool, true, false, ◌&&◌, Option, none, some, List, [], ◌∷◌, arith, ℤ, pos,
  negsuc, leb, ltb, if◌then◌else◌,
}
use alpha_live.Risk.Types.{Now, RiskManager, Counters}
use alpha_live.Risk.Daily.{Desk, Fill, record_fill_result}
use alpha_live.Risk.Samples.{sample_desk, at_ten}

-- Three losing round trips on day 7 trip the breaker.
abbrev losing_fill : Fill
losing_fill = record {
  ticker = 5;
  realized_pnl = negsuc 9;
  round_trip_closed = true;
  round_trip_pnl = some (negsuc 9);
}

abbrev after_three_losses : Desk
after_three_losses = record_fill_result losing_fill (at_ten 7) (
    record_fill_result losing_fill (at_ten 7)
      (record_fill_result losing_fill (at_ten 7) sample_desk))

breaker_run :
    (after_three_losses.trading_paused_by_circuit_breaker ≡ true)
    × (after_three_losses.daily_pnl ≡ negsuc 29)
unfolding record_fill_result alpha_live.Risk.Types.init alpha_live.Prelude.Int.◌+ℤ◌
breaker_run = (refl, refl)
