-- ===== src/Risk/Session/Tests.antt =====
-- Concrete sessions of one day and of several.
use alpha_live.Prelude.{◌≢◌, refl, true, none, some, List, [], ◌∷◌, arith, ok, negsuc}
use alpha_live.Risk.Types.{Now, RiskManager, buy, max_consecutive_losses}
use alpha_live.Risk.Daily.{Desk, Fill}
use alpha_live.Risk.Gate.{can_trade, allowed, max_trades}
use alpha_live.Risk.Session.{Event, submitted, filled, restarted, day_started, run}
use alpha_live.Risk.Session.Pause.{emergency_halt_stays}
use alpha_live.Risk.Samples.{sample_manager, sample_counters, no_controls, ask, at_ten, at_eleven}

-- One order, then a restart of the process.
abbrev busy : List (Now × Event)
busy = (at_ten 7, submitted 5 none) ∷ (at_eleven 7, restarted) ∷ []

abbrev losing_fill : Fill
losing_fill = record {
  ticker = 5;
  realized_pnl = negsuc 9;
  round_trip_closed = true;
  round_trip_pnl = some (negsuc 9);
}

abbrev three_losses : List (Now × Event)
three_losses =
    (at_ten 7, filled losing_fill)
    ∷ (at_ten 7, filled losing_fill)
    ∷ (at_eleven 7, filled losing_fill)
    ∷ []

-- A desk whose breaker has tripped, and one at the trade limit.
abbrev tripped_desk : Desk
tripped_desk = record {
  manager = record sample_manager { trading_paused_by_circuit_breaker = true };
  saved = (1, record sample_counters { circuit_breaker = true }) ∷ [];
}

abbrev spent_desk : Desk
spent_desk = record {
  manager = record sample_manager { trades_today = 2 };
  saved = (1, record sample_counters { trades_today = 2 }) ∷ [];
}

-- Two new days begin, and the halt of day 7 stays.
emergency_halt_stays_example :
    (can_trade
      (run 1 ((at_ten 8, day_started) ∷ (at_ten 9, day_started) ∷ []) (record spent_desk {
        manager = (can_trade spent_desk.manager no_controls (ask buy)).0;
      })).manager
      no_controls
      (ask buy)).1
    ≢ ok allowed
unfolding can_trade alpha_live.Utils.EnvBool.parse_bool_env alpha_live.Risk.Types.init
emergency_halt_stays_example =
    emergency_halt_stays 1 ((at_ten 8, day_started) ∷ (at_ten 9, day_started) ∷ []) spent_desk
      no_controls no_controls (ask buy) (ask buy) (max_trades 2) refl refl (refl, (refl, tt))
      (ground arith)
