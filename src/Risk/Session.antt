-- ===== src/Risk/Session.antt =====
-- A session: the calls that main.py and the order manager make on one risk manager, in any order,
-- with restarts of the process among them. Each call comes with the reading of the clock.
pub mod Sync
pub mod Locks
pub mod Pause
pub mod Sound
mod Tests
use alpha_live.Prelude.{ℕ, ◌+◌, Bool, true, false, Option, List, [], ◌∷◌}
use alpha_live.Risk.Types.{Now, RiskManager, init}
use alpha_live.Risk.Daily.{
  Fill, Desk, reset_daily, attach_state, record_order_submitted, record_fill_result,
  record_api_call, record_broker_failure, record_broker_success, exit_degraded_mode,
}
use alpha_live.Risk.Gate.{Controls, Request, can_trade}

pub data Event : Type 0 where
  day_started : Event
  submitted : ℕ → Option ℕ → Event
  filled : Fill → Event
  asked : Controls → Request → Event
  called_api broker_failed broker_answered : Event
  restarted : Event

-- What main.py does for each strategy at startup: a new manager, attached to the saved state.
unfoldable pub restart : ℕ → Now → Desk → Desk
unfolding attach_state init
restart key now d =
    attach_state key now
      (record d { manager = init d.risk_config d.execution_config d.limits d.notifier now.hour })

-- `_record_broker_call(success=True)` of main.py.
unfoldable pub broker_call_ok : RiskManager → RiskManager
unfolding record_broker_success exit_degraded_mode
broker_call_ok m = exit_degraded_mode (record_broker_success m)

unfoldable pub step : ℕ → Now → Event → Desk → Desk
step key now day_started d = reset_daily now d
step key now (submitted ticker bar) d = record_order_submitted ticker bar now d
step key now (filled f) d = record_fill_result f now d
step key now (asked c r) d = record d { manager = (can_trade d.manager c r).0 }
step key now called_api d = record d { manager = record_api_call now d.manager }
step key now broker_failed d = record d { manager = record_broker_failure d.manager }
step key now broker_answered d = record d { manager = broker_call_ok d.manager }
step key now restarted d = restart key now d

unfoldable pub run : ℕ → List (Now × Event) → Desk → Desk
unfolding step
run key [] d = d
run key ((now, e) ∷ es) d = run key es (step key now e d)
