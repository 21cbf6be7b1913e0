-- ===== src/Risk/Daily.antt =====
-- The counters of the risk manager: daily reset, persistence, orders, fills, trades, API calls and
-- broker failures. A method that persists also takes and returns the saved counters.
pub mod Degraded
pub mod Hourly
mod Tests
use alpha_live.Prelude.{
  ℕ, suc, ◌+◌, Bool, true, false, not, ◌&&◌, Option, none, some, List, [], ◌∷◌, ◌++◌, ℤ, pos, ◌+ℤ◌,
  leb, ltb, ltb_ℤ, ◌==◌, if◌then◌else◌, get_or,
}
use alpha_live.Prelude.Dict.{Dict, lookup, insert}
use alpha_live.Risk.Types.{
  Now, Alert, circuit_breaker_alert, degraded_alert, degraded_cleared_alert, Counters, Saved, Trade,
  max_consecutive_losses, RiskManager, is_date,
}

-- A broker-confirmed fill, as `apply_intent_fill_progress` reports it.
pub record Fill : Type 0 where
  pub ticker : ℕ
  pub realized_pnl : ℤ
  pub round_trip_closed : Bool
  pub round_trip_pnl : Option ℤ

-- What a method works on: the manager and the counters that `BotState` keeps.
pub record Desk : Type 0 where
  pub manager : RiskManager
  pub open manager use *
  pub saved : Saved

unfoldable pub send : Alert → RiskManager → RiskManager
send a m = if m.notifier then record m { sent = m.sent ++ a ∷ [] } else m

unfoldable pub counters : Now → RiskManager → Counters
counters now m = record {
  date = get_or m.last_reset_date now.date;
  trades_today = m.trades_today;
  daily_pnl = m.daily_pnl;
  consecutive_losses = m.consecutive_losses;
  circuit_breaker = m.trading_paused_by_circuit_breaker;
  last_trade_bar_ts = m.last_trade_bar_ts;
}

-- `_persist`
unfoldable pub persist : Now → Desk → Desk
unfolding counters
persist now d = elim d.state_key [
  | none ↦ d
  | some key ↦ record d { saved = insert key (counters now d.manager) d.saved }
]

unfoldable pub zeroed : ℕ → RiskManager → RiskManager
zeroed today m = record m {
  daily_pnl = pos 0;
  daily_trades = [];
  consecutive_losses = 0;
  trading_paused_by_circuit_breaker = false;
  trades_today = 0;
  last_reset_date = some today;
}

unfoldable pub reset_daily : Now → Desk → Desk
unfolding zeroed persist is_date
reset_daily now d =
    if is_date d.last_reset_date now.date
    then d
    else persist now (record d { manager = zeroed now.date d.manager })

-- `bot_state.get_risk_counters`
unfoldable pub get_risk_counters : ℕ → ℕ → Saved → Option Counters
get_risk_counters key today saved = elim (lookup key saved) [
  | none ↦ none
  | some c ↦ if c.date == today then some c else none
]

abbrev pub saved_bar_ts : Option Counters → Dict ℕ
saved_bar_ts none = []
saved_bar_ts (some c) = c.last_trade_bar_ts

unfoldable pub restored : ℕ → Counters → RiskManager → RiskManager
restored today c m = record m {
  trades_today = c.trades_today;
  daily_pnl = c.daily_pnl;
  consecutive_losses = c.consecutive_losses;
  trading_paused_by_circuit_breaker = c.circuit_breaker;
  last_trade_bar_ts = c.last_trade_bar_ts;
  last_reset_date = some today;
}

unfoldable pub attach_state : ℕ → Now → Desk → Desk
unfolding get_risk_counters restored persist
attach_state key now d =
    let m = record d.manager { state_key = some key } in
    elim (get_risk_counters key now.date d.saved) [
      | some c ↦ record d { manager = restored now.date c m }
      | none ↦ persist now (record d {
        manager = record m {
          last_trade_bar_ts = saved_bar_ts (lookup key d.saved);
          last_reset_date = some now.date;
        };
      })
    ]

abbrev start_cooldown : ℕ → Option ℕ → Dict ℕ → Dict ℕ
start_cooldown ticker none ts = ts
start_cooldown ticker (some bar) ts = insert ticker bar ts

unfoldable pub record_order_submitted : ℕ → Option ℕ → Now → Desk → Desk
unfolding reset_daily persist
record_order_submitted ticker bar now d =
    let e = reset_daily now d in
    persist now (record e {
      manager = record e.manager {
        trades_today = e.trades_today + 1;
        last_trade_bar_ts = start_cooldown ticker bar e.last_trade_bar_ts;
      };
    })

-- A completed round trip that lost adds to the streak, any other ends it.
abbrev streak : ℕ → ℤ → ℕ
streak losses pnl = if ltb_ℤ pnl (pos 0) then losses + 1 else 0

unfoldable pub trip_breaker : RiskManager → RiskManager
unfolding send
trip_breaker m =
    if leb max_consecutive_losses m.consecutive_losses
    then record (if m.trading_paused_by_circuit_breaker
        then m
        else send (circuit_breaker_alert m.consecutive_losses) m) {
          trading_paused_by_circuit_breaker = true;
        }
    else m

-- `fill.get("round_trip_closed") and fill.get("round_trip_pnl") is not None`
abbrev pub round_trip : Fill → Option ℤ
round_trip f = if f.round_trip_closed then f.round_trip_pnl else none

unfoldable pub close_round_trip : Option ℤ → RiskManager → RiskManager
unfolding trip_breaker
close_round_trip none m = m
close_round_trip (some pnl) m =
    trip_breaker (record m { consecutive_losses = streak m.consecutive_losses pnl })

abbrev log_trade : Now → ℕ → ℤ → RiskManager → RiskManager
log_trade now ticker pnl m = record m {
  daily_trades =
      m.daily_trades ++ record { ticker = ticker; pnl = pnl; timestamp = now.instant } ∷ [];
}

unfoldable pub record_fill_result : Fill → Now → Desk → Desk
unfolding reset_daily close_round_trip persist
record_fill_result f now d =
    let e = reset_daily now d in
    let m = record e.manager { daily_pnl = e.daily_pnl +ℤ f.realized_pnl } in
    persist now (record e {
      manager = log_trade now f.ticker f.realized_pnl (close_round_trip (round_trip f) m);
    })

-- `record_trade`, which neither resets nor persists.
unfoldable pub record_trade : ℕ → ℤ → Option ℕ → Now → RiskManager → RiskManager
record_trade ticker pnl bar now m =
    let losses = streak m.consecutive_losses pnl in
    log_trade now ticker pnl (record m {
      daily_pnl = m.daily_pnl +ℤ pnl;
      trades_today = m.trades_today + 1;
      consecutive_losses = losses;
      trading_paused_by_circuit_breaker =
          if leb max_consecutive_losses losses then true else m.trading_paused_by_circuit_breaker;
      last_trade_bar = start_cooldown ticker bar m.last_trade_bar;
    })

unfoldable pub record_api_call : Now → RiskManager → RiskManager
record_api_call now m =
    if now.hour == m.last_hour_reset
    then record m { api_calls_this_hour = m.api_calls_this_hour + 1 }
    else record m { api_calls_this_hour = 1; last_hour_reset = now.hour }

unfoldable pub enter_degraded_mode : RiskManager → RiskManager
unfolding send
enter_degraded_mode m =
    if m.degraded_mode
    then m
    else send (degraded_alert m.broker_consecutive_failures) (record m { degraded_mode = true })

unfoldable pub record_broker_failure : RiskManager → RiskManager
unfolding enter_degraded_mode
record_broker_failure m =
    let n = record m { broker_consecutive_failures = m.broker_consecutive_failures + 1 } in
    if leb n.limits.broker_failure_threshold n.broker_consecutive_failures
    then enter_degraded_mode n
    else n

unfoldable pub record_broker_success : RiskManager → RiskManager
record_broker_success m = record m { broker_consecutive_failures = 0 }

unfoldable pub exit_degraded_mode : RiskManager → RiskManager
unfolding send
exit_degraded_mode m =
    if m.degraded_mode
    then send degraded_cleared_alert
        (record m { degraded_mode = false; broker_consecutive_failures = 0 })
    else m
