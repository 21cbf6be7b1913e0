-- ===== src/Risk/Daily/Hourly.antt =====
-- The hourly counter of API calls, and the daily reset.
use alpha_live.Prelude.{ℕ, ◌+◌, ◌≡◌, ◌≢◌, false, some, List, [], ◌∷◌, arith, pos}
use alpha_live.Prelude.Lists.{length, All}
use alpha_live.Prelude.Dict.{lookup-insert_self}
use alpha_live.Risk.Types.{Now, Counters, RiskManager}
use alpha_live.Risk.Daily.{Desk, reset_daily, get_risk_counters, record_api_call}

-- One call of the broker's API at each reading of the clock.
unfoldable pub api_calls : List Now → RiskManager → RiskManager
unfolding record_api_call
api_calls [] m = m
api_calls (now ∷ ts) m = api_calls ts (record_api_call now m)

-- The counter goes by the hour of the day alone: calls in the same hour of the day are counted
-- together on whatever dates they are made, as long as none is made in another hour.
pub api_calls_same_hour :
    (ts : List Now) (m : RiskManager)
    → All (λ (t : Now). t.hour ≡ m.last_hour_reset) ts
    → (api_calls ts m).api_calls_this_hour ≡ m.api_calls_this_hour + length ts
unfolding api_calls
api_calls_same_hour [] m h = omega arith
api_calls_same_hour (now ∷ ts) m h = ground (
  arith,
  api_calls_same_hour ts (record m { api_calls_this_hour = m.api_calls_this_hour + 1 }) h.1,
)

-- The first call in another hour of the day starts the count again at one, and later calls in that
-- hour add to it.
pub api_calls_new_hour :
    (now : Now) (ts : List Now) (m : RiskManager)
    → now.hour ≢ m.last_hour_reset
    → All (λ (t : Now). t.hour ≡ now.hour) ts
    → (api_calls (now ∷ ts) m).api_calls_this_hour ≡ 1 + length ts
unfolding api_calls
api_calls_new_hour now ts m ne h = ground (
  arith,
  api_calls_same_hour ts (record m { api_calls_this_hour = 1; last_hour_reset = now.hour }) h,
)

-- A new day's reset: the counters are zero and stored so, the cooldown timestamps stay, and a second
-- reset on that day changes nothing.
pub reset_daily_new_day :
    (key : ℕ) (now : Now) (d : Desk)
    → d.state_key ≡ some key
    → d.last_reset_date ≢ some now.date
    → let e = reset_daily now d in
      (e.trades_today ≡ 0)
      × (e.daily_pnl ≡ pos 0)
      × (e.consecutive_losses ≡ 0)
      × (e.trading_paused_by_circuit_breaker ≡ false)
      × (e.last_trade_bar_ts ≡ d.last_trade_bar_ts)
      × (get_risk_counters key now.date e.saved
          ≡ some (record {
            date = now.date;
            trades_today = 0;
            daily_pnl = pos 0;
            consecutive_losses = 0;
            circuit_breaker = false;
            last_trade_bar_ts = d.last_trade_bar_ts;
          }))
      × (reset_daily now e ≡ e)
unfolding reset_daily get_risk_counters
reset_daily_new_day key now d k ne =
    let fresh : Counters = record {
      date = now.date;
      trades_today = 0;
      daily_pnl = pos 0;
      consecutive_losses = 0;
      circuit_breaker = false;
      last_trade_bar_ts = d.last_trade_bar_ts;
    } in
    ground (arith, lookup-insert_self key fresh d.saved)
