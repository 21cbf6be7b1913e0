-- ===== src/Risk/Samples.antt =====
-- Settings, managers and requests for the tests of the risk manager.
use alpha_live.Prelude.{ℕ, ◌+◌, ◌*◌, true, false, none, some, [], ◌∷◌, pos}
use alpha_live.Risk.Types.{
  RiskConfig, market, Execution, SafetyLimits, Now, RiskManager, init, Signal, dollar, Counters,
}
use alpha_live.Risk.Daily.{Desk}
use alpha_live.Risk.Gate.{Controls, Request}

-- A 2 % stop, a 5 % target, a 1 % trailing stop, 10 % a position and 3 % a day.
abbrev pub sample_risk : RiskConfig
sample_risk = record {
  stop_loss_pct = 2000000;
  take_profit_pct = 5000000;
  max_position_size_pct = 10000000;
  max_daily_loss_pct = 3000000;
  max_open_positions = 5;
  portfolio_max_positions = 10;
  trailing_stop_enabled = true;
  trailing_stop_pct = some 1000000;
  commission_per_trade = 0;
}

abbrev pub sample_execution : Execution
sample_execution = record { order_type = market; limit_offset_pct = 0; cooldown_bars = 1 }

abbrev pub sample_limits : SafetyLimits
sample_limits = record {
  max_trades_per_day = 2;
  max_api_calls_per_hour = 500;
  broker_failure_threshold = 3;
}

-- Ten in the morning on day `date`.
abbrev pub at_ten : ℕ → Now
at_ten date = record { date = date; hour = 10; instant = date * 86400 + 36000 }

abbrev pub at_eleven : ℕ → Now
at_eleven date = record { date = date; hour = 11; instant = date * 86400 + 39600 }

-- A manager that was reset on day 7.
abbrev pub sample_manager : RiskManager
sample_manager = record (init sample_risk sample_execution sample_limits true 10) {
  state_key = some 1;
  last_reset_date = some 7;
}

-- The manager and, under its key 1, what it has saved on day 7.
abbrev pub sample_counters : Counters
sample_counters = record {
  date = 7;
  trades_today = 0;
  daily_pnl = pos 0;
  consecutive_losses = 0;
  circuit_breaker = false;
  last_trade_bar_ts = [];
}

abbrev pub sample_desk : Desk
sample_desk = record { manager = sample_manager; saved = (1, sample_counters) ∷ [] }

abbrev pub no_controls : Controls
no_controls = record { trading_paused_env = none; global_pause = none }

abbrev pub ask : Signal → Request
ask signal = record {
  ticker = 5;
  signal = signal;
  account_equity = pos (10000 * dollar);
  current_positions_count = 1;
  total_portfolio_positions = 2;
  current_bar = none;
}
