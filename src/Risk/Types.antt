-- ===== src/Risk/Types.antt =====
-- The state of `RiskManager`, the settings it reads, and what it sends and returns. Quantities are in
-- units of 10⁻⁹ shares, prices in units of 10⁻⁶ dollars a share, dollar amounts in units of 10⁻¹⁵
-- dollars, so that a quantity times a price is an amount; percentages are in units of 10⁻⁶ percent.
use alpha_live.Prelude.{ℕ, Bool, false, Option, none, some, List, [], ℤ, pos, ◌==◌}
use alpha_live.Prelude.Dict.{Dict}

-- One dollar.
abbrev pub dollar : ℕ
dollar = 1000000000000000

-- One share, and a thousandth of it.
abbrev pub share : ℕ
share = 1000000000

abbrev pub milli : ℕ
milli = 1000000

-- One hundred percent.
abbrev pub whole : ℕ
whole = 100000000

pub data OrderType : Type 0 where
  market limit : OrderType

pub data Signal : Type 0 where
  buy sell hold : Signal

-- `Risk` of strategy_schema.py.
pub record RiskConfig : Type 0 where
  pub stop_loss_pct : ℕ
  pub take_profit_pct : ℕ
  pub max_position_size_pct : ℕ
  pub max_daily_loss_pct : ℕ
  pub max_open_positions : ℕ
  pub portfolio_max_positions : ℕ
  pub trailing_stop_enabled : Bool
  pub trailing_stop_pct : Option ℕ
  pub commission_per_trade : ℕ

-- `Execution` of strategy_schema.py.
pub record Execution : Type 0 where
  pub order_type : OrderType
  pub limit_offset_pct : ℕ
  pub cooldown_bars : ℕ

-- The limits of `SafetyLimits` that the risk manager enforces.
pub record SafetyLimits : Type 0 where
  pub max_trades_per_day : ℕ
  pub max_api_calls_per_hour : ℕ
  pub broker_failure_threshold : ℕ

-- A reading of `datetime.now(ET)`: the date and the hour there, and the instant in seconds.
pub record Now : Type 0 where
  pub date : ℕ
  pub hour : ℕ
  pub instant : ℕ

-- The alerts that go to the notifier.
pub data Alert : Type 0 where
  circuit_breaker_alert : ℕ → Alert
  trades_halt_alert : ℕ → ℕ → Alert
  api_halt_alert : ℕ → ℕ → Alert
  degraded_alert : ℕ → Alert
  degraded_cleared_alert : Alert

-- The counters of one manager as `BotState` keeps them under a key.
pub record Counters : Type 0 where
  pub date : ℕ
  pub trades_today : ℕ
  pub daily_pnl : ℤ
  pub consecutive_losses : ℕ
  pub circuit_breaker : Bool
  pub last_trade_bar_ts : Dict ℕ

-- The `risk_counters` of `BotState.state`.
abbrev pub Saved : Type 0
Saved = Dict Counters

pub record Trade : Type 0 where
  pub ticker : ℕ
  pub pnl : ℤ
  pub timestamp : ℕ

-- `self.max_consecutive_losses`, which nothing changes.
abbrev pub max_consecutive_losses : ℕ
max_consecutive_losses = 3

pub record RiskManager : Type 0 where
  pub risk_config : RiskConfig
  pub execution_config : Execution
  pub limits : SafetyLimits
  pub notifier : Bool
  pub state_key : Option ℕ
  pub daily_pnl : ℤ
  pub daily_trades : List Trade
  pub last_reset_date : Option ℕ
  pub consecutive_losses : ℕ
  pub trading_paused_by_circuit_breaker : Bool
  pub last_trade_bar : Dict ℕ
  pub last_trade_bar_ts : Dict ℕ
  pub trades_today : ℕ
  pub api_calls_this_hour : ℕ
  pub last_hour_reset : ℕ
  pub broker_consecutive_failures : ℕ
  pub degraded_mode : Bool
  pub trading_paused_manual : Bool
  pub sent : List Alert

-- `__init__`; `hour` is the hour of the clock at that time.
unfoldable pub init : RiskConfig → Execution → SafetyLimits → Bool → ℕ → RiskManager
init risk_config execution_config limits notifier hour = record {
  risk_config = risk_config;
  execution_config = execution_config;
  limits = limits;
  notifier = notifier;
  state_key = none;
  daily_pnl = pos 0;
  daily_trades = [];
  last_reset_date = none;
  consecutive_losses = 0;
  trading_paused_by_circuit_breaker = false;
  last_trade_bar = [];
  last_trade_bar_ts = [];
  trades_today = 0;
  api_calls_this_hour = 0;
  last_hour_reset = hour;
  broker_consecutive_failures = 0;
  degraded_mode = false;
  trading_paused_manual = false;
  sent = [];
}

-- `d == today`, where `d` may be missing.
unfoldable pub is_date : Option ℕ → ℕ → Bool
is_date none today = false
is_date (some d) today = d == today
