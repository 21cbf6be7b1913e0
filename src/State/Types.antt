-- ===== src/State/Types.antt =====
-- What `BotState.state` holds. Units are those of Risk/Types.antt: quantities in 10⁻⁹ shares, prices
-- in 10⁻⁶ dollars a share, amounts in 10⁻¹⁵ dollars. Times are instants in seconds, dates and week
-- keys are numbers, tickers and identifiers too.
use alpha_live.Prelude.{ℕ, Bool, true, false, Option, none, [], ℤ, pos}
use alpha_live.Prelude.Dict.{Dict}
use alpha_live.Risk.Types.{OrderType, Saved}
use alpha_live.Risk.Global.{TelegramPause}

-- An entry of `open_positions`.
pub record Position : Type 0 where
  pub qty : ℕ
  pub entry_price : ℕ
  pub opened_at : ℕ
  pub realized_pnl : ℤ

-- The side of an intent.
pub data Side : Type 0 where
  buy sell close : Side

-- The INTENT_ statuses.
pub data Status : Type 0 where
  prepared submitting submitted partially_filled filled : Status
  rejected cancelled expired uncertain reconciled abandoned : Status

-- The texts of `last_error`.
pub data Note : Type 0 where
  no_error never_submitted not_found lookup_failed unrecognized_status : Note
  raised_error filled_not_flat reversed_short inconsistent_remainder : Note

-- A submission intent. `qty` is what was asked for, `filled_qty_applied` what has been booked.
pub record Intent : Type 0 where
  pub intent_id : ℕ
  pub client_order_id : ℕ
  pub ticker : ℕ
  pub side : Side
  pub qty : ℤ
  pub order_type : OrderType
  pub status : Status
  pub broker_order_id : Option ℕ
  pub created_at : ℕ
  pub updated_at : ℕ
  pub last_error : Note
  pub filled_qty_applied : ℕ
  pub filled_value_applied : ℕ
  pub commission_applied : Bool
  pub not_found_since : Option ℕ

-- A date and an amount.
pub record Dated : Type 0 where
  pub date : ℕ
  pub value : ℤ

-- A stored engine snapshot; `none` for a key that is not there.
pub record Snapshot : Type 0 where
  pub in_position : Option Bool
  pub entry_price : Option ℕ
  pub peak_price : Option ℕ
  pub peak_bar_ts : Option ℕ
  pub vwap_position : Option ℤ
  pub vwap_bars_since_signal : Option ℕ

pub record BotState : Type 0 where
  pub last_morning_check_date : Option ℕ
  pub last_eod_summary_date : Option ℕ
  pub daily_pnl : ℤ
  pub daily_pnl_date : Option ℕ
  pub position_highs : Dict ℕ
  pub entry_timestamps : Dict ℕ
  pub open_positions : Dict Position
  pub submission_intents : Dict Intent
  pub weekly_eval_keys : Dict ℕ
  pub daily_eval_dates : Dict ℕ
  pub telegram : TelegramPause
  pub risk_counters : Saved
  pub morning_equity : Option Dated
  pub last_screener_month : Option ℕ
  pub last_startup : Option ℕ
  pub engine_state : Dict Snapshot

-- `QTY_EPSILON`, a millionth of a share.
abbrev pub qty_epsilon : ℕ
qty_epsilon = 1000

-- `_default_state`
unfoldable pub default_state : BotState
default_state = record {
  last_morning_check_date = none;
  last_eod_summary_date = none;
  daily_pnl = pos 0;
  daily_pnl_date = none;
  position_highs = [];
  entry_timestamps = [];
  open_positions = [];
  submission_intents = [];
  weekly_eval_keys = [];
  daily_eval_dates = [];
  telegram = record { paused = false; reason = none };
  risk_counters = [];
  morning_equity = none;
  last_screener_month = none;
  last_startup = none;
  engine_state = [];
}

-- `status in OPEN_INTENT_STATUSES`
unfoldable pub is_open : Status → Bool
is_open Status.prepared = true
is_open Status.submitting = true
is_open Status.submitted = true
is_open Status.partially_filled = true
is_open Status.uncertain = true
is_open _ = false
