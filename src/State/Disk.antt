-- ===== src/State/Disk.antt =====
-- `_load`, `_handle_unreadable_state`, `_migrate` and `save`. What reading and parsing a file gives is
-- a value; a parsed object may lack any key, as an older or hand-edited file does.
pub mod Load
mod Tests
use alpha_live.Prelude.{
  ℕ, Bool, true, false, Option, none, some, List, [], ltb, leb, if◌then◌else◌, get_or, ℤ, Outcome,
  ok, raise, state_schema, state_corruption,
}
use alpha_live.Prelude.Dict.{Dict}
use alpha_live.Utils.EnvBool.{parse_bool_env}
use alpha_live.Risk.Types.{Saved}
use alpha_live.Risk.Global.{TelegramPause}
use alpha_live.State.Types.{Position, Intent, Dated, Snapshot, BotState, default_state}

-- `CURRENT_SCHEMA_VERSION`
abbrev pub current_schema_version : ℕ
current_schema_version = 3

-- A JSON object as read: `none` for a key that is not there. The last four keys have no default.
pub record Raw : Type 0 where
  pub schema_version : Option ℕ
  pub last_morning_check_date : Option (Option ℕ)
  pub last_eod_summary_date : Option (Option ℕ)
  pub daily_pnl : Option ℤ
  pub position_highs : Option (Dict ℕ)
  pub entry_timestamps : Option (Dict ℕ)
  pub open_positions : Option (Dict Position)
  pub submission_intents : Option (Dict Intent)
  pub weekly_eval_keys : Option (Dict ℕ)
  pub daily_eval_dates : Option (Dict ℕ)
  pub telegram : Option TelegramPause
  pub risk_counters : Option Saved
  pub last_startup : Option (Option ℕ)
  pub daily_pnl_date : Option ℕ
  pub morning_equity : Option Dated
  pub last_screener_month : Option ℕ
  pub engine_state : Option (Dict Snapshot)

-- What reading a file gives.
pub data File : Type 0 where
  missing unreadable corrupted : File
  parsed : Raw → File

-- `_migrate`: every key that is not there gets its default.
unfoldable pub migrate : Raw → BotState
unfolding default_state
migrate r = record {
  last_morning_check_date = get_or r.last_morning_check_date default_state.last_morning_check_date;
  last_eod_summary_date = get_or r.last_eod_summary_date default_state.last_eod_summary_date;
  daily_pnl = get_or r.daily_pnl default_state.daily_pnl;
  daily_pnl_date = r.daily_pnl_date;
  position_highs = get_or r.position_highs default_state.position_highs;
  entry_timestamps = get_or r.entry_timestamps default_state.entry_timestamps;
  open_positions = get_or r.open_positions default_state.open_positions;
  submission_intents = get_or r.submission_intents default_state.submission_intents;
  weekly_eval_keys = get_or r.weekly_eval_keys default_state.weekly_eval_keys;
  daily_eval_dates = get_or r.daily_eval_dates default_state.daily_eval_dates;
  telegram = get_or r.telegram default_state.telegram;
  risk_counters = get_or r.risk_counters default_state.risk_counters;
  morning_equity = r.morning_equity;
  last_screener_month = r.last_screener_month;
  last_startup = get_or r.last_startup default_state.last_startup;
  engine_state = get_or r.engine_state [];
}

-- What `json.dump(self.state)` writes, at the current version.
unfoldable pub dump : BotState → Raw
dump s = record {
  schema_version = some current_schema_version;
  last_morning_check_date = some s.last_morning_check_date;
  last_eod_summary_date = some s.last_eod_summary_date;
  daily_pnl = some s.daily_pnl;
  position_highs = some s.position_highs;
  entry_timestamps = some s.entry_timestamps;
  open_positions = some s.open_positions;
  submission_intents = some s.submission_intents;
  weekly_eval_keys = some s.weekly_eval_keys;
  daily_eval_dates = some s.daily_eval_dates;
  telegram = some s.telegram;
  risk_counters = some s.risk_counters;
  last_startup = some s.last_startup;
  daily_pnl_date = s.daily_pnl_date;
  morning_equity = s.morning_equity;
  last_screener_month = s.last_screener_month;
  engine_state = some s.engine_state;
}

abbrev pub version : Raw → ℕ
version r = get_or r.schema_version 1

-- The `persistent_storage` of the fallback: a malformed value counts as unset.
abbrev pub is_persistent : Outcome Bool → Bool
is_persistent (ok b) = b
is_persistent (raise e) = false

unfoldable pub from_defaults : Option (List ℕ) → Outcome BotState
from_defaults env =
    if is_persistent (parse_bool_env env false) then raise state_corruption else ok default_state

-- `_handle_unreadable_state`
unfoldable pub handle_unreadable_state : File → Option (List ℕ) → Outcome BotState
unfolding from_defaults
handle_unreadable_state (parsed r) env =
    if leb (version r) current_schema_version then ok (migrate r) else from_defaults env
handle_unreadable_state missing env = from_defaults env
handle_unreadable_state unreadable env = from_defaults env
handle_unreadable_state corrupted env = from_defaults env

-- `_load`, on the state file, its backup, and the value of PERSISTENT_STORAGE.
unfoldable pub load : File → File → Option (List ℕ) → Outcome BotState
unfolding handle_unreadable_state
load missing backup env = ok default_state
load unreadable backup env = handle_unreadable_state backup env
load corrupted backup env = handle_unreadable_state backup env
load (parsed r) backup env =
    if ltb current_schema_version (version r) then raise state_schema else ok (migrate r)

-- The bot's state in memory, and the two files that a save replaces. Whether the next write of each
-- file succeeds is the environment's choice.
pub record Store : Type 0 where
  pub mem : BotState
  pub file : File
  pub backup : File
  pub file_ok : Bool
  pub backup_ok : Bool

-- `save`: each file is replaced whole or left as it was; the backup only after the state file.
unfoldable pub save : Store → Store × Bool
save s =
    if s.file_ok
    then (
      record s {
        file = parsed (dump s.mem);
        backup = if s.backup_ok then parsed (dump s.mem) else s.backup;
      },
      true,
    )
    else (s, false)

-- A mutator: change the state in memory, then save.
unfoldable pub mutate : (BotState → BotState) → Store → Store × Bool
unfolding save
mutate f s = save (record s { mem = f s.mem })
