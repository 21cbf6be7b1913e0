-- ===== src/State/Disk/Tests.antt =====
-- Runs of loading and saving on concrete files.
use alpha_live.Prelude.{
  ◌≤◌, ◌≡◌, ◌⊎◌, refl, true, false, none, some, arith, pos, ok, raise, state_schema,
  state_corruption,
}
use alpha_live.Utils.EnvBool.{codes, parse_bool_env, is_space}
use alpha_live.State.Types.{BotState, default_state}
use alpha_live.State.Disk.{
  Raw, missing, unreadable, corrupted, parsed, migrate, dump, version, current_schema_version, load,
  Store, mutate,
}
use alpha_live.State.Disk.Load.{load-save, no_silent_reset}

-- A state with a profit, and a store that holds it.
abbrev profitable : BotState
profitable = record default_state { daily_pnl = pos 250; last_startup = some 9 }

abbrev disk : Store
disk = record {
  mem = profitable;
  file = parsed (dump default_state);
  backup = corrupted;
  file_ok = true;
  backup_ok = true;
}

abbrev with_screener : BotState → BotState
with_screener s = record s { last_screener_month = some 202610 }

future_version :
    load (parsed (record (dump profitable) { schema_version = some 4 })) missing none
    ≡ raise state_schema
unfolding load
future_version = refl

nothing_readable : load corrupted unreadable (some (codes "true")) ≡ raise state_corruption
unfolding load is_space parse_bool_env
nothing_readable = refl

load-save_example :
    let (s', done) = mutate with_screener disk in
    (done ≡ true)
    × (done ≡ true → load s'.file missing none ≡ ok (with_screener profitable))
    × (done ≡ true → true ≡ true → load corrupted s'.backup none ≡ ok (with_screener profitable))
    × (done ≡ false → (s'.file ≡ parsed (dump default_state)) × (s'.backup ≡ corrupted))
    × (s'.mem ≡ with_screener profitable)
load-save_example = load-save with_screener disk missing none

no_silent_reset_example :
    (r : Raw) × ((corrupted ≡ parsed r) ⊎ (parsed (dump profitable) ≡ parsed r))
    × (version r ≤ current_schema_version)
    × (profitable ≡ migrate r)
unfolding load is_space parse_bool_env dump migrate
no_silent_reset_example =
    no_silent_reset corrupted (parsed (dump profitable)) (some (codes "true")) profitable refl
      (ground arith) refl
