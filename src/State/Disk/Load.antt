-- ===== src/State/Disk/Load.antt =====
-- What a restart reads back, and when the bot starts from nothing.
use alpha_live.Prelude.{
  ◌≡◌, ◌≢◌, ◌⊎◌, refl, true, false, Option, List, ℕ, ◌≤◌, arith, inl, inr, ok, Bool-cases, ltb, leb,
}
use alpha_live.Utils.EnvBool.{parse_bool_env}
use alpha_live.State.Types.{BotState}
use alpha_live.State.Disk.{
  Raw, File, missing, unreadable, corrupted, parsed, migrate, dump, version, current_schema_version,
  handle_unreadable_state, from_defaults, load, Store, mutate,
}

migrate-dump : (s : BotState) → migrate (dump s) ≡ s
unfolding migrate dump
migrate-dump s = refl

version-dump : (s : BotState) → ltb current_schema_version (version (dump s)) ≡ false
unfolding dump
version-dump s = refl

pub load-dump :
    (s : BotState) {file : File} (other : File) (env : Option (List ℕ))
    → file ≡ parsed (dump s)
    → load file other env ≡ ok s
unfolding load
load-dump s other env e = rw (e, version-dump s, migrate-dump s)

backup_dump :
    (s : BotState) {file : File} (env : Option (List ℕ))
    → file ≡ parsed (dump s)
    → load corrupted file env ≡ ok s
unfolding load dump
backup_dump s env e = rw (e, migrate-dump s)

-- What was saved is what a restart loads: after a mutator whose write succeeded, loading the state
-- file gives the state in memory, whatever the backup holds; and with a state file damaged since, the
-- backup gives it, if its write succeeded too. A write that fails leaves both files as they were.
pub load-save :
    (f : BotState → BotState) (s : Store) (other : File) (env : Option (List ℕ))
    → let (s', done) = mutate f s in
      (done ≡ s.file_ok)
      × (done ≡ true → load s'.file other env ≡ ok (f s.mem))
      × (done ≡ true → s.backup_ok ≡ true → load corrupted s'.backup env ≡ ok (f s.mem))
      × (done ≡ false → (s'.file ≡ s.file) × (s'.backup ≡ s.backup))
      × (s'.mem ≡ f s.mem)
unfolding mutate
load-save f s other env = elim (Bool-cases s.file_ok) [
  | inl w ↦ (
    ground arith,
    λ d. load-dump (f s.mem) other env (ground arith),
    λ d b. backup_dump (f s.mem) env (ground arith),
    λ d. ground arith,
    ground arith,
  )
  | inr w ↦ (
    ground arith,
    λ d. absurd (ground arith),
    λ d b. absurd (ground arith),
    λ d. (ground arith, ground arith),
    ground arith,
  )
]

from_defaults-persistent :
    (env : Option (List ℕ)) (s : BotState)
    → parse_bool_env env false ≡ ok true
    → from_defaults env ≢ ok s
unfolding from_defaults
from_defaults-persistent env s p e = ground arith

backup_only :
    (backup : File) (env : Option (List ℕ)) (s : BotState)
    → parse_bool_env env false ≡ ok true
    → handle_unreadable_state backup env ≡ ok s
    → (r : Raw) × (backup ≡ parsed r) × (version r ≤ current_schema_version) × (s ≡ migrate r)
unfolding handle_unreadable_state
backup_only missing env s p e = absurd (from_defaults-persistent env s p e)
backup_only unreadable env s p e = absurd (from_defaults-persistent env s p e)
backup_only corrupted env s p e = absurd (from_defaults-persistent env s p e)
backup_only (parsed r) env s p e = elim (Bool-cases (leb (version r) current_schema_version)) [
  | inl old ↦ (r, refl, ground arith, ground arith)
  | inr newer ↦ absurd (from_defaults-persistent env s p (ground arith))
]

-- The bot never starts from nothing behind the operator's back: where PERSISTENT_STORAGE is on, a
-- state file that is there gives either a state that a file held or an error.
pub no_silent_reset :
    (file backup : File) (env : Option (List ℕ)) (s : BotState)
    → parse_bool_env env false ≡ ok true
    → file ≢ missing
    → load file backup env ≡ ok s
    → (r : Raw) × ((file ≡ parsed r) ⊎ (backup ≡ parsed r))
      × (version r ≤ current_schema_version)
      × (s ≡ migrate r)
unfolding load
no_silent_reset missing backup env s p there e = absurd (there refl)
no_silent_reset unreadable backup env s p there e =
    let (r, b, v, m) = backup_only backup env s p e in (r, inr b, v, m)
no_silent_reset corrupted backup env s p there e =
    let (r, b, v, m) = backup_only backup env s p e in (r, inr b, v, m)
no_silent_reset (parsed r) backup env s p there e = (r, inl refl, ground arith, ground arith)
