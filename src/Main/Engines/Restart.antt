-- ===== src/Main/Engines/Restart.antt =====
-- The engines after a restart.
use alpha_live.Prelude.{ℕ, ◌≡◌, Bool, true, false, Option, none, some, get_or}
use alpha_live.Prelude.Dict.{Dict, lookup, contains}
use alpha_live.State.Types.{Position, Snapshot}
use alpha_live.State.Disk.{Store}
use alpha_live.Engine.State.{Engine, is_long}
use alpha_live.Main.Engines.{vwap_is_long}

-- A snapshot with a long VWAP position is in position.
abbrev pub IsSound : Snapshot → Type 0
IsSound s = vwap_is_long s ≡ true → get_or s.in_position false ≡ true

abbrev pub HasSoundSnapshots : Store → Type 0
HasSoundSnapshots st = (t : ℕ) (s : Snapshot) → lookup t st.mem.engine_state ≡ some s → IsSound s

-- As it is after `new_engine`.
abbrev pub IsFlat : ℕ × Engine → Type 0
IsFlat (ticker, e) = (e.in_position ≡ false) × (is_long e.vwap_position ≡ false)

-- What the source of an engine says, if the ledger has its ticker or not.
abbrev Fits : Bool → Option Snapshot → Type 0
Fits has none = has ≡ false
Fits has (some s) = (get_or s.in_position false ≡ has) × IsSound s

abbrev pub InLine : Dict Position → ℕ × Engine → Type 0
InLine ledger (ticker, e) = e.in_position ≡ contains ticker ledger
