-- ===== src/State/Ledger.antt =====
-- The ledger of positions, the trailing highs, entry times, the day's profit and the pause file.
pub mod Highs
pub mod Hold
mod Tests
use alpha_live.Prelude.{
  ℕ, ◌+◌, ◌-◌, ◌*◌, ◌/◌, Bool, true, false, Option, none, some, ℤ, pos, ◌+ℤ◌, leb, ltb,
  if◌then◌else◌,
}
use alpha_live.Prelude.Dict.{Dict, lookup, insert, erase, contains}
use alpha_live.Risk.Types.{is_date}
use alpha_live.State.Types.{Position, Dated, BotState}
use alpha_live.State.Disk.{Store, mutate}

-- A mutator that saves only if it has something to change.
unfoldable pub mutate_if : Bool → (BotState → BotState) → Store → Store
mutate_if b f st = if b then (mutate f st).0 else st

abbrev pub raises_high : ℕ → Option ℕ → Bool
raises_high price none = true
raises_high price (some high) = ltb high price

unfoldable pub set_position_high : ℕ → ℕ → Store → Store
unfolding mutate_if
set_position_high ticker price st =
    mutate_if (raises_high price (lookup ticker st.mem.position_highs))
      (λ s. record s { position_highs = insert ticker price s.position_highs }) st

unfoldable pub get_position_high : ℕ → BotState → Option ℕ
get_position_high ticker s = lookup ticker s.position_highs

unfoldable pub clear_position_high : ℕ → Store → Store
unfolding mutate_if
clear_position_high ticker st =
    mutate_if (contains ticker st.mem.position_highs)
      (λ s. record s { position_highs = erase ticker s.position_highs }) st

unfoldable pub record_entry : ℕ → ℕ → Store → Store
record_entry ticker now st =
    (mutate (λ s. record s { entry_timestamps = insert ticker now s.entry_timestamps }) st).0

unfoldable pub clear_entry_timestamp : ℕ → Store → Store
unfolding mutate_if
clear_entry_timestamp ticker st =
    mutate_if (contains ticker st.mem.entry_timestamps)
      (λ s. record s { entry_timestamps = erase ticker s.entry_timestamps }) st

-- A day, in seconds.
abbrev pub day : ℕ
day = 86400

-- `(now - entry).days / 7 >= min_hold_weeks`; a time that lies ahead counts as negative days.
unfoldable pub held_for : ℕ → ℕ → ℕ → Bool
held_for weeks now entry = if leb entry now then leb (weeks * 7) ((now - entry) / day) else false

-- `is_min_hold_met`; `none` stands for a stored text that is no timestamp.
unfoldable pub is_min_hold_met : ℕ → ℕ → Option (Option ℕ) → Bool
unfolding held_for
is_min_hold_met weeks now none = true
is_min_hold_met weeks now (some none) = true
is_min_hold_met weeks now (some (some entry)) = held_for weeks now entry

abbrev pub recorded : ℕ → ℕ → ℕ → Option Position → Position
recorded qty price now none = record {
  qty = qty;
  entry_price = price;
  opened_at = now;
  realized_pnl = pos 0;
}
recorded qty price now (some p) = record p { qty = qty; entry_price = price }

unfoldable pub record_position_open : ℕ → ℕ → ℕ → ℕ → Store → Store
record_position_open ticker qty price now st =
    (mutate
      (λ s. record s {
        open_positions =
            insert ticker (recorded qty price now (lookup ticker s.open_positions))
              s.open_positions;
      })
      st).0

unfoldable pub record_position_close : ℕ → Store → Store
unfolding mutate_if
record_position_close ticker st =
    mutate_if (contains ticker st.mem.open_positions)
      (λ s. record s { open_positions = erase ticker s.open_positions }) st

-- `_roll_daily_pnl`
unfoldable pub rolled : ℕ → BotState → BotState
unfolding is_date
rolled today s =
    if is_date s.daily_pnl_date today
    then s
    else record s { daily_pnl = pos 0; daily_pnl_date = some today }

unfoldable pub add_daily_pnl : ℕ → ℤ → Store → Store
unfolding rolled
add_daily_pnl today pnl st =
    (mutate (λ s. let r = rolled today s in record r { daily_pnl = r.daily_pnl +ℤ pnl }) st).0

unfoldable pub roll_daily_pnl : ℕ → Store → Store
unfolding rolled mutate_if is_date
roll_daily_pnl today st =
    mutate_if (if is_date st.mem.daily_pnl_date today then false else true) (rolled today) st

-- The dashboard's pause file, and what `check_dashboard_paused` reads from it.
pub data PauseFile : Type 0 where
  absent broken without_flag : PauseFile
  flag : Bool → PauseFile

unfoldable pub check_dashboard_paused : PauseFile → Bool
check_dashboard_paused absent = false
check_dashboard_paused broken = true
check_dashboard_paused without_flag = false
check_dashboard_paused (flag b) = b

-- `set_dashboard_pause`; a write that fails leaves the file as it was.
unfoldable pub set_dashboard_pause : Bool → Bool → PauseFile → PauseFile
set_dashboard_pause written paused f = if written then flag paused else f
