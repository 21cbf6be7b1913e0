-- ===== src/Main/Engines.antt =====
-- `_restore_engine_states` and `_sync_engines_with_ledger` of alphalive/main.py: the engines and the
-- ledger. The engines are a dict by ticker.
pub mod Follow
pub mod Restart
mod Tests
use alpha_live.Prelude.{
  ℕ, Bool, true, false, ◌&&◌, ◌||◌, not, Option, none, some, List, [], ◌∷◌, ℤ, pos, leb, leb_ℤ,
  ◌==◌, if◌then◌else◌, get_or, is_some,
}
use alpha_live.Prelude.Lists.{any}
use alpha_live.Prelude.Dict.{Dict, lookup, contains}
use alpha_live.State.Types.{Position, Intent, Snapshot, BotState}
use alpha_live.State.Disk.{Store}
use alpha_live.State.Ledger.{get_position_high}
use alpha_live.State.Intents.{list_open_intents}
use alpha_live.State.Engines.{get_engine_state, save_engine_state}
use alpha_live.Engine.State.{
  Engine, larger, is_long, is_empty, get_state, restore_state, sync_position,
}

abbrev pub vwap_is_long : Snapshot → Bool
vwap_is_long s = elim s.vwap_position [ none ↦ false | some p ↦ is_long p ]

-- `saved.get("in_position") or saved.get("vwap_position") == 1`
unfoldable pub implies_long : Snapshot → Bool
implies_long s = get_or s.in_position false || vwap_is_long s

unfoldable pub sanitized : Snapshot → Snapshot
unfolding implies_long
sanitized s =
    if implies_long s
    then record s {
      in_position = some false;
      entry_price = some 0;
      peak_price = some 0;
      vwap_position = if vwap_is_long s then some (pos 0) else s.vwap_position;
    }
    else s

-- A snapshot made from the ledger and the trailing high.
unfoldable pub rebuilt : Bool → ℕ → Option ℕ → Snapshot
rebuilt is_vwap entry_price high = record {
  in_position = some true;
  entry_price = some entry_price;
  peak_price = some (larger (get_or high 0) entry_price);
  peak_bar_ts = none;
  vwap_position = if is_vwap then some (pos 1) else none;
  vwap_bars_since_signal = none;
}

-- What one engine is restored from; `none` leaves it as it is, and unsaved.
unfoldable pub source_for : Bool → Option Position → Option ℕ → Option Snapshot → Option Snapshot
unfolding sanitized implies_long rebuilt
source_for is_vwap none high none = none
source_for is_vwap none high (some s) = if is_empty s then none else some (sanitized s)
source_for is_vwap (some p) high none = some (rebuilt is_vwap p.entry_price high)
source_for is_vwap (some p) high (some s) =
    if not (is_empty s) && implies_long s then some s else some (rebuilt is_vwap p.entry_price high)

-- The engine's state goes to the store.
abbrev pub keep_state : ℕ → Engine → Store → Engine × Store
keep_state ticker e st = (e, save_engine_state ticker (get_state e) st)

unfoldable pub restore_one : ℕ → Engine → Store → Engine × Store
unfolding source_for restore_state
restore_one ticker e st =
    elim (source_for e.is_vwap (lookup ticker st.mem.open_positions)
      (get_position_high ticker st.mem) (get_engine_state ticker st.mem)) [
        | none ↦ (e, st)
        | some s ↦ keep_state ticker (restore_state (some s) e) st
      ]

unfoldable pub restore_engine_states : Dict Engine → Store → Dict Engine × Store
unfolding restore_one
restore_engine_states [] st = ([], st)
restore_engine_states ((ticker, e) ∷ d) st =
    let (e', st') = restore_one ticker e st in
    let (d', st'') = restore_engine_states d st' in ((ticker, e') ∷ d', st'')

-- The position that the ledger has.
abbrev pub entry_of : Option Position → ℕ
entry_of none = 0
entry_of (some p) = p.entry_price

-- Whether two snapshots are the same dict.
abbrev eq_bool : Bool → Bool → Bool
eq_bool true b = b
eq_bool false b = not b

abbrev eq_int : ℤ → ℤ → Bool
eq_int a b = leb_ℤ a b && leb_ℤ b a

abbrev eq_by {ℓ} : {A : Type ℓ} → (A → A → Bool) → Option A → Option A → Bool
eq_by eq none none = true
eq_by eq (some a) (some b) = eq a b
eq_by eq _ _ = false

abbrev pub eq_snapshot : Snapshot → Snapshot → Bool
eq_snapshot s t =
    eq_by eq_bool s.in_position t.in_position
    && eq_by ◌==◌ s.entry_price t.entry_price
    && eq_by ◌==◌ s.peak_price t.peak_price
    && eq_by ◌==◌ s.peak_bar_ts t.peak_bar_ts
    && eq_by eq_int s.vwap_position t.vwap_position
    && eq_by ◌==◌ s.vwap_bars_since_signal t.vwap_bars_since_signal

abbrev pub save_unless : Bool → ℕ → Engine → Store → Store
save_unless same ticker e st = if same then st else save_engine_state ticker (get_state e) st

-- The engine in line with its ledger entry.
unfoldable pub aligned : Option Position → Option ℕ → Engine → Engine
aligned entry high e = sync_position (is_some entry) (entry_of entry) (get_or high 0) e

unfoldable pub align_one : Dict Position → (ℕ → Bool) → ℕ → Engine → Store → Engine × Store
unfolding aligned
align_one ledger busy ticker e st =
    let e' = aligned (lookup ticker ledger) (get_position_high ticker st.mem) e in
    if busy ticker
    then (e, st)
    else (e', save_unless (eq_snapshot (get_state e') (get_state e)) ticker e' st)

unfoldable pub align_each : Dict Position → (ℕ → Bool) → Dict Engine → Store → Dict Engine × Store
unfolding align_one
align_each ledger busy [] st = ([], st)
align_each ledger busy ((ticker, e) ∷ d) st =
    let (e', st') = align_one ledger busy ticker e st in
    let (d', st'') = align_each ledger busy d st' in ((ticker, e') ∷ d', st'')

-- An open intent of the ticker.
unfoldable pub has_open_intent : BotState → ℕ → Bool
has_open_intent s t = any (λ i. i.ticker == t) (list_open_intents s)

unfoldable pub sync_engines_with_ledger : Dict Engine → Store → Dict Engine × Store
unfolding align_each has_open_intent
sync_engines_with_ledger d st = align_each st.mem.open_positions (has_open_intent st.mem) d st
