-- ===== src/Engine/State.antt =====
-- The state of `SignalEngine`: its snapshots, and its alignment with the ledger.
pub mod Restore
mod Tests
use alpha_live.Prelude.{
  ℕ, Bool, true, false, ◌&&◌, not, Option, none, some, ℤ, pos, negsuc, leb, ◌==◌, if◌then◌else◌,
  get_or, is_some,
}
use alpha_live.State.Types.{Snapshot}

pub record Engine : Type 0 where
  -- `self.strategy_name == "vwap_reversion"`
  pub is_vwap : Bool
  pub in_position : Bool
  pub entry_price : ℕ
  pub peak_price : ℕ
  pub peak_bar_ts : Option ℕ
  pub vwap_position : ℤ
  pub vwap_bars_since_signal : ℕ
  pub is_new_bar : Bool

-- `10**9`, which stands for no signal yet.
abbrev pub far : ℕ
far = 1000000000

-- `__init__`
unfoldable pub new_engine : Bool → Engine
new_engine is_vwap = record {
  is_vwap = is_vwap;
  in_position = false;
  entry_price = 0;
  peak_price = 0;
  peak_bar_ts = none;
  vwap_position = pos 0;
  vwap_bars_since_signal = far;
  is_new_bar = true;
}

abbrev pub larger : ℕ → ℕ → ℕ
larger a b = if leb a b then b else a

abbrev pub is_long : ℤ → Bool
is_long (pos n) = n == 1
is_long (negsuc n) = false

unfoldable pub sync_position : Bool → ℕ → ℕ → Engine → Engine
sync_position has_position entry_price peak_price e =
    if has_position && not e.in_position
    then record e {
      in_position = true;
      entry_price = entry_price;
      peak_price = larger peak_price entry_price;
      vwap_position = if e.is_vwap then pos 1 else e.vwap_position;
    }
    else if not has_position && e.in_position
    then record e {
      in_position = false;
      entry_price = 0;
      peak_price = 0;
      vwap_position = if e.is_vwap && is_long e.vwap_position then pos 0 else e.vwap_position;
    }
    else e

unfoldable pub get_state : Engine → Snapshot
get_state e = record {
  in_position = some e.in_position;
  entry_price = some e.entry_price;
  peak_price = some e.peak_price;
  peak_bar_ts = e.peak_bar_ts;
  vwap_position = some e.vwap_position;
  vwap_bars_since_signal = some e.vwap_bars_since_signal;
}

-- `not state`, for a dict.
abbrev pub is_empty : Snapshot → Bool
is_empty s =
    not (is_some s.in_position)
    && not (is_some s.entry_price)
    && not (is_some s.peak_price)
    && not (is_some s.peak_bar_ts)
    && not (is_some s.vwap_position)
    && not (is_some s.vwap_bars_since_signal)

-- `x or 10**9`
abbrev pub or_far : ℕ → ℕ
or_far n = if n == 0 then far else n

unfoldable pub restored_from : Snapshot → Engine → Engine
restored_from s e = record e {
  in_position = get_or s.in_position false;
  entry_price = get_or s.entry_price 0;
  peak_price = get_or s.peak_price 0;
  peak_bar_ts = s.peak_bar_ts;
  vwap_position = get_or s.vwap_position (pos 0);
  vwap_bars_since_signal = or_far (get_or s.vwap_bars_since_signal far);
}

unfoldable pub restore_state : Option Snapshot → Engine → Engine
unfolding restored_from
restore_state none e = e
restore_state (some s) e = if is_empty s then e else restored_from s e
