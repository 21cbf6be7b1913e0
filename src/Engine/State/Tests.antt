-- ===== src/Engine/State/Tests.antt =====
-- An engine that has just sold short, restarted.
use alpha_live.Prelude.{◌≡◌, ◌<◌, refl, true, some, negsuc}
use alpha_live.Engine.State.{Engine, far, new_engine, get_state, restore_state}
use alpha_live.Engine.State.Restore.{restore-get_state}

abbrev just_signalled : Engine
just_signalled = record (new_engine true) {
  in_position = true;
  vwap_position = negsuc 0;
  vwap_bars_since_signal = 0;
}

restart_run :
    (restore_state (some (get_state just_signalled)) (new_engine true)).vwap_bars_since_signal ≡ far
unfolding restore_state get_state
restart_run = refl

restore-get_state_example :
    let e = restore_state (some (get_state just_signalled)) (new_engine true) in
    (e.in_position ≡ true)
    × (e.entry_price ≡ just_signalled.entry_price)
    × (e.peak_price ≡ just_signalled.peak_price)
    × (e.peak_bar_ts ≡ just_signalled.peak_bar_ts)
    × (e.vwap_position ≡ negsuc 0)
    × (0 < just_signalled.vwap_bars_since_signal → e.vwap_bars_since_signal ≡ 0)
    × (just_signalled.vwap_bars_since_signal ≡ 0 → e.vwap_bars_since_signal ≡ far)
restore-get_state_example = restore-get_state just_signalled (new_engine true)
