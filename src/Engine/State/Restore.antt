-- ===== src/Engine/State/Restore.antt =====
-- What a restart of an engine keeps.
use alpha_live.Prelude.{◌≡◌, ◌<◌, refl, arith, some}
use alpha_live.Engine.State.{Engine, far, get_state, restore_state}

-- A restart from a snapshot restores every field that the snapshot holds, whatever the new engine's
-- own state, with one exception: a bar counter of 0, which an engine has after it gave a signal, comes
-- back as a thousand million, as if there had been no signal.
pub restore-get_state :
    (old new : Engine)
    → let e = restore_state (some (get_state old)) new in
      (e.in_position ≡ old.in_position)
      × (e.entry_price ≡ old.entry_price)
      × (e.peak_price ≡ old.peak_price)
      × (e.peak_bar_ts ≡ old.peak_bar_ts)
      × (e.vwap_position ≡ old.vwap_position)
      × (0 < old.vwap_bars_since_signal → e.vwap_bars_since_signal ≡ old.vwap_bars_since_signal)
      × (old.vwap_bars_since_signal ≡ 0 → e.vwap_bars_since_signal ≡ far)
unfolding restore_state get_state
restore-get_state old new = (refl, refl, refl, refl, refl, (λ h. ground arith), (λ h. ground arith))
