-- ===== src/Risk/Global/Pause.antt =====
-- The operator's pause: it reaches every entry, and survives a restart.
use alpha_live.Prelude.{◌≡◌, ◌↔◌, Bool, true, false, none, some, arith}
use alpha_live.Risk.Types.{Now}
use alpha_live.Risk.Global.{
  PauseReason, TelegramPause, GlobalRiskManager, init, set_manual_pause, clear_manual_pause,
  is_manual_paused, entries_paused_reason,
}

-- With a state to persist to, an operator's pause survives a restart with its reason, and a resume
-- does too: the manager built at the next start is paused exactly after the one, not the other.
pub pause_survives_restart :
    (reason : PauseReason) (now : Now) (g : GlobalRiskManager) (t : TelegramPause)
    → g.has_state ≡ true
    → let after_pause = init true now (set_manual_pause reason g t).1 in
      let after_resume = init true now (clear_manual_pause g t).1 in
      (after_pause.manual_paused ≡ true)
      × (after_pause.manual_pause_reason ≡ some reason)
      × (after_resume.manual_paused ≡ false)
unfolding init set_manual_pause clear_manual_pause
pause_survives_restart reason now g t h = ground arith

-- `is_manual_paused` and `entries_paused_reason` agree: a pause has a reason, and only a pause has.
pub entries_paused_reason_iff :
    (dash : Bool) (g : GlobalRiskManager)
    → (is_manual_paused dash g ≡ false) ↔ (entries_paused_reason dash g ≡ none)
unfolding is_manual_paused entries_paused_reason
entries_paused_reason_iff dash g = (λ h. ground arith, λ h. ground arith)
