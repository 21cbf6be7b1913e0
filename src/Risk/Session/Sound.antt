-- ===== src/Risk/Session/Sound.antt =====
-- The loss streak and the circuit breaker over a session, and what a restart brings back.
use alpha_live.Prelude.{
  ℕ, ◌+◌, ◌≤◌, ◌≡◌, true, Option, none, some, List, [], ◌∷◌, ℤ, pos, ltb_ℤ, if◌then◌else◌,
}
use alpha_live.Risk.Types.{Now, max_consecutive_losses, RiskManager}
use alpha_live.Risk.Daily.{Desk, round_trip}
use alpha_live.Risk.Session.{Event, filled, restart}
use alpha_live.Risk.Session.Sync.{InSync, kept, restart-InSync}

-- A streak of losing round trips at the limit goes with a tripped breaker.
abbrev pub IsTripped : RiskManager → Type 0
IsTripped m =
    max_consecutive_losses ≤ m.consecutive_losses → m.trading_paused_by_circuit_breaker ≡ true

-- The streak of losing round trips after an event.
abbrev pub streak_next : ℕ → Option ℤ → ℕ
streak_next n none = n
streak_next n (some pnl) = if ltb_ℤ pnl (pos 0) then n + 1 else 0

abbrev pub streak_event : ℕ → Event → ℕ
streak_event n (filled f) = streak_next n (round_trip f)
streak_event n _ = n

abbrev pub streak_after : ℕ → List (Now × Event) → ℕ
streak_after n [] = n
streak_after n ((now, e) ∷ es) = streak_after (streak_event n e) es

module _ (key day : ℕ) where
  -- What one call does to the streak.
  abbrev Streak : Event → Desk → Desk → Type 0
  Streak e d d' =
      (d'.consecutive_losses ≡ streak_event d.consecutive_losses e) × IsTripped d'.manager

-- A restart on the same day loses nothing: the trade count, the day's profit and loss, the loss
-- streak, the breaker and the cooldown timestamps are those from before, and stay in step with the
-- saved ones.
pub restart_restores :
    (key day : ℕ) (now : Now) (d : Desk)
    → now.date ≡ day
    → InSync key day d
    → (kept day (restart key now d).manager ≡ kept day d.manager)
      × InSync key day (restart key now d)
restart_restores key day now d e h = let (s, k) = restart-InSync key day now d e h in (k, s)
