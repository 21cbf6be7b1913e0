-- ===== src/Risk/Global/Tests.antt =====
-- Runs of the global risk manager on concrete pauses and losses.
use alpha_live.Prelude.{ℕ, ◌-◌, ◌*◌, true, false, none, [], ◌∷◌, negsuc}
use alpha_live.Risk.Types.{RiskManager, dollar}
use alpha_live.Risk.Global.{GlobalRiskManager, TelegramPause, said, init, set_manual_pause}
use alpha_live.Risk.Samples.{sample_manager, at_ten}

abbrev not_paused : TelegramPause
not_paused = record { paused = false; reason = none }

abbrev fresh : GlobalRiskManager
fresh = init true (at_ten 7) not_paused

-- Two strategies that have lost 200 and 150 dollars today.
abbrev losing : ℕ → RiskManager
losing dollars = record sample_manager { daily_pnl = negsuc (dollars * dollar - 1) }

abbrev in_loss : GlobalRiskManager
in_loss = record fresh { strategy_managers = (1, losing 200) ∷ (2, losing 150) ∷ [] }

abbrev paused_by_operator : GlobalRiskManager
paused_by_operator = (set_manual_pause (said 4) fresh not_paused).0
