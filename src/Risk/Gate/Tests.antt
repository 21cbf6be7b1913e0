-- ===== src/Risk/Gate/Tests.antt =====
-- Runs of `can_trade` on concrete requests.
use alpha_live.Prelude.{◌≡◌, ◌⊎◌, ◌↔◌, refl, true, some, pos, negsuc, ltb_ℤ, ok, zero_division}
use alpha_live.Utils.EnvBool.{codes, parse_bool_env, is_space}
use alpha_live.Risk.Types.{RiskManager, buy, sell, dollar}
use alpha_live.Risk.Gate.{Request, can_trade, allowed, blocked, env_malformed, max_trades}
use alpha_live.Risk.Gate.Exact.{MayEnter, can_trade-allowed_iff}
use alpha_live.Risk.Gate.Frame.{can_trade_raises_only}
use alpha_live.Risk.Samples.{sample_manager, no_controls, ask}

-- Two orders have been submitted today, and that is the limit.
abbrev spent : RiskManager
spent = record sample_manager { trades_today = 2 }

-- A loss of a dollar, in an account that reports no equity.
abbrev at_loss : RiskManager
at_loss = record sample_manager { daily_pnl = negsuc 999999999999999 }

abbrev without_equity : Request
without_equity = record (ask buy) { account_equity = pos 0 }

entry_run : (can_trade sample_manager no_controls (ask buy)).1 ≡ ok allowed
unfolding can_trade is_space parse_bool_env alpha_live.Risk.Types.init
entry_run = refl

malformed_run :
    (can_trade sample_manager
      (record no_controls { trading_paused_env = some (codes "yess") })
      (ask buy)).1
    ≡ ok (blocked env_malformed)
unfolding can_trade is_space parse_bool_env
malformed_run = refl

spent_run : (can_trade spent no_controls (ask buy)).1 ≡ ok (blocked (max_trades 2))
unfolding can_trade parse_bool_env alpha_live.Risk.Types.init
spent_run = refl

can_trade-allowed_iff_example :
    ((can_trade sample_manager no_controls (ask buy)).1 ≡ ok allowed)
    ↔ ((buy ≡ sell) ⊎ MayEnter sample_manager no_controls (ask buy))
can_trade-allowed_iff_example = can_trade-allowed_iff sample_manager no_controls (ask buy)

can_trade_raises_only_example :
    (zero_division ≡ zero_division)
    × (pos 0 ≡ pos 0)
    × (ltb_ℤ (negsuc 999999999999999) (pos 0) ≡ true)
unfolding can_trade parse_bool_env alpha_live.Risk.Types.init
can_trade_raises_only_example =
    can_trade_raises_only at_loss no_controls without_equity zero_division refl
