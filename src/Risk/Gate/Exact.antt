-- ===== src/Risk/Gate/Exact.antt =====
-- `can_trade` allows an entry exactly when every limit leaves room for it, and never blocks an exit.
use alpha_live.Prelude.{
  ◌*◌, ◌<◌, ◌≡◌, ◌≢◌, ◌↔◌, ◌⊎◌, inl, inr, refl, ap, Bool, true, false, none, some, ℤ, pos, negsuc,
  pos_part, neg_part, ◌≤ℤ◌, arith, Outcome, ok, Option-cases,
}
use alpha_live.Utils.EnvBool.{parse_bool_env}
use alpha_live.Risk.Types.{Signal, buy, sell, hold, whole, RiskManager}
use alpha_live.Risk.Gate.Frame.{can_trade-sell}
use alpha_live.Risk.Gate.{
  Bars, Controls, Request, Verdict, allowed, check_daily_loss_limit, check_cooldown, operator_check,
  position_checks, loss_checks, entry_checks, limit_checks, can_trade,
}

-- Today's loss is below the limit, which is a percentage of a positive equity.
abbrev pub WithinLoss : RiskManager → ℤ → Type 0
WithinLoss m equity =
    (pos 0 ≤ℤ m.daily_pnl)
    ⊎ ((pos 1 ≤ℤ equity)
        × (neg_part m.daily_pnl * whole < pos_part equity * m.risk_config.max_daily_loss_pct))

-- No cooldown holds the ticker back, if the bars are known.
abbrev pub IsCooled : RiskManager → Request → Type 0
IsCooled m r = (bars : Bars) → r.current_bar ≡ some bars → check_cooldown m r.ticker bars ≡ true

-- All that an entry needs.
pub record MayEnter (m : RiskManager) (c : Controls) (r : Request) : Type 0 where
  pub switch_off : parse_bool_env c.trading_paused_env false ≡ ok false
  pub not_paused : m.trading_paused_manual ≡ false
  pub not_paused_globally : c.global_pause ≡ none
  pub trades_left : m.trades_today < m.limits.max_trades_per_day
  pub calls_left : m.api_calls_this_hour < m.limits.max_api_calls_per_hour
  pub connected : m.degraded_mode ≡ false
  pub within_loss : WithinLoss m r.account_equity
  pub breaker_closed : m.trading_paused_by_circuit_breaker ≡ false
  pub room : r.current_positions_count < m.risk_config.max_open_positions
  pub portfolio_room : r.total_portfolio_positions < m.risk_config.portfolio_max_positions
  pub cooled : IsCooled m r

module _ (m : RiskManager) where
  loss_limit-within :
      (equity : ℤ) → check_daily_loss_limit m equity ≡ ok false → WithinLoss m equity
  unfolding check_daily_loss_limit
  loss_limit-within (pos equity) h = ground arith
  loss_limit-within (negsuc equity) h = ground arith

  within-loss_limit :
      (equity : ℤ) → WithinLoss m equity → check_daily_loss_limit m equity ≡ ok false
  unfolding check_daily_loss_limit
  within-loss_limit (pos equity) h = ground arith
  within-loss_limit (negsuc equity) h = ground arith

  position_checks-allowed :
      (r : Request)
      → position_checks m r ≡ allowed
      → (r.current_positions_count < m.risk_config.max_open_positions)
        × (r.total_portfolio_positions < m.risk_config.portfolio_max_positions)
        × IsCooled m r
  unfolding position_checks
  position_checks-allowed r h = (ground arith, ground arith, λ bars e. ground arith)

  allowed-position_checks :
      (r : Request)
      → r.current_positions_count < m.risk_config.max_open_positions
      → r.total_portfolio_positions < m.risk_config.portfolio_max_positions
      → IsCooled m r
      → position_checks m r ≡ allowed
  unfolding position_checks
  allowed-position_checks r h k cooled = elim (Option-cases r.current_bar) [
    | inl e ↦ ground arith
    | inr (bars, e) ↦ ground (arith, cooled bars e)
  ]

  loss_checks-allowed :
      (r : Request) (hit : Bool)
      → loss_checks m r hit ≡ allowed
      → (hit ≡ false)
        × (m.trading_paused_by_circuit_breaker ≡ false)
        × (position_checks m r ≡ allowed)
  unfolding loss_checks
  loss_checks-allowed r true h = cc
  loss_checks-allowed r false h = ground arith

  entry_checks-allowed :
      (r : Request)
      → entry_checks m r ≡ ok allowed
      → (m.degraded_mode ≡ false)
        × (check_daily_loss_limit m r.account_equity ≡ ok false)
        × (m.trading_paused_by_circuit_breaker ≡ false)
        × (position_checks m r ≡ allowed)
  unfolding entry_checks
  entry_checks-allowed r h = ground arith

  allowed-entry_checks :
      (r : Request)
      → m.degraded_mode ≡ false
      → check_daily_loss_limit m r.account_equity ≡ ok false
      → m.trading_paused_by_circuit_breaker ≡ false
      → position_checks m r ≡ allowed
      → entry_checks m r ≡ ok allowed
  unfolding entry_checks loss_checks
  allowed-entry_checks r d l b p = ground arith

  can_trade-entry :
      (c : Controls) (r : Request)
      → r.signal ≢ sell
      → (can_trade m c r).1 ≡ ok allowed
      → (operator_check m c ≡ none)
        × (m.trades_today < m.limits.max_trades_per_day)
        × (m.api_calls_this_hour < m.limits.max_api_calls_per_hour)
        × (entry_checks m r ≡ ok allowed)
  unfolding can_trade limit_checks
  can_trade-entry c r s h = ground arith

  entry-can_trade :
      (c : Controls) (r : Request)
      → r.signal ≢ sell
      → operator_check m c ≡ none
      → m.trades_today < m.limits.max_trades_per_day
      → m.api_calls_this_hour < m.limits.max_api_calls_per_hour
      → entry_checks m r ≡ ok allowed
      → (can_trade m c r).1 ≡ ok allowed
  unfolding can_trade limit_checks
  entry-can_trade c r s o t a e = ground arith

  operator_check-clear :
      (c : Controls)
      → operator_check m c ≡ none
      → (parse_bool_env c.trading_paused_env false ≡ ok false)
        × (m.trading_paused_manual ≡ false)
        × (c.global_pause ≡ none)
  unfolding operator_check
  operator_check-clear c h = ground arith

  clear-operator_check :
      (c : Controls)
      → parse_bool_env c.trading_paused_env false ≡ ok false
      → m.trading_paused_manual ≡ false
      → c.global_pause ≡ none
      → operator_check m c ≡ none
  unfolding operator_check
  clear-operator_check c e p g = ground arith

sell-cases : (s : Signal) → (s ≡ sell) ⊎ (s ≢ sell)
sell-cases buy = inr (ground arith)
sell-cases sell = inl refl
sell-cases hold = inr (ground arith)

-- An entry, which is any request but a SELL.
pub entry-allowed_iff :
    (m : RiskManager) (c : Controls) (r : Request)
    → r.signal ≢ sell
    → ((can_trade m c r).1 ≡ ok allowed) ↔ MayEnter m c r
entry-allowed_iff m c r s = (
  λ h.
      let (o, t, a, e) = can_trade-entry m c r s h in
      let (env, manual, global) = operator_check-clear m c o in
      let (d, l, b, p) = entry_checks-allowed m r e in
      let (room, portfolio, cool) = position_checks-allowed m r p in
      record {
        switch_off = env;
        not_paused = manual;
        not_paused_globally = global;
        trades_left = t;
        calls_left = a;
        connected = d;
        within_loss = loss_limit-within m r.account_equity l;
        breaker_closed = b;
        room = room;
        portfolio_room = portfolio;
        cooled = cool;
      },
  λ v.
      entry-can_trade m c r s
        (clear-operator_check m c v.switch_off v.not_paused v.not_paused_globally) v.trades_left
        v.calls_left
        (allowed-entry_checks m r v.connected (within-loss_limit m r.account_equity v.within_loss)
          v.breaker_closed (allowed-position_checks m r v.room v.portfolio_room v.cooled)),
)

-- A SELL is always approved. Any other request is approved exactly when `MayEnter` holds:
-- TRADING_PAUSED parses to false, no manual or global pause is on, today's trades and this hour's API
-- calls are below their limits, the broker is not degraded, today's loss is below its limit, the
-- circuit breaker has not tripped, both position counts leave room, and the ticker's cooldown is over
-- if bars are given.
pub can_trade-allowed_iff :
    (m : RiskManager) (c : Controls) (r : Request)
    → ((can_trade m c r).1 ≡ ok allowed) ↔ ((r.signal ≡ sell) ⊎ MayEnter m c r)
can_trade-allowed_iff m c r = elim (sell-cases r.signal) [
  | inl s ↦
      (λ h. inl s, λ v. ap (λ (x : RiskManager × Outcome Verdict). x.1) (can_trade-sell m c r s))
  | inr n ↦ (
    λ h. inr ((entry-allowed_iff m c r n).0 h),
    λ v. elim v [ inl s ↦ absurd (n s) | inr e ↦ (entry-allowed_iff m c r n).1 e ],
  )
]
