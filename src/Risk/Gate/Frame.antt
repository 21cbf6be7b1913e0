-- ===== src/Risk/Gate/Frame.antt =====
-- What `can_trade` changes, and when it raises.
use alpha_live.Prelude.{
  ◌≡◌, ◌⊎◌, inl, inr, Bool, true, false, some, List, ℤ, pos, negsuc, arith, Outcome, ok, raise,
  Exception, zero_division, ltb_ℤ, leb, Bool-cases, Option-cases,
}
use alpha_live.Risk.Types.{sell, Alert, RiskManager}
use alpha_live.Risk.Daily.{send}
use alpha_live.Risk.Gate.{
  Controls, Request, Verdict, blocked, max_trades, api_limit, allowed, check_daily_loss_limit,
  entry_checks, limit_checks, operator_check, can_trade, is_sell, halted, Reason,
}

-- An exit is never blocked: whatever the state, the switches and the limits, a SELL is allowed, and
-- asking changes nothing.
pub can_trade-sell :
    (m : RiskManager) (c : Controls) (r : Request)
    → r.signal ≡ sell
    → can_trade m c r ≡ (m, ok allowed)
unfolding can_trade
can_trade-sell m c r h = ground arith

-- The cost limits' emergency halt.
abbrev pub Halts : RiskManager → RiskManager × Outcome Verdict → Type 0
Halts m (m', v) =
    (s : List Alert) × (m' ≡ record m { trading_paused_manual = true; sent = s })
    × ((v ≡ ok (blocked (max_trades m.limits.max_trades_per_day)))
        ⊎ (v ≡ ok (blocked (api_limit m.limits.max_api_calls_per_hour))))

send-frame : (a : Alert) (m : RiskManager) → send a m ≡ record m { sent = (send a m).sent }
unfolding send
send-frame a m = ground arith

limit_checks-frame :
    (m : RiskManager) (r : Request) → ((limit_checks m r).0 ≡ m) ⊎ Halts m (limit_checks m r)
unfolding limit_checks
limit_checks-frame m r = elim (Bool-cases (leb m.limits.max_trades_per_day m.trades_today)) [
  | inl trades ↦ inr (
    (limit_checks m r).0.sent,
    rw (trades, limit_checks) (send-frame _ (halted m)),
    inl (rw (trades, limit_checks)),
  )
  | inr few ↦ elim (Bool-cases (leb m.limits.max_api_calls_per_hour m.api_calls_this_hour)) [
    | inl calls ↦ inr (
      (limit_checks m r).0.sent,
      rw (few, calls, limit_checks) (send-frame _ (halted m)),
      inr (rw (few, calls, limit_checks)),
    )
    | inr room ↦ inl (rw (few, room, limit_checks))
  ]
]

-- Asking about a trade changes the manager only as the emergency halt of the trade and API-call
-- limits does: then it is paused manually and may have sent an alert, nothing else has changed, and
-- the trade is blocked for that limit.
pub can_trade-frame :
    (m : RiskManager) (c : Controls) (r : Request)
    → ((can_trade m c r).0 ≡ m) ⊎ Halts m (can_trade m c r)
unfolding can_trade
can_trade-frame m c r = elim (Bool-cases (is_sell r.signal)) [
  | inl exit ↦ inl (rw (exit, can_trade))
  | inr entry ↦ elim (Option-cases (operator_check m c)) [
    | inl clear ↦ rw (entry, clear, can_trade) (limit_checks-frame m r)
    | inr (reason, stop) ↦ inl (rw (entry, stop, can_trade))
  ]
]

loss_limit-raise :
    (m : RiskManager) (equity : ℤ) (x : Exception)
    → check_daily_loss_limit m equity ≡ raise x
    → (x ≡ zero_division) × (equity ≡ pos 0) × (ltb_ℤ m.daily_pnl (pos 0) ≡ true)
unfolding check_daily_loss_limit
loss_limit-raise m (pos equity) x h = ground arith
loss_limit-raise m (negsuc equity) x h = ground arith

entry_checks-raise :
    (m : RiskManager) (r : Request) (x : Exception)
    → entry_checks m r ≡ raise x
    → check_daily_loss_limit m r.account_equity ≡ raise x
unfolding entry_checks
entry_checks-raise m r x h = ground arith

can_trade-raise :
    (m : RiskManager) (c : Controls) (r : Request) (x : Exception)
    → (can_trade m c r).1 ≡ raise x
    → entry_checks m r ≡ raise x
unfolding can_trade limit_checks
can_trade-raise m c r x h = ground arith

-- `can_trade` raises only a ZeroDivisionError, and only where the day is at a loss while the
-- account's equity is exactly 0.
pub can_trade_raises_only :
    (m : RiskManager) (c : Controls) (r : Request) (x : Exception)
    → (can_trade m c r).1 ≡ raise x
    → (x ≡ zero_division) × (r.account_equity ≡ pos 0) × (ltb_ℤ m.daily_pnl (pos 0) ≡ true)
can_trade_raises_only m c r x h =
    loss_limit-raise m r.account_equity x (entry_checks-raise m r x (can_trade-raise m c r x h))

-- The reasons of the emergency halt.
abbrev pub is_cost : Reason → Bool
is_cost (max_trades n) = true
is_cost (api_limit n) = true
is_cost _ = false

entry_checks-cost :
    (m : RiskManager) (r : Request) (q : Reason)
    → entry_checks m r ≡ ok (blocked q)
    → is_cost q ≡ false
unfolding entry_checks
entry_checks-cost m r q h = ground arith

operator_check-cost :
    (m : RiskManager) (c : Controls) (q : Reason) → operator_check m c ≡ some q → is_cost q ≡ false
unfolding operator_check
operator_check-cost m c q h = ground arith

limit_checks-cost :
    (m : RiskManager) (r : Request) (q : Reason)
    → (limit_checks m r).1 ≡ ok (blocked q)
    → is_cost q ≡ true
    → (limit_checks m r).0.trading_paused_manual ≡ true
unfolding limit_checks
limit_checks-cost m r q h k = ground (arith, entry_checks-cost m r q)

pub cost_pauses :
    (m : RiskManager) (c : Controls) (r : Request) (q : Reason)
    → (can_trade m c r).1 ≡ ok (blocked q)
    → is_cost q ≡ true
    → (can_trade m c r).0.trading_paused_manual ≡ true
unfolding can_trade
cost_pauses m c r q h k = ground (arith, operator_check-cost m c q, limit_checks-cost m r q)
