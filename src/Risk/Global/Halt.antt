-- ===== src/Risk/Global/Halt.antt =====
-- The global daily loss limit: when it halts the strategies, and for how long.
use alpha_live.Prelude.{
  ℕ, suc, ◌+◌, ◌*◌, ◌≤◌, ◌≡◌, ◌≢◌, ◌∙◌, sym, ◌↔◌, Bool, true, false, Option, some, ℤ, pos, pos_part,
  neg_part, arith, get_or, Outcome, ok,
}
use alpha_live.Risk.Types.{Now, whole}
use alpha_live.Risk.Global.{
  GlobalRiskManager, halt, sum_pnl, beyond_limit, judge, check_loss, check_daily_reset, check_today,
  check_global_daily_loss, is_trading_halted,
}

-- The state after a halt.
record IsHalted (day : ℕ) (reason : Option ℤ) (g : GlobalRiskManager) : Type 0 where
  halted : g.stats.strategies_halted ≡ true
  why : g.stats.halt_reason ≡ reason
  date : g.stats.date ≡ day

judge-IsHalted :
    (day : ℕ) (x : Option ℤ) (g : GlobalRiskManager) (total : ℤ) (b : Outcome Bool)
    → g.stats.date ≡ day
    → (judge g total b).1 ≡ ok (halt x)
    → IsHalted day x (judge g total b).0
unfolding judge
judge-IsHalted day x g total b e h = ground arith

check_daily_reset-date :
    (now : Now) (g : GlobalRiskManager) → (check_daily_reset now g).stats.date ≡ now.date
unfolding check_daily_reset
check_daily_reset-date now g = ground arith

check_today-IsHalted :
    (equity : ℤ) (pct : ℕ) (g : GlobalRiskManager) (x : Option ℤ)
    → (check_today equity pct g).1 ≡ ok (halt x)
    → IsHalted g.stats.date x (check_today equity pct g).0
unfolding check_today check_loss
check_today-IsHalted equity pct g x h =
    let start = get_or g.stats.start_equity equity in
    let total = sum_pnl g.strategy_managers in
    ground (
      arith,
      judge-IsHalted g.stats.date x
          (record g { stats = record g.stats { start_equity = some start } }) total
          (beyond_limit total pct start),
    )

check_today-again :
    (equity : ℤ) (pct day : ℕ) (g : GlobalRiskManager) (x : Option ℤ)
    → IsHalted day x g
    → check_today equity pct g ≡ (g, ok (halt x))
unfolding check_today
check_today-again equity pct day g x h = ground arith

check_daily_reset-same :
    (now : Now) (g : GlobalRiskManager) → g.stats.date ≡ now.date → check_daily_reset now g ≡ g
unfolding check_daily_reset
check_daily_reset-same now g e = ground arith

check_daily_reset-other :
    (now : Now) (g : GlobalRiskManager)
    → g.stats.date ≢ now.date
    → is_trading_halted (check_daily_reset now g) ≡ false
unfolding check_daily_reset is_trading_halted
check_daily_reset-other now g e = ground arith

-- A halt lasts for its day and no longer: every later check of that day, with whatever equity and
-- limit, gives the same reason and changes nothing; and after the first reset of another day trading
-- is not halted.
pub halt_lasts_the_day :
    (now later next : Now) (equity equity' : ℤ) (pct pct' : ℕ) (g : GlobalRiskManager)
    (x : Option ℤ)
    → (check_global_daily_loss now equity pct g).1 ≡ ok (halt x)
    → later.date ≡ now.date
    → next.date ≢ now.date
    → let h = (check_global_daily_loss now equity pct g).0 in
      (check_global_daily_loss later equity' pct' h ≡ (h, ok (halt x)))
      × (is_trading_halted h ≡ true)
      × (is_trading_halted (check_daily_reset next h) ≡ false)
unfolding check_global_daily_loss
halt_lasts_the_day now later next equity equity' pct pct' g x e same other =
    let h = (check_today equity pct (check_daily_reset now g)).0 in
    let k = check_today-IsHalted equity pct (check_daily_reset now g) x e in
    let d : h.stats.date ≡ now.date = k.date ∙ check_daily_reset-date now g in
    (
      rw (check_daily_reset-same later h (d ∙ sym same))
          (check_today-again equity' pct' (check_daily_reset now g).stats.date h x k),
      unfold is_trading_halted in k.halted,
      check_daily_reset-other next h (λ p. other (sym p ∙ d)),
    )

-- The limit is exact: on a day that is not halted, with a positive start equity, the check halts the
-- strategies exactly when the day's total loss over all registered managers has reached the limit's
-- percentage of the start equity, and quotes that total.
pub check_loss_halts_iff :
    (n pct : ℕ) (g : GlobalRiskManager)
    → ((check_loss pct (pos (suc n)) g).1 ≡ ok (halt (some (sum_pnl g.strategy_managers)))) ↔ (
        pos_part (sum_pnl g.strategy_managers) * whole + suc n * pct
        ≤ neg_part (sum_pnl g.strategy_managers) * whole)
unfolding check_loss judge beyond_limit
check_loss_halts_iff n pct g = (λ h. ground arith, λ h. ground arith)
