-- ===== src/Risk/Exits.antt =====
-- `check_stop_loss`, `check_take_profit` and `check_trailing_stop`. The comparisons are the code's,
-- multiplied through by `whole`; the percentage that the code logs divides by the entry price.
pub mod Order
mod Tests
use alpha_live.Prelude.{
  ℕ, ◌+◌, ◌*◌, Bool, true, false, ◌&&◌, Option, none, some, leb, ◌==◌, if◌then◌else◌, Outcome, ok,
  raise, zero_division,
}
use alpha_live.Risk.Types.{RiskConfig, whole}

-- `side.lower()`
pub data Side : Type 0 where
  long short invalid : Side

-- A trigger is logged with its gain or loss relative to the entry price.
unfoldable pub logged : ℕ → Bool → Outcome Bool
logged entry triggered = if triggered && entry == 0 then raise zero_division else ok triggered

-- `current_price <= base * (1 - pct / 100)`
unfoldable pub falls_to : ℕ → ℕ → ℕ → Bool
falls_to base pct current = leb (current * whole + base * pct) (base * whole)

-- `current_price >= base * (1 + pct / 100)`
unfoldable pub rises_to : ℕ → ℕ → ℕ → Bool
rises_to base pct current = leb (base * whole + base * pct) (current * whole)

unfoldable pub check_stop_loss : RiskConfig → ℕ → ℕ → Side → Outcome Bool
unfolding logged falls_to rises_to
check_stop_loss r entry current Side.long = logged entry (falls_to entry r.stop_loss_pct current)
check_stop_loss r entry current Side.short = logged entry (rises_to entry r.stop_loss_pct current)
check_stop_loss r entry current Side.invalid = ok false

unfoldable pub check_take_profit : RiskConfig → ℕ → ℕ → Side → Outcome Bool
unfolding logged falls_to rises_to
check_take_profit r entry current Side.long =
    logged entry (rises_to entry r.take_profit_pct current)
check_take_profit r entry current Side.short =
    logged entry (falls_to entry r.take_profit_pct current)
check_take_profit r entry current Side.invalid = ok false

unfoldable pub trail : ℕ → ℕ → ℕ → ℕ → Side → Outcome Bool
unfolding logged falls_to rises_to
trail pct entry extreme current Side.long = logged entry (falls_to extreme pct current)
trail pct entry extreme current Side.short = logged entry (rises_to extreme pct current)
trail pct entry extreme current Side.invalid = ok false

unfoldable pub check_trailing_stop : RiskConfig → ℕ → ℕ → ℕ → Side → Outcome Bool
unfolding trail
check_trailing_stop r entry extreme current side =
    if r.trailing_stop_enabled
    then elim r.trailing_stop_pct [
      | none ↦ ok false
      | some pct ↦ trail pct entry extreme current side
    ]
    else ok false
