-- ===== src/Orders/CheckExits.antt =====
-- `check_exits`: which positions are to be closed, and why. A check that raises ends the whole call.
pub mod Complete
mod Tests
use alpha_live.Prelude.{
  ℕ, Bool, true, false, Option, none, some, List, [], ◌∷◌, if◌then◌else◌, get_or, Outcome, ok,
  raise, ◌>>=◌,
}
use alpha_live.Prelude.Dict.{Dict, lookup}
use alpha_live.Risk.Types.{RiskConfig}
use alpha_live.Risk.Exits.{Side, check_stop_loss, check_take_profit, check_trailing_stop}

-- A position of the list; the highest price may be missing.
pub record Held : Type 0 where
  pub ticker : ℕ
  pub avg_entry : ℕ
  pub side : Side
  pub highest_since_entry : Option ℕ

pub data ExitReason : Type 0 where
  stop_loss_hit take_profit_hit trailing_stop_hit : ExitReason

pub record Exit : Type 0 where
  pub ticker : ℕ
  pub reason : ExitReason
  pub current_price : ℕ

abbrev pub exit_if : Held → ExitReason → ℕ → Bool → Option Exit
exit_if p reason price true =
    some (record { ticker = p.ticker; reason = reason; current_price = price })
exit_if p reason price false = none

-- The trailing stop, if it is enabled.
unfoldable pub trailing_exit : RiskConfig → Held → ℕ → Outcome (Option Exit)
trailing_exit r p price =
    if r.trailing_stop_enabled
    then (check_trailing_stop r p.avg_entry (get_or p.highest_since_entry p.avg_entry) price p.side
        >>= λ hit. ok (exit_if p trailing_stop_hit price hit))
    else ok none

unfoldable pub after_profit : RiskConfig → Held → ℕ → Bool → Outcome (Option Exit)
unfolding trailing_exit
after_profit r p price true = ok (exit_if p take_profit_hit price true)
after_profit r p price false = trailing_exit r p price

unfoldable pub after_stop : RiskConfig → Held → ℕ → Bool → Outcome (Option Exit)
unfolding after_profit
after_stop r p price true = ok (exit_if p stop_loss_hit price true)
after_stop r p price false =
    check_take_profit r p.avg_entry price p.side >>= λ hit. after_profit r p price hit

-- One position at a price.
unfoldable pub exit_for : RiskConfig → Held → ℕ → Outcome (Option Exit)
unfolding after_stop
exit_for r p price = check_stop_loss r p.avg_entry price p.side >>= λ hit. after_stop r p price hit

abbrev pub add_exit : Option Exit → List Exit → List Exit
add_exit none es = es
add_exit (some e) es = e ∷ es

unfoldable pub check_exits : RiskConfig → List Held → Dict ℕ → Outcome (List Exit)
unfolding exit_for
check_exits r [] prices = ok []
check_exits r (p ∷ ps) prices =
    let rest = check_exits r ps prices in
    elim (lookup p.ticker prices) [
      | none ↦ rest
      | some price ↦ exit_for r p price >>= λ e. (rest >>= λ es. ok (add_exit e es))
    ]
