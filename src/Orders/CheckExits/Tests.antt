-- ===== src/Orders/CheckExits/Tests.antt =====
-- Exit checks of concrete positions.
use alpha_live.Prelude.{ℕ, ◌≡◌, refl, none, some, List, [], ◌∷◌, arith, ok}
use alpha_live.Prelude.Lists.{keep}
use alpha_live.Prelude.Dict.{Dict, lookup}
use alpha_live.Risk.Exits.{Side}
use alpha_live.Risk.Samples.{sample_risk}
use alpha_live.Orders.CheckExits.{Held, Exit, ExitReason, check_exits}
use alpha_live.Orders.CheckExits.Complete.{tickers, held_tickers, should_exit, check_exits_complete}

-- Three positions bought at 100 dollars; the second has been at 110.
abbrev positions : List Held
positions =
    record { ticker = 1; avg_entry = 100000000; side = Side.long; highest_since_entry = none }
    ∷ record {
      ticker = 2;
      avg_entry = 100000000;
      side = Side.long;
      highest_since_entry = some 110000000;
    }
    ∷ record { ticker = 3; avg_entry = 100000000; side = Side.long; highest_since_entry = none }
    ∷ []

-- The first falls to 97, the second to 103, and the third has no price.
abbrev prices : Dict ℕ
prices = (1, 97000000) ∷ (2, 103000000) ∷ []

exits_run :
    check_exits sample_risk positions prices
    ≡ ok (
        record { ticker = 1; reason = ExitReason.stop_loss_hit; current_price = 97000000 }
        ∷ record { ticker = 2; reason = ExitReason.trailing_stop_hit; current_price = 103000000 }
        ∷ [])
unfolding check_exits lookup alpha_live.Risk.Exits.check_stop_loss
    alpha_live.Risk.Exits.check_take_profit alpha_live.Risk.Exits.check_trailing_stop
exits_run = refl

check_exits_complete_example :
    (es : List Exit) × (check_exits sample_risk positions prices ≡ ok es)
    × (tickers es ≡ held_tickers (keep (should_exit sample_risk prices) positions))
check_exits_complete_example =
    check_exits_complete sample_risk positions prices
      (omega arith, (omega arith, (omega arith, tt)))
