-- ===== src/Orders/ClosePosition/Tests.antt =====
-- A close against a broker that remembers its tickets.
use alpha_live.Prelude.{ℕ, ◌*◌, ◌≡◌, refl, false, none, List, [], ◌∷◌, pos}
use alpha_live.Risk.Types.{share}
use alpha_live.Risk.Samples.{at_ten}
use alpha_live.State.Types.{Side}
use alpha_live.Orders.Venue.{Ticket}
use alpha_live.Orders.ClosePosition.{close_position}
use alpha_live.Orders.Samples.{quotient, sample_office, sample_venue, id_twelve}

-- All four shares of ticker 6 are sold.
closes_run :
    (close_position sample_venue quotient 900 id_twelve (at_ten 7) false 6 (sample_office, [])).0.1
    ≡ record {
      symbol = 6;
      qty = pos (4 * share);
      side = Side.sell;
      limit_price = none;
      client_order_id = 12;
    }
      ∷ []
unfolding close_position alpha_live.Orders.Settle.settle_working_orders_before_close
    alpha_live.State.Intents.get_open_intent alpha_live.Prelude.Int.◌-ℤ◌
    alpha_live.Orders.Venue.send_order alpha_live.State.Intents.create_submission_intent
    alpha_live.State.Intents.new_intent
closes_run = refl

abbrev NoneYet : List Ticket → Type 0
NoneYet s = s ≡ []
