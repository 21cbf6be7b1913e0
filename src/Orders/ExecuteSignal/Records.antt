-- ===== src/Orders/ExecuteSignal/Records.antt =====
-- The intent of a signal's order, from before the order is sent.
use alpha_live.Prelude.{ℕ, true, ℤ}
use alpha_live.Utils.Retry.{Ending}
use alpha_live.Risk.Types.{Now}
use alpha_live.Risk.Gate.{Request}
use alpha_live.State.Types.{Side, BotState}
use alpha_live.Orders.Placing.{BrokerException, place_with_retry}
use alpha_live.Orders.Progress.{BrokerOrder, Office}
use alpha_live.Orders.Venue.{Ticket, Venue, prepare}
use alpha_live.Orders.Signals.{ticket_for}

module _ {S : Type 0} (venue : Venue S) where
  -- How the placing of a ticket ends.
  abbrev pub ending_of : Ticket → S → Ending BrokerException BrokerOrder
  ending_of t s = (place_with_retry (venue.attempt t s) 3 true (venue.existing t s)).ending

  module _ (divide : ℕ → ℕ → ℕ) (grace : ℕ) (new_id : BotState → ℕ) (now : Now) (r : Request)
      (current : ℕ) (side : Side) (qty : ℤ) where
    -- The ticket of the order.
    abbrev pub ticket_of : Office → Ticket
    ticket_of o =
        ticket_for o.manager r.ticker current side qty
          (prepare new_id now r.ticker qty side o.manager.execution_config.order_type o).1
