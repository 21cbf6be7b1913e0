-- ===== src/Orders/OpenClose/Justified.antt =====
-- What each outcome of reconciling a close rests on.
use alpha_live.Prelude.{◌≡◌, true, false, ◌⊎◌, pos}
use alpha_live.State.Types.{Intent}
use alpha_live.Orders.Progress.{BrokerOrder}
use alpha_live.Orders.Reconcile.{Action, never_sent, missing_past_grace, map_broker_order_status}
use alpha_live.Orders.Venue.{Holding, Located, lookup_raised, no_position, held, Venue, qty_equal}
use alpha_live.Orders.OpenClose.{
  Closing, success, in_flight, quarantine, rejected, fresh, proceed, is_filled, is_rejected,
  remainder,
}

-- The broker answered, and holds nothing, up to a millionth of a share.
abbrev pub IsFlat : Located → Type 0
IsFlat lookup_raised = ¬ Unit
IsFlat no_position = Unit
IsFlat (held h) = qty_equal h.qty (pos 0) ≡ true

-- The outcome `c` for the action `a`, when the broker's answer about the position is `found`.
abbrev pub Rests : Intent → Action → Located → Closing → Type 0
Rests i a found (success order) = IsFlat found
Rests i a found (in_flight m order) =
    ((a ≡ Action.filled order) ⊎ (a ≡ Action.in_flight order)) × (is_filled m ≡ false)
Rests i a found (proceed qty) =
    (h : Holding) × (order : BrokerOrder) × (found ≡ held h)
    × (qty ≡ h.qty)
    × (qty_equal h.qty (pos 0) ≡ false)
    × (a ≡ Action.terminal order)
    × (qty_equal h.qty (remainder i order) ≡ true)
Rests i a found rejected =
    (order : BrokerOrder) × (a ≡ Action.terminal order)
    × (is_rejected (map_broker_order_status order.status) ≡ true)
Rests i a found fresh = (a ≡ never_sent) ⊎ (a ≡ missing_past_grace)
Rests i a found (quarantine d) = Unit
