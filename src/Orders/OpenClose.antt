-- ===== src/Orders/OpenClose.antt =====
-- `_reconcile_open_close_intent`: what became of an order that closes a position, and how much is
-- left to close.
pub mod Blocks
pub mod Justified
mod Tests
use alpha_live.Prelude.{
  ℕ, Bool, true, false, Option, some, ℤ, pos, ◌-ℤ◌, ltb_ℤ, if◌then◌else◌, get_or,
}
use alpha_live.Risk.Types.{Now, market}
use alpha_live.State.Types.{
  close, Status, raised_error, filled_not_flat, reversed_short, inconsistent_remainder, Intent,
  BotState,
}
use alpha_live.State.Intents.{create_submission_intent}
use alpha_live.Orders.Progress.{BrokerOrder, Office}
use alpha_live.Orders.Reconcile.{
  Action, never_sent, missing_past_grace, lookup_unavailable, missing_within_grace, unrecognized,
  map_broker_order_status, update, reconcile_intent,
}
use alpha_live.Orders.Venue.{
  Holding, Located, lookup_raised, no_position, held, Venue, qty_equal, noted, moved,
}

-- The `detail` of a quarantine; `unresolved` is that of `_reconcile_intent`.
pub data Detail : Type 0 where
  unresolved lookup_failed_after_fill reversed not_flat : Detail
  lookup_failed_after_cancel inconsistent : Detail

-- The `outcome`, with its order, its mapped status, or the quantity to close.
pub data Closing : Type 0 where
  success : BrokerOrder → Closing
  in_flight : Option Status → BrokerOrder → Closing
  quarantine : Detail → Closing
  rejected fresh : Closing
  proceed : ℤ → Closing

abbrev pub is_filled : Option Status → Bool
is_filled (some Status.filled) = true
is_filled _ = false

abbrev pub is_rejected : Option Status → Bool
is_rejected (some Status.rejected) = true
is_rejected _ = false

-- `expected_remaining`
unfoldable pub remainder : Intent → BrokerOrder → ℤ
remainder i order =
    let left = i.qty -ℤ pos (get_or order.filled_qty 0) in
    if ltb_ℤ left (pos 0) then pos 0 else left

module _ (now : Now) where
  -- The broker reports the order filled: is the position flat?
  unfoldable pub confirm_holding : Intent → BrokerOrder → Holding → Office → Office × Closing
  unfolding update qty_equal
  confirm_holding i order h o =
      if qty_equal h.qty (pos 0)
      then (update now i (moved Status.reconciled) o, success order)
      else if h.is_short
      then (update now i (noted Status.uncertain reversed_short) o, quarantine reversed)
      else (update now i (noted Status.uncertain filled_not_flat) o, quarantine not_flat)

  unfoldable pub confirm_flat : Intent → BrokerOrder → Located → Office → Office × Closing
  unfolding confirm_holding
  confirm_flat i order lookup_raised o =
      (update now i (noted Status.uncertain raised_error) o, quarantine lookup_failed_after_fill)
  confirm_flat i order no_position o = (update now i (moved Status.reconciled) o, success order)
  confirm_flat i order (held h) o = confirm_holding i order h o

  module _ (new_id : BotState → ℕ) where
    -- The quarantine of a remainder that is not the expected one.
    unfoldable pub quarantine_remainder : ℕ → ℤ → Office → Office
    unfolding update
    quarantine_remainder ticker qty o =
        let (st, j) =
          create_submission_intent (new_id o.store.mem) ticker close qty market now.instant
            o.store in
        update now j (noted Status.uncertain inconsistent_remainder) (record o { store = st })

    -- The order is cancelled or expired: what is left to close?
    unfoldable pub weigh_holding : Intent → BrokerOrder → Holding → Office → Office × Closing
    unfolding quarantine_remainder remainder qty_equal
    weigh_holding i order h o =
        if qty_equal h.qty (pos 0)
        then (o, success order)
        else if qty_equal h.qty (remainder i order)
        then (o, proceed h.qty)
        else (quarantine_remainder i.ticker h.qty o, quarantine inconsistent)

    unfoldable pub weigh_remainder : Intent → BrokerOrder → Located → Office → Office × Closing
    unfolding weigh_holding
    weigh_remainder i order lookup_raised o = (o, quarantine lookup_failed_after_cancel)
    weigh_remainder i order no_position o = (o, success order)
    weigh_remainder i order (held h) o = weigh_holding i order h o

module _ {S : Type 0} (venue : Venue S) (divide : ℕ → ℕ → ℕ) (grace : ℕ) (new_id : BotState → ℕ)
    (now : Now) where
  -- The order is filled or live.
  unfoldable pub follow_live : Intent → BrokerOrder → Office × S → (Office × S) × Closing
  unfolding confirm_flat
  follow_live i order (o, s) =
      let mapped = map_broker_order_status order.status in
      if is_filled mapped
      then (let (s', found) = venue.get_position i.ticker s in
          let (o', c) = confirm_flat now i order found o in ((o', s'), c))
      else ((o, s), in_flight mapped order)

  -- The order has ended without filling.
  unfoldable pub follow_ended : Intent → BrokerOrder → Office × S → (Office × S) × Closing
  unfolding weigh_remainder update
  follow_ended i order (o, s) =
      let done = update now i (moved Status.reconciled) o in
      if is_rejected (map_broker_order_status order.status)
      then ((done, s), rejected)
      else (let (s', found) = venue.get_position i.ticker s in
          let (o', c) = weigh_remainder now new_id i order found done in ((o', s'), c))

  unfoldable pub follow : Intent → Action → Office × S → (Office × S) × Closing
  unfolding follow_live follow_ended
  follow i (Action.filled order) x = follow_live i order x
  follow i (Action.in_flight order) x = follow_live i order x
  follow i (Action.terminal order) x = follow_ended i order x
  follow i never_sent x = (x, fresh)
  follow i missing_past_grace x = (x, fresh)
  follow i lookup_unavailable x = (x, quarantine unresolved)
  follow i missing_within_grace x = (x, quarantine unresolved)
  follow i unrecognized x = (x, quarantine unresolved)

  unfoldable pub reconcile_open_close_intent : Intent → Office × S → (Office × S) × Closing
  unfolding follow
  reconcile_open_close_intent i (o, s) =
      let (s', answer) = venue.broker.look_up i.client_order_id s in
      let (o', action) = reconcile_intent divide grace now i answer o in follow i action (o', s')
