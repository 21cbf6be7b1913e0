-- ===== src/Orders/ClosePosition.antt =====
-- `close_position`, for an order manager that has a state: what still works is settled, the last close
-- is reconciled, and at most one market SELL of the confirmed quantity is sent.
pub mod Sends
mod Tests
use alpha_live.Prelude.{ℕ, Bool, false, Option, none, some, ℤ, pos, ◌==◌, if◌then◌else◌, get_or}
use alpha_live.Utils.Retry.{Ending, returned, raised, assertion_error}
use alpha_live.Risk.Types.{Now, market}
use alpha_live.State.Types.{
  sell, close, Status, raised_error, unrecognized_status, Intent, BotState,
}
use alpha_live.State.Intents.{get_open_intent}
use alpha_live.Orders.Placing.{BrokerException, is_definite_rejection}
use alpha_live.Orders.Progress.{BrokerOrder, close_failed, Office, tell, apply_order_progress}
use alpha_live.Orders.Reconcile.{map_broker_order_status, seen_as, update}
use alpha_live.Orders.Settle.{settle_working_orders_before_close}
use alpha_live.Orders.Venue.{
  Located, lookup_raised, no_position, held, Ticket, Venue, qty_equal, noted, prepare, count_order,
  count_call, send_order,
}
use alpha_live.Orders.OpenClose.{
  Closing, success, in_flight, quarantine, rejected, fresh, proceed, reconcile_open_close_intent,
}

pub data CloseStatus : Type 0 where
  succeeded partial pending blocked error : CloseStatus

-- The `fill_status`: a mapped status, or one of the two other texts.
pub data FillStatus : Type 0 where
  mapped : Status → FillStatus
  already_flat unknown : FillStatus

-- The result, less its texts.
pub record CloseResult : Type 0 where
  pub status : CloseStatus
  pub fill_status : FillStatus
  pub order_id : Option ℕ
  pub filled_qty : Option ℕ
  pub filled_price : Option ℕ

-- A result without an order.
abbrev pub plain : CloseStatus → FillStatus → CloseResult
plain status fill_status = record {
  status = status;
  fill_status = fill_status;
  order_id = none;
  filled_qty = none;
  filled_price = none;
}

-- `float(price) if price else None`
unfoldable pub price_of : BrokerOrder → Option ℕ
price_of order = elim order.filled_avg_price [
  | none ↦ none
  | some p ↦ if p == 0 then none else some p
]

unfoldable pub of_order : CloseStatus → Status → BrokerOrder → CloseResult
unfolding price_of
of_order status s order = record {
  status = status;
  fill_status = mapped s;
  order_id = some order.id;
  filled_qty = some (get_or order.filled_qty 0);
  filled_price = price_of order;
}

abbrev pub open_as : Status → CloseStatus
open_as Status.partially_filled = partial
open_as _ = pending

-- The result for the mapped status of an order that is not known to be filled.
unfoldable pub still_open : Option Status → BrokerOrder → CloseResult
unfolding of_order
still_open none order = of_order blocked Status.uncertain order
still_open (some s) order = of_order (open_as s) s order

unfoldable pub result_of : Option Status → BrokerOrder → CloseResult
unfolding of_order still_open
result_of (some Status.filled) order = of_order succeeded Status.filled order
result_of m order = still_open m order

-- A result, or a quantity to sell.
pub data Plan : Type 0 where
  report : CloseResult → Plan
  sell_rest : ℤ → Plan

-- What the reconciliation of the last close leads to; `none` is a fresh look.
unfoldable pub plan_for : Closing → Option Plan
unfolding of_order still_open
plan_for (quarantine d) = some (report (plain blocked (mapped Status.uncertain)))
plan_for rejected = some (report (plain error (mapped Status.rejected)))
plan_for (in_flight m order) = some (report (still_open m order))
plan_for (success order) = some (report (of_order succeeded Status.filled order))
plan_for (proceed qty) = some (sell_rest qty)
plan_for fresh = none

-- The fresh look.
unfoldable pub plan_afresh : Located → Plan
unfolding qty_equal
plan_afresh lookup_raised = report (plain error unknown)
plan_afresh no_position = report (plain succeeded already_flat)
plan_afresh (held h) =
    if qty_equal h.qty (pos 0) then report (plain succeeded already_flat) else sell_rest h.qty

abbrev pub closing_ticket : ℕ → ℤ → Intent → Ticket
closing_ticket ticker qty i = record {
  symbol = ticker;
  qty = qty;
  side = sell;
  limit_price = none;
  client_order_id = i.client_order_id;
}

-- The handler of an exception.
unfoldable pub fail_close : Now → ℕ → Intent → Bool → Office → Office × CloseResult
unfolding update tell
fail_close now ticker i definite o =
    if definite
    then (
      tell (close_failed ticker) (update now i (noted Status.rejected raised_error) o),
      plain error (mapped Status.rejected),
    )
    else (
      tell (close_failed ticker) (update now i (noted Status.uncertain raised_error) o),
      plain blocked (mapped Status.uncertain),
    )

-- A status that is not recognised is not guessed at.
unfoldable pub distrust : Option Status → Now → Intent → Office → Office
unfolding update
distrust none now i o = update now i (noted Status.uncertain unrecognized_status) o
distrust (some s) now i o = o

module _ (divide : ℕ → ℕ → ℕ) (now : Now) where
  -- The broker took the order.
  unfoldable pub take_close : Intent → BrokerOrder → Office → Office × CloseResult
  unfolding update count_call distrust result_of
  take_close i order o =
      let m = map_broker_order_status order.status in
      let booked = apply_order_progress divide now i order (count_call now o) in
      let seen = update now i (seen_as (get_or m Status.uncertain) order) booked in
      (distrust m now i seen, result_of m order)

  unfoldable pub conclude_close :
      ℕ → Intent → Ending BrokerException BrokerOrder → Office → Office × CloseResult
  unfolding take_close fail_close
  conclude_close ticker i (returned order) o = take_close i order o
  conclude_close ticker i (raised e) o = fail_close now ticker i (is_definite_rejection e) o
  conclude_close ticker i assertion_error o = fail_close now ticker i false o

module _ {S : Type 0} (venue : Venue S) (divide : ℕ → ℕ → ℕ) (grace : ℕ) (new_id : BotState → ℕ)
    (now : Now) where
  -- The one order of a close.
  unfoldable pub sell_position : ℕ → ℤ → Office × S → (Office × S) × CloseResult
  unfolding prepare count_order conclude_close
  sell_position ticker qty (o, s) =
      let (ready, i) = prepare new_id now ticker qty close market o in
      let ((sent, s'), ending) =
        send_order venue (closing_ticket ticker qty i) (count_order ticker none now ready, s) in
      let (o', r) = conclude_close divide now ticker i ending sent in ((o', s'), r)

  unfoldable pub carry_out : ℕ → Plan → Office × S → (Office × S) × CloseResult
  unfolding sell_position
  carry_out ticker (report r) x = (x, r)
  carry_out ticker (sell_rest qty) x = sell_position ticker qty x

  unfoldable pub sell_afresh : ℕ → Office × S → (Office × S) × CloseResult
  unfolding plan_afresh carry_out
  sell_afresh ticker (o, s) =
      let (s', found) = venue.get_position ticker s in carry_out ticker (plan_afresh found) (o, s')

  unfoldable pub act_on : ℕ → Closing → Office × S → (Office × S) × CloseResult
  unfolding plan_for carry_out sell_afresh
  act_on ticker c x = elim (plan_for c) [
    | none ↦ sell_afresh ticker x
    | some plan ↦ carry_out ticker plan x
  ]

  unfoldable pub close_settled : ℕ → Office × S → (Office × S) × CloseResult
  unfolding act_on sell_afresh
  close_settled ticker (o, s) = elim (get_open_intent ticker close o.store.mem) [
    | none ↦ sell_afresh ticker (o, s)
    | some i ↦
        let (x, c) = reconcile_open_close_intent venue divide grace new_id now i (o, s) in
        act_on ticker c x
  ]

  -- The result for an order that still works.
  abbrev pub wait_for : Intent → CloseResult
  wait_for i = record (plain pending (mapped i.status)) { order_id = i.broker_order_id }

  unfoldable pub close_position : Bool → ℕ → Office × S → (Office × S) × CloseResult
  unfolding close_settled
  close_position dry_run ticker x =
      if dry_run
      then (x, plain succeeded (mapped Status.filled))
      else (let (y, waiting) =
            settle_working_orders_before_close venue.broker divide grace now ticker x in
          elim waiting [ none ↦ close_settled ticker y | some i ↦ (y, wait_for i) ])
