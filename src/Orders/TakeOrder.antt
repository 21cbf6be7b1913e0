-- ===== src/Orders/TakeOrder.antt =====
-- `execute_signal` once the order is sent: what the broker took is booked, recorded and reported, and
-- what it did not take is put down as rejected or uncertain.
pub mod Records
use alpha_live.Prelude.{
  ℕ, ◌*◌, Bool, true, false, ◌&&◌, ◌||◌, Option, none, some, List, [], ◌∷◌, ◌++◌, ℤ, pos, ◌-ℤ◌, abs,
  ltb, ltb_ℤ, ◌==◌, if◌then◌else◌, get_or,
}
use alpha_live.Utils.Retry.{Ending, returned, raised, assertion_error}
use alpha_live.Risk.Types.{Now}
use alpha_live.Risk.Gate.{Request}
use alpha_live.State.Types.{Side, Status, raised_error, unrecognized_status, Intent}
use alpha_live.State.Intents.{get_submission_intent}
use alpha_live.Orders.Placing.{BrokerException, is_definite_rejection}
use alpha_live.Orders.Progress.{
  BrokerOrder, Message, high_slippage, partial_fill, order_failed, Office, tell,
  apply_order_progress,
}
use alpha_live.Orders.Reconcile.{
  map_broker_order_status, seen_as, update, eq_prepared, eq_submitting,
}
use alpha_live.Orders.Venue.{noted, count_call}
use alpha_live.Orders.Signals.{
  OrderRecord, Journal, SignalResult, order_error, taken, taken_with_error, bar_time,
}

-- An alert, if the test holds.
abbrev pub tell_if : Bool → Message → Office → Office
tell_if b m o = if b then tell m o else o

-- The mapped status on the intent, or the one that is not recognised.
unfoldable pub see_order : Now → Intent → BrokerOrder → Option Status → Office → Office
unfolding update
see_order now i order none o =
    update now i
      (λ j. record j {
        status = Status.uncertain;
        broker_order_id = some order.id;
        last_error = unrecognized_status;
      })
      o
see_order now i order (some s) o = update now i (seen_as s order) o

-- An error after the broker took the order: the intent stays open.
abbrev pub kept_open : Status → Status
kept_open s = if eq_prepared s || eq_submitting s then Status.submitted else s

unfoldable pub leave_open : Now → Intent → BrokerOrder → ℤ → Office → Office × SignalResult
unfolding update get_submission_intent
leave_open now i order qty o = elim (get_submission_intent i.intent_id o.store.mem) [
  | none ↦ (o, taken_with_error none order.id qty)
  | some j ↦ (
    update now i
        (λ k. record k {
          broker_order_id = some order.id;
          last_error = raised_error;
          status = kept_open k.status;
        })
        o,
    taken_with_error (some (kept_open j.status)) order.id qty,
  )
]

-- `slippage_pct > 1.0`, for a price that is not 0.
abbrev pub has_slipped : ℕ → ℕ → ℕ → Bool
has_slipped filled price current =
    ltb 0 filled && ltb 0 price && ltb current (abs (pos price -ℤ pos current) * 100)

abbrev pub is_partial : Option Status → ℕ → ℤ → Bool
is_partial (some Status.partially_filled) filled qty = true
is_partial _ filled qty = ltb 0 filled && ltb_ℤ (pos filled) qty

abbrev pub price_if : ℕ → Option ℕ
price_if p = if p == 0 then none else some p

unfoldable pub record_for : Now → Request → Side → ℤ → BrokerOrder → Status → OrderRecord
unfolding bar_time
record_for now r side qty order status = record {
  ticker = r.ticker;
  side = side;
  qty = qty;
  filled_qty = get_or order.filled_qty 0;
  price = price_if (get_or order.filled_avg_price 0);
  order_id = order.id;
  timestamp = now.instant;
  bar_ts = bar_time r.current_bar;
  status = status;
}

unfoldable pub enter_record : OrderRecord → Journal → Journal
enter_record e j = record { order_history = j.order_history ++ e ∷ []; recent = e ∷ j.recent }

-- Alerts and the record of an order that was taken; a division by a price of 0 is the error.
unfoldable pub report_order :
    Now
    → Request
    → ℕ
    → Side
    → ℤ
    → Intent
    → BrokerOrder
    → Office × Journal
    → (Office × Journal) × SignalResult
unfolding leave_open enter_record record_for tell
report_order now r current side qty i order (o, j) =
    let filled = get_or order.filled_qty 0 in
    let price = get_or order.filled_avg_price 0 in
    let m = map_broker_order_status order.status in
    if ltb 0 filled && ltb 0 price && current == 0
    then (let (o', x) = leave_open now i order qty o in ((o', j), x))
    else (
      (
        tell_if (is_partial m filled qty) (partial_fill r.ticker)
            (tell_if (has_slipped filled price current) (high_slippage r.ticker) o),
        enter_record (record_for now r side qty order (get_or m Status.uncertain)) j,
      ),
      taken (get_or m Status.uncertain) order.id qty,
    )

-- The handler of an exception of the placing.
unfoldable pub fail_order : Now → ℕ → Intent → Bool → Office → Office
unfolding update tell
fail_order now ticker i definite o =
    tell (order_failed ticker)
      (update now i (noted (if definite then Status.rejected else Status.uncertain) raised_error) o)

module _ (divide : ℕ → ℕ → ℕ) (now : Now) where
  unfoldable pub take_order :
      Request
      → ℕ
      → Side
      → ℤ
      → Intent
      → BrokerOrder
      → Office × Journal
      → (Office × Journal) × SignalResult
  unfolding see_order report_order count_call
  take_order r current side qty i order (o, j) =
      let booked = apply_order_progress divide now i order (count_call now o) in
      report_order now r current side qty i order
        (see_order now i order (map_broker_order_status order.status) booked, j)

  unfoldable pub conclude_order :
      Request
      → ℕ
      → Side
      → ℤ
      → Intent
      → Ending BrokerException BrokerOrder
      → Office × Journal
      → (Office × Journal) × SignalResult
  unfolding take_order fail_order
  conclude_order r current side qty i (returned order) x = take_order r current side qty i order x
  conclude_order r current side qty i (raised e) (o, j) =
      ((fail_order now r.ticker i (is_definite_rejection e) o, j), order_error)
  conclude_order r current side qty i assertion_error (o, j) =
      ((fail_order now r.ticker i false o, j), order_error)

-- `get_order_history`, and `reset_daily`.
unfoldable pub get_order_history : Journal → List OrderRecord
get_order_history j = j.order_history

unfoldable pub reset_journal : Journal → Journal
reset_journal j = record { order_history = []; recent = [] }
