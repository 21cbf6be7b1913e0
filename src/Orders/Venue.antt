-- ===== src/Orders/Venue.antt =====
-- The broker as the order manager calls it when it closes a position or follows a signal, and the
-- sending of one order. `Venue` is the interface: the order manager relies on nothing but these calls.
pub mod Crash
pub mod Stores
mod Tests
use alpha_live.Prelude.{
  ℕ, Bool, true, Option, some, List, [], ◌∷◌, ℤ, ◌-ℤ◌, abs, leb, if◌then◌else◌,
}
use alpha_live.Utils.EnvBool.{codes}
use alpha_live.Utils.Retry.{Attempt, Ending}
use alpha_live.Risk.Types.{Now, OrderType}
use alpha_live.Risk.Daily.{record_api_call, record_order_submitted}
use alpha_live.State.Types.{Side, Note, Status, Intent, BotState, qty_epsilon}
use alpha_live.State.Intents.{create_submission_intent}
use alpha_live.Orders.Placing.{BrokerException, OrderAlert, Placed, place_with_retry}
use alpha_live.Orders.Progress.{BrokerOrder, alert, Office, on_desk, tell}
use alpha_live.Orders.Reconcile.{update}
use alpha_live.Orders.Settle.{Broker}

-- A position of the broker; a short one may have a negative quantity.
pub record Holding : Type 0 where
  pub qty : ℤ
  pub is_short : Bool

-- What `get_position` does.
pub data Located : Type 0 where
  lookup_raised no_position : Located
  held : Holding → Located

-- An order to be placed: at market, or at a limit price in units of 10⁻¹⁴ dollars.
pub record Ticket : Type 0 where
  pub symbol : ℕ
  pub qty : ℤ
  pub side : Side
  pub limit_price : Option ℤ
  pub client_order_id : ℕ

-- The calls, on a state of the broker's own: `attempt` says what each attempt at the order does, and
-- `existing` what the client order id finds after them.
pub record Venue (S : Type 0) : Type 0 where
  pub broker : Broker S
  pub get_position : ℕ → S → S × Located
  pub attempt : Ticket → S → ℕ → Attempt BrokerException BrokerOrder
  pub existing : Ticket → S → Attempt BrokerException (Option BrokerOrder)
  pub after_placing : Ticket → S → S

-- `_qty_equal`, with `QTY_TOLERANCE`, a millionth of a share.
unfoldable pub qty_equal : ℤ → ℤ → Bool
qty_equal a b = leb (abs (a -ℤ b)) qty_epsilon

unfoldable pub tell_each : List OrderAlert → Office → Office
unfolding tell
tell_each [] o = o
tell_each (a ∷ rest) o = tell_each rest (tell (alert a) o)

-- What the placing leaves behind: its alerts, and TRADING_PAUSED.
unfoldable pub note_placed : {A : Type 0} → Placed A → Office → Office
unfolding tell_each
note_placed p o =
    let o' = tell_each p.alerts o in
    if p.trading_paused then record o' { trading_paused_env = some (codes "true") } else o'

-- `self.risk.record_order_submitted`, and `self.risk.record_api_call`.
unfoldable pub count_order : ℕ → Option ℕ → Now → Office → Office
unfolding on_desk
count_order ticker bar now = on_desk (record_order_submitted ticker bar now)

unfoldable pub count_call : Now → Office → Office
count_call now o = record o { manager = record_api_call now o.manager }

-- `update_submission_intent(…, status, last_error)`
abbrev pub noted : Status → Note → Intent → Intent
noted s note i = record i { status = s; last_error = note }

abbrev pub moved : Status → Intent → Intent
moved s i = record i { status = s }

-- `intent`, and its `submitting`, on disk before anything is sent.
unfoldable pub prepare : (BotState → ℕ) → Now → ℕ → ℤ → Side → OrderType → Office → Office × Intent
unfolding update
prepare new_id now ticker qty side order_type o =
    let (st, i) =
      create_submission_intent (new_id o.store.mem) ticker side qty order_type now.instant
        o.store in
    (update now i (moved Status.submitting) (record o { store = st }), i)

module _ {S : Type 0} (venue : Venue S) where
  -- One order, over at most three attempts.
  unfoldable pub send_order :
      Ticket → Office × S → (Office × S) × Ending BrokerException BrokerOrder
  unfolding note_placed
  send_order t (o, s) =
      let p = place_with_retry (venue.attempt t s) 3 true (venue.existing t s) in
      ((note_placed p o, venue.after_placing t s), p.ending)
