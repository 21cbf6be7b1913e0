-- ===== src/Orders/Settle.antt =====
-- `cancel_open_entry_orders` and `_settle_working_orders_before_close`, over a broker that is known by
-- its two calls. An intent is never removed, so that the one read again after a cancel is there; the
-- order manager has a state and does not run dry.
pub mod Wait
mod Tests
use alpha_live.Prelude.{
  ℕ, ◌+◌, Bool, true, false, ◌&&◌, Option, none, some, List, [], ◌∷◌, ◌==◌, if◌then◌else◌, is_some,
}
use alpha_live.Risk.Types.{Now}
use alpha_live.State.Types.{Side, buy, sell, Status, Intent}
use alpha_live.State.Intents.{get_open_intent, get_submission_intent, list_open_intents, eq_side}
use alpha_live.Orders.Progress.{Office}
use alpha_live.Orders.Reconcile.{Answer, reconcile_intent}

-- The broker, with a state of its own: `get_order_by_client_id` by the client order id, and
-- `cancel_order` by the broker's order id, which says whether it raised nothing.
pub record Broker (S : Type 0) : Type 0 where
  pub look_up : ℕ → S → S × Answer
  pub cancel_order : ℕ → S → S × Bool

-- `status in (INTENT_SUBMITTED, INTENT_PARTIALLY_FILLED)`
unfoldable pub is_live : Status → Bool
is_live Status.submitted = true
is_live Status.partially_filled = true
is_live _ = false

-- A BUY of the ticker that works at the broker.
unfoldable pub is_entry : ℕ → Intent → Bool
unfolding is_live
is_entry ticker i = i.ticker == ticker && eq_side i.side buy && is_live i.status

-- The intent, if its order is live.
unfoldable pub live_only : Option Intent → Option Intent
unfolding is_live
live_only none = none
live_only (some i) = if is_live i.status then some i else none

module _ {S : Type 0} (broker : Broker S) (divide : ℕ → ℕ → ℕ) (grace : ℕ) (now : Now) where
  -- Look the order up, and reconcile.
  unfoldable pub reconcile_with : Intent → Office × S → Office × S
  reconcile_with i (o, s) =
      let (s', answer) = broker.look_up i.client_order_id s in
      ((reconcile_intent divide grace now i answer o).0, s')

  -- `working(side)`
  unfoldable pub working : ℕ → Side → Office × S → (Office × S) × Option Intent
  unfolding live_only reconcile_with
  working ticker side (o, s) = elim (live_only (get_open_intent ticker side o.store.mem)) [
    | none ↦ ((o, s), none)
    | some i ↦
        let x = reconcile_with i (o, s) in
        (x, live_only (get_open_intent ticker side x.0.store.mem))
  ]

  unfoldable pub cancel_one : Intent → ℕ → Office × S → (Office × S) × ℕ
  unfolding reconcile_with
  cancel_one i order_id (o, s) =
      let (s', cancelled) = broker.cancel_order order_id s in
      elim (get_submission_intent i.intent_id o.store.mem) [
        | none ↦ ((o, s'), if cancelled then 1 else 0)
        | some j ↦ (reconcile_with j (o, s'), if cancelled then 1 else 0)
      ]

  unfoldable pub cancel_entry : ℕ → Intent → Office × S → (Office × S) × ℕ
  unfolding cancel_one is_entry
  cancel_entry ticker i x = elim i.broker_order_id [
    | none ↦ (x, 0)
    | some order_id ↦ if is_entry ticker i then cancel_one i order_id x else (x, 0)
  ]

  unfoldable pub cancel_each : ℕ → List Intent → Office × S → (Office × S) × ℕ
  unfolding cancel_entry
  cancel_each ticker [] x = (x, 0)
  cancel_each ticker (i ∷ is) x =
      let (y, n) = cancel_entry ticker i x in let (z, m) = cancel_each ticker is y in (z, n + m)

  unfoldable pub cancel_open_entry_orders : ℕ → Office × S → (Office × S) × ℕ
  unfolding cancel_each
  cancel_open_entry_orders ticker x = cancel_each ticker (list_open_intents x.0.store.mem) x

  -- The BUY that is still live after the cancel.
  unfoldable pub settle_entry : ℕ → Office × S → (Office × S) × Option Intent
  unfolding working cancel_open_entry_orders
  settle_entry ticker x =
      let (y, entry) = working ticker buy x in
      elim entry [
        | none ↦ (y, none)
        | some i ↦ working ticker buy (cancel_open_entry_orders ticker y).0
      ]

  -- The intent that holds the close back, or `none` if the close may proceed.
  unfoldable pub settle_working_orders_before_close : ℕ → Office × S → (Office × S) × Option Intent
  unfolding settle_entry
  settle_working_orders_before_close ticker x =
      let (y, exit) = working ticker sell x in
      elim exit [ none ↦ settle_entry ticker y | some i ↦ (y, some i) ]
