-- ===== src/Orders/ExecuteSignal.antt =====
-- `execute_signal`, for an order manager that has a state: a signal is checked, sized, and sent as at
-- most one order, whose intent is on disk before.
pub mod Records
pub mod Sends
mod Tests
use alpha_live.Prelude.{
  ℕ, ◌*◌, Bool, true, false, ◌&&◌, ◌||◌, Option, none, some, List, [], ◌∷◌, ◌++◌, ℤ, pos, ◌-ℤ◌, abs,
  ltb, ltb_ℤ, ◌==◌, if◌then◌else◌, get_or, Outcome, ok, raise,
}
use alpha_live.Utils.Retry.{Ending, returned, raised, assertion_error}
use alpha_live.Risk.Types.{Now}
use alpha_live.Risk.Gate.{PauseCause, Controls, Request, Verdict, can_trade}
use alpha_live.State.Types.{Side, Status, raised_error, unrecognized_status, Intent, BotState}
use alpha_live.State.Intents.{get_submission_intent, list_open_intents}
use alpha_live.Orders.Placing.{BrokerException, is_definite_rejection}
use alpha_live.Orders.Progress.{
  BrokerOrder, Message, high_slippage, partial_fill, order_failed, Office, tell,
  apply_order_progress,
}
use alpha_live.Orders.Reconcile.{map_broker_order_status, seen_as, update, eq_prepared}
use alpha_live.Orders.Venue.{Venue, prepare, noted, count_order, count_call, send_order}
use alpha_live.Orders.Sync.{sync_open_intents}
use alpha_live.Orders.Signals.{
  OrderRecord, Journal, not_actionable, risk, duplicate, unresolved, SignalResult, blocked,
  order_error, simulated, taken, taken_with_error, side_of, check_recent_order, open_for, bar_time,
  Decision, refuse, place, decide, ticket_for,
}
use alpha_live.Orders.TakeOrder.{conclude_order}

module _ {S : Type 0} (venue : Venue S) (divide : ℕ → ℕ → ℕ) (grace : ℕ) (new_id : BotState → ℕ)
    (now : Now) where
  -- The one order of a signal.
  unfoldable pub place_order :
      Request → ℕ → Side → ℤ → (Office × Journal) × S → ((Office × Journal) × S) × SignalResult
  unfolding prepare count_order send_order conclude_order
  place_order r current side qty ((o, j), s) =
      let (ready, i) =
        prepare new_id now r.ticker qty side o.manager.execution_config.order_type o in
      let counted = count_order r.ticker (bar_time r.current_bar) now ready in
      let ((sent, s'), ending) =
        send_order venue (ticket_for o.manager r.ticker current side qty i) (counted, s) in
      let (x, result) = conclude_order divide now r current side qty i ending (sent, j) in
      ((x, s'), result)

  unfoldable pub carry_out :
      Bool
      → Request
      → ℕ
      → Side
      → Decision
      → (Office × Journal) × S
      → ((Office × Journal) × S) × SignalResult
  unfolding place_order
  carry_out dry_run r current side (refuse x) y = (y, x)
  carry_out dry_run r current side (place qty) y =
      if dry_run then (y, simulated qty current) else place_order r current side qty y

  -- Steps 4 to 7.
  unfoldable pub size_and_place :
      Bool → Request → ℕ → Side → (Office × Journal) × S → ((Office × Journal) × S) × SignalResult
  unfolding decide carry_out
  size_and_place dry_run r current side ((o, j), s) =
      let (s', found) = venue.get_position r.ticker s in
      carry_out dry_run r current side (decide o.manager r current side found) ((o, j), s')

  -- Step 3; `own` is `self.config.ticker`.
  unfoldable pub when_resolved :
      Bool
      → Request
      → ℕ
      → Side
      → List Intent
      → (Office × Journal) × S
      → ((Office × Journal) × S) × SignalResult
  unfolding size_and_place
  when_resolved dry_run r current side [] x = size_and_place dry_run r current side x
  when_resolved dry_run r current side (i ∷ is) x = (x, blocked (unresolved (i ∷ is)))

  unfoldable pub after_sync :
      Bool
      → ℕ
      → Request
      → ℕ
      → Side
      → (Office × Journal) × S
      → ((Office × Journal) × S) × SignalResult
  unfolding when_resolved open_for
  after_sync dry_run own r current side ((o, j), s) =
      if dry_run
      then size_and_place dry_run r current side ((o, j), s)
      else (let (o', s') = (sync_open_intents venue divide grace new_id now dry_run own (o, s)).0 in
          when_resolved dry_run r current side (open_for r.ticker (list_open_intents o'.store.mem))
            ((o', j), s'))

  -- Steps 2 and 3, for a signal that the risk manager lets pass.
  unfoldable pub admit :
      Bool
      → ℕ
      → Request
      → ℕ
      → Side
      → Option OrderRecord
      → (Office × Journal) × S
      → ((Office × Journal) × S) × SignalResult
  unfolding after_sync
  admit dry_run own r current side (some e) x = (x, blocked (duplicate e))
  admit dry_run own r current side none x = after_sync dry_run own r current side x

  unfoldable pub after_verdict :
      Bool
      → ℕ
      → Request
      → ℕ
      → Side
      → Outcome Verdict
      → (Office × Journal) × S
      → ((Office × Journal) × S) × Outcome SignalResult
  unfolding admit check_recent_order
  after_verdict dry_run own r current side (raise e) x = (x, raise e)
  after_verdict dry_run own r current side (ok (Verdict.blocked why)) x =
      (x, ok (blocked (risk why)))
  after_verdict dry_run own r current side (ok Verdict.allowed) x =
      let (y, result) =
        admit dry_run own r current side (check_recent_order now r.ticker side x.0.1) x in
      (y, ok result)

  unfoldable pub execute_signal :
      Bool
      → ℕ
      → Option PauseCause
      → Request
      → ℕ
      → (Office × Journal) × S
      → ((Office × Journal) × S) × Outcome SignalResult
  unfolding after_verdict side_of
  execute_signal dry_run own global_pause r current ((o, j), s) = elim (side_of r.signal) [
    | none ↦ (((o, j), s), ok (blocked not_actionable))
    | some side ↦
        let controls : Controls = record {
          trading_paused_env = o.trading_paused_env;
          global_pause = global_pause;
        } in
        let (m, v) = can_trade o.manager controls r in
        after_verdict dry_run own r current side v ((record o { manager = m }, j), s)
  ]
