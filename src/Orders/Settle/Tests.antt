-- ===== src/Orders/Settle/Tests.antt =====
-- Settling against a concrete broker.
use alpha_live.Prelude.{ℕ, ◌≡◌, refl, true, some, List, [], ◌∷◌}
use alpha_live.Prelude.Lists.{All}
use alpha_live.Prelude.Dict.{lookup, insert}
use alpha_live.Risk.Samples.{at_ten}
use alpha_live.State.Types.{Side, Intent, Status}
use alpha_live.Orders.Progress.{Office}
use alpha_live.Orders.Reconcile.{Answer, known}
use alpha_live.Orders.Settle.{Broker, is_entry, settle_working_orders_before_close}
use alpha_live.Orders.Samples.{quotient, sample_office, live_order}

-- A broker that remembers the orders it was told to cancel, and never finishes one.
abbrev slow_broker : Broker (List ℕ)
slow_broker = record {
  look_up = λ id cancelled. (cancelled, known live_order);
  cancel_order = λ id cancelled. (id ∷ cancelled, true);
}

-- The working entry is cancelled, and the close waits for it.
waits_run :
    ((settle_working_orders_before_close slow_broker quotient 900
        (at_ten 7)
        5
        (sample_office, [])).0.1
      ≡ 77 ∷ [])
unfolding settle_working_orders_before_close alpha_live.State.Intents.get_open_intent
    alpha_live.State.Types.is_open alpha_live.Orders.Reconcile.reconcile_intent
    alpha_live.Orders.Reconcile.map_broker_order_status
    alpha_live.State.Intents.update_submission_intent lookup
    alpha_live.Orders.Progress.apply_order_progress alpha_live.State.Disk.mutate insert
    alpha_live.State.Intents.list_open_intents alpha_live.State.Intents.get_submission_intent
waits_run = refl

-- Every order that was cancelled is that of a live BUY of ticker 5.
abbrev OnlyEntries : List ℕ → Type 0
OnlyEntries = All (λ (n : ℕ). (i : Intent) × (is_entry 5 i ≡ true) × (i.broker_order_id ≡ some n))
