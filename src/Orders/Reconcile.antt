-- ===== src/Orders/Reconcile.antt =====
-- `_map_broker_order_status` and `_reconcile_intent`. The broker's answer about the client order id
-- and the grace period in seconds are arguments.
pub mod Leaves
pub mod Sees
pub mod Known
pub mod Fills
pub mod Grace
pub mod Keeps
pub mod Since
mod Tests
use alpha_live.Prelude.{
  ℕ, ◌+◌, Bool, true, false, Option, none, some, List, [], ◌∷◌, leb, if◌then◌else◌, get_or,
}
use alpha_live.Utils.EnvBool.{codes, lower, eq_text}
use alpha_live.Risk.Types.{Now}
use alpha_live.State.Types.{Status, Note, never_submitted, not_found, lookup_failed, Intent}
use alpha_live.State.Intents.{update_submission_intent}
use alpha_live.Orders.Progress.{
  BrokerOrder, Message, abandoned_message, Office, on_store, tell, apply_order_progress,
}

-- `_BROKER_STATUS_TO_INTENT_STATUS`
abbrev pub broker_statuses : List (List ℕ × Status)
broker_statuses =
    (codes "filled", Status.filled)
    ∷ (codes "partially_filled", Status.partially_filled)
    ∷ (codes "rejected", Status.rejected)
    ∷ (codes "canceled", Status.cancelled)
    ∷ (codes "cancelled", Status.cancelled)
    ∷ (codes "expired", Status.expired)
    ∷ (codes "new", Status.submitted)
    ∷ (codes "accepted", Status.submitted)
    ∷ (codes "pending_new", Status.submitted)
    ∷ (codes "accepted_for_bidding", Status.submitted)
    ∷ (codes "held", Status.submitted)
    ∷ (codes "pending_cancel", Status.submitted)
    ∷ []

unfoldable pub status_named : List ℕ → List (List ℕ × Status) → Option Status
unfolding eq_text
status_named text [] = none
status_named text ((name, s) ∷ rest) = if eq_text text name then some s else status_named text rest

unfoldable pub map_broker_order_status : Option (List ℕ) → Option Status
unfolding status_named lower
map_broker_order_status none = none
map_broker_order_status (some text) = status_named (lower text) broker_statuses

-- The answer of `get_order_by_client_id`.
pub data Answer : Type 0 where
  unavailable unknown : Answer
  known : BrokerOrder → Answer

-- The `action`, with its order or the case of its detail.
pub data Action : Type 0 where
  filled in_flight terminal : BrokerOrder → Action
  never_sent missing_past_grace : Action
  lookup_unavailable missing_within_grace unrecognized : Action

abbrev pub eq_uncertain : Status → Bool
eq_uncertain Status.uncertain = true
eq_uncertain _ = false

abbrev pub eq_prepared : Status → Bool
eq_prepared Status.prepared = true
eq_prepared _ = false

abbrev pub eq_submitting : Status → Bool
eq_submitting Status.submitting = true
eq_submitting _ = false

-- The action for a recognised status.
abbrev pub action_for : Status → BrokerOrder → Action
action_for Status.filled order = filled order
action_for Status.partially_filled order = in_flight order
action_for Status.submitted order = in_flight order
action_for _ order = terminal order

unfoldable pub update : Now → Intent → (Intent → Intent) → Office → Office
unfolding on_store
update now i fields = on_store (update_submission_intent i.intent_id fields now.instant)

unfoldable pub reconcile_unavailable : Now → Intent → Office → Office × Action
unfolding update
reconcile_unavailable now i o = (
  if eq_uncertain i.status
      then o
      else update now i (λ j. record j { status = Status.uncertain; last_error = lookup_failed }) o,
  lookup_unavailable,
)

-- The first time that the broker had no order; it is stored when it is now.
unfoldable pub mark_missing : Now → Intent → Office → Office
unfolding update
mark_missing now i o = elim i.not_found_since [
  | none ↦
      update now i (λ j. record j { status = Status.uncertain; not_found_since = some now.instant })
        o
  | some t ↦ o
]

-- What is done about an order that is missing since `first`.
unfoldable pub conclude_missing : ℕ → ℕ → Now → Intent → Office → Office × Action
unfolding update tell
conclude_missing grace first now i o =
    if leb (first + grace) now.instant
    then (
      tell (abandoned_message i.intent_id)
          (update now i (λ j. record j { status = Status.abandoned; last_error = not_found }) o),
      missing_past_grace,
    )
    else (o, missing_within_grace)

unfoldable pub reconcile_missing : ℕ → Now → Intent → Office → Office × Action
unfolding mark_missing conclude_missing
reconcile_missing grace now i o =
    conclude_missing grace (get_or i.not_found_since now.instant) now i (mark_missing now i o)

unfoldable pub reconcile_unknown : ℕ → Now → Intent → Office → Office × Action
unfolding reconcile_missing update
reconcile_unknown grace now i o =
    if eq_prepared i.status
    then (
      update now i (λ j. record j { status = Status.abandoned; last_error = never_submitted }) o,
      never_sent,
    )
    else reconcile_missing grace now i o

abbrev pub seen_as : Status → BrokerOrder → Intent → Intent
seen_as s order j = record j { status = s; broker_order_id = some order.id }

module _ (divide : ℕ → ℕ → ℕ) (grace : ℕ) where
  unfoldable pub reconcile_known : Now → Intent → BrokerOrder → Office → Office × Action
  unfolding update
  reconcile_known now i order o =
      let booked = apply_order_progress divide now i order o in
      elim (map_broker_order_status order.status) [
        | none ↦ (update now i (seen_as Status.uncertain order) booked, unrecognized)
        | some mapped ↦ (update now i (seen_as mapped order) booked, action_for mapped order)
      ]

  unfoldable pub reconcile_intent : Now → Intent → Answer → Office → Office × Action
  unfolding reconcile_known reconcile_unknown reconcile_unavailable
  reconcile_intent now i unavailable o = reconcile_unavailable now i o
  reconcile_intent now i unknown o = reconcile_unknown grace now i o
  reconcile_intent now i (known order) o = reconcile_known now i order o
