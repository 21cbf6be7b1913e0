-- ===== src/Orders/Reconcile/Leaves.antt =====
-- What reconciling leaves of an intent: one whose outcome is unknown stays open.
use alpha_live.Prelude.{
  ℕ, ◌+◌, ◌≡◌, ◌∙◌, refl, true, inl, inr, some, leb, get_or, Bool-cases, Option-cases,
}
use alpha_live.Risk.Types.{Now}
use alpha_live.State.Types.{Status, Intent, is_open}
use alpha_live.Orders.Progress.{BrokerOrder, Office, apply_order_progress}
use alpha_live.Orders.Reconcile.{
  Answer, unavailable, unknown, known, Action, never_sent, missing_past_grace, lookup_unavailable,
  missing_within_grace, unrecognized, map_broker_order_status, eq_prepared, eq_uncertain, seen_as,
  update, action_for, reconcile_unavailable, mark_missing, conclude_missing, reconcile_missing,
  reconcile_unknown, reconcile_known, reconcile_intent,
}
use alpha_live.Orders.Reconcile.Fills.{stored, stored-update}
use alpha_live.Orders.Reconcile.Keeps.{progress-Keeps}

-- The intent is stored, for the ticker.
abbrev pub Stays : ℕ → ℕ → Office → Type 0
Stays id ticker o = (k : Intent) × (stored id o ≡ some k) × (k.ticker ≡ ticker)

-- The intent is stored, for the ticker, and open.
abbrev pub Blocks : ℕ → ℕ → Office → Type 0
Blocks id ticker o =
    (k : Intent) × (stored id o ≡ some k) × (k.ticker ≡ ticker) × (is_open k.status ≡ true)

-- What the action says of the intent.
abbrev pub Leaves : ℕ → ℕ → Action → Office → Type 0
Leaves id ticker (Action.filled order) o = Stays id ticker o
Leaves id ticker (Action.in_flight order) o = Stays id ticker o
Leaves id ticker (Action.terminal order) o = Stays id ticker o
Leaves id ticker never_sent o = Unit
Leaves id ticker missing_past_grace o = Unit
Leaves id ticker lookup_unavailable o = Blocks id ticker o
Leaves id ticker missing_within_grace o = Blocks id ticker o
Leaves id ticker unrecognized o = Blocks id ticker o

Leaves-action_for :
    (id ticker : ℕ) (s : Status) (order : BrokerOrder) (o : Office)
    → Stays id ticker o
    → Leaves id ticker (action_for s order) o
Leaves-action_for id ticker Status.prepared order o h = h
Leaves-action_for id ticker Status.submitting order o h = h
Leaves-action_for id ticker Status.submitted order o h = h
Leaves-action_for id ticker Status.partially_filled order o h = h
Leaves-action_for id ticker Status.filled order o h = h
Leaves-action_for id ticker Status.rejected order o h = h
Leaves-action_for id ticker Status.cancelled order o h = h
Leaves-action_for id ticker Status.expired order o h = h
Leaves-action_for id ticker Status.uncertain order o h = h
Leaves-action_for id ticker Status.reconciled order o h = h
Leaves-action_for id ticker Status.abandoned order o h = h

-- An update to uncertain blocks.
pub uncertain-Blocks :
    (now : Now) (i k : Intent) (fields : Intent → Intent) (o : Office)
    → stored i.intent_id o ≡ some k
    → k.ticker ≡ i.ticker
    → (fields k).status ≡ Status.uncertain
    → (fields k).ticker ≡ k.ticker
    → Blocks i.intent_id i.ticker (update now i fields o)
uncertain-Blocks now i k fields o e t u f = (
  record (fields k) { updated_at = now.instant },
  stored-update now i k fields o e,
  f ∙ t,
  unfold is_open in rw u refl,
)

module _ (divide : ℕ → ℕ → ℕ) (grace : ℕ) (now : Now) (i : Intent) where
  unavailable-Leaves :
      (o : Office)
      → stored i.intent_id o ≡ some i
      → is_open i.status ≡ true
      → (let y = reconcile_unavailable now i o in Leaves i.intent_id i.ticker y.1 y.0)
  unfolding reconcile_unavailable
  unavailable-Leaves o e h = elim (Bool-cases (eq_uncertain i.status)) [
    | inl u ↦ rw (u, reconcile_unavailable) (i, e, refl, h)
    | inr n ↦ rw (n, reconcile_unavailable) (uncertain-Blocks now i i _ o e refl refl refl)
  ]

  mark_missing-Blocks :
      (o : Office)
      → stored i.intent_id o ≡ some i
      → is_open i.status ≡ true
      → Blocks i.intent_id i.ticker (mark_missing now i o)
  unfolding mark_missing
  mark_missing-Blocks o e h = elim (Option-cases i.not_found_since) [
    | inl n ↦ rw (n, mark_missing) (uncertain-Blocks now i i _ o e refl refl refl)
    | inr (t, n) ↦ rw (n, mark_missing) (i, e, refl, h)
  ]

  unknown-Leaves :
      (o : Office)
      → stored i.intent_id o ≡ some i
      → is_open i.status ≡ true
      → (let y = reconcile_unknown grace now i o in Leaves i.intent_id i.ticker y.1 y.0)
  unfolding reconcile_unknown reconcile_missing conclude_missing
  unknown-Leaves o e h = elim (Bool-cases (eq_prepared i.status)) [
    | inl p ↦ rw (p, reconcile_unknown) tt
    | inr n ↦ elim (Bool-cases (leb (get_or i.not_found_since now.instant + grace) now.instant)) [
      | inl past ↦ rw (n, past, reconcile_unknown, reconcile_missing, conclude_missing) tt
      | inr within ↦
          rw (n, within, reconcile_unknown, reconcile_missing, conclude_missing)
            (mark_missing-Blocks o e h)
    ]
  ]

  known-Leaves :
      (order : BrokerOrder) (o : Office)
      → stored i.intent_id o ≡ some i
      → (let y = reconcile_known divide grace now i order o in Leaves i.intent_id i.ticker y.1 y.0)
  unfolding reconcile_known
  known-Leaves order o e =
      let b = apply_order_progress divide now i order o in
      let k = progress-Keeps divide now i i order o e in
      elim (Option-cases (map_broker_order_status order.status)) [
        | inl n ↦
            rw (n, reconcile_known)
              (uncertain-Blocks now i k.now_stored (seen_as Status.uncertain order) b k.at_id
                k.same_ticker refl refl)
        | inr (s, m) ↦
            rw (m, reconcile_known)
              (Leaves-action_for i.intent_id i.ticker s order (update now i (seen_as s order) b) (
                record k.now_stored {
                  status = s;
                  broker_order_id = some order.id;
                  updated_at = now.instant;
                },
                stored-update now i k.now_stored (seen_as s order) b k.at_id,
                k.same_ticker,
              ))
      ]

  pub reconcile_intent-Leaves :
      (answer : Answer) (o : Office)
      → stored i.intent_id o ≡ some i
      → is_open i.status ≡ true
      → (let y = reconcile_intent divide grace now i answer o in
          Leaves i.intent_id i.ticker y.1 y.0)
  unfolding reconcile_intent
  reconcile_intent-Leaves unavailable o e h = unavailable-Leaves o e h
  reconcile_intent-Leaves unknown o e h = unknown-Leaves o e h
  reconcile_intent-Leaves (known order) o e h = known-Leaves order o e
