-- ===== src/Orders/Reconcile/Since.antt =====
-- The time since which the broker has had no order, over any answers of the broker.
use alpha_live.Prelude.{
  ℕ, ◌+◌, ◌≤◌, ◌≡◌, ◌∙◌, sym, refl, ap, subst, true, false, some, List, [], ◌∷◌, arith, leb,
  Bool-cases, Option-cases, inl, inr,
}
use alpha_live.Prelude.Dict.{lookup}
use alpha_live.Risk.Types.{Now}
use alpha_live.State.Types.{Status, Intent, is_open, not_found, lookup_failed, never_submitted}
use alpha_live.Orders.Progress.{BrokerOrder, Office, apply_order_progress}
use alpha_live.State.Disk.{Store}
use alpha_live.Orders.Progress.Frame.{tell-store}
use alpha_live.Orders.Reconcile.{
  update, Answer, unknown, unavailable, known, eq_prepared, eq_uncertain, reconcile_intent,
  reconcile_known, reconcile_unknown, reconcile_unavailable, reconcile_missing, mark_missing,
  conclude_missing, map_broker_order_status, seen_as,
}
use alpha_live.Orders.Reconcile.Fills.{stored}
use alpha_live.Orders.Reconcile.Grace.{follow, stored-update_at}
use alpha_live.Orders.Reconcile.Keeps.{progress-Keeps}

module _ (divide : ℕ → ℕ → ℕ) (grace id first : ℕ) where
  -- The intent of the id is stored, and has been missing since `first`.
  pub record IsSince (o : Office) : Type 0 where
    pub intent : Intent
    pub at_id : stored id o ≡ some intent
    pub own_id : intent.intent_id ≡ id
    pub since : intent.not_found_since ≡ some first

  -- Fields that say nothing of the id and the missing time.
  abbrev Spares : (Intent → Intent) → Type 0
  Spares f =
      (j : Intent) → ((f j).intent_id ≡ j.intent_id) × ((f j).not_found_since ≡ j.not_found_since)

  update-IsSince :
      (now : Now) (i : Intent) (f : Intent → Intent) (o : Office)
      → i.intent_id ≡ id
      → Spares f
      → IsSince o
      → IsSince (update now i f o)
  update-IsSince now i f o own spares h = record {
    intent = record (f h.intent) { updated_at = now.instant };
    at_id = stored-update_at divide grace id now i h.intent f o own h.at_id;
    own_id = (spares h.intent).0 ∙ h.own_id;
    since = (spares h.intent).1 ∙ h.since;
  }

  conclude-IsSince :
      (now : Now) (i : Intent) (o : Office)
      → i.intent_id ≡ id
      → IsSince o
      → IsSince (conclude_missing grace first now i o).0
  unfolding conclude_missing
  conclude-IsSince now i o own h =
      let gone =
        update-IsSince now i (λ j. record j { status = Status.abandoned; last_error = not_found }) o
          own (λ j. (refl, refl)) h in
      elim (Bool-cases (leb (first + grace) now.instant)) [
        | inl over ↦
            rw (over, conclude_missing)
              (record {
                intent = gone.intent;
                at_id =
                    ap (λ (st : Store). lookup id st.mem.submission_intents) (tell-store _ _)
                    ∙ gone.at_id;
                own_id = gone.own_id;
                since = gone.since;
              })
        | inr within ↦ rw (within, conclude_missing) h
      ]

  unknown-IsSince :
      (now : Now) (o : Office)
      → (h : IsSince o) → IsSince (reconcile_unknown grace now h.intent o).0
  unfolding reconcile_unknown reconcile_missing mark_missing
  unknown-IsSince now o h = elim (Bool-cases (eq_prepared h.intent.status)) [
    | inl p ↦
        rw (p, reconcile_unknown)
          (update-IsSince now h.intent
            (λ j. record j { status = Status.abandoned; last_error = never_submitted }) o h.own_id
            (λ j. (refl, refl)) h)
    | inr s ↦
        rw (s, h.since, reconcile_unknown, reconcile_missing, mark_missing)
          (conclude-IsSince now h.intent o h.own_id h)
  ]

  unavailable-IsSince :
      (now : Now) (o : Office) → (h : IsSince o) → IsSince (reconcile_unavailable now h.intent o).0
  unfolding reconcile_unavailable
  unavailable-IsSince now o h = elim (Bool-cases (eq_uncertain h.intent.status)) [
    | inl u ↦ rw (u, reconcile_unavailable) h
    | inr u ↦
        rw (u, reconcile_unavailable)
          (update-IsSince now h.intent
            (λ j. record j { status = Status.uncertain; last_error = lookup_failed }) o h.own_id
            (λ j. (refl, refl)) h)
  ]

  known-IsSince :
      (now : Now) (order : BrokerOrder) (o : Office)
      → (h : IsSince o) → IsSince (reconcile_known divide grace now h.intent order o).0
  unfolding reconcile_known
  known-IsSince now order o h =
      let k =
        progress-Keeps divide now h.intent h.intent order o
          (subst (λ (n : ℕ). stored n o ≡ some h.intent) (sym h.own_id) h.at_id) in
      let b : IsSince (apply_order_progress divide now h.intent order o) = record {
        intent = k.now_stored;
        at_id =
            subst
              (λ (n : ℕ).
                stored n (apply_order_progress divide now h.intent order o) ≡ some k.now_stored)
              h.own_id k.at_id;
        own_id = k.same_id ∙ h.own_id;
        since = k.same_since ∙ h.since;
      } in
      elim (Option-cases (map_broker_order_status order.status)) [
        | inl n ↦
            rw (n, reconcile_known)
              (update-IsSince now h.intent (seen_as Status.uncertain order) _ h.own_id
                (λ j. (refl, refl)) b)
        | inr (s, m) ↦
            rw (m, reconcile_known)
              (update-IsSince now h.intent (seen_as s order) _ h.own_id (λ j. (refl, refl)) b)
      ]

  follow-IsSince :
      (now : Now) (answer : Answer) (o : Office)
      → IsSince o
      → IsSince (follow divide grace id now answer o)
  unfolding follow reconcile_intent
  follow-IsSince now answer o h = elim (Bool-cases (is_open h.intent.status)) [
    | inl opened ↦ elim answer as (λ a. IsSince (follow divide grace id now a o)) [
      | unavailable ↦ rw (h.at_id, opened, follow, reconcile_intent) (unavailable-IsSince now o h)
      | unknown ↦ rw (h.at_id, opened, follow, reconcile_intent) (unknown-IsSince now o h)
      | known order ↦ rw (h.at_id, opened, follow, reconcile_intent) (known-IsSince now order o h)
    ]
    | inr done ↦ rw (h.at_id, done, follow) h
  ]

  -- Any answers, one after another.
  unfoldable pub follows : List (Now × Answer) → Office → Office
  follows [] o = o
  follows ((now, answer) ∷ es) o = follows es (follow divide grace id now answer o)

  follows-IsSince : (es : List (Now × Answer)) (o : Office) → IsSince o → IsSince (follows es o)
  unfolding follows
  follows-IsSince [] o h = h
  follows-IsSince ((now, answer) ∷ es) o h =
      follows-IsSince es (follow divide grace id now answer o) (follow-IsSince now answer o h)

  some-since :
      (i k : Intent)
      → some i ≡ some k
      → i.not_found_since ≡ some first
      → k.not_found_since ≡ some first
  some-since i k e h = cc

  some-own : (i k : Intent) → some i ≡ some k → i.intent_id ≡ id → k.intent_id ≡ id
  some-own i k e h = cc

  overdue :
      (now : Now) (i j : Intent) (o : Office)
      → i.intent_id ≡ id
      → stored id o ≡ some j
      → leb (first + grace) now.instant ≡ true
      → (k : Intent) × (stored id (conclude_missing grace first now i o).0 ≡ some k)
        × (k.status ≡ Status.abandoned)
  unfolding conclude_missing
  overdue now i j o own at over =
      rw (over, conclude_missing)
        (
          record j { status = Status.abandoned; last_error = not_found; updated_at = now.instant },
          ap (λ (st : Store). lookup id st.mem.submission_intents) (tell-store _ _)
              ∙ stored-update_at divide grace id now i j
                  (λ k. record k { status = Status.abandoned; last_error = not_found }) o own at,
          refl,
        )

  -- The grace period runs from the first time ever that the broker had no order, and seeing the order
  -- in between does not renew it: after any answers of the broker, the order found alive included, an
  -- intent that is still open and was sent is abandoned at the next time the broker has no order, if
  -- that is at least the grace period after the first time.
  pub grace_runs_from_first :
      (es : List (Now × Answer)) (now : Now) (k : Intent) (o : Office)
      → IsSince o
      → first + grace ≤ now.instant
      → stored id (follows es o) ≡ some k
      → is_open k.status ≡ true
      → eq_prepared k.status ≡ false
      → (k' : Intent) × (stored id (follow divide grace id now unknown (follows es o)) ≡ some k')
        × (k'.status ≡ Status.abandoned)
  unfolding follow reconcile_intent reconcile_unknown reconcile_missing mark_missing
  grace_runs_from_first es now k o h late at opened sent =
      let g = follows-IsSince es o h in
      let s : k.not_found_since ≡ some first = some-since g.intent k (sym g.at_id ∙ at) g.since in
      let own : k.intent_id ≡ id = some-own g.intent k (sym g.at_id ∙ at) g.own_id in
      rw
        (
          at, opened, sent, s, follow, reconcile_intent, reconcile_unknown, reconcile_missing,
          mark_missing,
        )
        (overdue now k k (follows es o) own at (ground arith))
