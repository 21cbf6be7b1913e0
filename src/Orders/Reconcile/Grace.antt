-- ===== src/Orders/Reconcile/Grace.antt =====
-- The grace period of an order that the broker does not know.
use alpha_live.Prelude.{
  ℕ, ◌+◌, ◌≡◌, ◌∙◌, refl, ap, subst, Bool, true, false, ◌||◌, none, some, List, [], ◌∷◌, leb,
  Bool-cases, inl, inr, if◌then◌else◌,
}
use alpha_live.Prelude.Lists.{any}
use alpha_live.Prelude.Dict.{lookup}
use alpha_live.Risk.Types.{Now}
use alpha_live.State.Types.{Status, Intent, is_open, not_found}
use alpha_live.State.Disk.{Store}
use alpha_live.Orders.Progress.{Office, abandoned_message}
use alpha_live.Orders.Progress.Frame.{tell-store}
use alpha_live.Orders.Reconcile.{
  update, unknown, Answer, mark_missing, conclude_missing, reconcile_missing, reconcile_unknown,
  reconcile_intent, eq_prepared,
}
use alpha_live.Orders.Reconcile.Fills.{stored, stored-update}

or-false : (b : Bool) → (b || false) ≡ b
or-false true = refl
or-false false = refl

or_assoc : (a b c : Bool) → (a || (b || c)) ≡ ((a || b) || c)
or_assoc true b c = refl
or_assoc false b c = refl

module _ (divide : ℕ → ℕ → ℕ) (grace id : ℕ) where
  -- The sync of one intent, while it is open, with an answer of the broker.
  unfoldable pub follow : Now → Answer → Office → Office
  follow now answer o = elim (stored id o) [
    | none ↦ o
    | some i ↦ if is_open i.status then (reconcile_intent divide grace now i answer o).0 else o
  ]

  -- The broker has no order at any of these times.
  unfoldable pub misses : List Now → Office → Office
  unfolding follow
  misses [] o = o
  misses (now ∷ ts) o = misses ts (follow now unknown o)

  pub stored-update_at :
      (now : Now) (i j : Intent) (fields : Intent → Intent) (o : Office)
      → i.intent_id ≡ id
      → stored id o ≡ some j
      → stored id (update now i fields o) ≡ some (record (fields j) { updated_at = now.instant })
  stored-update_at now i j fields o own at =
      subst
        (λ (k : ℕ).
          stored k o ≡ some j
          → stored k (update now i fields o)
            ≡ some (record (fields j) { updated_at = now.instant }))
        own (stored-update now i j fields o) at

  -- The intent is missing since `first`, and abandoned if `over`.
  pub record Missing (first : ℕ) (over : Bool) (o : Office) : Type 0 where
    pub intent : Intent
    pub at_id : stored id o ≡ some intent
    pub own_id : intent.intent_id ≡ id
    pub since : intent.not_found_since ≡ some first
    pub state : intent.status ≡ (if over then Status.abandoned else Status.uncertain)

  abbrev stamped : Now → Intent → Intent
  stamped now j = record j { updated_at = now.instant }

  abbrev marked : Now → Intent → Intent
  marked now j = record j { status = Status.uncertain; not_found_since = some now.instant }

  abbrev given_up : Intent → Intent
  given_up j = record j { status = Status.abandoned; last_error = not_found }

  pub conclude-Missing :
      (now : Now) (i j : Intent) (first : ℕ) (o : Office)
      → i.intent_id ≡ id
      → stored id o ≡ some j
      → j.intent_id ≡ id
      → j.not_found_since ≡ some first
      → j.status ≡ Status.uncertain
      → Missing first (leb (first + grace) now.instant) (conclude_missing grace first now i o).0
  unfolding conclude_missing
  conclude-Missing now i j first o own at jd s st =
      elim (Bool-cases (leb (first + grace) now.instant)) [
        | inl over ↦ rw over (record {
          intent = stamped now (given_up j);
          at_id =
              ap (λ (st : Store). lookup id st.mem.submission_intents)
                (tell-store (abandoned_message i.intent_id) (update now i given_up o))
              ∙ stored-update_at now i j given_up o own at;
          own_id = jd;
          since = s;
          state = refl;
        })
        | inr within ↦
            rw within (record { intent = j; at_id = at; own_id = jd; since = s; state = st })
      ]

  -- The first miss.
  first-Missing :
      (now : Now) (i : Intent) (o : Office)
      → stored id o ≡ some i
      → i.intent_id ≡ id
      → i.not_found_since ≡ none
      → eq_prepared i.status ≡ false
      → is_open i.status ≡ true
      → Missing now.instant (leb (now.instant + grace) now.instant) (follow now unknown o)
  unfolding follow reconcile_intent reconcile_unknown reconcile_missing mark_missing is_open
  first-Missing now i o at own n p open_i =
      rw
        (
          at, open_i, p, n, follow, reconcile_intent, reconcile_unknown, reconcile_missing,
          mark_missing,
        )
        (conclude-Missing now i (stamped now (marked now i)) now.instant
          (update now i (marked now) o) own (stored-update_at now i i (marked now) o own at) own
          refl refl)

  pub next-Missing :
      (now : Now) (first : ℕ) (over : Bool) (o : Office)
      → Missing first over o
      → Missing first (over || leb (first + grace) now.instant) (follow now unknown o)
  unfolding follow reconcile_intent reconcile_unknown reconcile_missing mark_missing is_open
  next-Missing now first true o h = rw (h.at_id, h.state, follow) h
  next-Missing now first false o h =
      rw
        (
          h.at_id, h.state, h.since, follow, reconcile_intent, reconcile_unknown, reconcile_missing,
          mark_missing,
        )
        (conclude-Missing now h.intent h.intent first o h.own_id h.at_id h.own_id h.since h.state)

  misses-Missing :
      (ts : List Now) (first : ℕ) (over : Bool) (o : Office)
      → Missing first over o
      → Missing first (over || any (λ (t : Now). leb (first + grace) t.instant) ts) (misses ts o)
  unfolding misses
  misses-Missing [] first over o h = rw (or-false over) h
  misses-Missing (t ∷ ts) first over o h = rw (or_assoc over (leb (first + grace) t.instant) _) (
      misses-Missing ts first (over || leb (first + grace) t.instant) (follow t unknown o)
        (next-Missing t first over o h))

  -- An order that the broker does not know is abandoned after the grace period and not before. Take an
  -- open intent that was sent and never missing so far, and let the broker have no order for it at any
  -- number of readings of the clock. Then it is abandoned exactly if one of them lies at least the
  -- grace period after the first, and is uncertain, so still blocking new orders, otherwise.
  pub abandoned_after_grace :
      (now : Now) (ts : List Now) (i : Intent) (o : Office)
      → stored id o ≡ some i
      → i.intent_id ≡ id
      → i.not_found_since ≡ none
      → eq_prepared i.status ≡ false
      → is_open i.status ≡ true
      → (k : Intent) × (stored id (misses (now ∷ ts) o) ≡ some k)
        × (k.status ≡ (
            if any (λ (t : Now). leb (now.instant + grace) t.instant) (now ∷ ts)
            then Status.abandoned
            else Status.uncertain))
  unfolding misses
  abandoned_after_grace now ts i o at own n p open_i =
      let m =
        misses-Missing ts now.instant (leb (now.instant + grace) now.instant) (follow now unknown o)
          (first-Missing now i o at own n p open_i) in
      (m.intent, m.at_id, m.state)
