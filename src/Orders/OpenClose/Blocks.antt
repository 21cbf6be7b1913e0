-- ===== src/Orders/OpenClose/Blocks.antt =====
-- A close that is quarantined keeps its ticker blocked.
use alpha_live.Prelude.{ℕ, ◌≡◌, ◌∙◌, refl, ap, true, inl, inr, some, ℤ, pos, Bool-cases}
use alpha_live.Prelude.Dict.{lookup, lookup-insert_self}
use alpha_live.Risk.Types.{Now, market}
use alpha_live.State.Types.{close, Status, inconsistent_remainder, Intent, BotState, is_open}
use alpha_live.State.Disk.{mutate}
use alpha_live.State.Intents.{put_intent, new_intent, create_submission_intent}
use alpha_live.State.Ledger.Highs.{mutate-mem}
use alpha_live.Orders.Progress.{BrokerOrder, Office}
use alpha_live.Orders.Reconcile.{
  Action, never_sent, missing_past_grace, lookup_unavailable, missing_within_grace, unrecognized,
  map_broker_order_status, reconcile_intent,
}
use alpha_live.Orders.Reconcile.Fills.{stored}
use alpha_live.Orders.Reconcile.Leaves.{
  Stays, Blocks, Leaves, uncertain-Blocks, reconcile_intent-Leaves,
}
use alpha_live.Orders.Venue.{Located, lookup_raised, no_position, held, Venue, qty_equal, noted}
use alpha_live.Orders.OpenClose.{
  Closing, quarantine, lookup_failed_after_cancel, is_filled, is_rejected, remainder,
  confirm_holding, confirm_flat, quarantine_remainder, weigh_holding, weigh_remainder, follow_live,
  follow_ended, follow, reconcile_open_close_intent,
}

-- The ticker is blocked, or the position could not be read after the order had ended.
abbrev pub QuarantineBlocks : ℕ → Closing → Office → Type 0
QuarantineBlocks ticker (quarantine lookup_failed_after_cancel) o = Unit
QuarantineBlocks ticker (quarantine d) o = (id : ℕ) × Blocks id ticker o
QuarantineBlocks ticker _ o = Unit

module _ (now : Now) (i : Intent) where
  confirm_flat-Blocks :
      (order : BrokerOrder) (found : Located) (o : Office)
      → Stays i.intent_id i.ticker o
      → (let y = confirm_flat now i order found o in QuarantineBlocks i.ticker y.1 y.0)
  unfolding confirm_flat confirm_holding
  confirm_flat-Blocks order lookup_raised o (k, e, t) =
      (i.intent_id, uncertain-Blocks now i k _ o e t refl refl)
  confirm_flat-Blocks order no_position o h = tt
  confirm_flat-Blocks order (held h) o (k, e, t) = elim (Bool-cases (qty_equal h.qty (pos 0))) [
    | inl flat ↦ rw (flat, confirm_flat, confirm_holding) tt
    | inr left ↦ elim (Bool-cases h.is_short) [
      | inl short ↦
          rw (left, short, confirm_flat, confirm_holding)
            (i.intent_id, uncertain-Blocks now i k _ o e t refl refl)
      | inr long ↦
          rw (left, long, confirm_flat, confirm_holding)
            (i.intent_id, uncertain-Blocks now i k _ o e t refl refl)
    ]
  ]

  module _ (new_id : BotState → ℕ) where
    quarantine_remainder-Blocks :
        (qty : ℤ) (o : Office)
        → Blocks (new_id o.store.mem) i.ticker (quarantine_remainder now new_id i.ticker qty o)
    unfolding quarantine_remainder create_submission_intent new_intent
    quarantine_remainder-Blocks qty o =
        let id = new_id o.store.mem in
        let j = new_intent id i.ticker close qty market now.instant in
        let o' : Office = record o { store = (mutate (put_intent id j) o.store).0 } in
        uncertain-Blocks now j j (noted Status.uncertain inconsistent_remainder) o'
          (ap (λ (s : BotState). lookup id s.submission_intents)
              (mutate-mem (put_intent id j) o.store)
            ∙ lookup-insert_self id j o.store.mem.submission_intents)
          refl refl refl

    weigh_remainder-Blocks :
        (order : BrokerOrder) (found : Located) (o : Office)
        → (let y = weigh_remainder now new_id i order found o in QuarantineBlocks i.ticker y.1 y.0)
    unfolding weigh_remainder weigh_holding
    weigh_remainder-Blocks order lookup_raised o = tt
    weigh_remainder-Blocks order no_position o = tt
    weigh_remainder-Blocks order (held h) o = elim (Bool-cases (qty_equal h.qty (pos 0))) [
      | inl flat ↦ rw (flat, weigh_remainder, weigh_holding) tt
      | inr left ↦ elim (Bool-cases (qty_equal h.qty (remainder i order))) [
        | inl fits ↦ rw (left, fits, weigh_remainder, weigh_holding) tt
        | inr off ↦
            rw (left, off, weigh_remainder, weigh_holding)
              (new_id o.store.mem, quarantine_remainder-Blocks h.qty o)
      ]
    ]

module _ {S : Type 0} (venue : Venue S) (divide : ℕ → ℕ → ℕ) (grace : ℕ) (new_id : BotState → ℕ)
    (now : Now) where
  follow_live-Blocks :
      (i : Intent) (order : BrokerOrder) (x : Office × S)
      → Stays i.intent_id i.ticker x.0
      → (let y = follow_live venue divide grace new_id now i order x in
          QuarantineBlocks i.ticker y.1 y.0.0)
  unfolding follow_live
  follow_live-Blocks i order (o, s) h =
      elim (Bool-cases (is_filled (map_broker_order_status order.status))) [
        | inl f ↦ rw (f, follow_live) (confirm_flat-Blocks now i order _ o h)
        | inr f ↦ rw (f, follow_live) tt
      ]

  follow-Blocks :
      (i : Intent) (a : Action) (x : Office × S)
      → Leaves i.intent_id i.ticker a x.0
      → (let y = follow venue divide grace new_id now i a x in QuarantineBlocks i.ticker y.1 y.0.0)
  unfolding follow follow_ended
  follow-Blocks i (Action.filled order) x h = follow_live-Blocks i order x h
  follow-Blocks i (Action.in_flight order) x h = follow_live-Blocks i order x h
  follow-Blocks i (Action.terminal order) (o, s) h =
      elim (Bool-cases (is_rejected (map_broker_order_status order.status))) [
        | inl f ↦ rw (f, follow, follow_ended) tt
        | inr f ↦ rw (f, follow, follow_ended) (weigh_remainder-Blocks now i new_id order _ _)
      ]
  follow-Blocks i never_sent x h = tt
  follow-Blocks i missing_past_grace x h = tt
  follow-Blocks i lookup_unavailable x h = (i.intent_id, h)
  follow-Blocks i missing_within_grace x h = (i.intent_id, h)
  follow-Blocks i unrecognized x h = (i.intent_id, h)

  -- A quarantined close keeps its ticker blocked. If the intent of a close is stored and open and
  -- reconciling it ends in a quarantine, then afterwards an open intent of the ticker is stored; the
  -- one exception is a position that could not be read after the order was cancelled or expired.
  pub quarantine_blocks :
      (i : Intent) (o : Office) (s : S)
      → stored i.intent_id o ≡ some i
      → is_open i.status ≡ true
      → let y = reconcile_open_close_intent venue divide grace new_id now i (o, s) in
        QuarantineBlocks i.ticker y.1 y.0.0
  unfolding reconcile_open_close_intent
  quarantine_blocks i o s e h =
      let (s', answer) = venue.broker.look_up i.client_order_id s in
      let y = reconcile_intent divide grace now i answer o in
      follow-Blocks i y.1 (y.0, s') (reconcile_intent-Leaves divide grace now i answer o e h)
