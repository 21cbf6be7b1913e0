-- ===== src/Orders/TakeOrder/Records.antt =====
-- What a signal's order leaves on its intent.
use alpha_live.Prelude.{
  ℕ, ◌≡◌, ◌∙◌, refl, Bool, true, false, ◌&&◌, some, ℤ, ltb, ◌==◌, get_or, if◌then◌else◌, Bool-cases,
  Option-cases, inl, inr,
}
use alpha_live.Utils.Retry.{Ending, returned, raised, assertion_error}
use alpha_live.Risk.Types.{Now}
use alpha_live.Risk.Gate.{Request}
use alpha_live.State.Types.{Side, Status, unrecognized_status, raised_error, Intent}
use alpha_live.State.Intents.{get_submission_intent}
use alpha_live.Orders.Placing.{BrokerException, is_definite_rejection}
use alpha_live.Orders.Progress.{
  BrokerOrder, Message, Office, order_failed, high_slippage, partial_fill, apply_order_progress,
}
use alpha_live.Orders.Reconcile.{map_broker_order_status, seen_as}
use alpha_live.Orders.Reconcile.Fills.{stored, stored-update}
use alpha_live.Orders.Reconcile.Known.{WasSent, map_broker_order_status-WasSent}
use alpha_live.Orders.Reconcile.Sees.{Covers, progress-Covers}
use alpha_live.Orders.Venue.{count_call}
use alpha_live.Orders.Venue.Stores.{stored-tell}
use alpha_live.Orders.Signals.{Journal}
use alpha_live.Orders.TakeOrder.{
  tell_if, see_order, kept_open, leave_open, has_slipped, report_order, fail_order, take_order,
  conclude_order,
}

stored-tell_if :
    (id : ℕ) (b : Bool) (m : Message) (o : Office) → stored id (tell_if b m o) ≡ stored id o
stored-tell_if id true m o = stored-tell id m o
stored-tell_if id false m o = refl

module _ (divide : ℕ → ℕ → ℕ) where
  -- The intent of an order that the broker took.
  pub record IsSeen (order : BrokerOrder) (k : Intent) : Type 0 where
    pub has_status : k.status ≡ get_or (map_broker_order_status order.status) Status.uncertain
    pub has_id : k.broker_order_id ≡ some order.id
    pub covers : Covers divide order k

  -- The status that an ending of the placing calls for.
  abbrev pub Settles : Ending BrokerException BrokerOrder → Intent → Type 0
  Settles (returned order) k = IsSeen order k
  Settles (raised e) k =
      k.status ≡ (if is_definite_rejection e then Status.rejected else Status.uncertain)
  Settles assertion_error k = k.status ≡ Status.uncertain

  see_order-IsSeen :
      (now : Now) (i k : Intent) (order : BrokerOrder) (o : Office)
      → stored i.intent_id o ≡ some k
      → Covers divide order k
      → (k' : Intent) × (stored i.intent_id
            (see_order now i order (map_broker_order_status order.status) o)
          ≡ some k')
        × IsSeen order k'
  unfolding see_order
  see_order-IsSeen now i k order o e c =
      elim (Option-cases (map_broker_order_status order.status)) [
        | inl m ↦
            rw (m, see_order)
              (
                record k {
                  status = Status.uncertain;
                  broker_order_id = some order.id;
                  last_error = unrecognized_status;
                  updated_at = now.instant;
                },
                stored-update now i k _ o e,
                record { has_status = rw m refl; has_id = refl; covers = c },
              )
        | inr (s, m) ↦
            rw (m, see_order)
              (
                record k { status = s; broker_order_id = some order.id; updated_at = now.instant },
                stored-update now i k (seen_as s order) o e,
                record { has_status = rw m refl; has_id = refl; covers = c },
              )
      ]

  seen_sent : (order : BrokerOrder) (k : Intent) → IsSeen order k → kept_open k.status ≡ k.status
  seen_sent order k h = elim (Option-cases (map_broker_order_status order.status)) [
    | inl m ↦ let e : k.status ≡ Status.uncertain = rw m at h.has_status in rw e refl
    | inr (s, m) ↦
        let e : k.status ≡ s = rw m at h.has_status in
        let w : WasSent s = map_broker_order_status-WasSent order.status s m in rw (e, w) refl
  ]

  leave_open-IsSeen :
      (now : Now) (i k : Intent) (order : BrokerOrder) (qty : ℤ) (o : Office)
      → stored i.intent_id o ≡ some k
      → IsSeen order k
      → (k' : Intent) × (stored i.intent_id (leave_open now i order qty o).0 ≡ some k')
        × IsSeen order k'
  unfolding leave_open get_submission_intent
  leave_open-IsSeen now i k order qty o e h =
      rw (e, leave_open)
        (
          record k {
            broker_order_id = some order.id;
            last_error = raised_error;
            status = kept_open k.status;
            updated_at = now.instant;
          },
          stored-update now i k _ o e,
          record {
            has_status = seen_sent order k h ∙ h.has_status;
            has_id = refl;
            covers = h.covers;
          },
        )

  report_order-IsSeen :
      (now : Now) (r : Request) (current : ℕ) (side : Side) (qty : ℤ) (i k : Intent)
      (order : BrokerOrder) (o : Office) (j : Journal)
      → stored i.intent_id o ≡ some k
      → IsSeen order k
      → (k' : Intent) × (stored i.intent_id (report_order now r current side qty i order (o, j)).0.0
          ≡ some k')
        × IsSeen order k'
  unfolding report_order
  report_order-IsSeen now r current side qty i k order o j e h =
      let filled = get_or order.filled_qty 0 in
      let price = get_or order.filled_avg_price 0 in
      elim (Bool-cases (ltb 0 filled && ltb 0 price && current == 0)) [
        | inl z ↦ rw (z, report_order) (leave_open-IsSeen now i k order qty o e h)
        | inr z ↦
            let slipped = tell_if (has_slipped filled price current) (high_slippage r.ticker) o in
            rw (z, report_order)
              (
                k,
                stored-tell_if i.intent_id _ (partial_fill r.ticker) slipped
                    ∙ stored-tell_if i.intent_id _ (high_slippage r.ticker) o
                    ∙ e,
                h,
              )
      ]

  -- For an intent that is stored when the placing ends, whatever the ending: an order that the broker
  -- took has its fill booked and its status on the intent, and what failed is rejected if that is
  -- certain, and uncertain if not.
  pub conclude_order-Settles :
      (now : Now) (r : Request) (current : ℕ) (side : Side) (qty : ℤ) (i k : Intent)
      (ending : Ending BrokerException BrokerOrder) (o : Office) (j : Journal)
      → stored i.intent_id o ≡ some k
      → (k' : Intent) × (stored i.intent_id
            (conclude_order divide now r current side qty i ending (o, j)).0.0
          ≡ some k')
        × Settles ending k'
  unfolding conclude_order take_order count_call fail_order
  conclude_order-Settles now r current side qty i k (returned order) o j e =
      let (b, at_b, c) = progress-Covers divide now i k order (count_call now o) e in
      let booked = apply_order_progress divide now i order (count_call now o) in
      let (k', at_k, h) = see_order-IsSeen now i b order booked at_b c in
      report_order-IsSeen now r current side qty i k' order
        (see_order now i order (map_broker_order_status order.status) booked) j at_k h
  conclude_order-Settles now r current side qty i k (raised x) o j e = (
    record k {
      status = if is_definite_rejection x then Status.rejected else Status.uncertain;
      last_error = raised_error;
      updated_at = now.instant;
    },
    stored-tell i.intent_id (order_failed r.ticker) _ ∙ stored-update now i k _ o e,
    refl,
  )
  conclude_order-Settles now r current side qty i k assertion_error o j e = (
    record k { status = Status.uncertain; last_error = raised_error; updated_at = now.instant },
    stored-tell i.intent_id (order_failed r.ticker) _ ∙ stored-update now i k _ o e,
    refl,
  )
