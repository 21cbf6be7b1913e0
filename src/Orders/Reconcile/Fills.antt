-- ===== src/Orders/Reconcile/Fills.antt =====
-- No status without its fills: what the broker confirms is booked before the intent is moved on, and
-- once.
use alpha_live.Prelude.{
  ℕ, ◌+◌, ◌≤◌, ◌<◌, ◌≡◌, refl, false, Option, some, arith, leb, Bool-cases, inl, inr, ◌==◌,
}
use alpha_live.Prelude.Dict.{lookup, lookup-insert_self}
use alpha_live.Risk.Types.{Now}
use alpha_live.State.Types.{Intent, BotState, qty_epsilon}
use alpha_live.State.Disk.{mutate}
use alpha_live.State.Fills.{applied, apply_new, apply_intent_fill_progress}
use alpha_live.State.Fills.Once.{stale, fresh, intent-apply_new}
use alpha_live.State.Intents.{update_submission_intent, put_intent}
use alpha_live.State.Ledger.Highs.{mutate-mem}
use alpha_live.Orders.Progress.{
  BrokerOrder, Office, on_store, after_booking, book_report, book_fill, apply_order_progress,
}
use alpha_live.Orders.Progress.Frame.{SameBooks, after_booking-SameBooks, SameBooks-trans}
use alpha_live.Orders.Reconcile.{update}

-- The stored intent of an id.
abbrev pub stored : ℕ → Office → Option Intent
stored id o = lookup id o.store.mem.submission_intents

-- An update of a stored intent.
pub stored-update :
    (now : Now) (i j : Intent) (fields : Intent → Intent) (o : Office)
    → stored i.intent_id o ≡ some j
    → stored i.intent_id (update now i fields o)
      ≡ some (record (fields j) { updated_at = now.instant })
unfolding update on_store update_submission_intent
stored-update now i j fields o e =
    rw
      (
        e,
        update,
        on_store,
        update_submission_intent,
        mutate-mem (put_intent i.intent_id (record (fields j) { updated_at = now.instant }))
            o.store,
      )
      (lookup-insert_self i.intent_id _ o.store.mem.submission_intents)

pub ledger-update :
    (now : Now) (i j : Intent) (fields : Intent → Intent) (o : Office)
    → stored i.intent_id o ≡ some j
    → (update now i fields o).store.mem.open_positions ≡ o.store.mem.open_positions
unfolding update on_store update_submission_intent
ledger-update now i j fields o e =
    rw
      (
        e,
        update,
        on_store,
        update_submission_intent,
        mutate-mem (put_intent i.intent_id (record (fields j) { updated_at = now.instant }))
            o.store,
      )
      refl

module _ (divide : ℕ → ℕ → ℕ) where
  -- The state that the booking of a report gives.
  abbrev pub booked : Now → Intent → ℕ → ℕ → Office → BotState
  booked now i filled price o =
      (apply_intent_fill_progress divide i.intent_id filled price
        o.manager.risk_config.commission_per_trade now.instant o.store.mem).0

  book_fill-SameBooks :
      (now : Now) (i j : Intent) (filled price : ℕ) (o : Office)
      → stored i.intent_id o ≡ some j
      → SameBooks (book_fill divide now i filled price o).store.mem (booked now i filled price o)
  unfolding book_fill book_report
  book_fill-SameBooks now i j filled price o e =
      let c = o.manager.risk_config.commission_per_trade in
      elim (Bool-cases (leb filled (j.filled_qty_applied + qty_epsilon))) [
        | inl old ↦
            rw
              (
                stale divide i.intent_id filled price c now.instant o.store.mem j e (ground arith),
                booked,
              )
              (refl, refl)
        | inr new ↦
            let n = apply_new divide i.intent_id j filled price c now.instant o.store.mem in
            let o' : Office = record o { store = (mutate (λ _. n.0) o.store).0 } in
            rw
              (
                fresh divide i.intent_id filled price c now.instant o.store.mem j e (ground arith),
                booked,
              )
              (SameBooks-trans (after_booking now n.1 o').store.mem o'.store.mem n.0
                (after_booking-SameBooks now n.1 o')
                (rw (mutate-mem (λ _. n.0) o.store) (refl, refl)))
      ]

  -- The report of a positive fill at a positive price.
  pub record Confirms (order : BrokerOrder) (filled price : ℕ) : Type 0 where
    pub quantity : order.filled_qty ≡ some filled
    pub average : order.filled_avg_price ≡ some price
    pub some_filled : 0 < filled
    pub some_price : 0 < price

  pub progress-SameBooks :
      (now : Now) (i j : Intent) (order : BrokerOrder) (filled price : ℕ) (o : Office)
      → Confirms order filled price
      → stored i.intent_id o ≡ some j
      → SameBooks
          (apply_order_progress divide now i order o).store.mem
          (booked now i filled price o)
  unfolding apply_order_progress
  progress-SameBooks now i j order filled price o h e =
      let f : (filled == 0) ≡ false = ground arith in
      let p : (price == 0) ≡ false = ground arith in
      rw (h.quantity, h.average, f, p) (book_fill-SameBooks now i j filled price o e)

  pub booked-covers :
      (now : Now) (i j : Intent) (filled price : ℕ) (o : Office)
      → stored i.intent_id o ≡ some j
      → (k : Intent) × (lookup i.intent_id (booked now i filled price o).submission_intents
          ≡ some k)
        × (filled ≤ k.filled_qty_applied + qty_epsilon)
  booked-covers now i j filled price o e =
      let c = o.manager.risk_config.commission_per_trade in
      elim (Bool-cases (leb filled (j.filled_qty_applied + qty_epsilon))) [
        | inl old ↦
            rw
              (
                stale divide i.intent_id filled price c now.instant o.store.mem j e (ground arith),
                booked,
              )
              (j, e, ground arith)
        | inr new ↦
            rw
              (
                fresh divide i.intent_id filled price c now.instant o.store.mem j e (ground arith),
                booked,
              )
              (
                applied j filled price now.instant,
                intent-apply_new divide i.intent_id filled price c now.instant o.store.mem j,
                unfold applied in omega arith,
              )
      ]
