-- ===== src/Orders/Reconcile/Keeps.antt =====
-- Booking a report leaves the id, the ticker and the missing time of an intent alone.
use alpha_live.Prelude.{
  ℕ, ◌+◌, ◌≡◌, ◌∙◌, refl, ap, some, arith, leb, Bool-cases, Option-cases, inl, inr, ◌==◌,
}
use alpha_live.Prelude.Dict.{lookup}
use alpha_live.Risk.Types.{Now}
use alpha_live.State.Types.{Intent, qty_epsilon}
use alpha_live.State.Fills.{applied}
use alpha_live.State.Fills.Once.{stale, fresh, intent-apply_new}
use alpha_live.Orders.Progress.{BrokerOrder, Office, apply_order_progress}
use alpha_live.Orders.Reconcile.Fills.{stored, Confirms, booked, progress-SameBooks}

module _ (divide : ℕ → ℕ → ℕ) where
  -- The stored intent `k` is `j` as far as its id, its ticker and its missing time go.
  pub record Keeps (id : ℕ) (j : Intent) (o : Office) : Type 0 where
    pub now_stored : Intent
    pub at_id : stored id o ≡ some now_stored
    pub same_id : now_stored.intent_id ≡ j.intent_id
    pub same_since : now_stored.not_found_since ≡ j.not_found_since
    pub same_ticker : now_stored.ticker ≡ j.ticker

  booked-Keeps :
      (now : Now) (i j : Intent) (filled price : ℕ) (o : Office)
      → stored i.intent_id o ≡ some j
      → (k : Intent) × (lookup i.intent_id (booked divide now i filled price o).submission_intents
          ≡ some k)
        × (k.intent_id ≡ j.intent_id)
        × (k.not_found_since ≡ j.not_found_since)
        × (k.ticker ≡ j.ticker)
  booked-Keeps now i j filled price o e =
      let c = o.manager.risk_config.commission_per_trade in
      elim (Bool-cases (leb filled (j.filled_qty_applied + qty_epsilon))) [
        | inl old ↦
            rw
              (
                stale divide i.intent_id filled price c now.instant o.store.mem j e (ground arith),
                booked,
              )
              (j, e, refl, refl, refl)
        | inr new ↦
            rw
              (
                fresh divide i.intent_id filled price c now.instant o.store.mem j e (ground arith),
                booked,
              )
              (
                applied j filled price now.instant,
                intent-apply_new divide i.intent_id filled price c now.instant o.store.mem j,
                unfold applied in refl,
                unfold applied in refl,
                unfold applied in refl,
              )
      ]

  confirmed-Keeps :
      (now : Now) (i j : Intent) (order : BrokerOrder) (filled price : ℕ) (o : Office)
      → Confirms divide order filled price
      → stored i.intent_id o ≡ some j
      → Keeps i.intent_id j (apply_order_progress divide now i order o)
  confirmed-Keeps now i j order filled price o h e =
      let (k, at, same, since, ticker) = booked-Keeps now i j filled price o e in
      record {
        now_stored = k;
        at_id =
            ap (lookup i.intent_id) (progress-SameBooks divide now i j order filled price o h e).0
            ∙ at;
        same_id = same;
        same_since = since;
        same_ticker = ticker;
      }

  pub progress-Keeps :
      (now : Now) (i j : Intent) (order : BrokerOrder) (o : Office)
      → stored i.intent_id o ≡ some j
      → Keeps i.intent_id j (apply_order_progress divide now i order o)
  unfolding apply_order_progress
  progress-Keeps now i j order o e =
      let unchanged : Keeps i.intent_id j o = record {
        now_stored = j;
        at_id = e;
        same_id = refl;
        same_since = refl;
        same_ticker = refl;
      } in
      elim (Option-cases order.filled_qty) [
        | inl q ↦ rw (q, apply_order_progress) unchanged
        | inr (filled, q) ↦ elim (Option-cases order.filled_avg_price) [
          | inl p ↦ rw (q, p, apply_order_progress) unchanged
          | inr (price, p) ↦ elim (Bool-cases (filled == 0)) [
            | inl z ↦ rw (q, p, z, apply_order_progress) unchanged
            | inr f ↦ elim (Bool-cases (price == 0)) [
              | inl z ↦ rw (q, p, f, z, apply_order_progress) unchanged
              | inr g ↦
                  confirmed-Keeps now i j order filled price o
                    (record {
                      quantity = q;
                      average = p;
                      some_filled = ground arith;
                      some_price = ground arith;
                    })
                    e
            ]
          ]
        ]
      ]
