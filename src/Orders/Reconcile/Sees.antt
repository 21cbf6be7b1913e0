-- ===== src/Orders/Reconcile/Sees.antt =====
-- An order that the broker has taken: its fill is booked, then its status is put on the intent.
use alpha_live.Prelude.{ℕ, ◌+◌, ◌≤◌, ◌≡◌, ◌∙◌, ap, some}
use alpha_live.Prelude.Dict.{lookup}
use alpha_live.Risk.Types.{Now}
use alpha_live.State.Types.{Intent, qty_epsilon}
use alpha_live.Orders.Progress.{BrokerOrder, Office, apply_order_progress}
use alpha_live.Orders.Reconcile.Fills.{stored, Confirms, progress-SameBooks, booked-covers}
use alpha_live.Orders.Reconcile.Keeps.{progress-Keeps}

module _ (divide : ℕ → ℕ → ℕ) where
  -- The intent has booked all that the order confirms, up to a millionth of a share.
  abbrev pub Covers : BrokerOrder → Intent → Type 0
  Covers order k =
      (filled price : ℕ)
      → Confirms divide order filled price
      → filled ≤ k.filled_qty_applied + qty_epsilon

  pub progress-Covers :
      (now : Now) (i j : Intent) (order : BrokerOrder) (o : Office)
      → stored i.intent_id o ≡ some j
      → (k : Intent) × (stored i.intent_id (apply_order_progress divide now i order o) ≡ some k)
        × Covers order k
  progress-Covers now i j order o e =
      let k = progress-Keeps divide now i j order o e in
      (
        k.now_stored,
        k.at_id,
        λ filled price h.
            let (k', is_k, c) = booked-covers divide now i j filled price o e in
            let same =
              ap (lookup i.intent_id) (progress-SameBooks divide now i j order filled price o h e).0
              ∙ is_k in
            let same_k : k.now_stored ≡ k' = cc in rw same_k c,
      )
