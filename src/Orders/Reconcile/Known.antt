-- ===== src/Orders/Reconcile/Known.antt =====
-- What a status of the broker is mapped to: never to one of an order that has not been sent.
use alpha_live.Prelude.{
  ℕ, ◌≡◌, refl, subst, false, ◌||◌, none, some, List, [], ◌∷◌, Option, Bool-cases, inl, inr,
}
use alpha_live.Prelude.Lists.{All}
use alpha_live.Utils.EnvBool.{eq_text, lower}
use alpha_live.State.Types.{Status}
use alpha_live.Orders.Reconcile.{
  broker_statuses, status_named, map_broker_order_status, eq_prepared, eq_submitting,
}

-- The order of the status was sent.
abbrev pub WasSent : Status → Type 0
WasSent s = (eq_prepared s || eq_submitting s) ≡ false

status_named-WasSent :
    (text : List ℕ) (table : List (List ℕ × Status)) (s : Status)
    → All (λ (e : List ℕ × Status). WasSent e.1) table
    → status_named text table ≡ some s
    → WasSent s
unfolding status_named
status_named-WasSent text [] s h e = cc
status_named-WasSent text ((name, t) ∷ rest) s h e = elim (Bool-cases (eq_text text name)) [
  | inl same ↦
      subst (λ (x : Option Status). elim x [ none ↦ Unit | some u ↦ WasSent u ])
        (rw (same, status_named) at e) h.0
  | inr other ↦ status_named-WasSent text rest s h.1 (rw (other, status_named) at e)
]

-- A mapped status is that of an order that was sent.
pub map_broker_order_status-WasSent :
    (text : Option (List ℕ)) (s : Status) → map_broker_order_status text ≡ some s → WasSent s
unfolding map_broker_order_status
map_broker_order_status-WasSent none s e = cc
map_broker_order_status-WasSent (some text) s e =
    status_named-WasSent (lower text) broker_statuses s
      (
        refl,
        (refl, (refl, (refl, (refl, (refl, (refl, (refl, (refl, (refl, (refl, (refl, tt))))))))))),
      )
      e
