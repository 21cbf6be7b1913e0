-- ===== src/Orders/Sync/Reads.antt =====
-- Syncing only reads the broker: it looks orders up and reads positions, and places and cancels nothing.
use alpha_live.Prelude.{ℕ, Bool, List, [], ◌∷◌, ◌==◌, Bool-cases, inl, inr}
use alpha_live.Risk.Types.{Now}
use alpha_live.State.Types.{close, Intent, BotState}
use alpha_live.State.Intents.{eq_side}
use alpha_live.Orders.Progress.{BrokerOrder, Office}
use alpha_live.Orders.Reconcile.{
  Action, never_sent, missing_past_grace, lookup_unavailable, missing_within_grace, unrecognized,
  map_broker_order_status,
}
use alpha_live.Orders.Venue.{Venue}
use alpha_live.Orders.OpenClose.{
  is_filled, is_rejected, follow_live, follow_ended, follow, reconcile_open_close_intent,
}
use alpha_live.Orders.Sync.{sync_one, sync_each, sync_open_intents}

module _ {S : Type 0} (venue : Venue S) where
  -- A predicate of the broker's state that lookups keep.
  pub record Reads (P : S → Type 0) : Type 0 where
    pub looks : (id : ℕ) (s : S) → P s → P (venue.broker.look_up id s).0
    pub locates : (ticker : ℕ) (s : S) → P s → P (venue.get_position ticker s).0

  module _ (divide : ℕ → ℕ → ℕ) (grace : ℕ) (new_id : BotState → ℕ) (now : Now) (P : S → Type 0)
      (k : Reads P) where
    follow_live-reads :
        (i : Intent) (order : BrokerOrder) (x : Office × S)
        → P x.1
        → P (follow_live venue divide grace new_id now i order x).0.1
    unfolding follow_live
    follow_live-reads i order (o, s) p =
        elim (Bool-cases (is_filled (map_broker_order_status order.status))) [
          | inl f ↦ rw (f, follow_live) (k.locates i.ticker s p)
          | inr f ↦ rw (f, follow_live) p
        ]

    follow_ended-reads :
        (i : Intent) (order : BrokerOrder) (x : Office × S)
        → P x.1
        → P (follow_ended venue divide grace new_id now i order x).0.1
    unfolding follow_ended
    follow_ended-reads i order (o, s) p =
        elim (Bool-cases (is_rejected (map_broker_order_status order.status))) [
          | inl f ↦ rw (f, follow_ended) p
          | inr f ↦ rw (f, follow_ended) (k.locates i.ticker s p)
        ]

    follow-reads :
        (i : Intent) (a : Action) (x : Office × S)
        → P x.1
        → P (follow venue divide grace new_id now i a x).0.1
    unfolding follow
    follow-reads i (Action.filled order) x p = follow_live-reads i order x p
    follow-reads i (Action.in_flight order) x p = follow_live-reads i order x p
    follow-reads i (Action.terminal order) x p = follow_ended-reads i order x p
    follow-reads i never_sent x p = p
    follow-reads i missing_past_grace x p = p
    follow-reads i lookup_unavailable x p = p
    follow-reads i missing_within_grace x p = p
    follow-reads i unrecognized x p = p

    pub reconcile_open_close-reads :
        (i : Intent) (x : Office × S)
        → P x.1
        → P (reconcile_open_close_intent venue divide grace new_id now i x).0.1
    unfolding reconcile_open_close_intent
    reconcile_open_close-reads i (o, s) p = follow-reads i _ _ (k.looks i.client_order_id s p)

    sync_one-reads :
        (i : Intent) (x : Office × S) → P x.1 → P (sync_one venue divide grace new_id now i x).0.1
    unfolding sync_one
    sync_one-reads i (o, s) p = elim (Bool-cases (eq_side i.side close)) [
      | inl c ↦ rw (c, sync_one) (reconcile_open_close-reads i (o, s) p)
      | inr c ↦ rw (c, sync_one) (k.looks i.client_order_id s p)
    ]

    sync_each-reads :
        (own : ℕ) (is : List Intent) (x : Office × S)
        → P x.1
        → P (sync_each venue divide grace new_id now own is x).0.1
    unfolding sync_each
    sync_each-reads own [] x p = p
    sync_each-reads own (i ∷ is) x p = elim (Bool-cases (i.ticker == own)) [
      | inl c ↦ rw (c, sync_each) (sync_each-reads own is _ (sync_one-reads i x p))
      | inr c ↦ rw (c, sync_each) (sync_each-reads own is x p)
    ]

    pub sync_open_intents-reads :
        (dry_run : Bool) (own : ℕ) (x : Office × S)
        → P x.1
        → P (sync_open_intents venue divide grace new_id now dry_run own x).0.1
    unfolding sync_open_intents
    sync_open_intents-reads dry_run own x p = elim (Bool-cases dry_run) [
      | inl c ↦ rw (c, sync_open_intents) p
      | inr c ↦ rw (c, sync_open_intents) (sync_each-reads own _ x p)
    ]
