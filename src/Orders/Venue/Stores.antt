-- ===== src/Orders/Venue/Stores.antt =====
-- What the steps around the sending of an order do to the stored intent.
use alpha_live.Prelude.{
  ℕ, ◌≡◌, ◌∙◌, refl, ap, true, Option, some, List, [], ◌∷◌, ℤ, Bool-cases, inl, inr,
}
use alpha_live.Prelude.Dict.{lookup, lookup-insert_self}
use alpha_live.Risk.Types.{Now, OrderType}
use alpha_live.Risk.Daily.{record_order_submitted}
use alpha_live.State.Types.{Side, Status, Intent, BotState}
use alpha_live.State.Intents.{put_intent, new_intent, create_submission_intent}
use alpha_live.State.Ledger.Highs.{mutate-mem}
use alpha_live.Orders.Placing.{OrderAlert, Placed, place_with_retry}
use alpha_live.Orders.Progress.{Office, Message, tell}
use alpha_live.Orders.Progress.Frame.{on_desk-SameBooks, tell-store}
use alpha_live.Orders.Reconcile.Fills.{stored, stored-update}
use alpha_live.Orders.Venue.{
  Venue, Ticket, moved, prepare, count_order, tell_each, note_placed, send_order,
}

-- The intent of a new order, as it is stored before the order is sent.
abbrev pub fresh_intent : ℕ → Now → ℕ → ℤ → Side → OrderType → Intent
fresh_intent id now ticker qty side t = record (new_intent id ticker side qty t now.instant) {
  status = Status.submitting;
  updated_at = now.instant;
}

pub prepare-intent :
    (new_id : BotState → ℕ) (now : Now) (ticker : ℕ) (qty : ℤ) (side : Side) (t : OrderType)
    (o : Office)
    → (prepare new_id now ticker qty side t o).1
      ≡ new_intent (new_id o.store.mem) ticker side qty t now.instant
unfolding prepare create_submission_intent
prepare-intent new_id now ticker qty side t o = refl

pub stored-prepare :
    (new_id : BotState → ℕ) (now : Now) (ticker : ℕ) (qty : ℤ) (side : Side) (t : OrderType)
    (o : Office)
    → let id = new_id o.store.mem in
      stored id (prepare new_id now ticker qty side t o).0
      ≡ some (fresh_intent id now ticker qty side t)
unfolding prepare create_submission_intent new_intent
stored-prepare new_id now ticker qty side t o =
    let id = new_id o.store.mem in
    let i = new_intent id ticker side qty t now.instant in
    let o' : Office = record o {
      store = (create_submission_intent id ticker side qty t now.instant o.store).0;
    } in
    stored-update now i i (moved Status.submitting) o' (
      ap (λ (s : BotState). lookup id s.submission_intents) (mutate-mem (put_intent id i) o.store)
      ∙ lookup-insert_self id i o.store.mem.submission_intents)

pub stored-count_order :
    (id ticker : ℕ) (bar : Option ℕ) (now : Now) (o : Office)
    → stored id (count_order ticker bar now o) ≡ stored id o
unfolding count_order
stored-count_order id ticker bar now o =
    ap (lookup id) (on_desk-SameBooks (record_order_submitted ticker bar now) o).0

pub stored-tell : (id : ℕ) (m : Message) (o : Office) → stored id (tell m o) ≡ stored id o
stored-tell id m o = rw (tell-store m o) refl

stored-tell_each :
    (id : ℕ) (alerts : List OrderAlert) (o : Office) → stored id (tell_each alerts o) ≡ stored id o
unfolding tell_each
stored-tell_each id [] o = refl
stored-tell_each id (a ∷ rest) o = stored-tell_each id rest _ ∙ stored-tell id _ o

pub stored-note_placed :
    {A : Type 0} (id : ℕ) (p : Placed A) (o : Office) → stored id (note_placed p o) ≡ stored id o
unfolding note_placed
stored-note_placed id p o = elim (Bool-cases p.trading_paused) [
  | inl paused ↦ rw (paused, note_placed) (stored-tell_each id p.alerts o)
  | inr free ↦ rw (free, note_placed) (stored-tell_each id p.alerts o)
]

pub stored-send_order :
    {S : Type 0} (venue : Venue S) (id : ℕ) (t : Ticket) (o : Office) (s : S)
    → stored id (send_order venue t (o, s)).0.0 ≡ stored id o
unfolding send_order
stored-send_order venue id t o s =
    stored-note_placed id (place_with_retry (venue.attempt t s) 3 true (venue.existing t s)) o
