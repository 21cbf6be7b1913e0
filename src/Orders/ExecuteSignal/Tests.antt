-- ===== src/Orders/ExecuteSignal/Tests.antt =====
-- A signal, followed against a broker that remembers its tickets.
use alpha_live.Prelude.{◌*◌, ◌≡◌, refl, false, none, List, [], ◌∷◌, pos}
use alpha_live.Prelude.Dict.{lookup, insert}
use alpha_live.Risk.Types.{share, Signal}
use alpha_live.Risk.Gate.{Request}
use alpha_live.Risk.Samples.{at_ten, ask}
use alpha_live.State.Types.{Side}
use alpha_live.Orders.Venue.{Ticket}
use alpha_live.Orders.Sync.Reads.{Reads}
use alpha_live.Orders.Signals.{side_of, taken}
use alpha_live.Orders.ExecuteSignal.{execute_signal}
use alpha_live.Orders.Samples.{quotient, sample_office, sample_venue, id_twelve, empty_journal}

-- A SELL of ticker 6, of which four shares are held.
abbrev sell_six : Request
sell_six = record (ask Signal.sell) { ticker = 6 }

-- All four shares are sold, under the id of the new intent.
sells_run :
    (execute_signal sample_venue quotient 900 id_twelve
      (at_ten 7)
      false
      6
      none
      sell_six
      100000000
      ((sample_office, empty_journal), [])).0.1
    ≡ record {
      symbol = 6;
      qty = pos (4 * share);
      side = Side.sell;
      limit_price = none;
      client_order_id = 12;
    }
      ∷ []
unfolding execute_signal alpha_live.Risk.Gate.can_trade alpha_live.State.Intents.list_open_intents
    alpha_live.State.Types.is_open alpha_live.State.Intents.create_submission_intent
    alpha_live.State.Intents.new_intent alpha_live.Orders.Sync.sync_open_intents
    alpha_live.Orders.Signals.side_of alpha_live.Orders.Venue.send_order
    alpha_live.Orders.Signals.limit_for alpha_live.Risk.Types.init
sells_run = refl

-- The intent 11 of ticker 5 is open, so nothing of it is sent.
blocked_run :
    (execute_signal sample_venue quotient 900 id_twelve
      (at_ten 7)
      false
      5
      none
      (ask Signal.sell)
      100000000
      ((sample_office, empty_journal), [])).0.1
    ≡ []
unfolding execute_signal alpha_live.Risk.Gate.can_trade alpha_live.State.Intents.list_open_intents
    alpha_live.State.Types.is_open alpha_live.State.Intents.create_submission_intent
    alpha_live.State.Intents.new_intent alpha_live.Orders.Sync.sync_open_intents
    alpha_live.Orders.Signals.side_of alpha_live.Orders.Venue.send_order
    alpha_live.Orders.Reconcile.reconcile_intent alpha_live.State.Intents.update_submission_intent
    lookup alpha_live.State.Disk.mutate insert
blocked_run = refl

-- No ticket yet.
abbrev NoneYet : List Ticket → Type 0
NoneYet s = s ≡ []
