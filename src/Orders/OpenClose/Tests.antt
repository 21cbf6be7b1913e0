-- ===== src/Orders/OpenClose/Tests.antt =====
-- Runs of the reconciliation of a close.
use alpha_live.Prelude.{ℕ, ◌*◌, ◌≡◌, refl, true, none, some, List, [], ◌∷◌, pos}
use alpha_live.Prelude.Dict.{lookup}
use alpha_live.Utils.EnvBool.{codes}
use alpha_live.Risk.Types.{share}
use alpha_live.Risk.Samples.{at_ten}
use alpha_live.State.Types.{Side, Intent}
use alpha_live.State.Samples.{sample_intent, sample_state, sample_store}
use alpha_live.Orders.Progress.{Office}
use alpha_live.Orders.Reconcile.{known, reconcile_intent}
use alpha_live.Orders.Venue.{Ticket, Venue}
use alpha_live.Orders.OpenClose.{proceed, quarantine, not_flat, reconcile_open_close_intent}
use alpha_live.Orders.OpenClose.Blocks.{QuarantineBlocks, quarantine_blocks}
use alpha_live.Orders.Samples.{quotient, sample_office, sample_venue, id_twelve}

abbrev close_intent : Intent
close_intent = sample_intent Side.close

-- Intent 11 closes ten shares of ticker 5.
abbrev closing_office : Office
closing_office = record sample_office {
  store = record sample_store { mem = sample_state Side.close };
}

-- The broker ended the order with the status after six shares; four are held.
abbrev ended_as : List ℕ → Venue (List Ticket)
ended_as status = record sample_venue {
  broker = record {
    look_up = λ id s. (
      s,
      known (record {
        id = 77;
        status = some status;
        filled_qty = some (6 * share);
        filled_avg_price = some 100000000;
      }),
    );
    cancel_order = λ id s. (s, true);
  };
}

proceeds_run :
    (reconcile_open_close_intent
      (ended_as (codes "canceled"))
      quotient
      900
      id_twelve
      (at_ten 7)
      close_intent
      (closing_office, [])).1
    ≡ proceed (pos (4 * share))
unfolding reconcile_open_close_intent reconcile_intent
    alpha_live.Orders.Reconcile.map_broker_order_status alpha_live.Prelude.Int.◌-ℤ◌
proceeds_run = refl

filled_run :
    (reconcile_open_close_intent
      (ended_as (codes "filled"))
      quotient
      900
      id_twelve
      (at_ten 7)
      close_intent
      (closing_office, [])).1
    ≡ quarantine not_flat
unfolding reconcile_open_close_intent reconcile_intent
    alpha_live.Orders.Reconcile.map_broker_order_status alpha_live.Prelude.Int.◌-ℤ◌
filled_run = refl

quarantine_blocks_example :
    let y =
      reconcile_open_close_intent
        (ended_as (codes "filled"))
        quotient
        900
        id_twelve
        (at_ten 7)
        close_intent
        (closing_office, []) in
    QuarantineBlocks 5 y.1 y.0.0
unfolding lookup alpha_live.State.Types.is_open
quarantine_blocks_example =
    quarantine_blocks (ended_as (codes "filled")) quotient 900 id_twelve (at_ten 7) close_intent
      closing_office [] refl refl
