-- ===== src/Orders/Reconcile/Tests.antt =====
-- Runs of the reconciliation on concrete answers of the broker.
use alpha_live.Prelude.{◌+◌, ◌≡◌, refl, none, some, [], ◌∷◌, arith, leb, if◌then◌else◌}
use alpha_live.Prelude.Lists.{any}
use alpha_live.Prelude.Dict.{lookup, insert}
use alpha_live.Utils.EnvBool.{codes}
use alpha_live.Risk.Types.{Now}
use alpha_live.Risk.Samples.{at_ten, at_eleven}
use alpha_live.State.Types.{Side, Status, Intent}
use alpha_live.State.Samples.{sample_intent, sample_store}
use alpha_live.Orders.Progress.{Office}
use alpha_live.Orders.Reconcile.{known, unknown, reconcile_intent, map_broker_order_status}
use alpha_live.Orders.Reconcile.Fills.{stored}
use alpha_live.Orders.Reconcile.Grace.{follow, misses, abandoned_after_grace}
use alpha_live.Orders.Reconcile.Since.{follows, grace_runs_from_first}
use alpha_live.Orders.Samples.{quotient, sample_office, live_order}

status_run : map_broker_order_status (some (codes "Pending_Cancel")) ≡ some Status.submitted
unfolding map_broker_order_status
status_run = refl

unrecognised_run : map_broker_order_status (some (codes "replaced")) ≡ none
unfolding map_broker_order_status
unrecognised_run = refl

abandoned_after_grace_example :
    (k : Intent) × (stored 11 (misses quotient 900 11 (at_ten 7 ∷ at_eleven 7 ∷ []) sample_office)
      ≡ some k)
    × (k.status ≡ (
        if any (λ (t : Now). leb (640800 + 900) t.instant) (at_ten 7 ∷ at_eleven 7 ∷ [])
        then Status.abandoned
        else Status.uncertain))
unfolding lookup alpha_live.State.Types.is_open
abandoned_after_grace_example =
    abandoned_after_grace quotient 900 11 (at_ten 7) (at_eleven 7 ∷ []) (sample_intent Side.buy)
      sample_office refl refl refl refl refl

-- Missing at ten on day 7, found alive an hour later, missing again the next day.
abbrev missing_intent : Intent
missing_intent = record (sample_intent Side.buy) {
  status = Status.uncertain;
  not_found_since = some 640800;
}

abbrev missing_office : Office
missing_office = record sample_office {
  store = record sample_store {
    mem = record sample_store.mem { submission_intents = (11, missing_intent) ∷ [] };
  };
}

grace_runs_from_first_example :
    (k : Intent) × (stored 11 (
        follow quotient 900 11
          (at_ten 8)
          unknown
          (follows quotient 900 11 640800 ((at_eleven 7, known live_order) ∷ []) missing_office))
      ≡ some k)
    × (k.status ≡ Status.abandoned)
unfolding follows lookup follow alpha_live.State.Types.is_open reconcile_intent
    map_broker_order_status alpha_live.State.Intents.update_submission_intent
    alpha_live.Orders.Progress.apply_order_progress alpha_live.State.Disk.mutate insert
grace_runs_from_first_example =
    grace_runs_from_first quotient 900 11 640800 ((at_eleven 7, known live_order) ∷ []) (at_ten 8)
      (record missing_intent {
        status = Status.submitted;
        broker_order_id = some 77;
        updated_at = 644400;
      })
      missing_office (record { intent = missing_intent; at_id = refl; own_id = refl; since = refl })
      (omega arith) refl refl refl
