-- ===== src/State/Intents/Tests.antt =====
-- Runs of the intent store on concrete intents.
use alpha_live.Prelude.{◌≡◌, refl, true, false, none, some, pos}
use alpha_live.Prelude.Dict.{lookup, insert}
use alpha_live.Risk.Types.{market, share}
use alpha_live.State.Types.{buy, sell, Side, Intent, Status}
use alpha_live.State.Disk.{Store}
use alpha_live.State.Intents.{
  create_submission_intent, get_open_intent, is_candidate, list_open_intents,
  update_submission_intent,
}
use alpha_live.State.Intents.{new_intent}
use alpha_live.State.Disk.{parsed, dump}
use alpha_live.Prelude.{List, [], ◌∷◌}
use alpha_live.State.Intents.Contract.{
  Step, call, crash, create, update, Promise, promised_all, advance_all, Implements,
}
use alpha_live.State.Intents.Refines.{intents_refine}
use alpha_live.State.Samples.{sample_intent, sample_state, sample_store}

-- A second intent is found before the first, until it is filled.
abbrev two_intents : Store
two_intents = (create_submission_intent 12 5 buy (pos share) market 1500 sample_store).0

newest_run :
    get_open_intent 5 buy two_intents.mem
    ≡ some (create_submission_intent 12 5 buy (pos share) market 1500 sample_store).1
unfolding get_open_intent create_submission_intent insert alpha_live.State.Disk.mutate
    alpha_live.State.Intents.new_intent alpha_live.State.Types.is_open
newest_run = refl

filled_run :
    get_open_intent 5 buy
      (update_submission_intent 12 (λ i. record i { status = Status.filled }) 1600 two_intents).mem
    ≡ some (sample_intent buy)
unfolding get_open_intent create_submission_intent update_submission_intent lookup insert
    alpha_live.State.Disk.mutate alpha_live.State.Intents.new_intent alpha_live.State.Types.is_open
filled_run = refl

-- Intent 12 is created and its submission is written down, the write of its fill fails, and the
-- process crashes: it is submitted, and intent 13, whose write failed as well, is gone.
abbrev steps : List Step
steps =
    call true (create 12 5 buy (pos share) market 1500)
    ∷ call true (update 12 (λ i. record i { status = Status.submitted }) 1501)
    ∷ call false (update 12 (λ i. record i { status = Status.filled }) 1502)
    ∷ call false (create 13 6 buy (pos share) market 1503)
    ∷ crash
    ∷ []

abbrev saved_store : Store
saved_store = record sample_store { file = parsed (dump (sample_state buy)) }

abbrev saved_promise : Promise
saved_promise = record {
  memory = λ k. lookup k (sample_state buy).submission_intents;
  durable = λ k. lookup k (sample_state buy).submission_intents;
}

crash_run :
    ((promised_all steps saved_promise).memory 12
      ≡ some (record (new_intent 12 5 buy (pos share) market 1500) {
        status = Status.submitted;
        updated_at = 1501;
      }))
    × ((promised_all steps saved_promise).memory 13 ≡ none)
unfolding promised_all lookup
crash_run = (refl, refl)

intents_refine_example :
    Implements (advance_all none steps saved_store) (promised_all steps saved_promise)
intents_refine_example =
    intents_refine none steps saved_store saved_promise
      ((λ k. refl), sample_state buy, refl, (λ k. refl))
