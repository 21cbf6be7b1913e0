-- ===== src/State/Weekly/Tests.antt =====
-- Overlapping weekly evaluations on concrete calls.
use alpha_live.Prelude.{◌≤◌, ◌≡◌, refl, true, false, [], ◌∷◌, arith}
use alpha_live.Prelude.Lists.{count}
use alpha_live.Prelude.Dict.{lookup}
use alpha_live.State.Samples.{sample_store}
use alpha_live.State.Weekly.{is_claim, is_done, mark_weekly_eval_done, try_begin_weekly_eval}
use alpha_live.State.Weekly.Claims.{
  System, granted, marked, Reach, here, then_step, StickTo, week_evaluated_once,
}

-- Nothing runs, and no week is done.
abbrev idle : System
idle = record { evals = record { store = sample_store; in_flight = [] }; running = [] }

-- Ticker 5 is claimed for week 3.
abbrev claimed : System
claimed = record { evals = (try_begin_weekly_eval 5 3 idle.evals).0; running = (5, 3) ∷ [] }

abbrev completed : System
completed = record claimed { evals = (mark_weekly_eval_done 5 3 claimed.evals).0 }

second_claim : (try_begin_weekly_eval 5 3 claimed.evals).1 ≡ false
unfolding try_begin_weekly_eval lookup alpha_live.State.Types.default_state
second_claim = refl

to_claimed : Reach idle claimed
unfolding try_begin_weekly_eval lookup alpha_live.State.Types.default_state
to_claimed = then_step idle idle claimed (here idle) (granted 5 3 idle refl)

to_completed : Reach idle completed
to_completed = then_step idle claimed completed to_claimed (marked 5 3 claimed refl)

week_evaluated_once_example :
    (count (is_claim 5 3) completed.running ≤ 1)
    × (StickTo 5 3 idle completed to_completed
        → is_done 5 3 idle.evals.store.mem ≡ true
        → (try_begin_weekly_eval 5 3 completed.evals).1 ≡ false)
week_evaluated_once_example =
    week_evaluated_once 5 3 idle completed to_completed
      (record { tracked = refl; single = λ t w. omega arith })
