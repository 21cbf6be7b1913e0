-- ===== src/Main/SignalCheck/Marks.antt =====
-- What a check leaves in the stored marks.
use alpha_live.Prelude.{
  ℕ, ◌≡◌, ◌∙◌, refl, ap, Bool, true, false, not, Option, none, some, List, [], ◌∷◌, ◌==◌, ℤ,
  ==_refl, Bool-cases, Option-cases, inl, inr, arith, Outcome, ok, raise,
}
use alpha_live.Prelude.Lists.{any, keep}
use alpha_live.Prelude.Dict.{Dict, lookup, insert, lookup-insert_self}
use alpha_live.Risk.Types.{is_date, Signal, buy, sell, hold}
use alpha_live.Risk.Global.{GlobalVerdict, go, halt}
use alpha_live.AlphaSignal.Gate.{Client, run_pre_execution_checks}
use alpha_live.State.Types.{BotState}
use alpha_live.State.Disk.{Store}
use alpha_live.State.Ledger.Highs.{mutate-mem}
use alpha_live.State.Weekly.{
  Evals, is_claim, is_done, get_weekly_eval_key, try_begin_weekly_eval, mark_weekly_eval_done,
  end_weekly_eval, get_daily_eval_date, mark_daily_eval_done,
}
use alpha_live.Main.Periodic.{
  Timeframe, one_day, one_week, one_hour, fifteen_min, Clock, Bench, due, due_daily, due_weekly,
  is_evaluated, set_checked, unless_persisted, mark_week, mark_day, mark_periodic_check_done,
  mark_periodic_check_attempted,
}
use alpha_live.Main.SignalCheck.{
  StrategyConfig, Answers, Bars, stale_bars, broken_bars, bars, Generated, no_answer, engine_raised,
  generated, Ending, not_due, split_skipped, out_of_time, stale_data, failed, decided, is_jump,
  pass_on, after_global, ask_global, ask_broker, ask_sentiment, on_generated, on_bars, finish,
  check_due, check_signal_for_strategy,
}

module _ (cfg : StrategyConfig) (c : Clock) (a : Answers) where
  pass_on-evals :
      (s : Signal) (price : ℕ) (equity : ℤ) (b : Bench)
      → (pass_on cfg c a s price equity b).0.evals ≡ b.evals
  unfolding pass_on
  pass_on-evals s price equity b = ground arith

  after_global-evals :
      (price : ℕ) (equity : ℤ) (b : Bench) (o : Outcome GlobalVerdict)
      → (after_global cfg c a price equity b o).0.evals ≡ b.evals
  unfolding after_global
  after_global-evals price equity b (raise e) = refl
  after_global-evals price equity b (ok (halt x)) = refl
  after_global-evals price equity b (ok go) = pass_on-evals buy price equity b

  ask_global-evals :
      (s : Signal) (price : ℕ) (equity : ℤ) (b : Bench)
      → (ask_global cfg c a s price equity b).0.evals ≡ b.evals
  unfolding ask_global
  ask_global-evals buy price equity b = after_global-evals price equity _ _
  ask_global-evals sell price equity b = pass_on-evals sell price equity b
  ask_global-evals hold price equity b = pass_on-evals hold price equity b

  ask_broker-evals : (s : Signal) (b : Bench) → (ask_broker cfg c a s b).0.evals ≡ b.evals
  unfolding ask_broker
  ask_broker-evals s b = elim (Option-cases a.current_price) [
    | inl n ↦ rw n refl
    | inr (price, y) ↦ elim (Option-cases a.equity) [
      | inl n ↦ rw (y, n) refl
      | inr (equity, z) ↦ rw (y, z) (ask_global-evals s price equity _)
    ]
  ]

  ask_sentiment-evals :
      (s : Signal) (client : Option Client) (b : Bench)
      → (ask_sentiment cfg c a s client b).0.0.evals ≡ b.evals
  unfolding ask_sentiment
  ask_sentiment-evals hold client b = refl
  ask_sentiment-evals sell client b = ask_broker-evals sell b
  ask_sentiment-evals buy client b =
      elim (Bool-cases (run_pre_execution_checks client 2 a.health a.response).1.0) [
        | inl y ↦ rw y (ask_broker-evals buy b)
        | inr n ↦ rw n refl
      ]

  on_generated-evals :
      (client : Option Client) (b : Bench) (o : Generated)
      → (on_generated cfg c a client b o).0.0.evals ≡ b.evals
  unfolding on_generated
  on_generated-evals client b no_answer = refl
  on_generated-evals client b engine_raised = refl
  on_generated-evals client b (generated e s) = ask_sentiment-evals s client _

  on_bars-evals :
      (client : Option Client) (b : Bench) (o : Bars)
      → (on_bars cfg c a client b o).0.0.evals ≡ b.evals
  unfolding on_bars
  on_bars-evals client b stale_bars = refl
  on_bars-evals client b broken_bars = refl
  on_bars-evals client b (bars d) = elim (Bool-cases (is_jump d)) [
    | inl j ↦ rw j refl
    | inr j ↦ rw j (on_generated-evals client b (a.generate b.engine))
  ]

due-store :
    (t : Timeframe) (ticker : ℕ) (c : Clock) (b : Bench)
    → (due t ticker c b).0.evals.store ≡ b.evals.store
unfolding due due_daily due_weekly try_begin_weekly_eval
due-store one_hour ticker c b = refl
due-store fifteen_min ticker c b = refl
due-store one_day ticker c b = ground arith
due-store one_week ticker c b = ground arith

-- The checks that did not come to a decision.
abbrev pub is_failure : Ending → Bool
is_failure out_of_time = true
is_failure stale_data = true
is_failure (failed r) = true
is_failure _ = false

-- Those that did.
abbrev pub is_complete : Ending → Bool
is_complete split_skipped = true
is_complete (decided r) = true
is_complete _ = false

any-keep-not : (p : ℕ × ℕ → Bool) (xs : List (ℕ × ℕ)) → any p (keep (λ x. not (p x)) xs) ≡ false
any-keep-not p [] = refl
any-keep-not p (x ∷ xs) = ground (arith, any-keep-not p xs)

-- The mark of the period, by the timeframe.
abbrev pub IsMarked : Timeframe → ℕ → Clock → Bench → Type 0
IsMarked one_week ticker c b = is_done ticker c.week b.evals.store.mem ≡ true
IsMarked one_day ticker c b = is_evaluated ticker c.now.date b ≡ true
IsMarked _ ticker c b = Unit

-- The claim of the week is given back.
abbrev pub IsReleased : Timeframe → ℕ → Clock → Bench → Type 0
IsReleased one_week ticker c b = any (is_claim ticker c.week) b.evals.in_flight ≡ false
IsReleased _ ticker c b = Unit

set_checked-evals : (ticker : ℕ) (b : Bench) → (set_checked ticker b).evals ≡ b.evals
set_checked-evals ticker b = ground arith

unless_persisted-evals :
    (persisted : Bool) (ticker : ℕ) (b : Bench)
    → (unless_persisted persisted ticker b).evals ≡ b.evals
unless_persisted-evals true ticker b = refl
unless_persisted-evals false ticker b = refl

end_weekly_eval-released :
    (ticker week : ℕ) (e : Evals)
    → any (is_claim ticker week) (end_weekly_eval ticker week e).in_flight ≡ false
unfolding end_weekly_eval
end_weekly_eval-released ticker week e = any-keep-not (is_claim ticker week) e.in_flight

is_mark :
    (week : ℕ) {o : Option ℕ} → o ≡ some week → elim o [ none ↦ false | some w ↦ w == week ] ≡ true
is_mark week e = rw e (==_refl week)

mark_weekly_eval_done-is_done :
    (ticker week : ℕ) (e : Evals)
    → is_done ticker week (mark_weekly_eval_done ticker week e).0.store.mem ≡ true
unfolding mark_weekly_eval_done is_done get_weekly_eval_key
mark_weekly_eval_done-is_done ticker week e =
    let at =
      ap (λ (m : BotState). lookup ticker m.weekly_eval_keys)
        (mutate-mem (λ m. record m { weekly_eval_keys = insert ticker week m.weekly_eval_keys })
          e.store) in
    is_mark week (at ∙ lookup-insert_self ticker week e.store.mem.weekly_eval_keys)

attempted-Released :
    (t : Timeframe) (ticker : ℕ) (c : Clock) (b : Bench)
    → (let b' = mark_periodic_check_attempted t ticker c b in
        (b'.evals.store ≡ b.evals.store) × IsReleased t ticker c b')
unfolding mark_periodic_check_attempted
attempted-Released one_week ticker c b = (
  unfold end_weekly_eval in ap (λ e. e.store) (set_checked-evals ticker b),
  end_weekly_eval-released ticker c.week (set_checked ticker b).evals,
)
attempted-Released one_day ticker c b = (ap (λ e. e.store) (set_checked-evals ticker b), tt)
attempted-Released one_hour ticker c b = (ap (λ e. e.store) (set_checked-evals ticker b), tt)
attempted-Released fifteen_min ticker c b = (ap (λ e. e.store) (set_checked-evals ticker b), tt)

mark_week-Marked :
    (ticker : ℕ) (c : Clock) (b : Bench)
    → (let b' = mark_week ticker c b in
        IsMarked one_week ticker c b' × IsReleased one_week ticker c b')
mark_week-Marked ticker c b =
    let ended = end_weekly_eval ticker c.week b.evals in
    let (evals, persisted) = mark_weekly_eval_done ticker c.week ended in
    rw (unless_persisted-evals persisted ticker (record b { evals = evals })) (
      mark_weekly_eval_done-is_done ticker c.week ended,
      unfold mark_weekly_eval_done in end_weekly_eval-released ticker c.week b.evals,
    )

mark_day-Marked :
    (ticker : ℕ) (c : Clock) (b : Bench) → IsMarked one_day ticker c (mark_day ticker c b)
unfolding mark_daily_eval_done get_daily_eval_date
mark_day-Marked ticker c b =
    let st = b.evals.store in
    let at =
      ap (λ (m : BotState). lookup ticker m.daily_eval_dates)
        (mutate-mem
          (λ m. record m { daily_eval_dates = insert ticker c.now.date m.daily_eval_dates }) st) in
    rw (at, lookup-insert_self ticker c.now.date st.mem.daily_eval_dates)
      (unfold is_date in ==_refl c.now.date)

done-Marked :
    (t : Timeframe) (ticker : ℕ) (c : Clock) (b : Bench)
    → (let b' = mark_periodic_check_done t ticker c b in
        IsMarked t ticker c b' × IsReleased t ticker c b')
unfolding mark_periodic_check_done
done-Marked one_week ticker c b = mark_week-Marked ticker c (set_checked ticker b)
done-Marked one_day ticker c b = (mark_day-Marked ticker c (set_checked ticker b), tt)
done-Marked one_hour ticker c b = (tt, tt)
done-Marked fifteen_min ticker c b = (tt, tt)

-- The marks at the end of a check that began at `e`.
abbrev Tidy : StrategyConfig → Clock → Store → Bench × Ending → Type 0
Tidy cfg c st (b, ending) =
    (is_failure ending ≡ true → (b.evals.store ≡ st) × IsReleased cfg.timeframe cfg.ticker c b)
    × (is_complete ending ≡ true
        → IsMarked cfg.timeframe cfg.ticker c b × IsReleased cfg.timeframe cfg.ticker c b)

-- The time of the check is not one of the marks.
timed :
    (t : Timeframe) (ticker : ℕ) (c : Clock) (b : Bench) (d : Dict ℕ)
    → IsMarked t ticker c b × IsReleased t ticker c b
    → (let b' = record b { last_signal_check = d } in
        IsMarked t ticker c b' × IsReleased t ticker c b')
timed one_week ticker c b d h = h
timed one_day ticker c b d h = h
timed one_hour ticker c b d h = h
timed fifteen_min ticker c b d h = h

kept : {A : Type 0} {s t u : Store} → (s ≡ t) × A → t ≡ u → (s ≡ u) × A
kept (e, x) h = (e ∙ h, x)

finish-Tidy :
    (cfg : StrategyConfig) (c : Clock) (a : Answers) (st : Store) (x : Bench × Ending)
    → x.0.evals.store ≡ st
    → Tidy cfg c st (finish cfg c a x)
unfolding finish
finish-Tidy cfg c a st (b, not_due) h = (λ y. absurd (cc), λ y. absurd (cc))
finish-Tidy cfg c a st (b, split_skipped) h =
    (λ y. absurd (cc), λ _. done-Marked cfg.timeframe cfg.ticker c _)
finish-Tidy cfg c a st (b, out_of_time) h =
    (λ _. kept (attempted-Released cfg.timeframe cfg.ticker c _) h, λ y. absurd (cc))
finish-Tidy cfg c a st (b, stale_data) h =
    (λ _. kept (attempted-Released cfg.timeframe cfg.ticker c _) h, λ y. absurd (cc))
finish-Tidy cfg c a st (b, failed r) h =
    (λ _. kept (attempted-Released cfg.timeframe cfg.ticker c _) h, λ y. absurd (cc))
finish-Tidy cfg c a st (b, decided r) h = (
  λ y. absurd (cc),
  λ _. timed cfg.timeframe cfg.ticker c _ _ (done-Marked cfg.timeframe cfg.ticker c _),
)

check_due-Tidy :
    (cfg : StrategyConfig) (c : Clock) (a : Answers) (client : Option Client) (x : Bench × Bool)
    → Tidy cfg c x.0.evals.store (check_due cfg c a client x).0
unfolding check_due
check_due-Tidy cfg c a client (b, false) = (λ y. absurd (cc), λ y. absurd (cc))
check_due-Tidy cfg c a client (b, true) =
    finish-Tidy cfg c a b.evals.store (on_bars cfg c a client b a.latest_bars).0
      (ap (λ e. e.store) (on_bars-evals cfg c a client b a.latest_bars))

-- Only a check that comes to a decision uses up its period. One that ends with stale data, an exception
-- or a timeout leaves the state as it was stored, so that a restart can evaluate the day or week
-- again; one that comes to a decision, or sees a split, marks the week of a weekly strategy and the day
-- of a daily one; and both give the weekly claim back.
pub periods_used_by_decisions :
    (cfg : StrategyConfig) (c : Clock) (a : Answers) (client : Option Client) (b : Bench)
    → (let (b', ending) = (check_signal_for_strategy cfg c a client b).0 in
        (is_failure ending ≡ true
          → (b'.evals.store ≡ b.evals.store) × IsReleased cfg.timeframe cfg.ticker c b')
        × (is_complete ending ≡ true
            → IsMarked cfg.timeframe cfg.ticker c b' × IsReleased cfg.timeframe cfg.ticker c b'))
unfolding check_signal_for_strategy
periods_used_by_decisions cfg c a client b =
    let (fails, completes) = check_due-Tidy cfg c a client (due cfg.timeframe cfg.ticker c b) in
    (λ f. kept (fails f) (due-store cfg.timeframe cfg.ticker c b), completes)
