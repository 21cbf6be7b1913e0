-- ===== src/State/Weekly/Claims.antt =====
-- Evaluations that overlap: no week of a ticker is evaluated by two at once, or again after it is done.
use alpha_live.Prelude.{
  ℕ, ◌≤◌, ◌≡◌, ◌∙◌, sym, refl, ap, subst, Bool, true, false, not, List, [], ◌∷◌, arith, Bool-cases,
  inl, inr,
}
use alpha_live.Prelude.Lists.{any, keep, count}
use alpha_live.Prelude.Dict.{insert, lookup-insert}
use alpha_live.State.Types.{BotState}
use alpha_live.State.Ledger.Highs.{mutate-mem}
use alpha_live.State.Weekly.{
  Evals, is_claim, is_done, get_weekly_eval_key, mark_weekly_eval_done, try_begin_weekly_eval,
  end_weekly_eval,
}

-- The gate, and the evaluations that run: those whose claim was granted and not yet ended.
pub record System : Type 0 where
  pub evals : Evals
  pub running : List (ℕ × ℕ)

-- One call, by any of the callers. Only a running evaluation is marked done, and a caller that was
-- refused does not evaluate.
pub data Step : System → System → Type 0 where
  granted :
      (t w : ℕ) (s : System)
      → (try_begin_weekly_eval t w s.evals).1 ≡ true
      → Step s
          (record { evals = (try_begin_weekly_eval t w s.evals).0; running = (t, w) ∷ s.running })
  refused :
      (t w : ℕ) (s : System)
      → (try_begin_weekly_eval t w s.evals).1 ≡ false
      → Step s (record s { evals = (try_begin_weekly_eval t w s.evals).0 })
  marked :
      (t w : ℕ) (s : System)
      → any (is_claim t w) s.running ≡ true
      → Step s (record s { evals = (mark_weekly_eval_done t w s.evals).0 })
  ended :
      (t w : ℕ) (s : System)
      → any (is_claim t w) s.running ≡ true
      → Step s (record {
        evals = end_weekly_eval t w s.evals;
        running = keep (λ c. not (is_claim t w c)) s.running;
      })

-- Any number of calls.
pub data Reach : System → System → Type 0 where
  here : (s : System) → Reach s s
  then_step : (s u v : System) → Reach s u → Step u v → Reach s v

-- The running evaluations are those in flight, and none runs twice.
pub record Exclusive (s : System) : Type 0 where
  pub tracked : s.running ≡ s.evals.in_flight
  pub single : (t w : ℕ) → count (is_claim t w) s.running ≤ 1

any-count : (p : ℕ × ℕ → Bool) (xs : List (ℕ × ℕ)) → any p xs ≡ false → count p xs ≡ 0
any-count p [] h = refl
any-count p (x ∷ xs) h = ground (arith, any-count p xs)

count-keep : (p q : ℕ × ℕ → Bool) (xs : List (ℕ × ℕ)) → count p (keep q xs) ≤ count p xs
count-keep p q [] = omega arith
count-keep p q (x ∷ xs) = ground (arith, count-keep p q xs)

-- A claim that is granted was not in flight.
granted-new :
    (t w : ℕ) (e : Evals)
    → (try_begin_weekly_eval t w e).1 ≡ true
    → (any (is_claim t w) e.in_flight ≡ false)
      × ((try_begin_weekly_eval t w e).0.in_flight ≡ (t, w) ∷ e.in_flight)
unfolding try_begin_weekly_eval
granted-new t w e h = ground arith

refused-same :
    (t w : ℕ) (e : Evals)
    → (try_begin_weekly_eval t w e).1 ≡ false
    → (try_begin_weekly_eval t w e).0 ≡ e
unfolding try_begin_weekly_eval
refused-same t w e h = ground arith

count-granted :
    (t w a b : ℕ) (xs : List (ℕ × ℕ))
    → any (is_claim t w) xs ≡ false
    → count (is_claim a b) xs ≤ 1
    → count (is_claim a b) ((t, w) ∷ xs) ≤ 1
count-granted t w a b xs new h = elim (Bool-cases (is_claim a b (t, w))) [
  | inl same ↦
      let e : t ≡ a = ground arith in
      let f : w ≡ b = ground arith in
      let none_yet = any-count (is_claim t w) xs new in
      let as_asked : count (is_claim a b) xs ≡ 0 =
        subst (λ (v : ℕ). count (is_claim a v) xs ≡ 0) f
          (subst (λ (u : ℕ). count (is_claim u w) xs ≡ 0) e none_yet) in
      rw (same, as_asked) (omega arith)
  | inr other ↦ rw other (omega (arith, h))
]

step-Exclusive : (s u : System) → Step s u → Exclusive s → Exclusive u
unfolding mark_weekly_eval_done end_weekly_eval
step-Exclusive _ _ (granted t w s h) x =
    let (new, added) = granted-new t w s.evals h in
    record {
      tracked = ap (λ (l : List (ℕ × ℕ)). (t, w) ∷ l) x.tracked ∙ sym added;
      single = λ a b. count-granted t w a b s.running (rw x.tracked new) (x.single a b);
    }
step-Exclusive _ _ (refused t w s h) x = rw (refused-same t w s.evals h) x
step-Exclusive _ _ (marked t w s h) x = record { tracked = x.tracked; single = x.single }
step-Exclusive _ _ (ended t w s h) x = record {
  tracked = ap (keep (λ c. not (is_claim t w c))) x.tracked;
  single = λ a b.
      omega (arith, count-keep (is_claim a b) (λ c. not (is_claim t w c)) s.running, x.single a b);
}

-- The week that is marked, if it is of the ticker.
abbrev pub Sticks : ℕ → ℕ → (s u : System) → Step s u → Type 0
Sticks t w _ _ (granted _ _ _ _) = Unit
Sticks t w _ _ (refused _ _ _ _) = Unit
Sticks t w _ _ (marked t' w' _ _) = t' ≡ t → w' ≡ w
Sticks t w _ _ (ended _ _ _ _) = Unit

-- No other week of the ticker is marked on the way.
abbrev pub StickTo : ℕ → ℕ → (s u : System) → Reach s u → Type 0
StickTo t w _ _ (here _) = Unit
StickTo t w _ _ (then_step s u v r st) = StickTo t w s u r × Sticks t w u v st

-- Asking for a claim leaves the store alone.
asked-store : (t w : ℕ) (e : Evals) → (try_begin_weekly_eval t w e).0.store ≡ e.store
unfolding try_begin_weekly_eval
asked-store t w e = ground arith

-- A completed week stays so when the ticker is marked with it again, or another ticker is marked.
marked-done :
    (t w a b : ℕ) (e : Evals)
    → (a ≡ t → b ≡ w)
    → is_done t w e.store.mem ≡ true
    → is_done t w (mark_weekly_eval_done a b e).0.store.mem ≡ true
unfolding is_done get_weekly_eval_key mark_weekly_eval_done
marked-done t w a b e k d = ground (
  arith,
  mutate-mem (λ (s : BotState). record s { weekly_eval_keys = insert a b s.weekly_eval_keys })
      e.store,
  lookup-insert t a b e.store.mem.weekly_eval_keys,
  k,
)

step-done :
    (t w : ℕ) (s u : System) (st : Step s u)
    → Sticks t w s u st
    → is_done t w s.evals.store.mem ≡ true
    → is_done t w u.evals.store.mem ≡ true
unfolding end_weekly_eval
step-done t w _ _ (granted a b s h) k d = rw (asked-store a b s.evals) d
step-done t w _ _ (refused a b s h) k d = rw (asked-store a b s.evals) d
step-done t w _ _ (marked a b s h) k d = marked-done t w a b s.evals k d
step-done t w _ _ (ended a b s h) k d = d

done-refused :
    (t w : ℕ) (e : Evals) → is_done t w e.store.mem ≡ true → (try_begin_weekly_eval t w e).1 ≡ false
unfolding try_begin_weekly_eval
done-refused t w e d = ground arith

reach-done :
    (t w : ℕ) (s u : System) (r : Reach s u)
    → StickTo t w s u r
    → is_done t w s.evals.store.mem ≡ true
    → is_done t w u.evals.store.mem ≡ true
reach-done t w _ _ (here s) k d = d
reach-done t w _ _ (then_step s u v r st) (k, l) d =
    step-done t w u v st l (reach-done t w s u r k d)

reach-Exclusive : (s u : System) → Reach s u → Exclusive s → Exclusive u
reach-Exclusive _ _ (here s) x = x
reach-Exclusive _ _ (then_step s u v r st) x = step-Exclusive u v st (reach-Exclusive s u r x)

-- A week is evaluated by one at a time, and once. After any calls, in any order, by any callers, no
-- week of a ticker is under evaluation twice, if none was at the start; and if the week was marked
-- done at the start and no other week of the ticker has been marked since, a claim of it is refused.
pub week_evaluated_once :
    (t w : ℕ) (s u : System) (r : Reach s u)
    → Exclusive s
    → (count (is_claim t w) u.running ≤ 1)
      × (StickTo t w s u r
          → is_done t w s.evals.store.mem ≡ true
          → (try_begin_weekly_eval t w u.evals).1 ≡ false)
week_evaluated_once t w s u r x = (
  (reach-Exclusive s u r x).single t w,
  λ k d. done-refused t w u.evals (reach-done t w s u r k d),
)
