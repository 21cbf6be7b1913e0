-- ===== src/Main/Reconciliation/Halts.antt =====
-- When the reconciliation halts trading.
use alpha_live.Prelude.{
  ℕ, ◌≡◌, ◌⊎◌, inl, inr, refl, ap, Bool, true, false, not, ◌||◌, ◌&&◌, ◌∙◌, Option, none, some,
  List, [], ◌∷◌, ◌++◌, ◌==◌, Bool-cases, Option-cases, arith, is_some,
}
use alpha_live.Prelude.Dict.{Dict, lookup, contains}
use alpha_live.Utils.EnvBool.{codes}
use alpha_live.State.Types.{Position}
use alpha_live.Main.Ledger.{BrokerPosition, Notice, by_ticker}
use alpha_live.Main.Ledger.Agreement.{IsDistinct, by_ticker-IsDistinct}
use alpha_live.Main.Reconciliation.{
  Watch, differs, is_busy, drift_of, broker_drifts, ledger_drifts, drifts, conclude,
  compare_positions, answered, run_position_reconciliation,
}

-- The ledger and the broker say the same of a ticker, up to a millionth of a share.
abbrev pub matches : Option Position → Option BrokerPosition → Bool
matches none none = true
matches none (some p) = false
matches (some e) none = false
matches (some e) (some p) = not (differs e.qty p.qty)

-- A test of every entry.
abbrev every {ℓ} : {V : Type ℓ} → (ℕ → V → Bool) → Dict V → Bool
every c [] = true
every c ((k, v) ∷ d) = c k v && every c d

every-lookup :
    {V : Type 0} (c : ℕ → V → Bool) (d : Dict V) (t : ℕ) (v : V)
    → every c d ≡ true
    → lookup t d ≡ some v
    → c t v ≡ true
unfolding lookup
every-lookup c [] t v h e = absurd (cc)
every-lookup c ((k, w) ∷ d) t v h e = elim (Bool-cases (k == t)) [
  | inl s ↦
      let same : k ≡ t = ground arith in
      let whole : some w ≡ some v = ground arith in
      let it : w ≡ v = cc in let passed : c k w ≡ true = ground arith in cc
  | inr s ↦ every-lookup c d t v (ground arith) (ground arith)
]

every-fails :
    (c : ℕ → BrokerPosition → Bool) (d : Dict BrokerPosition)
    → IsDistinct d
    → every c d ≡ false
    → (t : ℕ) × (v : BrokerPosition) × (lookup t d ≡ some v) × (c t v ≡ false)
unfolding lookup
every-fails c [] h e = absurd (cc)
every-fails c ((k, w) ∷ d) (n, h) e = elim (Bool-cases (c k w)) [
  | inl s ↦ let (t, v, at, f) = every-fails c d h (ground arith) in (t, v, ground arith, f)
  | inr s ↦ (k, w, ground arith, s)
]

-- A test of the keys only.
every_key-fails :
    {V : Type 0} (c : ℕ → Bool) (d : Dict V)
    → every (λ k v. c k) d ≡ false
    → (t : ℕ) × (contains t d ≡ true) × (c t ≡ false)
unfolding lookup
every_key-fails c [] e = absurd (cc)
every_key-fails c ((k, w) ∷ d) e = elim (Bool-cases (c k)) [
  | inl s ↦ let (t, at, f) = every_key-fails c d (ground arith) in (t, ground arith, f)
  | inr s ↦ (k, ground arith, s)
]

abbrev is_quiet : List Notice → Bool
is_quiet [] = true
is_quiet (n ∷ ns) = false

is_quiet-append : (ms ns : List Notice) → is_quiet (ms ++ ns) ≡ (is_quiet ms && is_quiet ns)
is_quiet-append [] ns = refl
is_quiet-append (m ∷ ms) ns = refl

is_quiet-drift_of :
    (t : ℕ) (p : BrokerPosition) (o : Option Position)
    → is_quiet (drift_of t p o) ≡ matches o (some p)
is_quiet-drift_of t p none = refl
is_quiet-drift_of t p (some e) = elim (Bool-cases (differs e.qty p.qty)) [
  | inl d ↦ rw d refl
  | inr d ↦ rw d refl
]

module _ (busy : ℕ → Bool) where
  is_quiet-broker_drifts :
      (ledger : Dict Position) (d : Dict BrokerPosition)
      → is_quiet (broker_drifts busy ledger d)
        ≡ every (λ t p. busy t || matches (lookup t ledger) (some p)) d
  unfolding broker_drifts
  is_quiet-broker_drifts ledger [] = refl
  is_quiet-broker_drifts ledger ((k, p) ∷ d) =
      let rest = is_quiet-broker_drifts ledger d in
      elim (Bool-cases (busy k)) [
        | inl b ↦ simp (b, broker_drifts) rest
        | inr b ↦
            simp (b, broker_drifts)
              (is_quiet-append (drift_of k p (lookup k ledger)) (broker_drifts busy ledger d)
                ∙ rw (is_quiet-drift_of k p (lookup k ledger), rest) refl)
      ]

  is_quiet-ledger_drifts :
      (at_broker : Dict BrokerPosition) (d : Dict Position)
      → is_quiet (ledger_drifts busy at_broker d) ≡ every (λ t e. busy t || contains t at_broker) d
  unfolding ledger_drifts
  is_quiet-ledger_drifts at_broker [] = refl
  is_quiet-ledger_drifts at_broker ((k, p) ∷ d) =
      let rest = is_quiet-ledger_drifts at_broker d in
      elim (Bool-cases (busy k || contains k at_broker)) [
        | inl b ↦ simp (b, ledger_drifts) rest
        | inr b ↦ simp (b, ledger_drifts) refl
      ]

-- Every ticker with no order at work is the same in the ledger and at the broker.
abbrev pub AllMatch : (ℕ → Bool) → Dict Position → Dict BrokerPosition → Type 0
AllMatch busy ledger at_broker =
    (t : ℕ) → busy t ≡ false → matches (lookup t ledger) (lookup t at_broker) ≡ true

-- One that is not.
abbrev pub Drifts : (ℕ → Bool) → Dict Position → Dict BrokerPosition → Type 0
Drifts busy ledger at_broker =
    (t : ℕ) × (busy t ≡ false) × (matches (lookup t ledger) (lookup t at_broker) ≡ false)

quiet-AllMatch :
    (busy : ℕ → Bool) (ledger : Dict Position) (d : Dict BrokerPosition)
    → is_quiet (drifts busy ledger d) ≡ true
    → AllMatch busy ledger d
unfolding drifts
quiet-AllMatch busy ledger d q t b =
    let split = is_quiet-append (broker_drifts busy ledger d) (ledger_drifts busy d ledger) in
    let one = is_quiet-broker_drifts busy ledger d in
    let two = is_quiet-ledger_drifts busy d ledger in
    elim (Option-cases (lookup t d)) [
      | inr (p, e) ↦
          let ok =
            every-lookup (λ k x. busy k || matches (lookup k ledger) (some x)) d t p (ground arith)
              e in
          rw e (ground arith)
      | inl e ↦ elim (Option-cases (lookup t ledger)) [
        | inl f ↦ rw (e, f) refl
        | inr (x, f) ↦
            let ok = every-lookup (λ k y. busy k || contains k d) ledger t x (ground arith) f in
            absurd (ground arith)
      ]
    ]

one_sided :
    (o : Option Position) (d : Option BrokerPosition)
    → is_some o ≡ true
    → is_some d ≡ false
    → matches o d ≡ false
one_sided none d h e = absurd (cc)
one_sided (some x) none h e = refl
one_sided (some x) (some p) h e = absurd (cc)

loud-Drifts :
    (busy : ℕ → Bool) (ledger : Dict Position) (d : Dict BrokerPosition)
    → IsDistinct d
    → is_quiet (drifts busy ledger d) ≡ false
    → Drifts busy ledger d
unfolding drifts
loud-Drifts busy ledger d h q =
    let split = is_quiet-append (broker_drifts busy ledger d) (ledger_drifts busy d ledger) in
    let one = is_quiet-broker_drifts busy ledger d in
    let two = is_quiet-ledger_drifts busy d ledger in
    elim (Bool-cases (is_quiet (broker_drifts busy ledger d))) [
      | inr e ↦
          let (t, p, at, f) =
            every-fails (λ k x. busy k || matches (lookup k ledger) (some x)) d h (ground arith) in
          (t, ground arith, rw at (ground arith))
      | inl e ↦
          let (t, at, f) = every_key-fails (λ k. busy k || contains k d) ledger (ground arith) in
          (t, ground arith, one_sided (lookup t ledger) (lookup t d) at (ground arith))
    ]

-- What the drifts do to the switches.
conclude-cases :
    (ns : List Notice) (w : Watch)
    → ((is_quiet ns ≡ true) × (conclude ns w ≡ w))
      ⊎ ((is_quiet ns ≡ false)
          × ((conclude ns w).trading_paused_env ≡ some (codes "true"))
          × ((conclude ns w).trading_paused ≡ true)
          × ((conclude ns w).books.store ≡ w.books.store))
unfolding conclude
conclude-cases [] w = inl (refl, refl)
conclude-cases (n ∷ ns) w = inr (refl, refl, refl, refl)

compare_positions-halts :
    (busy : ℕ → Bool) (ps : List BrokerPosition) (w : Watch)
    → (let w' = compare_positions busy ps w in
        (AllMatch busy w'.books.store.mem.open_positions (by_ticker ps) × (w' ≡ w))
        ⊎ (Drifts busy w'.books.store.mem.open_positions (by_ticker ps)
            × (w'.trading_paused_env ≡ some (codes "true"))
            × (w'.trading_paused ≡ true)))
unfolding compare_positions
compare_positions-halts busy ps w =
    let ledger = w.books.store.mem.open_positions in
    let d = by_ticker ps in
    elim (conclude-cases (drifts busy ledger d) w) [
      | inl (q, same) ↦ inl (rw same (quiet-AllMatch busy ledger d q), same)
      | inr (q, env, paused, store) ↦
          inr (rw store (loud-Drifts busy ledger d (by_ticker-IsDistinct ps) q), env, paused)
    ]

-- The reconciliation halts trading exactly when the ledger and the broker differ. Once the broker has
-- answered, either every ticker with no order at work is held by both with the same quantity, up to a
-- millionth of a share, or by neither, and both pause switches are as they were; or one such ticker is
-- not, and both switches are on. The ledger is the one after the rescaling of splits.
pub reconciliation_halts :
    (divide : ℕ → ℕ → ℕ) (now : ℕ) (ps : List BrokerPosition) (w : Watch)
    → (let w' = run_position_reconciliation divide now (some ps) w in
        let busy = is_busy w.books.store.mem in
        let ledger = w'.books.store.mem.open_positions in
        (AllMatch busy ledger (by_ticker ps)
          × (w'.trading_paused_env ≡ w.trading_paused_env)
          × (w'.trading_paused ≡ w.trading_paused))
        ⊎ (Drifts busy ledger (by_ticker ps)
            × (w'.trading_paused_env ≡ some (codes "true"))
            × (w'.trading_paused ≡ true)))
unfolding run_position_reconciliation answered
reconciliation_halts divide now ps w =
    elim (compare_positions-halts (is_busy w.books.store.mem) ps (answered divide now ps w)) [
      | inl (m, same) ↦
          inl (m, ap (λ x. x.trading_paused_env) same, ap (λ x. x.trading_paused) same)
      | inr h ↦ inr h
    ]
