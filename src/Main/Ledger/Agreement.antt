-- ===== src/Main/Ledger/Agreement.antt =====
-- What the ledger holds after the startup sync.
use alpha_live.Prelude.{
  ℕ, ◌≡◌, ◌∙◌, refl, ap, subst, ◌&&◌, not, Option, none, some, List, [], ◌∷◌, ◌==◌, if◌then◌else◌,
  is_some, Bool-cases, inl, inr, arith,
}
use alpha_live.Prelude.Dict.{Dict, lookup, insert, contains, lookup-insert, lookup-erase}
use alpha_live.State.Types.{Position, BotState}
use alpha_live.State.Disk.{Store}
use alpha_live.State.Ledger.{mutate_if, recorded, record_position_open, record_position_close}
use alpha_live.State.Ledger.Highs.{mutate-mem}
use alpha_live.Main.Ledger.{
  BrokerPosition, Books, keyed, by_ticker, adopt_one, adopt_each, remove_one, remove_each,
  sync_position_ledger,
}

-- Every key once.
abbrev pub IsDistinct : Dict BrokerPosition → Type 0
IsDistinct [] = Unit
IsDistinct ((k, p) ∷ d) = (lookup k d ≡ none) × IsDistinct d

insert-IsDistinct :
    (k : ℕ) (p : BrokerPosition) (d : Dict BrokerPosition)
    → IsDistinct d
    → IsDistinct (insert k p d)
unfolding insert lookup
insert-IsDistinct k p [] h = (refl, tt)
insert-IsDistinct k p ((j, q) ∷ d) (n, h) = elim (Bool-cases (j == k)) [
  | inl e ↦ rw (e, insert) (ground arith, h)
  | inr e ↦ rw (e, insert) (ground (arith, lookup-insert j k p d), insert-IsDistinct k p d h)
]

keyed-IsDistinct :
    (d : Dict BrokerPosition) (ps : List BrokerPosition) → IsDistinct d → IsDistinct (keyed d ps)
keyed-IsDistinct d [] h = h
keyed-IsDistinct d (p ∷ ps) h =
    keyed-IsDistinct (insert p.symbol p d) ps (insert-IsDistinct p.symbol p d h)

pub by_ticker-IsDistinct : (ps : List BrokerPosition) → IsDistinct (by_ticker ps)
unfolding by_ticker
by_ticker-IsDistinct ps = keyed-IsDistinct [] ps tt

abbrev pub held_at : ℕ → Books → Option Position
held_at t b = lookup t b.store.mem.open_positions

-- What a recording leaves in the ledger.
record_position_open-lookup :
    (t k qty price now : ℕ) (st : Store)
    → lookup t (record_position_open k qty price now st).mem.open_positions ≡ (
        if k == t
        then some (recorded qty price now (lookup t st.mem.open_positions))
        else lookup t st.mem.open_positions)
unfolding record_position_open
record_position_open-lookup t k qty price now st =
    let ps = st.mem.open_positions in
    ap (λ (s : BotState). lookup t s.open_positions) (mutate-mem _ st)
    ∙ lookup-insert t k (recorded qty price now (lookup k ps)) ps
    ∙ elim (Bool-cases (k == t)) [
      | inl e ↦ let same : k ≡ t = ground arith in rw (e, same) refl
      | inr e ↦ rw e refl
    ]

record_position_close-lookup :
    (t k : ℕ) (st : Store)
    → lookup t (record_position_close k st).mem.open_positions
      ≡ (if k == t then none else lookup t st.mem.open_positions)
unfolding record_position_close mutate_if
record_position_close-lookup t k st = elim (Bool-cases (contains k st.mem.open_positions)) [
  | inl e ↦
      simp (e, mutate_if)
        (ap (λ (s : BotState). lookup t s.open_positions) (mutate-mem _ st)
          ∙ lookup-erase t k st.mem.open_positions)
  | inr e ↦ simp (e, mutate_if) (ground arith)
]

adopt_one-held_at :
    (now t k : ℕ) (ledger : Dict Position) (p : BrokerPosition) (b : Books)
    → held_at t (adopt_one now ledger k p b) ≡ (
        if contains k ledger
        then held_at t b
        else if k == t
        then some (recorded p.qty p.avg_entry_price now (held_at t b))
        else held_at t b)
unfolding adopt_one
adopt_one-held_at now t k ledger p b = elim (Bool-cases (contains k ledger)) [
  | inl e ↦ simp (e, adopt_one) refl
  | inr e ↦
      simp (e, adopt_one) (record_position_open-lookup t k p.qty p.avg_entry_price now b.store)
]

remove_one-held_at :
    (t k : ℕ) (d : Dict BrokerPosition) (b : Books)
    → held_at t (remove_one d k b)
      ≡ (if contains k d then held_at t b else if k == t then none else held_at t b)
unfolding remove_one
remove_one-held_at t k d b = elim (Bool-cases (contains k d)) [
  | inl e ↦ simp (e, remove_one) refl
  | inr e ↦ simp (e, remove_one) (record_position_close-lookup t k b.store)
]

-- What the broker has of a ticker that the ledger has not.
abbrev adopted_from : ℕ → Option Position → Option BrokerPosition → Option Position
adopted_from now before none = before
adopted_from now before (some p) = some (recorded p.qty p.avg_entry_price now before)

adopt_each-held_at :
    (now t : ℕ) (ledger : Dict Position) (d : Dict BrokerPosition) (b : Books)
    → IsDistinct d
    → held_at t (adopt_each now ledger d b)
      ≡ (if contains t ledger then held_at t b else adopted_from now (held_at t b) (lookup t d))
unfolding adopt_each lookup
adopt_each-held_at now t ledger [] b h = ground arith
adopt_each-held_at now t ledger ((k, p) ∷ d) b (n, h) =
    let one = adopt_one-held_at now t k ledger p b in
    adopt_each-held_at now t ledger d (adopt_one now ledger k p b) h ∙ elim (Bool-cases (k == t)) [
      | inl e ↦
          let same : k ≡ t = ground arith in
          let gone : lookup t d ≡ none = subst (λ x. lookup x d ≡ none) same n in
          elim (Bool-cases (contains t ledger)) [
            | inl c ↦ rw c (one ∙ rw (same, c) refl)
            | inr c ↦ rw (c, e, gone) (one ∙ rw (e, same, c) refl)
          ]
      | inr e ↦
          let kept : held_at t (adopt_one now ledger k p b) ≡ held_at t b =
            one ∙ elim (Bool-cases (contains k ledger)) [
              | inl c ↦ rw c refl
              | inr c ↦ rw (c, e) refl
            ] in
          rw (kept, e) refl
    ]

remove_each-held_at :
    (t : ℕ) (d : Dict BrokerPosition) (ledger : Dict Position) (b : Books)
    → held_at t (remove_each d ledger b)
      ≡ (if contains t ledger && not (contains t d) then none else held_at t b)
unfolding remove_each lookup
remove_each-held_at t d [] b = refl
remove_each-held_at t d ((k, p) ∷ ledger) b =
    remove_each-held_at t d ledger (remove_one d k b) ∙ elim (Bool-cases (k == t)) [
      | inl e ↦
          let same : k ≡ t = ground arith in
          elim (Bool-cases (contains t d)) [
            | inl c ↦ ground (arith, remove_one-held_at t k d b)
            | inr c ↦ ground (arith, remove_one-held_at t k d b)
          ]
      | inr e ↦ ground (arith, remove_one-held_at t k d b)
    ]

-- What the ledger has after the sync, from what it and the broker had.
abbrev pub synced_entry : ℕ → Option Position → Option BrokerPosition → Option Position
synced_entry now (some p) (some b) = some p
synced_entry now (some p) none = none
synced_entry now none (some b) = some (recorded b.qty b.avg_entry_price now none)
synced_entry now none none = none

agreed :
    (now : ℕ) (o : Option Position) (d : Option BrokerPosition)
    → (if is_some o && not (is_some d) then none else if is_some o then o else adopted_from now o d)
      ≡ synced_entry now o d
agreed now (some p) (some b) = refl
agreed now (some p) none = refl
agreed now none (some b) = refl
agreed now none none = refl

-- The startup sync makes the ledger agree with the broker and loses nothing. Once the broker has
-- answered, the ledger holds an entry for exactly the tickers that the broker holds: an entry that it
-- had is unchanged, with its realised profit, and a missing one is adopted with the broker's quantity
-- and average price. If the broker raises, nothing changes.
pub sync_position_ledger_agrees :
    (now t : ℕ) (ps : List BrokerPosition) (b : Books)
    → (held_at t (sync_position_ledger now (some ps) b)
        ≡ synced_entry now (held_at t b) (lookup t (by_ticker ps)))
      × (sync_position_ledger now none b ≡ b)
unfolding sync_position_ledger
sync_position_ledger_agrees now t ps b =
    let d = by_ticker ps in
    let ledger = b.store.mem.open_positions in
    let distinct = by_ticker-IsDistinct ps in
    (
      remove_each-held_at t d ledger (adopt_each now ledger d b)
          ∙ ap (λ o. if contains t ledger && not (contains t d) then none else o)
              (adopt_each-held_at now t ledger d b distinct)
          ∙ agreed now (held_at t b) (lookup t d),
      refl,
    )
