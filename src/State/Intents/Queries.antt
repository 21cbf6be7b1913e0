-- ===== src/State/Intents/Queries.antt =====
-- What `get_open_intent` returns.
use alpha_live.Prelude.{
  ℕ, ◌≤◌, ◌≡◌, ◌⊎◌, inl, inr, refl, Bool, true, false, Option, none, some, [], ◌∷◌, arith,
  Bool-cases, Option-cases,
}
use alpha_live.Prelude.Dict.{Dict}
use alpha_live.State.Types.{Side, Intent, BotState}
use alpha_live.State.Intents.{is_candidate, latest_from, later_of, get_open_intent}

-- Every entry of the dict that passes the test was created no later.
abbrev pub NoLater : (Intent → Bool) → ℕ → Dict Intent → Type 0
NoLater p t [] = Unit
NoLater p t ((id, i) ∷ d) = (p i ≡ true → i.created_at ≤ t) × NoLater p t d

abbrev pub NoneOf : (Intent → Bool) → Dict Intent → Type 0
NoneOf p [] = Unit
NoneOf p ((id, i) ∷ d) = (p i ≡ false) × NoneOf p d

abbrev pub Passes : (Intent → Bool) → Option Intent → Type 0
Passes p none = Unit
Passes p (some i) = p i ≡ true

abbrev NotAfter : Option Intent → ℕ → Type 0
NotAfter none t = Unit
NotAfter (some b) t = b.created_at ≤ t

-- What the scan finds from the best so far.
abbrev Found : (Intent → Bool) → Option Intent → Dict Intent → Option Intent → Type 0
Found p best d none = (best ≡ none) × NoneOf p d
Found p best d (some i) = (p i ≡ true) × NoLater p i.created_at d × NotAfter best i.created_at

skip :
    (p : Intent → Bool) (id : ℕ) (i : Intent) (d : Dict Intent) (best r : Option Intent)
    → p i ≡ false
    → Found p best d r
    → Found p best ((id, i) ∷ d) r
skip p id i d best none e (n, h) = (n, (e, h))
skip p id i d best (some j) e (q, h, a) = (q, (λ y. cc, h), a)

take_later :
    (p : Intent → Bool) (id : ℕ) (i : Intent) (d : Dict Intent) (best r : Option Intent)
    → Found p (later_of best i) d r
    → Found p best ((id, i) ∷ d) r
take_later p id i d none none (n, h) = cc
take_later p id i d (some b) none (n, h) = absurd (ground arith)
take_later p id i d none (some j) (q, h, a) = (q, (λ y. a, h), tt)
take_later p id i d (some b) (some j) (q, h, a) = (q, (λ y. ground arith, h), ground arith)

later_of-Passes :
    (p : Intent → Bool) (best : Option Intent) (i : Intent)
    → Passes p best
    → p i ≡ true
    → Passes p (later_of best i)
later_of-Passes p none i h e = e
later_of-Passes p (some b) i h e = ground arith

latest_from-Found :
    (p : Intent → Bool) (d : Dict Intent) (best : Option Intent)
    → Passes p best
    → Found p best d (latest_from best d p)
unfolding latest_from
latest_from-Found p [] none h = (refl, tt)
latest_from-Found p [] (some b) h = (h, tt, omega arith)
latest_from-Found p ((id, i) ∷ d) best h = elim (Bool-cases (p i)) [
  | inl e ↦
      rw (e, latest_from)
        (take_later p id i d best _
          (latest_from-Found p d (later_of best i) (later_of-Passes p best i h e)))
  | inr e ↦ rw (e, latest_from) (skip p id i d best _ e (latest_from-Found p d best h))
]

-- `get_open_intent` finds the newest: an intent that it returns is open, of the ticker and the side
-- asked for, and no other such intent was created later; if it returns nothing there is none.
pub get_open_intent_newest :
    (ticker : ℕ) (side : Side) (s : BotState)
    → ((get_open_intent ticker side s ≡ none)
        × NoneOf (is_candidate ticker side) s.submission_intents)
      ⊎ ((i : Intent) × (get_open_intent ticker side s ≡ some i)
          × (is_candidate ticker side i ≡ true)
          × NoLater (is_candidate ticker side) i.created_at s.submission_intents)
unfolding get_open_intent
get_open_intent_newest ticker side s =
    let f = latest_from-Found (is_candidate ticker side) s.submission_intents none tt in
    elim (Option-cases (latest_from none s.submission_intents (is_candidate ticker side))) [
      | inl e ↦ inl (e, (rw e at f).1)
      | inr (i, e) ↦ inr (i, e, (rw e at f).0, (rw e at f).1)
    ]

pub get_open_intent-ticker :
    (ticker : ℕ) (side : Side) (s : BotState) (i : Intent)
    → get_open_intent ticker side s ≡ some i
    → i.ticker ≡ ticker
unfolding is_candidate
get_open_intent-ticker ticker side s i e = elim (get_open_intent_newest ticker side s) [
  | inl (n, _) ↦ absurd (cc)
  | inr (j, at_j, c, _) ↦ let same : i ≡ j = cc in rw same (ground arith)
]
