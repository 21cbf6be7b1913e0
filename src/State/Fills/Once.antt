-- ===== src/State/Fills/Once.antt =====
-- Exactly once: a report that brings nothing new is not booked again.
use alpha_live.Prelude.{
  ℕ, ◌+◌, ◌≤◌, ◌<◌, ◌≡◌, none, some, inl, inr, arith, leb, Option-cases, Bool-cases,
}
use alpha_live.Prelude.Dict.{lookup, lookup-insert_self}
use alpha_live.State.Types.{Intent, BotState, qty_epsilon}
use alpha_live.State.Fills.{applied, apply_new, apply_intent_fill_progress}

module _ (divide : ℕ → ℕ → ℕ) where
  -- A call on an intent that has all of the fill but the tolerance.
  pub stale :
      (k filled avg commission now : ℕ) (s : BotState) (i : Intent)
      → lookup k s.submission_intents ≡ some i
      → filled ≤ i.filled_qty_applied + qty_epsilon
      → apply_intent_fill_progress divide k filled avg commission now s ≡ (s, none)
  unfolding apply_intent_fill_progress
  stale k filled avg commission now s i e h = ground arith

  unknown :
      (k filled avg commission now : ℕ) (s : BotState)
      → lookup k s.submission_intents ≡ none
      → apply_intent_fill_progress divide k filled avg commission now s ≡ (s, none)
  unfolding apply_intent_fill_progress
  unknown k filled avg commission now s e = ground arith

  pub fresh :
      (k filled avg commission now : ℕ) (s : BotState) (i : Intent)
      → lookup k s.submission_intents ≡ some i
      → i.filled_qty_applied + qty_epsilon < filled
      → apply_intent_fill_progress divide k filled avg commission now s ≡ (
        (apply_new divide k i filled avg commission now s).0,
        some (apply_new divide k i filled avg commission now s).1,
      )
  unfolding apply_intent_fill_progress
  fresh k filled avg commission now s i e h = ground arith

  -- What the intent has after a booking.
  pub intent-apply_new :
      (k filled avg commission now : ℕ) (s : BotState) (i : Intent)
      → lookup k (apply_new divide k i filled avg commission now s).0.submission_intents
        ≡ some (applied i filled avg now)
  unfolding apply_new
  intent-apply_new k filled avg commission now s i =
      lookup-insert_self k (applied i filled avg now) s.submission_intents

  -- A fill is booked at most once: after a report of a cumulative quantity, a report of the same or a
  -- smaller one for that intent, at whatever price and time, changes nothing and returns nothing.
  pub fill_booked_once :
      (k filled avg commission now filled' avg' commission' now' : ℕ) (s : BotState)
      → filled' ≤ filled
      → let s' = (apply_intent_fill_progress divide k filled avg commission now s).0 in
        apply_intent_fill_progress divide k filled' avg' commission' now' s' ≡ (s', none)
  fill_booked_once k filled avg commission now filled' avg' commission' now' s le =
      elim (Option-cases (lookup k s.submission_intents)) [
        | inl e ↦
            rw (unknown k filled avg commission now s e)
              (unknown k filled' avg' commission' now' s e)
        | inr (i, e) ↦ elim (Bool-cases (leb filled (i.filled_qty_applied + qty_epsilon))) [
          | inl old ↦
              rw (stale k filled avg commission now s i e (ground arith))
                (stale k filled' avg' commission' now' s i e (ground arith))
          | inr new ↦ rw (fresh k filled avg commission now s i e (ground arith)) (
              stale k filled' avg' commission' now' _ (applied i filled avg now)
                (intent-apply_new k filled avg commission now s i) (unfold applied in omega arith))
        ]
      ]
