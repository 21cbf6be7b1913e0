-- ===== src/AlphaSignal/Scores.antt =====
-- What the gate makes of an answer for a BUY.
use alpha_live.Prelude.{
  ◌≡◌, ◌⊎◌, inl, inr, refl, Bool, true, false, ◌&&◌, ◌||◌, not, Option, none, some, ℤ, leb_ℤ,
  Bool-cases, Option-cases, arith, get_or,
}
use alpha_live.AlphaSignal.{
  Response, Sentiment, detect_contract_issue, normalize, is_stale, is_no_data, is_unavailable,
  is_partial, is_full,
}
use alpha_live.AlphaSignal.Gate.{
  GateStatus, Verdict, confirms, scored, weigh_degraded, weigh_score, weigh, weigh_answer,
  is_non_evaluating, has_reliable, lacks_data, partial_degraded_pass, partial_degraded_block,
  available_pass, available_block,
}

-- A response whose score may be used: it does not contradict itself, has data that is fresh, and if it
-- is degraded some of its evidence is reliable.
abbrev pub IsUsable : Response → Type 0
IsUsable d =
    (detect_contract_issue d ≡ none)
    × (is_unavailable d.data_available ≡ false)
    × (is_no_data d.status ≡ false)
    × (is_stale d.status ≡ false)
    × (get_or d.is_degraded false ≡ true → has_reliable d.reliable_chunk_count ≡ true)

-- The answer has a usable score, and whether it reaches the threshold.
abbrev pub HasScore : ℤ → Option Response → Bool → Type 0
HasScore threshold answer reaches =
    (d : Response) × (s : ℤ) × (answer ≡ some d)
    × IsUsable d
    × (d.latest_score ≡ some s)
    × (leb_ℤ threshold s ≡ reaches)

-- The verdict on a score.
abbrev Scored : ℤ → Option ℤ → Verdict → Type 0
Scored threshold found v =
    (is_non_evaluating v.1.gate_status ≡ false)
    × (s : ℤ) × (found ≡ some s)
    × (leb_ℤ threshold s ≡ v.0)

abbrev Judged : ℤ → Response → Verdict → Type 0
Judged threshold d v =
    (is_non_evaluating v.1.gate_status ≡ true) ⊎ (IsUsable d × Scored threshold d.latest_score v)

scored-Scored :
    (threshold score : ℤ) (pass block : GateStatus) (s : Sentiment)
    → is_non_evaluating pass ≡ false
    → is_non_evaluating block ≡ false
    → Scored threshold (some score) (scored threshold 2 score pass block s)
unfolding scored confirms
scored-Scored threshold score pass block s p b = elim (Bool-cases (leb_ℤ threshold score)) [
  | inl e ↦ rw e (p, score, refl, e)
  | inr e ↦ rw e (b, score, refl, e)
]

weigh_degraded-Judged :
    (threshold : ℤ) (s : Sentiment) (found : Option ℤ)
    → (let v = weigh_degraded threshold 2 s found in
        (is_non_evaluating v.1.gate_status ≡ true)
        ⊎ ((has_reliable s.reliable_chunk_count ≡ true) × Scored threshold found v))
unfolding weigh_degraded
weigh_degraded-Judged threshold s none = inl refl
weigh_degraded-Judged threshold s (some score) =
    elim (Bool-cases (is_partial s.degradation_reason && has_reliable s.reliable_chunk_count)) [
      | inl e ↦
          simp (e, weigh_degraded)
            (inr (
              ground arith,
              scored-Scored threshold score partial_degraded_pass partial_degraded_block s refl
                  refl,
            ))
      | inr e ↦ elim (Bool-cases (is_full s.degradation_reason)) [
        | inl f ↦ simp (e, f, weigh_degraded) (inl refl)
        | inr f ↦ simp (e, f, weigh_degraded) (inl refl)
      ]
    ]

weigh_score-Judged :
    (threshold : ℤ) (s : Sentiment) (found : Option ℤ)
    → (let v = weigh_score threshold 2 s found in
        (is_non_evaluating v.1.gate_status ≡ true) ⊎ Scored threshold found v)
unfolding weigh_score
weigh_score-Judged threshold s none = inl refl
weigh_score-Judged threshold s (some score) =
    inr (scored-Scored threshold score available_pass available_block s refl refl)

-- Data that is not lacking is not unavailable.
is_unavailable-default :
    (o : Option (Option Bool))
    → elim (get_or o (some true)) [ none ↦ true | some b ↦ not b ] ≡ false
    → is_unavailable o ≡ false
is_unavailable-default none e = refl
is_unavailable-default (some none) e = refl
is_unavailable-default (some (some true)) e = refl
is_unavailable-default (some (some false)) e = e

-- The same of a sentiment.
abbrev IsSound : Sentiment → Type 0
IsSound s =
    (s.contract_issue ≡ none)
    × (lacks_data s ≡ false)
    × (is_no_data s.status ≡ false)
    × (is_stale s.status ≡ false)
    × (s.is_degraded ≡ true → has_reliable s.reliable_chunk_count ≡ true)

weigh-Judged :
    (threshold : ℤ) (s : Sentiment)
    → s.sentiment_score ≡ s.latest_score
    → (let v = weigh threshold 2 s in
        (is_non_evaluating v.1.gate_status ≡ true)
        ⊎ (IsSound s × Scored threshold s.latest_score v))
unfolding weigh
weigh-Judged threshold s same = elim (Option-cases s.contract_issue) [
  | inr (x, e) ↦ simp (e, weigh) (inl refl)
  | inl e ↦ elim (Bool-cases (lacks_data s || is_no_data s.status)) [
    | inl n ↦ simp (e, n, weigh) (inl refl)
    | inr n ↦ elim (Bool-cases (is_stale s.status)) [
      | inl t ↦ simp (e, n, t, weigh) (inl refl)
      | inr t ↦
          let there : lacks_data s ≡ false = ground arith in
          let dated : is_no_data s.status ≡ false = ground arith in
          elim (Bool-cases s.is_degraded) [
            | inl g ↦ elim (weigh_degraded-Judged threshold s s.latest_score) [
              | inl x ↦ simp (e, n, t, g, weigh) (inl x)
              | inr (h, x) ↦ simp (e, n, t, g, weigh) (inr ((refl, there, dated, refl, λ y. h), x))
            ]
            | inr g ↦ elim (weigh_score-Judged threshold s s.latest_score) [
              | inl x ↦ simp (e, n, t, g, same, weigh) (inl x)
              | inr x ↦
                  simp (e, n, t, g, same, weigh)
                    (inr ((refl, there, dated, refl, λ y. absurd (cc)), x))
            ]
          ]
    ]
  ]
]

pub answer-Judged :
    (threshold : ℤ) (answer : Option Response)
    → (let v = weigh_answer threshold 2 answer in
        (is_non_evaluating v.1.gate_status ≡ true)
        ⊎ ((is_non_evaluating v.1.gate_status ≡ false) × HasScore threshold answer v.0))
unfolding weigh_answer
answer-Judged threshold none = inl refl
answer-Judged threshold (some d) =
    elim (weigh-Judged threshold (normalize d) (unfold normalize in refl)) [
      | inl e ↦ inl e
      | inr ((issue, there, dated, fresh, reliable), (counts, s, found, reaches)) ↦ inr (
        counts,
        (
          d,
          s,
          refl,
          (
            unfold normalize in issue,
            is_unavailable-default d.data_available (unfold normalize in there),
            unfold normalize in dated,
            unfold normalize in fresh,
            unfold normalize in reliable,
          ),
          unfold normalize in found,
          reaches,
        ),
      )
    ]
