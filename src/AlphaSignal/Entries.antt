-- ===== src/AlphaSignal/Entries.antt =====
-- What lets an entry through the gate, and what blocks it.
use alpha_live.Prelude.{
  ◌≡◌, ◌⊎◌, inl, inr, refl, ap, ◌∙◌, subst, Bool, true, false, ◌&&◌, not, Option, some, Bool-cases,
  arith, Outcome, ok, raise,
}
use alpha_live.AlphaSignal.{Response}
use alpha_live.AlphaSignal.Gate.{
  Client, Health, Identity, identified, judge_health, open_policy, closed_policy, Verdict,
  weigh_answer, evaluate, is_non_evaluating, apply_policy, gate, after_identity, check_identity,
  is_execution_allowed, checked, run_pre_execution_checks, is_verified, is_wrong, is_open_policy,
}
use alpha_live.AlphaSignal.Scores.{HasScore, answer-Judged}

-- Decided by the policy, or by a score.
abbrev Decided : Client → Option Response → Bool → Type 0
Decided c answer allowed =
    (allowed ≡ is_open_policy c.fail_policy) ⊎ HasScore c.sentiment_threshold answer allowed

apply_policy-Decided :
    (c : Client) (answer : Option Response) (v : Verdict)
    → (is_non_evaluating v.1.gate_status ≡ true)
      ⊎ ((is_non_evaluating v.1.gate_status ≡ false) × HasScore c.sentiment_threshold answer v.0)
    → Decided c answer (apply_policy c.fail_policy v).0
unfolding apply_policy
apply_policy-Decided c answer (allowed, pred) (inl e) = rw e (inl refl)
apply_policy-Decided c answer (allowed, pred) (inr (e, h)) = rw e (inr h)

gate-Decided : (c : Client) (answer : Option Response) → Decided c answer (gate c 2 answer).0
unfolding gate evaluate
gate-Decided c answer =
    apply_policy-Decided c answer (weigh_answer c.sentiment_threshold 2 answer)
      (answer-Judged c.sentiment_threshold answer)

-- The client's settings are kept.
abbrev SameSettings : Client → Client → Type 0
SameSettings c d = (d.fail_policy ≡ c.fail_policy) × (d.sentiment_threshold ≡ c.sentiment_threshold)

-- The configured URL does not answer as AlphaSignal.
abbrev pub IsMisconfigured : Client → Health → Type 0
IsMisconfigured c health =
    (c.verify_identity ≡ true)
    × (d : Client) × (check_identity c health ≡ ok d)
    × (is_wrong d.identity ≡ true)

abbrev Keeps : Client → Outcome Client → Type 0
Keeps c (ok d) = SameSettings c d
Keeps c (raise e) = Unit

identified-Keeps : (c : Client) (o : Outcome Identity) → Keeps c (identified c o)
identified-Keeps c (ok i) = (refl, refl)
identified-Keeps c (raise e) = tt

check_identity-Keeps : (c : Client) (health : Health) → Keeps c (check_identity c health)
unfolding check_identity
check_identity-Keeps c health = elim (Bool-cases c.has_base_url) [
  | inl e ↦ simp (e, check_identity) (identified-Keeps c (judge_health health))
  | inr e ↦ simp (e, check_identity) (refl, refl)
]

-- What the checks say, up to the configuration.
abbrev Settled : Client → Health → Option Response → Bool → Type 0
Settled c health answer allowed =
    Decided c answer allowed ⊎ ((allowed ≡ false) × IsMisconfigured c health)

moved :
    (c d : Client) {answer : Option Response} {allowed : Bool}
    → d.fail_policy ≡ c.fail_policy
    → d.sentiment_threshold ≡ c.sentiment_threshold
    → Decided d answer allowed
    → Decided c answer allowed
moved c d {answer} {allowed} policy threshold (inl e) = inl (e ∙ ap is_open_policy policy)
moved c d {answer} {allowed} policy threshold (inr h) =
    inr (subst (λ t. HasScore t answer allowed) threshold h)

after_identity-Settled :
    (c : Client) (health : Health) (answer : Option Response) (o : Outcome Client)
    → c.verify_identity ≡ true
    → check_identity c health ≡ o
    → Keeps c o
    → Settled c health answer (checked c (after_identity 2 answer o)).1.0
unfolding after_identity checked
after_identity-Settled c health answer (raise e) v i k = inl (inl refl)
after_identity-Settled c health answer (ok d) v i (policy, threshold) =
    elim (Bool-cases (is_wrong d.identity)) [
      | inl w ↦ simp (w, after_identity) (inr (refl, (v, d, i, w)))
      | inr w ↦ simp (w, after_identity) (inl (moved c d policy threshold (gate-Decided d answer)))
    ]

run-Settled :
    (c : Client) (health : Health) (answer : Option Response)
    → Settled c health answer (run_pre_execution_checks (some c) 2 health answer).1.0
unfolding run_pre_execution_checks is_execution_allowed
run-Settled c health answer =
    elim (Bool-cases (c.verify_identity && not (is_verified c.identity))) [
      | inl e ↦
          simp (e, is_execution_allowed)
            (after_identity-Settled c health answer (check_identity c health) (ground arith) refl
              (check_identity-Keeps c health))
      | inr e ↦ simp (e, is_execution_allowed) (inl (gate-Decided c answer))
    ]

-- Under the policy "closed" no BUY passes without evidence: if the checks allow it, the service answered
-- with a usable score that is at least the threshold. Usable means that the response does not
-- contradict itself, has data, is not stale, and if it is degraded has a reliable chunk.
pub closed_needs_evidence :
    (c : Client) (health : Health) (answer : Option Response)
    → c.fail_policy ≡ closed_policy
    → (run_pre_execution_checks (some c) 2 health answer).1.0 ≡ true
    → HasScore c.sentiment_threshold answer true
closed_needs_evidence c health answer policy allowed = elim (run-Settled c health answer) [
  | inl (inl e) ↦ absurd (cc)
  | inl (inr h) ↦ subst (HasScore c.sentiment_threshold answer) allowed h
  | inr (e, _) ↦ absurd (cc)
]

-- Under the policy "open" no outage blocks a BUY: if the checks block it, then either the service
-- answered with a usable score below the threshold, or the client verifies the identity of the
-- service and the configured URL is that of another service or none.
pub open_blocks_on_evidence :
    (c : Client) (health : Health) (answer : Option Response)
    → c.fail_policy ≡ open_policy
    → (run_pre_execution_checks (some c) 2 health answer).1.0 ≡ false
    → HasScore c.sentiment_threshold answer false ⊎ IsMisconfigured c health
open_blocks_on_evidence c health answer policy blocked = elim (run-Settled c health answer) [
  | inl (inl e) ↦ absurd (cc)
  | inl (inr h) ↦ inl (subst (HasScore c.sentiment_threshold answer) blocked h)
  | inr (_, m) ↦ inr m
]
