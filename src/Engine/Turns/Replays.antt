-- ===== src/Engine/Turns/Replays.antt =====
-- One bar of the strategies that replay their position over the window, and the position.
use alpha_live.Prelude.{
  ◌≡◌, ◌∙◌, refl, sym, ap, subst, if◌then◌else◌, Bool, true, false, ◌&&◌, Option, none, some,
  Bool-cases, inl, inr, ℕ, arith,
}
use alpha_live.Engine.Alternate.{Flips}
use alpha_live.Engine.Cooldown.{too_soon}
use alpha_live.Engine.Breakout as Breakout
use alpha_live.Engine.Momentum as Momentum
use alpha_live.Engine.MeanReversion as MeanReversion

pub breakout-Flips :
    (p : Breakout.Params) (b : Breakout.Bar) (r : Breakout.Replay)
    → (let x = Breakout.decide p b r in Flips r.in_pos x.0.in_pos x.1)
unfolding Breakout.decide
breakout-Flips p b r = elim (Bool-cases r.in_pos) [
  | inl long ↦ elim (Bool-cases (Breakout.in_exit_zone b)) [
    | inl exits ↦ simp (long, exits, Breakout.decide) (refl, refl)
    | inr stays ↦ simp (long, stays, Breakout.decide) refl
  ]
  | inr flat ↦ elim (Bool-cases (too_soon p.cooldown r.bar r.last_sig)) [
    | inl soon ↦ simp (flat, soon, Breakout.decide) refl
    | inr late ↦
        elim (Bool-cases (Breakout.confirmed p.confirmation r.past && Breakout.has_volume p b)) [
          | inl enters ↦ simp (flat, late, enters, Breakout.decide) (refl, refl)
          | inr waits ↦ simp (flat, late, waits, Breakout.decide) refl
        ]
  ]
]

ratchet-in_pos :
    (p : Momentum.Params) (b : Momentum.Bar) (r : Momentum.Replay)
    → (Momentum.ratchet p b r).in_pos ≡ r.in_pos
unfolding Momentum.ratchet
ratchet-in_pos p b r = ground arith

momentum_long-Flips :
    (p : Momentum.Params) (b : Momentum.Bar) (r : Momentum.Replay)
    → r.in_pos ≡ true
    → (let x = Momentum.when_long p b r in Flips true x.0.in_pos x.1)
unfolding Momentum.when_long
momentum_long-Flips p b r long = elim (Bool-cases (Momentum.is_exit b (Momentum.ratchet p b r))) [
  | inl exits ↦ simp (exits, Momentum.when_long) (refl, refl)
  | inr stays ↦ simp (stays, Momentum.when_long) (ratchet-in_pos p b r ∙ long)
]

momentum_flat-Flips :
    (p : Momentum.Params) (b : Momentum.Bar) (r : Momentum.Replay)
    → r.in_pos ≡ false
    → (let x = Momentum.when_flat p b r in Flips false x.0.in_pos x.1)
unfolding Momentum.when_flat Momentum.enter
momentum_flat-Flips p b r flat = elim (Bool-cases (too_soon p.cooldown r.bar r.last_sig)) [
  | inl soon ↦ simp (soon, Momentum.when_flat) flat
  | inr late ↦
      elim (Bool-cases (Momentum.breaks_out b && Momentum.surges p b && Momentum.is_strong p b)) [
        | inl enters ↦ simp (late, enters, Momentum.when_flat) (refl, refl)
        | inr waits ↦ simp (late, waits, Momentum.when_flat) flat
      ]
]

decide-branch :
    (p : Momentum.Params) (b : Momentum.Bar) (r : Momentum.Replay) (c : Bool)
    → r.in_pos ≡ c
    → Momentum.decide p b r ≡ (if c then Momentum.when_long p b r else Momentum.when_flat p b r)
unfolding Momentum.decide
decide-branch p b r c e =
    ap (λ x. if x then Momentum.when_long p b r else Momentum.when_flat p b r) e

pub momentum-Flips :
    (p : Momentum.Params) (b : Momentum.Bar) (r : Momentum.Replay)
    → (let x = Momentum.decide p b r in Flips r.in_pos x.0.in_pos x.1)
momentum-Flips p b r = elim (Bool-cases r.in_pos) [
  | inl long ↦
      subst (λ x. Flips r.in_pos x.0.in_pos x.1) (sym (decide-branch p b r true long))
        (subst (λ c. Flips c (Momentum.when_long p b r).0.in_pos (Momentum.when_long p b r).1)
          (sym long) (momentum_long-Flips p b r long))
  | inr flat ↦
      subst (λ x. Flips r.in_pos x.0.in_pos x.1) (sym (decide-branch p b r false flat))
        (subst (λ c. Flips c (Momentum.when_flat p b r).0.in_pos (Momentum.when_flat p b r).1)
          (sym flat) (momentum_flat-Flips p b r flat))
]

pub reversion-Flips :
    (p : MeanReversion.Params) (b : MeanReversion.Bar) (x : Option ℕ) (r : MeanReversion.Replay)
    → (let y = MeanReversion.decide p b x r in Flips r.in_position y.0.in_position y.1)
unfolding MeanReversion.decide MeanReversion.on_rsi MeanReversion.enter
reversion-Flips p b none r = refl
reversion-Flips p b (some rsi) r = elim (Bool-cases r.in_position) [
  | inl long ↦ elim (Bool-cases (MeanReversion.is_exit p b rsi r)) [
    | inl exits ↦ simp (long, exits, MeanReversion.decide, MeanReversion.on_rsi) (refl, refl)
    | inr stays ↦ simp (long, stays, MeanReversion.decide, MeanReversion.on_rsi) refl
  ]
  | inr flat ↦ elim (Bool-cases (too_soon p.cooldown r.bar r.last_signal_bar)) [
    | inl soon ↦ simp (flat, soon, MeanReversion.decide, MeanReversion.on_rsi) refl
    | inr late ↦ elim (Bool-cases (MeanReversion.is_entry p b rsi)) [
      | inl enters ↦
          simp (flat, late, enters, MeanReversion.decide, MeanReversion.on_rsi) (refl, refl)
      | inr waits ↦ simp (flat, late, waits, MeanReversion.decide, MeanReversion.on_rsi) refl
    ]
  ]
]
