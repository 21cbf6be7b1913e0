-- ===== src/Engine/Turns/Kept.antt =====
-- One bar of the strategies that keep their position between checks, and the position.
use alpha_live.Prelude.{
  ◌≡◌, ◌∙◌, refl, subst, true, false, ◌&&◌, ◌||◌, Option, none, some, ltb, leb, Bool-cases,
  Option-cases, inl, inr, ℕ, arith,
}
use alpha_live.Engine.State.{Engine}
use alpha_live.Engine.Alternate.{Flips}
use alpha_live.Engine.TrendRsi as TrendRsi
use alpha_live.Engine.TrendRsi.{on_thresholds, Thresholds, trend_adaptive_rsi_signal}
use alpha_live.Engine.Combo as Combo
use alpha_live.Engine.Combo.{bollinger_rsi_combo_signal}
use alpha_live.Engine.Greenblatt as Greenblatt
use alpha_live.Engine.Greenblatt.{greenblatt_weekly_signal}

pub trend-Flips :
    (p : TrendRsi.Params) (l : Option TrendRsi.Levels) (e : Engine)
    → (let r = trend_adaptive_rsi_signal p l e in Flips e.in_position r.0.in_position r.1)
unfolding trend_adaptive_rsi_signal on_thresholds
trend-Flips p none e = refl
trend-Flips p (some l) e = elim (Bool-cases e.in_position) [
  | inl long ↦ elim (Bool-cases (ltb (TrendRsi.thresholds p l).sell_above l.rsi)) [
    | inl high ↦ rw (long, high, trend_adaptive_rsi_signal, on_thresholds) (refl, refl)
    | inr low ↦ rw (long, low, trend_adaptive_rsi_signal, on_thresholds) refl
  ]
  | inr flat ↦ elim (Bool-cases (ltb l.rsi (TrendRsi.thresholds p l).buy_below)) [
    | inl low ↦ rw (flat, low, trend_adaptive_rsi_signal, on_thresholds) (refl, refl)
    | inr high ↦ rw (flat, high, trend_adaptive_rsi_signal, on_thresholds) refl
  ]
]

pub combo-Flips :
    (p : Combo.Params) (l : Option Combo.Levels) (e : Engine)
    → (let r = bollinger_rsi_combo_signal p l e in Flips e.in_position r.0.in_position r.1)
unfolding bollinger_rsi_combo_signal Combo.on_levels
combo-Flips p none e = refl
combo-Flips p (some l) e = elim (Bool-cases e.in_position) [
  | inl long ↦
      elim (Bool-cases (p.exit_at_middle && leb l.bb_middle l.price || ltb p.overbought l.rsi)) [
        | inl exits ↦ rw (long, exits, bollinger_rsi_combo_signal, Combo.on_levels) (refl, refl)
        | inr stays ↦ rw (long, stays, bollinger_rsi_combo_signal, Combo.on_levels) refl
      ]
  | inr flat ↦ elim (Bool-cases (leb l.price l.bb_lower && ltb l.rsi p.oversold)) [
    | inl enters ↦ rw (flat, enters, bollinger_rsi_combo_signal, Combo.on_levels) (refl, refl)
    | inr waits ↦ rw (flat, waits, bollinger_rsi_combo_signal, Combo.on_levels) refl
  ]
]

anchored-position :
    (found : Option (ℕ × ℕ)) (e : Engine)
    → (Greenblatt.anchored_at found e).in_position ≡ e.in_position
unfolding Greenblatt.anchored_at
anchored-position none e = refl
anchored-position (some (high, at)) e = refl

re_anchor-position :
    (l : Greenblatt.Levels) (e : Engine) → (Greenblatt.re_anchor l e).in_position ≡ e.in_position
unfolding Greenblatt.re_anchor
re_anchor-position l e = elim (Option-cases e.peak_bar_ts) [
  | inl unset ↦ ground arith
  | inr (ts, at) ↦ grind (arith, anchored-position)
]

raise_peak-position :
    (l : Greenblatt.Levels) (e : Engine) → (Greenblatt.raise_peak l e).in_position ≡ e.in_position
unfolding Greenblatt.raise_peak
raise_peak-position l e = ground arith

when_long-Flips :
    (p : Greenblatt.Params) (l : Greenblatt.Levels) (a : Engine)
    → a.in_position ≡ true
    → (let r = Greenblatt.when_long p l a in Flips a.in_position r.0.in_position r.1)
unfolding Greenblatt.when_long
when_long-Flips p l a long = elim (Bool-cases (Greenblatt.is_stopped p l a)) [
  | inl stopped ↦ simp (stopped, Greenblatt.when_long) (long, refl)
  | inr runs ↦ elim (Bool-cases (Greenblatt.wants_exit p l)) [
    | inl wants ↦ elim (Bool-cases (Greenblatt.is_held_back l.min_hold_met)) [
      | inl back ↦ simp (runs, wants, back, Greenblatt.when_long) refl
      | inr free ↦ simp (runs, wants, free, Greenblatt.when_long) (long, refl)
    ]
    | inr stays ↦ simp (runs, stays, Greenblatt.when_long) refl
  ]
]

when_flat-Flips :
    (p : Greenblatt.Params) (l : Greenblatt.Levels) (a : Engine)
    → a.in_position ≡ false
    → (let r = Greenblatt.when_flat p l a in Flips a.in_position r.0.in_position r.1)
unfolding Greenblatt.when_flat
when_flat-Flips p l a flat = elim (Bool-cases (ltb l.rsi p.oversold || Greenblatt.cross_up l)) [
  | inl enters ↦ simp (enters, Greenblatt.when_flat) (flat, refl)
  | inr waits ↦ simp (waits, Greenblatt.when_flat) refl
]

pub greenblatt-Flips :
    (p : Greenblatt.Params) (l : Option Greenblatt.Levels) (e : Engine)
    → (let r = greenblatt_weekly_signal p l e in Flips e.in_position r.0.in_position r.1)
unfolding greenblatt_weekly_signal Greenblatt.on_levels
greenblatt-Flips p none e = refl
greenblatt-Flips p (some l) e =
    let a = Greenblatt.raise_peak l (Greenblatt.re_anchor l e) in
    let same : a.in_position ≡ e.in_position =
      raise_peak-position l (Greenblatt.re_anchor l e) ∙ re_anchor-position l e in
    elim (Bool-cases a.in_position) [
      | inl long ↦
          simp (long, greenblatt_weekly_signal, Greenblatt.on_levels)
            (subst
              (λ b.
                Flips b (Greenblatt.when_long p l a).0.in_position (Greenblatt.when_long p l a).1)
              same (when_long-Flips p l a long))
      | inr flat ↦
          simp (flat, greenblatt_weekly_signal, Greenblatt.on_levels)
            (subst
              (λ b.
                Flips b (Greenblatt.when_flat p l a).0.in_position (Greenblatt.when_flat p l a).1)
              same (when_flat-Flips p l a flat))
    ]
