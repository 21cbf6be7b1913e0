-- ===== src/Orders/CheckExits/Complete.antt =====
-- The exits are exactly the positions that a check triggers for.
use alpha_live.Prelude.{
  ℕ, ◌<◌, ◌≡◌, ◌∙◌, inl, inr, sym, refl, ap, Bool, true, false, ◌||◌, Option, none, some, List, [],
  ◌∷◌, arith, if◌then◌else◌, get_or, Outcome, ok, ◌>>=◌, Bool-cases, Option-cases, map,
}
use alpha_live.Prelude.Lists.{All, keep}
use alpha_live.Prelude.Dict.{Dict, lookup}
use alpha_live.Risk.Types.{RiskConfig}
use alpha_live.Risk.Exits.{
  Side, check_stop_loss, check_take_profit, check_trailing_stop, falls_to, rises_to, logged, trail,
}
use alpha_live.Orders.CheckExits.{
  Held, Exit, ExitReason, exit_if, trailing_exit, after_profit, after_stop, exit_for, add_exit,
  check_exits,
}

-- The price has gone from a base by a percentage against the side, or in its favour.
abbrev pub is_against : Side → ℕ → ℕ → ℕ → Bool
is_against Side.long base pct price = falls_to base pct price
is_against Side.short base pct price = rises_to base pct price
is_against Side.invalid base pct price = false

abbrev pub is_in_favour : Side → ℕ → ℕ → ℕ → Bool
is_in_favour Side.long base pct price = rises_to base pct price
is_in_favour Side.short base pct price = falls_to base pct price
is_in_favour Side.invalid base pct price = false

-- The trailing stop counts if it is enabled and has a distance.
abbrev pub is_trailed : RiskConfig → Side → ℕ → ℕ → Bool
is_trailed r side high price =
    if r.trailing_stop_enabled
    then elim r.trailing_stop_pct [ none ↦ false | some pct ↦ is_against side high pct price ]
    else false

abbrev pub is_triggered : RiskConfig → Held → ℕ → Bool
is_triggered r p price =
    is_against p.side p.avg_entry r.stop_loss_pct price
    || is_in_favour p.side p.avg_entry r.take_profit_pct price
    || is_trailed r p.side (get_or p.highest_since_entry p.avg_entry) price

-- The position has a price, and a trigger at it.
abbrev pub should_exit : RiskConfig → Dict ℕ → Held → Bool
should_exit r prices p = elim (lookup p.ticker prices) [
  | none ↦ false
  | some price ↦ is_triggered r p price
]

abbrev pub tickers : List Exit → List ℕ
tickers es = map (λ (e : Exit). e.ticker) es

abbrev pub held_tickers : List Held → List ℕ
held_tickers ps = map (λ (p : Held). p.ticker) ps

stop-ok :
    (r : RiskConfig) (entry price : ℕ) (side : Side)
    → 0 < entry
    → check_stop_loss r entry price side ≡ ok (is_against side entry r.stop_loss_pct price)
unfolding check_stop_loss logged
stop-ok r entry price Side.long h = ground arith
stop-ok r entry price Side.short h = ground arith
stop-ok r entry price Side.invalid h = refl

profit-ok :
    (r : RiskConfig) (entry price : ℕ) (side : Side)
    → 0 < entry
    → check_take_profit r entry price side ≡ ok (is_in_favour side entry r.take_profit_pct price)
unfolding check_take_profit logged
profit-ok r entry price Side.long h = ground arith
profit-ok r entry price Side.short h = ground arith
profit-ok r entry price Side.invalid h = refl

trail-ok :
    (pct entry high price : ℕ) (side : Side)
    → 0 < entry
    → trail pct entry high price side ≡ ok (is_against side high pct price)
unfolding trail logged
trail-ok pct entry high price Side.long h = ground arith
trail-ok pct entry high price Side.short h = ground arith
trail-ok pct entry high price Side.invalid h = refl

trailing-ok :
    (r : RiskConfig) (entry high price : ℕ) (side : Side)
    → 0 < entry
    → check_trailing_stop r entry high price side ≡ ok (is_trailed r side high price)
unfolding check_trailing_stop
trailing-ok r entry high price side h = elim (Bool-cases r.trailing_stop_enabled) [
  | inl on ↦ elim (Option-cases r.trailing_stop_pct) [
    | inl n ↦ rw (on, n) refl
    | inr (pct, s) ↦ rw (on, s) (trail-ok pct entry high price side h)
  ]
  | inr off ↦ rw off refl
]

-- What a position adds to the list.
record Adds (r : RiskConfig) (p : Held) (price : ℕ) : Type 0 where
  exit : Option Exit
  answered : exit_for r p price ≡ ok exit
  listed :
      (es : List Exit)
      → tickers (add_exit exit es)
        ≡ (if is_triggered r p price then p.ticker ∷ tickers es else tickers es)

trailing_exit-ok :
    (r : RiskConfig) (p : Held) (price : ℕ)
    → 0 < p.avg_entry
    → trailing_exit r p price
      ≡ ok (
          exit_if p ExitReason.trailing_stop_hit price
            (is_trailed r p.side (get_or p.highest_since_entry p.avg_entry) price))
unfolding trailing_exit
trailing_exit-ok r p price h =
    let t = trailing-ok r p.avg_entry (get_or p.highest_since_entry p.avg_entry) price p.side h in
    elim (Bool-cases r.trailing_stop_enabled) [
      | inl on ↦ rw (t, trailing_exit) (simp on refl)
      | inr off ↦ simp (off, trailing_exit) refl
    ]

exit_for-Adds : (r : RiskConfig) (p : Held) (price : ℕ) → 0 < p.avg_entry → Adds r p price
unfolding exit_for after_stop after_profit
exit_for-Adds r p price h =
    let s = stop-ok r p.avg_entry price p.side h in
    let f = profit-ok r p.avg_entry price p.side h in
    let t = trailing_exit-ok r p price h in
    elim (Bool-cases (is_against p.side p.avg_entry r.stop_loss_pct price)) [
      | inl stop ↦ record {
        exit = exit_if p ExitReason.stop_loss_hit price true;
        answered = rw (s, stop, exit_for) refl;
        listed = λ es. rw stop refl;
      }
      | inr no_stop ↦ elim (Bool-cases (is_in_favour p.side p.avg_entry r.take_profit_pct price)) [
        | inl profit ↦ record {
          exit = exit_if p ExitReason.take_profit_hit price true;
          answered = rw (s, no_stop, f, profit, exit_for) refl;
          listed = λ es. rw (no_stop, profit) refl;
        }
        | inr no_profit ↦
            elim (Bool-cases
              (is_trailed r p.side (get_or p.highest_since_entry p.avg_entry) price)) [
                | inl trailed ↦ record {
                  exit = exit_if p ExitReason.trailing_stop_hit price true;
                  answered = rw (s, no_stop, f, no_profit, exit_for) (rw (t, trailed) refl);
                  listed = λ es. rw (no_stop, no_profit, trailed) refl;
                }
                | inr held ↦ record {
                  exit = none;
                  answered = rw (s, no_stop, f, no_profit, exit_for) (rw (t, held) refl);
                  listed = λ es. rw (no_stop, no_profit, held) refl;
                }
              ]
      ]
    ]

held-keep :
    (q : Held → Bool) (b : Bool) (p : Held) (ps : List Held)
    → q p ≡ b
    → held_tickers (keep q (p ∷ ps))
      ≡ (if b then p.ticker ∷ held_tickers (keep q ps) else held_tickers (keep q ps))
held-keep q true p ps e = rw e refl
held-keep q false p ps e = rw e refl

unpriced-false :
    (r : RiskConfig) (prices : Dict ℕ) (p : Held)
    → lookup p.ticker prices ≡ none
    → should_exit r prices p ≡ false
unpriced-false r prices p e = rw (e, should_exit) refl

priced-triggered :
    (r : RiskConfig) (prices : Dict ℕ) (p : Held) (price : ℕ)
    → lookup p.ticker prices ≡ some price
    → should_exit r prices p ≡ is_triggered r p price
priced-triggered r prices p price e = rw (e, should_exit) refl

-- Every position that should be closed is reported, and no other. For positions whose entry prices are
-- above 0 the call does not raise, and the tickers that it reports are, in order, those of the positions
-- that have a price at which the stop loss, the take profit or the trailing stop triggers.
pub check_exits_complete :
    (r : RiskConfig) (ps : List Held) (prices : Dict ℕ)
    → All (λ (p : Held). 0 < p.avg_entry) ps
    → (es : List Exit) × (check_exits r ps prices ≡ ok es)
      × (tickers es ≡ held_tickers (keep (should_exit r prices) ps))
unfolding check_exits
check_exits_complete r [] prices a = ([], refl, refl)
check_exits_complete r (p ∷ ps) prices (h, a) =
    let (es, rest, same) = check_exits_complete r ps prices a in
    elim (Option-cases (lookup p.ticker prices)) [
      | inl unpriced ↦
          rw (unpriced, check_exits)
            (
              es,
              rest,
              same
                  ∙ sym (
                      held-keep (should_exit r prices) false p ps
                        (unpriced-false r prices p unpriced)),
            )
      | inr (price, priced) ↦
          let x = exit_for-Adds r p price h in
          let k =
            held-keep (should_exit r prices) (is_triggered r p price) p ps
              (priced-triggered r prices p price priced) in
          let head =
            ap (λ (ts : List ℕ). if is_triggered r p price then p.ticker ∷ ts else ts) same in
          rw (priced, x.answered, check_exits)
            (
              add_exit x.exit es,
              ap (λ (o : Outcome (List Exit)). o >>= λ l. ok (add_exit x.exit l)) rest,
              x.listed es ∙ head ∙ sym k,
            )
    ]
