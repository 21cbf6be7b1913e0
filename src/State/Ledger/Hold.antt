-- ===== src/State/Ledger/Hold.antt =====
-- The minimum hold, the day's profit and the pause file.
use alpha_live.Prelude.{
  ℕ, ◌+◌, ◌*◌, ◌≤◌, ◌≡◌, ◌≢◌, ◌↔◌, refl, ap, sym, ◌∙◌, if◌then◌else◌, Bool, true, false, none, some,
  List, [], ◌∷◌, arith, ℤ, pos, ◌+ℤ◌, int_laws,
}
use alpha_live.Prelude.Lists.{All}
use alpha_live.Risk.Types.{is_date}
use alpha_live.State.Types.{BotState}
use alpha_live.State.Disk.{Store}
use alpha_live.State.Ledger.Highs.{mutate-mem}
use alpha_live.State.Ledger.{
  day, is_min_hold_met, rolled, add_daily_pnl, PauseFile, broken, check_dashboard_paused,
  set_dashboard_pause,
}

-- The hold is exact: with an entry time on record, an exit is allowed exactly from `weeks` full weeks
-- after it on; without one that can be read it is always allowed.
pub min_hold_exact :
    (weeks now entry : ℕ)
    → ((is_min_hold_met weeks now (some (some entry)) ≡ true) ↔ (entry + weeks * 7 * day ≤ now))
      × (is_min_hold_met weeks now none ≡ true)
      × (is_min_hold_met weeks now (some none) ≡ true)
unfolding is_min_hold_met
min_hold_exact weeks now entry = ((λ h. ground arith, λ h. ground arith), refl, refl)

-- Realised amounts, one after another, each booked with the date of its day.
unfoldable pub add_pnls : List (ℕ × ℤ) → Store → Store
add_pnls [] st = st
add_pnls ((today, x) ∷ xs) st = add_pnls xs (add_daily_pnl today x st)

abbrev pub sum_amounts : List (ℕ × ℤ) → ℤ
sum_amounts [] = pos 0
sum_amounts ((today, x) ∷ xs) = x +ℤ sum_amounts xs

rolled-rolled : (today : ℕ) (s : BotState) → (rolled today s).daily_pnl_date ≡ some today
unfolding rolled
rolled-rolled today s = ground arith

rolled-pnl :
    (today : ℕ) (s : BotState)
    → (rolled today s).daily_pnl ≡ (if is_date s.daily_pnl_date today then s.daily_pnl else pos 0)
unfolding rolled
rolled-pnl today s = ground arith

rolled-same : (today : ℕ) (s : BotState) → s.daily_pnl_date ≡ some today → rolled today s ≡ s
unfolding rolled
rolled-same today s e = ground arith

add_daily_pnl-mem :
    (today : ℕ) (x : ℤ) (st : Store)
    → (add_daily_pnl today x st).mem
      ≡ (let r = rolled today st.mem in record r { daily_pnl = r.daily_pnl +ℤ x })
unfolding add_daily_pnl
add_daily_pnl-mem today x st = mutate-mem _ st

add_pnls-same :
    (today : ℕ) (xs : List (ℕ × ℤ)) (st : Store)
    → All (λ (x : ℕ × ℤ). x.0 ≡ today) xs
    → st.mem.daily_pnl_date ≡ some today
    → (add_pnls xs st).mem.daily_pnl ≡ st.mem.daily_pnl +ℤ sum_amounts xs
unfolding add_pnls
add_pnls-same today [] st a e = omega int_laws
add_pnls-same today ((t, x) ∷ xs) st a e =
    let m = add_daily_pnl-mem t x st in
    let r : st.mem.daily_pnl_date ≡ some t = e ∙ ap some (sym a.0) in
    let same = rolled-same t st.mem r in
    let d : (add_daily_pnl t x st).mem.daily_pnl ≡ st.mem.daily_pnl +ℤ x =
      ap (λ (s : BotState). s.daily_pnl) m ∙ ap (λ (s : BotState). s.daily_pnl +ℤ x) same in
    let k : (add_daily_pnl t x st).mem.daily_pnl_date ≡ some today =
      ap (λ (s : BotState). s.daily_pnl_date) m ∙ rolled-rolled t st.mem ∙ ap some a.0 in
    add_pnls-same today xs (add_daily_pnl t x st) a.1 k ∙ rw d (omega int_laws)

-- The persisted profit of the day is the day's: amounts booked on one date add up on what that date
-- had before, or on zero if the total was still an earlier date's.
pub day_pnl_sums :
    (today : ℕ) (x : ℤ) (xs : List (ℕ × ℤ)) (st : Store)
    → All (λ (c : ℕ × ℤ). c.0 ≡ today) xs
    → (add_pnls ((today, x) ∷ xs) st).mem.daily_pnl
      ≡ (if is_date st.mem.daily_pnl_date today then st.mem.daily_pnl else pos 0)
        +ℤ sum_amounts ((today, x) ∷ xs)
unfolding add_pnls
day_pnl_sums today x xs st a =
    let m = add_daily_pnl-mem today x st in
    let k : (add_daily_pnl today x st).mem.daily_pnl_date ≡ some today =
      ap (λ (s : BotState). s.daily_pnl_date) m ∙ rolled-rolled today st.mem in
    add_pnls-same today xs (add_daily_pnl today x st) a k
    ∙ rw (ap (λ (s : BotState). s.daily_pnl) m, rolled-pnl today st.mem) (omega int_laws)

-- The kill switch fails safe: after a write that succeeded the switch reads as written; one that
-- failed leaves it as it was; and a file that cannot be read counts as paused.
pub dashboard_pause_safe :
    (b : Bool) (f : PauseFile)
    → (check_dashboard_paused (set_dashboard_pause true b f) ≡ b)
      × (check_dashboard_paused (set_dashboard_pause false b f) ≡ check_dashboard_paused f)
      × (check_dashboard_paused f ≡ false → f ≢ broken)
unfolding check_dashboard_paused set_dashboard_pause
dashboard_pause_safe b f = (refl, refl, λ h e. ground arith)
