-- ===== src/Risk/Exits/Order.antt =====
-- The price levels of the exits: they are monotone in the price, exclude one another, and never
-- raise for a position that has an entry price.
use alpha_live.Prelude.{
  ℕ, ◌+◌, ◌-◌, ◌*◌, ◌≤◌, ◌<◌, ◌≡◌, ◌≢◌, ap, true, some, arith, ok, raise, Exception,
}
use alpha_live.Risk.Types.{RiskConfig, whole}
use alpha_live.Risk.Exits.{Side, check_stop_loss, check_take_profit, check_trailing_stop}

pos-mul : (a b : ℕ) → 0 < a → 0 < b → 0 < a * b
pos-mul a b h k = grind arith

-- No price is both a stop and a target: for a position with an entry price, on either side, and
-- with a stop distance above 0, the stop loss and the take profit never both trigger.
pub stop_profit_exclusive :
    (r : RiskConfig) (entry current : ℕ) (side : Side)
    → 0 < entry
    → 0 < r.stop_loss_pct
    → check_stop_loss r entry current side ≡ ok true
    → check_take_profit r entry current side ≢ ok true
unfolding check_stop_loss check_take_profit
stop_profit_exclusive r entry current Side.long h k p q =
    ground (arith, pos-mul entry r.stop_loss_pct h k)
stop_profit_exclusive r entry current Side.short h k p q =
    ground (arith, pos-mul entry r.stop_loss_pct h k)
stop_profit_exclusive r entry current Side.invalid h k p q = cc

-- A worse price for the side: lower for a long position, higher for a short one.
abbrev pub Worse : Side → ℕ → ℕ → Type 0
Worse Side.long p q = q ≤ p
Worse Side.short p q = p ≤ q
Worse Side.invalid p q = p ≡ q

-- Once the stop loss triggers at a price it triggers at every worse one.
pub check_stop_loss_mono :
    (r : RiskConfig) (entry p q : ℕ) (side : Side)
    → Worse side p q
    → check_stop_loss r entry p side ≡ ok true
    → check_stop_loss r entry q side ≡ ok true
unfolding check_stop_loss
check_stop_loss_mono r entry p q Side.long h e = ground arith
check_stop_loss_mono r entry p q Side.short h e = ground arith
check_stop_loss_mono r entry p q Side.invalid h e = cc

trail_sum :
    (entry d tr u z cur : ℕ)
    → tr + u + z ≡ whole
    → cur * whole + entry * (tr + u) ≤ entry * whole
    → cur * whole + (entry + d) * tr ≤ (entry + d) * whole
trail_sum entry d tr u z cur w h =
    omega (arith, ap (λ (t : ℕ). entry * t) w, ap (λ (t : ℕ). d * t) w)

trail_arith :
    (entry high stop tr cur : ℕ)
    → entry ≤ high
    → stop ≤ whole
    → tr ≤ stop
    → cur * whole + entry * stop ≤ entry * whole
    → cur * whole + high * tr ≤ high * whole
trail_arith entry high stop tr cur h w k e =
    let hs : tr + (stop - tr) ≡ stop = omega arith in
    let hh : entry + (high - entry) ≡ high = omega arith in
    rw (← hh)
      (trail_sum entry (high - entry) tr (stop - tr) (whole - stop) cur (omega arith) (rw hs e))

-- A trailing stop that is on, and no wider than the stop loss, sells a long position no later than
-- the stop loss does, if the high that it trails from is at least the entry price.
pub trailing_stop_tightens :
    (r : RiskConfig) (tr entry high current : ℕ)
    → r.trailing_stop_enabled ≡ true
    → r.trailing_stop_pct ≡ some tr
    → tr ≤ r.stop_loss_pct
    → r.stop_loss_pct ≤ whole
    → entry ≤ high
    → check_stop_loss r entry current Side.long ≡ ok true
    → check_trailing_stop r entry high current Side.long ≡ ok true
unfolding check_stop_loss check_trailing_stop
trailing_stop_tightens r tr entry high current on pct k w h e =
    ground (arith, trail_arith entry high r.stop_loss_pct tr current h w k)

-- None of the three checks raises for a position whose entry price is above 0.
pub exits_total :
    (r : RiskConfig) (entry extreme current : ℕ) (side : Side) (x : Exception)
    → 0 < entry
    → (check_stop_loss r entry current side ≢ raise x)
      × (check_take_profit r entry current side ≢ raise x)
      × (check_trailing_stop r entry extreme current side ≢ raise x)
unfolding check_stop_loss check_take_profit check_trailing_stop
exits_total r entry extreme current Side.long x h = ground arith
exits_total r entry extreme current Side.short x h = ground arith
exits_total r entry extreme current Side.invalid x h = ground arith
