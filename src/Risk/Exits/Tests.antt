-- ===== src/Risk/Exits/Tests.antt =====
-- Runs of the exit checks on concrete positions.
use alpha_live.Prelude.{◌≡◌, true, false, refl, ok, raise, zero_division}
use alpha_live.Risk.Exits.{Side, check_stop_loss, check_take_profit}
use alpha_live.Risk.Samples.{sample_risk}

-- Bought at 100 dollars: the stop is at 98, the target at 105.
stop_run : check_stop_loss sample_risk 100000000 98000000 Side.long ≡ ok true
unfolding check_stop_loss
stop_run = refl

above_stop : check_stop_loss sample_risk 100000000 98000001 Side.long ≡ ok false
unfolding check_stop_loss
above_stop = refl

short_profit_run : check_take_profit sample_risk 100000000 95000000 Side.short ≡ ok true
unfolding check_take_profit
short_profit_run = refl

free_position : check_stop_loss sample_risk 0 0 Side.long ≡ raise zero_division
unfolding check_stop_loss
free_position = refl
