-- ===== src/Risk/Sizing/Tests.antt =====
-- Runs of the position sizing on concrete accounts.
use alpha_live.Prelude.{◌+◌, ◌*◌, ◌≤◌, ◌≡◌, refl, arith, pos}
use alpha_live.Risk.Types.{market, limit, dollar, share, milli, whole}
use alpha_live.Risk.Sizing.{calculate_position_size}
use alpha_live.Risk.Sizing.Cap.{size_within_cap}

-- Ten percent of 10,000 dollars at 130 dollars a share: 7.692 shares, or 7 for a limit order.
market_run :
    calculate_position_size market 10000000 (pos 130000000) (pos (10000 * dollar)) (pos 0)
    ≡ 7692 * milli
unfolding calculate_position_size
market_run = refl

limit_run :
    calculate_position_size limit 10000000 (pos 130000000) (pos (10000 * dollar)) (pos 0)
    ≡ 7 * share
unfolding calculate_position_size
limit_run = refl

-- With 950 dollars already held, 50 dollars are left.
topped_up :
    calculate_position_size market 10000000
      (pos 130000000)
      (pos (10000 * dollar))
      (pos (950 * dollar))
    ≡ 384 * milli
unfolding calculate_position_size
topped_up = refl

size_within_cap_example :
    calculate_position_size market 10000000
          (pos 130000000)
          (pos (10000 * dollar))
          (pos (950 * dollar))
        * (130000000 * whole)
      + 950 * dollar * whole
    ≤ 10000 * dollar * 10000000
unfolding calculate_position_size
size_within_cap_example =
    size_within_cap market 10000000 (pos 130000000) (pos (10000 * dollar)) (pos (950 * dollar))
      (omega arith)
