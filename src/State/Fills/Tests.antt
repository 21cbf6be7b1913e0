-- ===== src/State/Fills/Tests.antt =====
-- Runs of the booking on concrete broker reports.
use alpha_live.Prelude.{ℕ, ◌*◌, ◌/◌, ◌≡◌, refl, none, List, [], ◌∷◌, arith}
use alpha_live.Prelude.Dict.{lookup, insert}
use alpha_live.Risk.Types.{share}
use alpha_live.State.Types.{buy}
use alpha_live.State.Fills.{Report, Delta, apply_intent_fill_progress, book, realized_by, delta_of}
use alpha_live.State.Fills.Once.{fill_booked_once}
use alpha_live.State.Fills.Conserve.{Seen, reports, peak, Bought, position_qty, buy_fills_conserved}
use alpha_live.State.Samples.{sample_intent, sample_state}

-- Division rounded down, for the runs.
abbrev quotient : ℕ → ℕ → ℕ
quotient a b = a / b

-- Four shares at 100 dollars, then seven in all at 101 on average, the first report twice.
abbrev partial : List Seen
partial =
    record { filled = 4 * share; avg = 100000000; commission = 0; time = 1100 }
    ∷ record { filled = 7 * share; avg = 101000000; commission = 0; time = 1200 }
    ∷ record { filled = 4 * share; avg = 100000000; commission = 0; time = 1100 }
    ∷ []

bought_run : position_qty 5 (reports quotient 11 partial (sample_state buy)) ≡ 17 * share
unfolding reports lookup apply_intent_fill_progress alpha_live.State.Fills.apply_new insert book
    alpha_live.State.Fills.book_buy
bought_run = refl

fill_booked_once_example :
    let s' =
      (apply_intent_fill_progress quotient 11 (4 * share) 100000000 0 1100 (sample_state buy)).0 in
    apply_intent_fill_progress quotient 11 (4 * share) 100000000 0 1300 s' ≡ (s', none)
fill_booked_once_example =
    fill_booked_once quotient 11 (4 * share) 100000000 0 1100 (4 * share) 100000000 0 1300
      (sample_state buy) (omega arith)

buy_fills_conserved_example :
    Bought quotient 11
      (peak partial)
      (sample_intent buy)
      (sample_state buy)
      (reports quotient 11 partial (sample_state buy))
unfolding lookup
buy_fills_conserved_example =
    buy_fills_conserved quotient 11 partial (sample_state buy) (sample_intent buy) refl refl

-- Six of the ten shares are sold at 110 dollars.
abbrev six_sold : Delta
six_sold = record { qty = 6 * share; price = 110000000; fee = 0; time = 2000 }
