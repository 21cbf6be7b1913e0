-- ===== src/Engine/Vwap/Tests.antt =====
-- A run of the VWAP strategy: an entry, a bar of the cooldown seen twice, and the exit.
use alpha_live.Prelude.{ℕ, ◌≡◌, refl, true, false, some, [], ◌∷◌, arith}
use alpha_live.Risk.Types.{buy, sell, hold}
use alpha_live.Engine.State.{Engine, far, new_engine}
use alpha_live.Engine.Vwap.{Params, Bar, run}
use alpha_live.Engine.Vwap.Spacing.{Spaced, run-Spaced}
use alpha_live.Prelude.{List}

abbrev params : Params
params = record { deviation = 2000000; oversold = 30; overbought = 70; cooldown = 1 }

abbrev at_price : ℕ → ℕ → Bar
at_price price rsi = record {
  is_new = true;
  levels = some (record { price = price; vwap = 100; std = 2; rsi = rsi });
}

abbrev bars : List Bar
bars =
    at_price 90 20
    ∷ at_price 101 50
    ∷ record (at_price 101 50) { is_new = false }
    ∷ at_price 101 50
    ∷ []

abbrev fresh : Engine
fresh = new_engine true

signals_run : (run params bars fresh).1 ≡ buy ∷ hold ∷ hold ∷ sell ∷ []
unfolding run new_engine
signals_run = refl

run-Spaced_example : Spaced 1 far bars (run params bars fresh).1
unfolding new_engine
run-Spaced_example = run-Spaced params far bars fresh (omega arith)
