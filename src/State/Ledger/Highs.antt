-- ===== src/State/Ledger/Highs.antt =====
-- The trailing high of a position never falls while the position is held.
use Prim.Native.Nat.{max}
use alpha_live.Prelude.{ℕ, ◌≡◌, ◌≢◌, refl, ap, ◌∙◌, Option, none, some, List, [], ◌∷◌, arith}
use alpha_live.Prelude.Dict.{insert, lookup-insert_self, lookup-insert_ne}
use alpha_live.State.Types.{BotState}
use alpha_live.State.Disk.{Store, mutate}
use alpha_live.State.Ledger.{set_position_high, get_position_high}

-- The larger of a high so far and a price.
abbrev pub high_of : Option ℕ → ℕ → ℕ
high_of none price = price
high_of (some h) price = max h price

-- The prices seen, one after another.
unfoldable pub see_prices : ℕ → List ℕ → Store → Store
see_prices ticker [] st = st
see_prices ticker (p ∷ ps) st = see_prices ticker ps (set_position_high ticker p st)

pub mutate-mem : (f : BotState → BotState) (st : Store) → (mutate f st).0.mem ≡ f st.mem
unfolding mutate
mutate-mem f st = ground arith

set_position_high-value :
    (ticker price : ℕ) (st : Store)
    → get_position_high ticker (set_position_high ticker price st).mem
      ≡ some (high_of (get_position_high ticker st.mem) price)
unfolding set_position_high get_position_high
set_position_high-value ticker price st = ground (
  arith,
  mutate-mem (λ (s : BotState). record s { position_highs = insert ticker price s.position_highs })
      st,
  lookup-insert_self ticker price st.mem.position_highs,
)

set_position_high-other :
    (ticker u price : ℕ) (st : Store)
    → u ≢ ticker
    → get_position_high u (set_position_high ticker price st).mem ≡ get_position_high u st.mem
unfolding set_position_high get_position_high
set_position_high-other ticker u price st ne = ground (
  arith,
  mutate-mem (λ (s : BotState). record s { position_highs = insert ticker price s.position_highs })
      st,
  lookup-insert_ne u ticker price st.mem.position_highs ne,
)

-- The highest of a list of prices, from a high so far.
abbrev pub highest : Option ℕ → List ℕ → Option ℕ
highest h [] = h
highest h (p ∷ ps) = highest (some (high_of h p)) ps

-- The trailing high of a position is the highest price seen since tracking began: after any prices
-- it is the largest of them and of the high before, and the highs of other tickers are untouched.
pub see_prices-highest :
    (ticker : ℕ) (ps : List ℕ) (st : Store)
    → (get_position_high ticker (see_prices ticker ps st).mem
        ≡ highest (get_position_high ticker st.mem) ps)
      × ((u : ℕ)
          → u ≢ ticker
          → get_position_high u (see_prices ticker ps st).mem ≡ get_position_high u st.mem)
unfolding see_prices
see_prices-highest ticker [] st = (refl, λ u ne. refl)
see_prices-highest ticker (p ∷ ps) st =
    let (h, o) = see_prices-highest ticker ps (set_position_high ticker p st) in
    (
      h ∙ ap (λ (x : Option ℕ). highest x ps) (set_position_high-value ticker p st),
      λ u ne. o u ne ∙ set_position_high-other ticker u p st ne,
    )
