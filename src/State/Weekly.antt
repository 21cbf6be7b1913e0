-- ===== src/State/Weekly.antt =====
-- The evaluation gates of `BotState`: the claims and completions of the weekly evaluations, and the
-- dates of the daily ones. The claims are held in memory only.
pub mod Claims
mod Tests
use alpha_live.Prelude.{
  ℕ, Bool, true, false, not, ◌&&◌, Option, none, some, List, [], ◌∷◌, ◌==◌, if◌then◌else◌,
}
use alpha_live.Prelude.Lists.{any, keep}
use alpha_live.Prelude.Dict.{lookup, insert}
use alpha_live.State.Types.{BotState}
use alpha_live.State.Disk.{Store, mutate}

-- The state and `_weekly_eval_in_flight`.
pub record Evals : Type 0 where
  pub store : Store
  pub in_flight : List (ℕ × ℕ)

abbrev pub is_claim : ℕ → ℕ → ℕ × ℕ → Bool
is_claim ticker week c = c.0 == ticker && c.1 == week

unfoldable pub get_weekly_eval_key : ℕ → BotState → Option ℕ
get_weekly_eval_key ticker s = lookup ticker s.weekly_eval_keys

-- `get_weekly_eval_key(ticker) == week_key`
unfoldable pub is_done : ℕ → ℕ → BotState → Bool
unfolding get_weekly_eval_key
is_done ticker week s = elim (get_weekly_eval_key ticker s) [ none ↦ false | some w ↦ w == week ]

-- The result says whether the write succeeded.
unfoldable pub mark_weekly_eval_done : ℕ → ℕ → Evals → Evals × Bool
mark_weekly_eval_done ticker week e =
    let (st, written) =
      mutate (λ s. record s { weekly_eval_keys = insert ticker week s.weekly_eval_keys }) e.store in
    (record e { store = st }, written)

unfoldable pub try_begin_weekly_eval : ℕ → ℕ → Evals → Evals × Bool
unfolding is_done
try_begin_weekly_eval ticker week e =
    if is_done ticker week e.store.mem
    then (e, false)
    else if any (is_claim ticker week) e.in_flight
    then (e, false)
    else (record e { in_flight = (ticker, week) ∷ e.in_flight }, true)

unfoldable pub end_weekly_eval : ℕ → ℕ → Evals → Evals
end_weekly_eval ticker week e = record e {
  in_flight = keep (λ c. not (is_claim ticker week c)) e.in_flight;
}

unfoldable pub get_daily_eval_date : ℕ → BotState → Option ℕ
get_daily_eval_date ticker s = lookup ticker s.daily_eval_dates

unfoldable pub mark_daily_eval_done : ℕ → ℕ → Store → Store × Bool
mark_daily_eval_done ticker today =
    mutate (λ s. record s { daily_eval_dates = insert ticker today s.daily_eval_dates })
