-- ===== src/Engine/Filter.antt =====
-- The filter of `generate_signal` with `_is_bear_market`. What the strategy does is an argument.
use alpha_live.Prelude.{
  ℕ, Bool, true, false, ◌&&◌, Option, none, some, List, ltb, ◌==◌, if◌then◌else◌, ok, raise,
}
use alpha_live.Utils.EnvBool.{parse_bool_env}
use alpha_live.Risk.Types.{Signal, buy, sell, hold}
use alpha_live.Engine.State.{Engine}

-- The trend average now and 20 bars ago; `none` where there are too few bars, no column, or NaN.
pub record Trend : Type 0 where
  pub price : ℕ
  pub sma : Option ℕ
  pub sma_before : Option ℕ

-- A malformed value keeps the filter on.
unfoldable pub filter_enabled : Option (List ℕ) → Bool
filter_enabled env = elim (parse_bool_env env true) [ ok b ↦ b | raise e ↦ true ]

unfoldable pub is_declining : ℕ → Option ℕ → Option ℕ → Bool
is_declining price none before = false
is_declining price (some now) none = false
is_declining price (some now) (some before) =
    if before == 0 then false else ltb price now && ltb now before

unfoldable pub is_bear_market : Option (List ℕ) → Trend → Bool
unfolding filter_enabled is_declining
is_bear_market env t = if filter_enabled env then is_declining t.price t.sma t.sma_before else false

-- The position fields of the snapshot are put back.
unfoldable pub undo : Engine → Engine → Engine
undo old e = record e {
  in_position = old.in_position;
  entry_price = old.entry_price;
  peak_price = old.peak_price;
  vwap_position = old.vwap_position;
}

-- The last flag says that a BUY was filtered out.
unfoldable pub filtered : Bool → Engine → Engine × Signal → (Engine × Signal) × Bool
unfolding undo
filtered bear old (e, buy) = if bear then ((undo old e, hold), true) else ((e, buy), false)
filtered bear old (e, sell) = ((e, sell), false)
filtered bear old (e, hold) = ((e, hold), false)

-- `generate_signal`, for a window that is long enough, has its columns, and lets the strategy run.
unfoldable pub generate_signal :
    (Engine → Engine × Signal) → Option (List ℕ) → Trend → Bool → Engine → (Engine × Signal) × Bool
unfolding filtered is_bear_market
generate_signal strategy env t is_new e =
    let old = record e { is_new_bar = is_new } in filtered (is_bear_market env t) old (strategy old)
