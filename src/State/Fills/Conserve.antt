-- ===== src/State/Fills/Conserve.antt =====
-- Quantities are conserved: what the ledger gains or loses is what the intents have applied.
use Prim.Native.Nat.{max}
use alpha_live.Prelude.{
  subst, ℕ, ◌+◌, ◌≤◌, ◌<◌, ◌≡◌, ◌≢◌, ◌∙◌, refl, ap, Option, none, some, List, [], ◌∷◌, inl, inr,
  arith, leb, Bool-cases,
}
use alpha_live.Prelude.Dict.{lookup, lookup-insert_self, lookup-insert_ne}
use alpha_live.State.Types.{Position, Intent, Side, buy, BotState, qty_epsilon}
use alpha_live.State.Fills.{
  applied, apply_new, apply_intent_fill_progress, book, book_buy, delta_of, Delta,
}
use alpha_live.State.Fills.Once.{stale, fresh, intent-apply_new}

-- The quantity that the ledger has of a ticker.
abbrev pub qty_of : Option Position → ℕ
qty_of none = 0
qty_of (some p) = p.qty

abbrev pub position_qty : ℕ → BotState → ℕ
position_qty t s = qty_of (lookup t s.open_positions)

-- A broker report: the cumulative quantity and average price, the flat commission, the time.
pub record Seen : Type 0 where
  pub filled : ℕ
  pub avg : ℕ
  pub commission : ℕ
  pub time : ℕ

-- The largest cumulative quantity reported.
abbrev pub peak : List Seen → ℕ
peak [] = 0
peak (r ∷ rs) = max r.filled (peak rs)

module _ (divide : ℕ → ℕ → ℕ) where
  -- Every report that is seen goes to the same intent.
  unfoldable pub reports : ℕ → List Seen → BotState → BotState
  reports k [] s = s
  reports k (r ∷ rs) s =
      reports k rs (apply_intent_fill_progress divide k r.filled r.avg r.commission r.time s).0

  book_buy-qty :
      (t : ℕ) (d : Delta) (s : BotState)
      → qty_of (lookup t (book_buy divide t d (lookup t s.open_positions) s.open_positions).ledger)
        ≡ position_qty t s + d.qty
  unfolding book_buy
  book_buy-qty t d s = simp lookup-insert_self (ground arith)

  book_buy-other :
      (t u : ℕ) (d : Delta) (s : BotState)
      → u ≢ t
      → lookup u (book_buy divide t d (lookup t s.open_positions) s.open_positions).ledger
        ≡ lookup u s.open_positions
  unfolding book_buy
  book_buy-other t u d s ne = rw (lookup-insert_ne u t _ s.open_positions ne)

  apply_new-ledger :
      (k filled avg commission now : ℕ) (s : BotState) (i : Intent) (side : Side)
      → i.side ≡ side
      → (apply_new divide k i filled avg commission now s).0.open_positions
        ≡ (book divide side i.ticker
            (delta_of divide i filled avg commission now)
            s.open_positions).ledger
  unfolding apply_new
  apply_new-ledger k filled avg commission now s i side b =
      ap
        (λ (y : Side).
          (book divide y i.ticker (delta_of divide i filled avg commission now)
            s.open_positions).ledger)
        b

  -- From one state to a later one, the intent's applied quantity grew and the ledger with it.
  pub record Bought (k top : ℕ) (i : Intent) (s s' : BotState) : Type 0 where
    pub intent : Intent
    pub known : lookup k s'.submission_intents ≡ some intent
    pub bought : intent.side ≡ buy
    pub same_ticker : intent.ticker ≡ i.ticker
    pub grows : i.filled_qty_applied ≤ intent.filled_qty_applied
    pub covers : top ≤ intent.filled_qty_applied + qty_epsilon
    pub conserved :
        position_qty i.ticker s' + i.filled_qty_applied
        ≡ position_qty i.ticker s + intent.filled_qty_applied
    pub others : (u : ℕ) → u ≢ i.ticker → lookup u s'.open_positions ≡ lookup u s.open_positions

  bought_arith :
      (i : Intent) (filled avg commission now : ℕ) (s : BotState)
      → i.filled_qty_applied < filled
      → qty_of (
            lookup i.ticker
              (book divide buy i.ticker
                (delta_of divide i filled avg commission now)
                s.open_positions).ledger)
          + i.filled_qty_applied
        ≡ position_qty i.ticker s + (applied i filled avg now).filled_qty_applied
  unfolding book delta_of applied
  bought_arith i filled avg commission now s h = rw (book_buy-qty i.ticker _ s) (omega arith)

  apply_new-Bought :
      (k filled avg commission now : ℕ) (s : BotState) (i : Intent)
      → i.side ≡ buy
      → i.filled_qty_applied < filled
      → Bought k filled i s (apply_new divide k i filled avg commission now s).0
  apply_new-Bought k filled avg commission now s i b h = record {
    intent = applied i filled avg now;
    known = intent-apply_new divide k filled avg commission now s i;
    bought = unfold applied in b;
    same_ticker = unfold applied in refl;
    grows = unfold applied in omega arith;
    covers = unfold applied in omega arith;
    conserved =
        rw (apply_new-ledger k filled avg commission now s i buy b)
          (bought_arith i filled avg commission now s h);
    others = λ u ne.
        ap (lookup u) (apply_new-ledger k filled avg commission now s i buy b)
        ∙ (unfold book in
            book_buy-other i.ticker u (delta_of divide i filled avg commission now) s ne);
  }

  -- One report, whether it brings something new or not.
  report-Bought :
      (k : ℕ) (r : Seen) (s : BotState) (i : Intent)
      → lookup k s.submission_intents ≡ some i
      → i.side ≡ buy
      → Bought k r.filled i s
          (apply_intent_fill_progress divide k r.filled r.avg r.commission r.time s).0
  report-Bought k r s i e b =
      elim (Bool-cases (leb r.filled (i.filled_qty_applied + qty_epsilon))) [
        | inl old ↦
            rw (stale divide k r.filled r.avg r.commission r.time s i e (ground arith)) (record {
              intent = i;
              known = e;
              bought = b;
              same_ticker = refl;
              grows = omega arith;
              covers = ground arith;
              conserved = refl;
              others = λ u ne. refl;
            })
        | inr new ↦
            rw (fresh divide k r.filled r.avg r.commission r.time s i e (ground arith))
              (apply_new-Bought k r.filled r.avg r.commission r.time s i b (ground arith))
      ]

  trans-Bought :
      (k top top' : ℕ) (i : Intent) (s s' s'' : BotState)
      → (b : Bought k top i s s') → Bought k top' b.intent s' s''
      → Bought k (max top top') i s s''
  trans-Bought k top top' i s s' s'' b c = record {
    intent = c.intent;
    known = c.known;
    bought = c.bought;
    same_ticker = c.same_ticker ∙ b.same_ticker;
    grows = omega (arith, b.grows, c.grows);
    covers = omega (arith, b.covers, c.covers, c.grows);
    conserved =
        let t =
          subst
            (λ (x : ℕ).
              position_qty x s'' + b.intent.filled_qty_applied
              ≡ position_qty x s' + c.intent.filled_qty_applied)
            b.same_ticker c.conserved in
        omega (arith, b.conserved, t);
    others = λ u ne. c.others u (λ p. ne (p ∙ b.same_ticker)) ∙ b.others u ne;
  }

  -- However a BUY order's fill is reported, in whatever order and however often, the ledger gains
  -- exactly what the intent has applied: between the first report and the last the ticker's quantity
  -- grew by as much as the applied quantity, which never falls and reaches the largest cumulative
  -- quantity reported up to a millionth of a share, and no other ticker's entry changed.
  pub buy_fills_conserved :
      (k : ℕ) (rs : List Seen) (s : BotState) (i : Intent)
      → lookup k s.submission_intents ≡ some i
      → i.side ≡ buy
      → Bought k (peak rs) i s (reports k rs s)
  unfolding reports
  buy_fills_conserved k [] s i e b = record {
    intent = i;
    known = e;
    bought = b;
    same_ticker = refl;
    grows = omega arith;
    covers = omega arith;
    conserved = refl;
    others = λ u ne. refl;
  }
  buy_fills_conserved k (r ∷ rs) s i e b =
      let f = report-Bought k r s i e b in
      trans-Bought k r.filled (peak rs) i s _ _ f
        (buy_fills_conserved k rs _ f.intent f.known f.bought)
