-- ===== src/State/Fills/Profit.antt =====
-- What a sale books: the quantity that leaves the ledger, and its profit.
use alpha_live.Prelude.{
  ℕ, ◌+◌, ◌-◌, ◌*◌, ◌≤◌, ◌<◌, ◌≡◌, ◌⊎◌, refl, Bool, true, false, none, some, inl, inr, arith, pos,
  ◌+ℤ◌, ◌-ℤ◌, sub_ℕ, leb, ltb, ◌==◌, ==→eq, if◌then◌else◌, Bool-cases,
}
use alpha_live.Prelude.Dict.{Dict, lookup, lookup-insert_self, lookup-erase_self}
use alpha_live.State.Types.{Position, Intent, Side, buy, sell, close, qty_epsilon}
use alpha_live.State.Fills.{Booking, Delta, book, book_sell, delta_of, delta_price, realized_by}

abbrev pub reduces : Side → Bool
reduces buy = false
reduces sell = true
reduces close = true

-- What a sale of a held position leaves.
abbrev pub Sold : ℕ → Delta → Position → Booking → Type 0
Sold t d p b =
    (b.realized ≡ realized_by d p)
    × ((lookup t b.ledger ≡ none)
          × (p.qty ≤ d.qty + qty_epsilon)
          × (b.closed ≡ some (p.realized_pnl +ℤ b.realized))
          × (b.after ≡ 0)
        ⊎ (lookup t b.ledger
            ≡ some (record p { qty = p.qty - d.qty; realized_pnl = p.realized_pnl +ℤ b.realized }))
          × (d.qty + qty_epsilon < p.qty)
          × (b.closed ≡ none)
          × (b.after + d.qty ≡ p.qty))

book_sell-Sold :
    (t : ℕ) (d : Delta) (p : Position) (ledger : Dict Position)
    → Sold t d p (book_sell t d (some p) ledger)
unfolding book_sell
book_sell-Sold t d p ledger = elim (Bool-cases (leb p.qty (d.qty + qty_epsilon))) [
  | inl all ↦ rw (all, book_sell) (refl, inl (lookup-erase_self t ledger, ground arith, refl, refl))
  | inr some_left ↦
      rw (some_left, book_sell)
        (refl, inr (lookup-insert_self t _ ledger, ground arith, refl, ground arith))
]

module _ (divide : ℕ → ℕ → ℕ) where
  -- A sale is a reduction. When a SELL or CLOSE fill is booked against a held position, either the
  -- position goes (what is left is at most a millionth of a share), the round trip is closed and its
  -- result is the position's realised profit with this sale's; or the quantity falls by exactly the
  -- new part of the fill, the entry price stays, and the profit is added to the position's.
  pub sell_reduces :
      (side : Side) (t : ℕ) (d : Delta) (p : Position) (ledger : Dict Position)
      → reduces side ≡ true
      → lookup t ledger ≡ some p
      → Sold t d p (book divide side t d ledger)
  unfolding book
  sell_reduces buy t d p ledger r e = cc
  sell_reduces sell t d p ledger r e = rw e (book_sell-Sold t d p ledger)
  sell_reduces close t d p ledger r e = rw e (book_sell-Sold t d p ledger)

  price_exact :
      (total value q avg : ℕ)
      → value < total
      → divide (total - value) q * q ≡ total - value
      → delta_price divide total value q avg * q ≡ total - value
  unfolding delta_price
  price_exact total value q avg h e = elim (Bool-cases (ltb value total)) [
    | inr no_value ↦ absurd (ground arith)
    | inl new ↦ elim (Bool-cases (divide (total - value) q == 0)) [
      | inl none_left ↦
          let z : divide (total - value) q ≡ 0 = ==→eq _ 0 none_left in
          absurd (omega (arith, h, (rw z at e)))
      | inr some_left ↦ rw (new, delta_price, some_left) e
    ]
  ]

  -- The profit of a sale is exact where the incremental price is: if dividing the new value by the
  -- new quantity loses nothing, the profit is the new value less the entry price of the quantity
  -- sold, less the commission, which only the first booking of an intent is charged.
  pub sale_profit_exact :
      (i : Intent) (p : Position) (filled avg commission now : ℕ)
      → i.filled_value_applied < filled * avg
      → divide (filled * avg - i.filled_value_applied) (filled - i.filled_qty_applied)
          * (filled - i.filled_qty_applied)
        ≡ filled * avg - i.filled_value_applied
      → realized_by (delta_of divide i filled avg commission now) p
        ≡ sub_ℕ
            (filled * avg - i.filled_value_applied)
            (p.entry_price * (filled - i.filled_qty_applied))
          -ℤ pos (if i.commission_applied then 0 else commission)
  unfolding realized_by delta_of
  sale_profit_exact i p filled avg commission now new exact = rw (
      price_exact (filled * avg) i.filled_value_applied (filled - i.filled_qty_applied) avg new
        exact)
