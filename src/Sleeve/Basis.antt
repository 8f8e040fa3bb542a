-- ===== src/Sleeve/Basis.antt =====
-- dqengine/runtime/core/portfolio.py: `apply_fill` keeps a cost basis for every open position and
-- none for a flat one.
use deployquant.Prelude.{
  Bool, true, false, not, ◌&&◌, ◌||◌, Option, none, some, ◌≡◌, arith, is_some, or_else,
  if◌then◌else◌, Bool-cases, inl, inr,
}
use deployquant.Prelude.Eq.{◌==◌, eq_nat, eq_list, list_eq_iff}
use deployquant.Prelude.Int.{ℤ, ◌+ℤ◌, +ℤ_parts, is_pos, is_zero}
use deployquant.Prelude.Text.{Text}
use deployquant.Prelude.Float.{Float}
use deployquant.Prelude.Dict.{
  lookup, has_key, lookup-insert, has_key-erase_if, has_key-insert_if, has_key-write,
}
use deployquant.Sleeve.Defs.{
  Sleeve, Fill, EntryPriceMode, position, invested, next_cost, book_fill, apply_fill, new_sleeve,
}

module _ {ℓ} {F : Type ℓ} where
  -- A symbol has an average cost exactly while it is held, and its other entries only then, all
  -- three or none; a long position has them.
  pub record HasBasis (s : Sleeve F) (symbol : Text) : Type 0 where
    pub cost_held : has_key symbol s.avg_cost ≡ invested s symbol
    pub entry_held : (has_key symbol s.entry_price && not (invested s symbol)) ≡ false
    pub day_held : has_key symbol s.entry_day ≡ has_key symbol s.entry_price
    pub peak_held : has_key symbol s.peak_close ≡ has_key symbol s.entry_price
    pub long_priced : (is_pos (position s symbol) && not (has_key symbol s.entry_price)) ≡ false

  pub record IsValid (s : Sleeve F) : Type 0 where
    pub basis : (symbol : Text) → HasBasis s symbol

module _ {ℓ} {F : Type ℓ} ⦃f : Float F⦄ where
  next_cost_total :
      (old : Option F) (prev qty : ℤ) (price : F)
      → is_some old ≡ not (is_zero prev)
      → (c : Option F) × (next_cost old prev qty price ≡ some c)
        × ((is_zero (prev +ℤ qty) || (is_some old || is_some c)) ≡ true)
  unfolding next_cost
  next_cost_total old prev qty price h = (
    or_else (next_cost old prev qty price) none,
    ground (arith, +ℤ_parts prev qty),
    ground (arith, +ℤ_parts prev qty),
  )

  -- After a fill the position has moved by its quantity, at its symbol alone.
  pub position-book_fill :
      (s : Sleeve F) (r : Fill F) (c : Option F) (symbol : Text)
      → position (book_fill s r c) symbol
        ≡ (if r.symbol == symbol then position s r.symbol +ℤ r.qty else position s symbol)
  unfolding book_fill position
  position-book_fill s r c symbol =
      ground (arith, lookup-insert r.symbol symbol (position s r.symbol +ℤ r.qty) s.qty)

  module _ (s : Sleeve F) (r : Fill F) (c : Option F) (symbol : Text) where
    abbrev flat : Bool
    flat = is_zero (position s r.symbol +ℤ r.qty)

    abbrev added : Bool → Bool → Bool
    added had set = (had || (set && (r.symbol == symbol))) && not (flat && (r.symbol == symbol))

    cost-book_fill :
        has_key symbol (book_fill s r c).avg_cost ≡ added (has_key symbol s.avg_cost) (is_some c)
    unfolding book_fill
    cost-book_fill = rw (has_key-erase_if, has_key-write)

    price-book_fill :
        has_key symbol (book_fill s r c).entry_price
        ≡ added (has_key symbol s.entry_price) (is_pos r.qty)
    unfolding book_fill
    price-book_fill = rw (has_key-erase_if, has_key-insert_if)

    day-book_fill :
        has_key symbol (book_fill s r c).entry_day
        ≡ added (has_key symbol s.entry_day) (is_pos r.qty)
    unfolding book_fill
    day-book_fill = rw (has_key-erase_if, has_key-insert_if)

    peak-book_fill :
        has_key symbol (book_fill s r c).peak_close
        ≡ added (has_key symbol s.peak_close) (is_pos r.qty)
    unfolding book_fill
    peak-book_fill = rw (has_key-erase_if, has_key-insert_if)

    -- One symbol's entries after `book_fill`, from those before it.
    book_fill-HasBasis :
        HasBasis s symbol
        → HasBasis s r.symbol
        → (flat || (has_key r.symbol s.avg_cost || is_some c)) ≡ true
        → HasBasis (book_fill s r c) symbol
    unfolding invested
    book_fill-HasBasis h own covered = elim (Bool-cases (r.symbol == symbol)) [
      | inl e ↦
          let same = (list_eq_iff r.symbol symbol).0 e in
          ground (
            arith,
            position-book_fill s r c symbol,
            cost-book_fill,
            price-book_fill,
            day-book_fill,
            peak-book_fill,
            +ℤ_parts (position s r.symbol) r.qty,
          )
      | inr e ↦ ground (
        arith,
        position-book_fill s r c symbol,
        cost-book_fill,
        price-book_fill,
        day-book_fill,
        peak-book_fill,
      )
    ]

  -- In a sleeve whose every symbol has such a basis, `apply_fill` raises no KeyError, and it keeps
  -- the basis of every symbol.
  pub apply_fill-IsValid :
      (s : Sleeve F) (r : Fill F)
      → IsValid s
      → (s' : Sleeve F) × (apply_fill s r ≡ some s') × IsValid s'
  unfolding apply_fill
  apply_fill-IsValid s r v =
      let own = v.basis r.symbol in
      let (c, e, covered) =
        next_cost_total (lookup r.symbol s.avg_cost) (position s r.symbol) r.qty r.price
          (unfold invested in own.cost_held) in
      (
        book_fill s r c,
        rw (e, apply_fill),
        record { basis = λ symbol. book_fill-HasBasis s r c symbol (v.basis symbol) own covered },
      )

  -- A new sleeve holds nothing, so it is valid.
  pub new_sleeve-IsValid :
      (cash margin_max : F) (mode : EntryPriceMode) → IsValid (new_sleeve cash margin_max mode)
  unfolding new_sleeve invested position lookup
  new_sleeve-IsValid cash margin_max mode = record { basis = λ symbol. ground arith }
