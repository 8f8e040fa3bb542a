-- ===== src/Sleeve/Positions.antt =====
-- dqengine/runtime/core/portfolio.py: the position is the sum of the recorded fills, and what a fill
-- does to the entry price.
use deployquant.Prelude.{
  Option, none, some, List, [], ◌∷◌, ◌++◌, ◌≡◌, refl, sym, arith, if◌then◌else◌, inl, inr,
  Option-cases, append-nil, append_assoc,
}
use deployquant.Prelude.Eq.{◌==◌, eq_nat, eq_list, list_eq_iff, ==_refl}
use deployquant.Prelude.Int.{ℤ, pos, ◌+ℤ◌, +ℤ_assoc, int_laws, is_pos, is_zero}
use deployquant.Prelude.Text.{Text}
use deployquant.Prelude.Float.{Float}
use deployquant.Prelude.Dict.{lookup, insert, lookup-insert, lookup-erase}
use deployquant.Sleeve.Defs.{
  Sleeve, Fill, last_fill, position, book_fill, apply_fill, get_entry_price, next_cost,
}
use deployquant.Sleeve.Basis.{IsValid, apply_fill-IsValid, position-book_fill}

module _ {ℓ} {F : Type ℓ} where
  -- The signed shares of a symbol in a list of fills.
  unfoldable pub net : Text → List (Fill F) → ℤ
  net symbol [] = pos 0
  net symbol (r ∷ rs) = if r.symbol == symbol then r.qty +ℤ net symbol rs else net symbol rs

module _ {ℓ} {F : Type ℓ} ⦃f : Float F⦄ where
  -- The fills, one after the other.
  unfoldable pub apply_all : Sleeve F → List (Fill F) → Option (Sleeve F)
  apply_all s [] = some s
  apply_all s (r ∷ rs) = elim (apply_fill s r) [ none ↦ none | some s' ↦ apply_all s' rs ]

  -- A successful `apply_fill` is `book_fill` at some cost.
  apply_fill-book_fill :
      (s : Sleeve F) (r : Fill F) {s' : Sleeve F}
      → apply_fill s r ≡ some s'
      → (c : Option F) × (s' ≡ book_fill s r c)
  unfolding apply_fill
  apply_fill-book_fill s r {s'} h =
      elim (Option-cases
        (next_cost (lookup r.symbol s.avg_cost) (position s r.symbol) r.qty r.price)) [
          | inl e ↦ absurd (ground arith)
          | inr (c, e) ↦ (c, ground arith)
        ]

  fills-book_fill :
      (s : Sleeve F) (r : Fill F) (c : Option F) → (book_fill s r c).fills ≡ s.fills ++ r ∷ []
  unfolding book_fill
  fills-book_fill s r c = refl

  -- A fill that does not raise moves the position of its own symbol by its quantity, leaves every
  -- other position, and is appended to the log.
  pub apply_fill-position :
      (s : Sleeve F) (r : Fill F) {s' : Sleeve F} (symbol : Text)
      → apply_fill s r ≡ some s'
      → (position s' symbol
          ≡ (if r.symbol == symbol then position s symbol +ℤ r.qty else position s symbol))
        × (s'.fills ≡ s.fills ++ r ∷ [])
  apply_fill-position s r {s'} symbol h =
      let (c, e) = apply_fill-book_fill s r h in
      ground
        (arith, position-book_fill s r c symbol, fills-book_fill s r c, list_eq_iff r.symbol symbol)

  -- Where a replay of fills from a sleeve ends.
  pub record Replays (s : Sleeve F) (rs : List (Fill F)) (s' : Sleeve F) : Type ℓ where
    pub valid : IsValid s'
    pub logged : s'.fills ≡ s.fills ++ rs
    pub moved : (symbol : Text) → position s' symbol ≡ position s symbol +ℤ net symbol rs

  replay_step :
      (s s' s'' : Sleeve F) (r : Fill F) (rs : List (Fill F))
      → apply_fill s r ≡ some s'
      → Replays s' rs s''
      → Replays s (r ∷ rs) s''
  unfolding net
  replay_step s s' s'' r rs e h = record {
    valid = h.valid;
    logged = cc (h.logged, (apply_fill-position s r [] e).1, append_assoc s.fills (r ∷ []) rs);
    moved = λ symbol. ground (
      arith,
      h.moved symbol,
      (apply_fill-position s r symbol e).0,
      +ℤ_assoc (position s symbol) r.qty (net symbol rs),
    );
  }

  -- Every list of fills can be replayed on a valid sleeve: no fill raises, the result is valid, its
  -- log grows by just these fills, and each position moves by their signed shares.
  pub apply_all-Replays :
      (s : Sleeve F) (rs : List (Fill F))
      → IsValid s
      → (s' : Sleeve F) × (apply_all s rs ≡ some s') × Replays s rs s'
  unfolding apply_all net
  apply_all-Replays s [] v = (
    s,
    refl,
    record { valid = v; logged = sym (append-nil s.fills); moved = λ symbol. omega int_laws },
  )
  apply_all-Replays s (r ∷ rs) v =
      let (s', e, v') = apply_fill-IsValid s r v in
      let (s'', e', h) = apply_all-Replays s' rs v' in
      (s'', rw (e, apply_all) e', replay_step s s' s'' r rs e h)

  -- The entry price while the mode is "last_fill".
  abbrev last_entry : Sleeve F → Text → Option F
  last_entry s symbol = lookup symbol s.entry_price

  -- In "last_fill" mode a fill that leaves its symbol held sets the entry price to its own price if
  -- it buys, and keeps it if not; one that closes the position clears it.
  pub apply_fill-entry_price :
      (s : Sleeve F) (r : Fill F) {s' : Sleeve F}
      → s.entry_price_mode ≡ last_fill
      → apply_fill s r ≡ some s'
      → get_entry_price s' r.symbol ≡ (
          if is_zero (position s r.symbol +ℤ r.qty)
          then none
          else if is_pos r.qty
          then some r.price
          else get_entry_price s r.symbol)
  unfolding get_entry_price book_fill
  apply_fill-entry_price s r m h =
      let (c, e) = apply_fill-book_fill s r h in
      ground (
        arith,
        ==_refl r.symbol,
        lookup-insert r.symbol r.symbol r.price s.entry_price,
        lookup-erase r.symbol r.symbol s.entry_price,
        lookup-erase r.symbol r.symbol (insert r.symbol r.price s.entry_price),
      )
