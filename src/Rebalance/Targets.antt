-- ===== src/Rebalance/Targets.antt =====
-- What the orders of a rebalance do to the quantities, and in which order they stand.
use deployquant.Prelude.{
  ◌≡◌, refl, sym, ap, ◌∙◌, Bool, true, false, not, ◌&&◌, List, [], ◌∷◌, All, All-map, Among, here,
  there, if◌then◌else◌, if-cases, arith,
}
use deployquant.Prelude.Eq.{eq_nat, eq_list}
use deployquant.Prelude.Int.{ℤ, pos, ◌+ℤ◌, ◌≤ℤ◌, ltb_ℤ, is_zero, int_laws}
use deployquant.Prelude.Text.{Text}
use deployquant.Prelude.Dict.{Dict, get, has_key, HasUniqueKeys}
use mathlib.Core.Path.{subst}
use deployquant.Rebalance.Defs.{
  Delta, union_keys, insert_delta, sort_deltas, delta_of, deltas_of, orders_of,
}
use deployquant.Rebalance.Once.{IsOnce, delta_symbol, insert-All, sort-All, orders_of-IsOnce}

-- Sells stand before buys, and a larger sale before a smaller one.
unfoldable pub IsAscending : List Delta → Type 0
IsAscending [] = Unit
IsAscending (x ∷ xs) = All (λ y. x.1 ≤ℤ y.1) xs × IsAscending xs

branch-IsAscending :
    (b : Bool) (x y : Delta) (ys : List Delta)
    → ltb_ℤ x.1 y.1 ≡ b
    → IsAscending (y ∷ ys)
    → IsAscending (insert_delta x ys)
    → IsAscending (if b then x ∷ y ∷ ys else y ∷ insert_delta x ys)
unfolding IsAscending
branch-IsAscending true x y ys less h k =
    let below : x.1 ≤ℤ y.1 = ground (arith, less) in
    let rest =
      All-map (λ (z : Delta). y.1 ≤ℤ z.1) (λ (z : Delta). x.1 ≤ℤ z.1)
        (λ z at. omega (arith, below, at)) ys h.0 in
    ((below, rest), h)
branch-IsAscending false x y ys more h k =
    let above : y.1 ≤ℤ x.1 = ground (arith, more) in
    (insert-All (λ (z : Delta). y.1 ≤ℤ z.1) x ys above h.0, k)

insert-IsAscending :
    (x : Delta) (xs : List Delta) → IsAscending xs → IsAscending (insert_delta x xs)
unfolding insert_delta IsAscending
insert-IsAscending x [] h = (tt, tt)
insert-IsAscending x (y ∷ ys) h =
    branch-IsAscending (ltb_ℤ x.1 y.1) x y ys refl h (insert-IsAscending x ys h.1)

sort-IsAscending :
    (ordered xs : List Delta) → IsAscending ordered → IsAscending (sort_deltas ordered xs)
unfolding sort_deltas
sort-IsAscending ordered [] h = h
sort-IsAscending ordered (x ∷ xs) h =
    sort-IsAscending (insert_delta x ordered) xs (insert-IsAscending x ordered h)

-- Nothing is lost by sorting.
insert-here : (x : Delta) (xs : List Delta) → Among x (insert_delta x xs)
unfolding insert_delta
insert-here x [] = here x [] refl
insert-here x (y ∷ ys) =
    if-cases (Among x) (ltb_ℤ x.1 y.1) (here x (y ∷ ys) refl) (there y _ (insert-here x ys))

insert-there : (x z : Delta) (xs : List Delta) → Among z xs → Among z (insert_delta x xs)
unfolding insert_delta
insert-there x z [] q = elim q [ ]
insert-there x z (y ∷ ys) (here _ _ p) =
    if-cases (Among z) (ltb_ℤ x.1 y.1) (there x _ (here y ys p)) (here y _ p)
insert-there x z (y ∷ ys) (there _ _ q) =
    if-cases (Among z) (ltb_ℤ x.1 y.1) (there x _ (there y ys q))
      (there y _ (insert-there x z ys q))

sort-kept :
    (z : Delta) (ordered xs : List Delta) → Among z ordered → Among z (sort_deltas ordered xs)
unfolding sort_deltas
sort-kept z ordered [] h = h
sort-kept z ordered (x ∷ xs) h =
    sort-kept z (insert_delta x ordered) xs (insert-there x z ordered h)

sort-Among : (z : Delta) (ordered xs : List Delta) → Among z xs → Among z (sort_deltas ordered xs)
unfolding sort_deltas
sort-Among z ordered [] q = elim q [ ]
sort-Among z ordered (x ∷ xs) (here _ _ p) =
    sort-kept z (insert_delta x ordered) xs
      (subst (λ w. Among w (insert_delta x ordered)) p (insert-here x ordered))
sort-Among z ordered (x ∷ xs) (there _ _ q) = sort-Among z (insert_delta x ordered) xs q

module _ {ℓ} {F : Type ℓ} (qty want : Dict Text ℤ) (prices : Dict Text F) where
  -- An order changes its symbol's quantity, and to what is wanted of it.
  unfoldable pub Reaches : Delta → Type 0
  Reaches (symbol, dq) =
      (is_zero dq ≡ false)
      × ((get symbol qty (pos 0) +ℤ dq ≡ get symbol want (pos 0)) × (has_key symbol prices ≡ true))

  delta_lem :
      (symbol : Text) → get symbol qty (pos 0) +ℤ delta_of qty want symbol ≡ get symbol want (pos 0)
  delta_lem symbol = grind int_laws

  branch-Reaches :
      (p z : Bool) (symbol : Text) (rest : List Delta)
      → has_key symbol prices ≡ p
      → is_zero (delta_of qty want symbol) ≡ z
      → All Reaches rest
      → All Reaches (if p && not z then (symbol, delta_of qty want symbol) ∷ rest else rest)
  unfolding Reaches
  branch-Reaches false z symbol rest priced moves h = h
  branch-Reaches true true symbol rest priced moves h = h
  branch-Reaches true false symbol rest priced moves h = ((moves, (delta_lem symbol, priced)), h)

  deltas-Reaches : (syms : List Text) → All Reaches (deltas_of qty want prices syms)
  unfolding deltas_of
  deltas-Reaches [] = tt
  deltas-Reaches (symbol ∷ syms) =
      branch-Reaches _ _ symbol (deltas_of qty want prices syms) refl refl (deltas-Reaches syms)

  first-Among :
      (symbol : Text) (syms : List Text)
      → has_key symbol prices ≡ true
      → is_zero (delta_of qty want symbol) ≡ false
      → Among (symbol, delta_of qty want symbol) (deltas_of qty want prices (symbol ∷ syms))
  unfolding deltas_of
  first-Among symbol syms priced moves =
      let x : Delta = (symbol, delta_of qty want symbol) in
      let rest = deltas_of qty want prices syms in
      let kept : (has_key symbol prices && not (is_zero (delta_of qty want symbol))) ≡ true =
        ap (λ b. b && not (is_zero (delta_of qty want symbol))) priced ∙ ap not moves in
      subst (Among x) (sym (ap (λ b. if b then x ∷ rest else rest) kept)) (here x rest refl)

  deltas-Among :
      (symbol : Text) (syms : List Text)
      → Among symbol syms
      → has_key symbol prices ≡ true
      → is_zero (delta_of qty want symbol) ≡ false
      → Among (symbol, delta_of qty want symbol) (deltas_of qty want prices syms)
  unfolding deltas_of
  deltas-Among symbol [] q priced moves = elim q [ ]
  deltas-Among symbol (s ∷ syms) (here _ _ p) priced moves =
      subst (λ t. Among (t, delta_of qty want t) (deltas_of qty want prices (s ∷ syms))) p
        (first-Among s syms (ap (λ t. has_key t prices) p ∙ priced)
          (ap (λ t. is_zero (delta_of qty want t)) p ∙ moves))
  deltas-Among symbol (s ∷ syms) (there _ _ q) priced moves =
      if-cases (Among (symbol, delta_of qty want symbol))
        (has_key s prices && not (is_zero (delta_of qty want s)))
        (there _ _ (deltas-Among symbol syms q priced moves))
        (deltas-Among symbol syms q priced moves)

  -- The orders of a rebalance stand in ascending order, so every sale before every purchase; no symbol
  -- has two of them; each is for a symbol with a price, changes its quantity, and brings it to what is
  -- wanted; and a symbol with a price that is held or wanted, and not already at what is wanted, has
  -- its order. The quantities and the wanted shares are dictionaries.
  pub orders_of-Reaches :
      (symbol : Text)
      → HasUniqueKeys qty
      → HasUniqueKeys want
      → Among symbol (union_keys qty want)
      → has_key symbol prices ≡ true
      → is_zero (delta_of qty want symbol) ≡ false
      → IsAscending (orders_of qty want prices)
        × IsOnce delta_symbol (orders_of qty want prices)
        × (All Reaches (orders_of qty want prices)
            × Among (symbol, delta_of qty want symbol) (orders_of qty want prices))
  unfolding orders_of IsAscending
  orders_of-Reaches symbol held wanted member priced moves =
      let deltas = deltas_of qty want prices (union_keys qty want) in
      (
        sort-IsAscending [] deltas tt,
        orders_of-IsOnce qty want prices held wanted,
        (
          sort-All Reaches [] deltas tt (deltas-Reaches (union_keys qty want)),
          sort-Among (symbol, delta_of qty want symbol) [] deltas
              (deltas-Among symbol (union_keys qty want) member priced moves),
        ),
      )
