-- ===== src/Rebalance/Once.antt =====
-- No symbol has two orders: the union of two dictionaries' keys names each once, and the deltas and
-- their sorting keep it so.
use deployquant.Prelude.{
  ◌≡◌, ◌≢◌, refl, sym, Bool, true, false, not, ◌&&◌, List, [], ◌∷◌, ◌++◌, map, keep, All, All-map,
  All-append, keep-All, if-cases, Bool-cases, inl, inr, arith,
}
use deployquant.Prelude.Eq.{◌==◌, eq_nat, eq_list, list_eq_iff}
use deployquant.Prelude.Int.{ℤ, ltb_ℤ, is_zero}
use deployquant.Prelude.Text.{Text}
use deployquant.Prelude.Dict.{Dict, lookup, has_key, HasUniqueKeys}
use deployquant.Rebalance.Defs.{
  Delta, union_keys, insert_delta, sort_deltas, delta_of, deltas_of, orders_of,
}

-- No two entries have one key.
unfoldable pub IsOnce {ℓ} : {A : Type ℓ} → (A → Text) → List A → Type 0
IsOnce key [] = Unit
IsOnce key (x ∷ xs) = All (λ y. key x ≢ key y) xs × IsOnce key xs

abbrev AreDistinct : List Text → Type 0
AreDistinct = IsOnce λ s. s

abbrev pub delta_symbol : Delta → Text
delta_symbol x = x.0

All-both {ℓ κ μ ν} :
    {A : Type ℓ} (P : A → Type κ) (Q : A → Type μ) (R : A → Type ν) (xs : List A)
    → All P xs
    → All Q xs
    → ((x : A) → P x → Q x → R x)
    → All R xs
All-both P Q R [] p q f = tt
All-both P Q R (x ∷ xs) p q f = (f x p.0 q.0, All-both P Q R xs p.1 q.1 f)

All-every {ℓ κ} : {A : Type ℓ} (P : A → Type κ) (xs : List A) → ((x : A) → P x) → All P xs
All-every P [] f = tt
All-every P (x ∷ xs) f = (f x, All-every P xs f)

keep-kept {ℓ κ} :
    {A : Type ℓ} (P : A → Type κ) (p : A → Bool) (xs : List A) → All P xs → All P (keep p xs)
keep-kept P p [] h = tt
keep-kept P p (x ∷ xs) h = if-cases (All P) (p x) (h.0, keep-kept P p xs h.1) (keep-kept P p xs h.1)

differ-apart : (a b : Text) → (a == b) ≡ false → a ≢ b
differ-apart a b h e = absurd (cc (h, (list_eq_iff a b).1 e))

module _ {κ} {V : Type κ} where
  -- A key that is absent differs from every key.
  absent-apart :
      (k : Text) (d : Dict Text V) → has_key k d ≡ false → All (λ j. j ≢ k) (map (λ kv. kv.0) d)
  unfolding lookup
  absent-apart k [] h = tt
  absent-apart k ((j, v) ∷ d) h = elim (Bool-cases (j == k)) [
    | inl same ↦ absurd (ground (arith, same, h))
    | inr other ↦ (differ-apart j k other, absent-apart k d (ground (arith, other, h)))
  ]

  keys-AreDistinct : (d : Dict Text V) → HasUniqueKeys d → AreDistinct (map (λ kv. kv.0) d)
  unfolding IsOnce
  keys-AreDistinct [] h = tt
  keys-AreDistinct ((k, v) ∷ d) h = (
    All-map (λ j. j ≢ k) (λ j. k ≢ j) (λ j apart e. apart (sym e)) _ (absent-apart k d h.0),
    keys-AreDistinct d h.1,
  )

keep-AreDistinct : (p : Text → Bool) (xs : List Text) → AreDistinct xs → AreDistinct (keep p xs)
unfolding IsOnce
keep-AreDistinct p [] h = tt
keep-AreDistinct p (x ∷ xs) h =
    if-cases AreDistinct (p x) (keep-kept (λ y. x ≢ y) p xs h.0, keep-AreDistinct p xs h.1)
      (keep-AreDistinct p xs h.1)

append-AreDistinct :
    (xs ys : List Text)
    → AreDistinct xs
    → AreDistinct ys
    → All (λ y. All (λ x. x ≢ y) xs) ys
    → AreDistinct (xs ++ ys)
unfolding IsOnce
append-AreDistinct [] ys h k cross = k
append-AreDistinct (x ∷ xs) ys h k cross = (
  All-append (λ y. x ≢ y) xs ys h.0
      (All-map (λ y. All (λ z. z ≢ y) (x ∷ xs)) (λ y. x ≢ y) (λ y c. c.0) ys cross),
  append-AreDistinct xs ys h.1 k
      (All-map (λ y. All (λ z. z ≢ y) (x ∷ xs)) (λ y. All (λ z. z ≢ y) xs) (λ y c. c.1) ys cross),
)

not-true : (b : Bool) → not b ≡ true → b ≡ false
not-true true h = absurd (cc h)
not-true false h = refl

union-AreDistinct {κ μ} :
    {V : Type κ} {W : Type μ} (d : Dict Text V) (e : Dict Text W)
    → HasUniqueKeys d
    → HasUniqueKeys e
    → AreDistinct (union_keys d e)
unfolding union_keys
union-AreDistinct d e h k =
    let others = map (λ kv. kv.0) e in
    append-AreDistinct _ _ (keys-AreDistinct d h)
      (keep-AreDistinct (λ s. not (has_key s d)) others (keys-AreDistinct e k))
      (All-map (λ s. not (has_key s d) ≡ true) (λ s. All (λ j. j ≢ s) (map (λ kv. kv.0) d))
        (λ s absent. absent-apart s d (not-true _ absent)) _
        (keep-All (λ s. not (has_key s d)) others))

pub insert-All {κ} :
    (P : Delta → Type κ) (x : Delta) (xs : List Delta) → P x → All P xs → All P (insert_delta x xs)
unfolding insert_delta
insert-All P x [] h k = (h, tt)
insert-All P x (y ∷ ys) h k = if-cases (All P) (ltb_ℤ x.1 y.1) (h, k) (k.0, insert-All P x ys h k.1)

pub sort-All {κ} :
    (P : Delta → Type κ) (ordered xs : List Delta)
    → All P ordered
    → All P xs
    → All P (sort_deltas ordered xs)
unfolding sort_deltas
sort-All P ordered [] h k = h
sort-All P ordered (x ∷ xs) h k =
    sort-All P (insert_delta x ordered) xs (insert-All P x ordered k.0 h) k.1

insert-IsOnce :
    (x : Delta) (xs : List Delta)
    → All (λ y. x.0 ≢ y.0) xs
    → IsOnce delta_symbol xs
    → IsOnce delta_symbol (insert_delta x xs)
unfolding insert_delta IsOnce
insert-IsOnce x [] apart h = (tt, tt)
insert-IsOnce x (y ∷ ys) apart h =
    if-cases (IsOnce delta_symbol) (ltb_ℤ x.1 y.1) (apart, h)
      (insert-All (λ z. y.0 ≢ z.0) x ys (λ e. apart.0 (sym e)) h.0, insert-IsOnce x ys apart.1 h.1)

-- The deltas that are still to be placed differ from those that are.
sort-IsOnce :
    (ordered xs : List Delta)
    → IsOnce delta_symbol ordered
    → IsOnce delta_symbol xs
    → All (λ x. All (λ y. x.0 ≢ y.0) ordered) xs
    → IsOnce delta_symbol (sort_deltas ordered xs)
unfolding sort_deltas IsOnce
sort-IsOnce ordered [] h k cross = h
sort-IsOnce ordered (x ∷ xs) h k cross =
    sort-IsOnce (insert_delta x ordered) xs (insert-IsOnce x ordered cross.0 h) k.1 (
      All-both (λ z. x.0 ≢ z.0) (λ z. All (λ y. z.0 ≢ y.0) ordered)
        (λ z. All (λ y. z.0 ≢ y.0) (insert_delta x ordered)) xs k.0 cross.1
        λ z apart others. insert-All (λ y. z.0 ≢ y.0) x ordered (λ e. apart (sym e)) others)

module _ {ℓ} {F : Type ℓ} (qty want : Dict Text ℤ) (prices : Dict Text F) where
  deltas-All {κ} :
      (P : Text → Type κ) (syms : List Text)
      → All P syms
      → All (λ x. P x.0) (deltas_of qty want prices syms)
  unfolding deltas_of
  deltas-All P [] h = tt
  deltas-All P (s ∷ syms) h =
      if-cases (All λ x. P x.0) (has_key s prices && not (is_zero (delta_of qty want s)))
        (h.0, deltas-All P syms h.1) (deltas-All P syms h.1)

  deltas-IsOnce :
      (syms : List Text) → AreDistinct syms → IsOnce delta_symbol (deltas_of qty want prices syms)
  unfolding deltas_of IsOnce
  deltas-IsOnce [] h = tt
  deltas-IsOnce (s ∷ syms) h =
      if-cases (IsOnce delta_symbol) (has_key s prices && not (is_zero (delta_of qty want s)))
        (deltas-All (λ t. s ≢ t) syms h.0, deltas-IsOnce syms h.1) (deltas-IsOnce syms h.1)

  pub orders_of-IsOnce :
      HasUniqueKeys qty → HasUniqueKeys want → IsOnce delta_symbol (orders_of qty want prices)
  unfolding orders_of IsOnce
  orders_of-IsOnce held wanted =
      let syms = union_keys qty want in
      sort-IsOnce [] (deltas_of qty want prices syms) tt
        (deltas-IsOnce syms (union-AreDistinct qty want held wanted))
        (All-every (λ (x : Delta). All (λ (y : Delta). x.0 ≢ y.0) []) _ λ x. tt)
