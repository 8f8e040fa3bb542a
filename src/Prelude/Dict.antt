-- ===== src/Prelude/Dict.antt =====
-- Python dictionaries, in insertion order: an entry keeps its place when it is written again.
use mathlib.Core.Path.{◌≡◌, refl}
use mathlib.Core.Bool.{Bool, true, false, not, ◌&&◌, ◌||◌}
use mathlib.Core.Logic.{inl, inr}
use mathlib.Core.Option.{Option, none, some}
use mathlib.Core.List.{List, [], ◌∷◌}
use native.Mathlib.Omega.{arith}
use deployquant.Prelude.Tests.{if◌then◌else◌, or_else, is_some, Bool-cases}
use deployquant.Prelude.Eq.{Eq, ◌==◌}

abbrev pub Dict {ℓ κ} : Type ℓ → Type κ → Type (ℓ ⊔ κ)
Dict K V = List (K × V)

module _ {ℓ κ} {K : Type ℓ} {V : Type κ} ⦃e : Eq K⦄ where
  -- `d.get(k)`
  unfoldable pub lookup : K → Dict K V → Option V
  lookup k [] = none
  lookup k ((j, v) ∷ d) = if j == k then some v else lookup k d

  -- `d.get(k, v)`
  abbrev pub get : K → Dict K V → V → V
  get k d v = or_else (lookup k d) v

  -- `k in d`
  abbrev pub has_key : K → Dict K V → Bool
  has_key k d = is_some (lookup k d)

  -- `d[k] = v`
  unfoldable pub insert : K → V → Dict K V → Dict K V
  insert k v [] = (k, v) ∷ []
  insert k v ((j, w) ∷ d) = if j == k then (j, v) ∷ d else (j, w) ∷ insert k v d

  -- `d.pop(k, None)`
  unfoldable pub erase : K → Dict K V → Dict K V
  erase k [] = []
  erase k ((j, w) ∷ d) = if j == k then erase k d else (j, w) ∷ erase k d

  pub lookup-insert :
      (k j : K) (v : V) (d : Dict K V)
      → lookup j (insert k v d) ≡ (if k == j then some v else lookup j d)
  unfolding lookup insert
  lookup-insert k j v [] = refl
  lookup-insert k j v ((i, w) ∷ d) =
      ground (arith, e.equal_iff k j, e.equal_iff i k, e.equal_iff i j, lookup-insert k j v d)

  pub lookup-erase :
      (k j : K) (d : Dict K V) → lookup j (erase k d) ≡ (if k == j then none else lookup j d)
  unfolding lookup erase
  lookup-erase k j [] = ground arith
  lookup-erase k j ((i, w) ∷ d) =
      ground (arith, e.equal_iff k j, e.equal_iff i k, e.equal_iff i j, lookup-erase k j d)

  -- `d[k] = v`, or nothing.
  abbrev pub write : K → Option V → Dict K V → Dict K V
  write k none d = d
  write k (some v) d = insert k v d

  -- `if b: d.pop(k, None)`
  abbrev pub erase_if : Bool → K → Dict K V → Dict K V
  erase_if true k d = erase k d
  erase_if false k d = d

  -- `if b: d[k] = v`
  abbrev pub insert_if : Bool → K → V → Dict K V → Dict K V
  insert_if true k v d = insert k v d
  insert_if false k v d = d

  pub has_key-erase_if :
      (b : Bool) (k j : K) (d : Dict K V)
      → has_key j (erase_if b k d) ≡ (has_key j d && not (b && (k == j)))
  has_key-erase_if true k j d = ground (arith, lookup-erase k j d)
  has_key-erase_if false k j d = ground arith

  pub has_key-insert_if :
      (b : Bool) (k j : K) (v : V) (d : Dict K V)
      → has_key j (insert_if b k v d) ≡ (has_key j d || (b && (k == j)))
  has_key-insert_if true k j v d = ground (arith, lookup-insert k j v d)
  has_key-insert_if false k j v d = ground arith

  pub has_key-write :
      (k j : K) (o : Option V) (d : Dict K V)
      → has_key j (write k o d) ≡ (has_key j d || (is_some o && (k == j)))
  has_key-write k j none d = ground arith
  has_key-write k j (some v) d = ground (arith, lookup-insert k j v d)

  -- What every Python dictionary satisfies.
  abbrev pub HasUniqueKeys : Dict K V → Type 0
  HasUniqueKeys [] = Unit
  HasUniqueKeys ((k, v) ∷ d) = (has_key k d ≡ false) × HasUniqueKeys d

  pub insert-HasUniqueKeys :
      (k : K) (v : V) (d : Dict K V) → HasUniqueKeys d → HasUniqueKeys (insert k v d)
  unfolding insert
  insert-HasUniqueKeys k v [] h = (unfold lookup in refl, tt)
  insert-HasUniqueKeys k v ((j, w) ∷ d) h = elim (Bool-cases (j == k)) [
    | inl same ↦ rw same h
    | inr other ↦ rw other (
      ground (arith, lookup-insert k j v d, h.0, e.equal_iff j k, e.equal_iff k j),
      insert-HasUniqueKeys k v d h.1,
    )
  ]
