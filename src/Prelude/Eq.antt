-- ===== src/Prelude/Eq.antt =====
-- Python's `==` on the types that the program compares.
use Prim.Native.Nat.{ℕ}
use mathlib.Core.Path.{◌≡◌, refl}
use mathlib.Core.Logic.{◌↔◌}
use mathlib.Core.Bool.{Bool, true, false, ◌&&◌, ◌||◌}
use mathlib.Core.Option.{Option, none, some}
use mathlib.Core.List.{List, [], ◌∷◌}
use native.Mathlib.Omega.{arith}
use deployquant.Prelude.Tests.{nat_eq, nat_eq_iff}

pub record Eq {κ} (T : Type κ) : Type κ where
  pub equal : (x y : T) → Bool
  pub equal_iff : (x y : T) → (equal x y ≡ true) ↔ (x ≡ y)

infix 50 ◌==◌
abbrev pub ◌==◌ {κ} : {T : Type κ} ⦃same : Eq T⦄ (x y : T) → Bool
◌==◌ ⦃same⦄ x y = same.equal x y

instance abbrev pub eq_nat : Eq ℕ
eq_nat = record { equal = nat_eq; equal_iff = nat_eq_iff }

module _ {ℓ} {A : Type ℓ} ⦃e : Eq A⦄ where
  abbrev pub list_eq : List A → List A → Bool
  list_eq [] [] = true
  list_eq [] (y ∷ ys) = false
  list_eq (x ∷ xs) [] = false
  list_eq (x ∷ xs) (y ∷ ys) = (x == y) && list_eq xs ys

  pub list_eq_iff : (xs ys : List A) → (list_eq xs ys ≡ true) ↔ (xs ≡ ys)
  list_eq_iff [] [] = ground arith
  list_eq_iff [] (y ∷ ys) = ground arith
  list_eq_iff (x ∷ xs) [] = ground arith
  list_eq_iff (x ∷ xs) (y ∷ ys) = ground (arith, e.equal_iff x y, list_eq_iff xs ys)

  abbrev pub option_eq : Option A → Option A → Bool
  option_eq none none = true
  option_eq none (some b) = false
  option_eq (some a) none = false
  option_eq (some a) (some b) = a == b

  pub option_eq_iff : (a b : Option A) → (option_eq a b ≡ true) ↔ (a ≡ b)
  option_eq_iff none none = ground arith
  option_eq_iff none (some b) = ground arith
  option_eq_iff (some a) none = ground arith
  option_eq_iff (some a) (some b) = ground (arith, e.equal_iff a b)

instance abbrev pub eq_list {ℓ} : {A : Type ℓ} ⦃e : Eq A⦄ → Eq (List A)
eq_list = record { equal = list_eq; equal_iff = list_eq_iff }

instance abbrev pub eq_option {ℓ} : {A : Type ℓ} ⦃e : Eq A⦄ → Eq (Option A)
eq_option = record { equal = option_eq; equal_iff = option_eq_iff }

is_yes {ℓ} : {A : Type ℓ} → Dec A → Bool
is_yes (yes a) = true
is_yes (no h) = false

is_yes_iff {ℓ} : {A : Type ℓ} (d : Dec A) → (is_yes d ≡ true) ↔ A
unfolding is_yes
is_yes_iff (yes a) = (λ h. a, λ a'. refl)
is_yes_iff (no h) = (λ p. absurd (cc p), λ a. absurd (h a))

-- Any decided equality will do.
pub eq_of_discrete {ℓ} : {A : Type ℓ} → Discrete A → Eq A
eq_of_discrete d = record { equal = λ x y. is_yes (d x y); equal_iff = λ x y. is_yes_iff (d x y) }

pub ==_refl {ℓ} : {A : Type ℓ} ⦃e : Eq A⦄ (a : A) → (a == a) ≡ true
==_refl ⦃e⦄ a = (e.equal_iff a a).1 refl

-- `a in xs`
abbrev pub contains {ℓ} : {A : Type ℓ} ⦃e : Eq A⦄ → A → List A → Bool
contains a [] = false
contains a (x ∷ xs) = (x == a) || contains a xs
