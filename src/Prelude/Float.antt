-- ===== src/Prelude/Float.antt =====
-- Python's `float`, as an interface: the operations that the program uses, and the laws of its
-- order. The type and its arithmetic are parameters of every model that computes with prices.
use Prim.Native.Nat.{ℕ, suc, ◌/◌, ◌^◌}
use mathlib.Core.Path.{◌≡◌}
use mathlib.Core.Bool.{Bool, true, not}
use mathlib.Core.Option.{Option, none, some}
use mathlib.Core.List.{List, [], ◌∷◌}
use native.Mathlib.Omega.{arith}
use deployquant.Prelude.Tests.{if◌then◌else◌}
use deployquant.Prelude.Int.{
  ℤ, pos, negsuc, pos_part, neg_part, sub_ℕ, ◌+ℤ◌, ◌-ℤ◌, ◌*ℤ◌, neg, ltb_ℤ, leb_ℤ, eqb_ℤ,
}

-- `lit m k` is the literal m * 10^-k, `trunc` is `int(x)`, `nearest` is `round(x)` and `round2` is
-- `round(x, 2)`. `finite` is `math.isfinite`, `sum_of` the built-in `sum`,
-- and `floor_div` is `x // y` for a divisor that is not 0.
pub record Float {ℓ} (F : Type ℓ) : Type ℓ where
  pub of_int : ℤ → F
  pub lit : ℤ → ℕ → F
  pub plus : F → F → F
  pub minus : F → F → F
  pub times : F → F → F
  pub over : F → F → F
  pub negate : F → F
  pub lt : F → F → Bool
  pub le : F → F → Bool
  pub eq : F → F → Bool
  pub trunc : F → ℤ
  pub nearest : F → ℤ
  pub round2 : F → F
  pub finite : F → Bool
  pub sum_of : List F → F
  pub floor_div : F → F → F

module _ {ℓ} {F : Type ℓ} ⦃f : Float F⦄ where
  open f use {of_int, over, lt, le, eq, negate}

  abbrev pub nought : F
  nought = of_int (pos 0)

  infix 4 ◌≼◌ ◌≺◌
  abbrev pub ◌≼◌ : F → F → Type 0
  x ≼ y = le x y ≡ true

  abbrev pub ◌≺◌ : F → F → Type 0
  x ≺ y = lt x y ≡ true

  -- NaN is the one value that is not `<=` itself.
  abbrev pub IsNumber : F → Type 0
  IsNumber x = x ≼ x

  -- Python's `min(a, b)` and `max(a, b)`: the first argument, unless the second is strictly better.
  abbrev pub min_of : F → F → F
  min_of a b = if lt b a then b else a

  abbrev pub max_of : F → F → F
  max_of a b = if lt a b then b else a

  -- `abs(x)`
  abbrev pub abs_of : F → F
  abs_of x = if lt x nought then negate x else x

  -- `a / b`; `none` is the ZeroDivisionError.
  unfoldable pub divide : F → F → Option F
  divide a b = if eq b nought then none else some (over a b)

  -- `bool(x)` for a float
  abbrev pub nonzero : F → Bool
  nonzero x = not (eq x nought)

-- What IEEE 754 comparisons satisfy, NaN included.
pub record IsOrdered {ℓ} (F : Type ℓ) ⦃f : Float F⦄ : Type ℓ where
  pub lt_number : (x y : F) → x ≺ y → IsNumber x × IsNumber y
  pub le_number : (x y : F) → x ≼ y → IsNumber x × IsNumber y
  pub le-eq-not-lt : (x y : F) → IsNumber x → IsNumber y → f.le x y ≡ not (f.lt y x)
  pub le_trans : (x y z : F) → x ≼ y → y ≼ z → x ≼ z
  pub lt_le : (x y : F) → x ≺ y → x ≼ y

-- The laws can be met: fixed-point numbers, in units of 1/10000.
-- a / |b|, rounded towards zero, and with the sign of b
abbrev pub over_nat : ℤ → ℕ → ℤ
over_nat a n = sub_ℕ (pos_part a / n) (neg_part a / n)

unfoldable pub quot : ℤ → ℤ → ℤ
quot a (pos n) = over_nat a n
quot a (negsuc n) = neg (over_nat a (suc n))

abbrev pub Fixed : Type 0
Fixed = ℤ

abbrev pub scale : ℤ
scale = pos 10000

unfoldable pub sum_ℤ : List ℤ → ℤ
sum_ℤ [] = pos 0
sum_ℤ (x ∷ xs) = x +ℤ sum_ℤ xs

instance abbrev pub fixed_float : Float Fixed
fixed_float = record {
  of_int = λ n. n *ℤ scale;
  lit = λ m k. quot (m *ℤ scale) (pos (10 ^ k));
  plus = ◌+ℤ◌;
  minus = ◌-ℤ◌;
  times = λ a b. quot (a *ℤ b) scale;
  over = λ a b. quot (a *ℤ scale) b;
  negate = neg;
  lt = ltb_ℤ;
  le = leb_ℤ;
  eq = eqb_ℤ;
  trunc = λ a. quot a scale;
  nearest = λ a. if ltb_ℤ a (pos 0) then quot (a -ℤ pos 5000) scale else quot (a +ℤ pos 5000) scale;
  round2 = λ a. quot (a +ℤ pos 50) (pos 100) *ℤ pos 100;
  finite = λ a. true;
  sum_of = sum_ℤ;
  floor_div = λ a b. quot a b *ℤ scale;
}

pub Fixed-IsOrdered : IsOrdered Fixed
Fixed-IsOrdered = record {
  lt_number = λ x y h. ground arith;
  le_number = λ x y h. ground arith;
  le-eq-not-lt = λ x y hx hy. ground arith;
  le_trans = λ x y z h k. ground arith;
  lt_le = λ x y h. ground arith;
}
