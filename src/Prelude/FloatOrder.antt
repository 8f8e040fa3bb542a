-- ===== src/Prelude/FloatOrder.antt =====
-- `min` and `max` of two floats, by the laws of the comparisons.
use native.Mathlib.Omega.{arith}
use deployquant.Prelude.Float.{Float, IsOrdered, IsNumber, ◌≼◌, min_of, max_of}

module _ {ℓ} {F : Type ℓ} ⦃f : Float F⦄ where
  pub max_of-IsNumber : (a b : F) → IsNumber a → IsNumber b → IsNumber (max_of a b)
  max_of-IsNumber a b ha hb = ground (arith, ha, hb)

  pub min_of-IsNumber : (a b : F) → IsNumber a → IsNumber b → IsNumber (min_of a b)
  min_of-IsNumber a b ha hb = ground (arith, ha, hb)

module _ {ℓ} {F : Type ℓ} ⦃f : Float F⦄ (laws : IsOrdered F) where
  pub max_of-above : (a b : F) → IsNumber a → IsNumber b → (a ≼ max_of a b) × (b ≼ max_of a b)
  max_of-above a b ha hb = ground (arith, ha, hb, laws.lt_le a b, laws.le-eq-not-lt b a hb ha)

  pub min_of-below : (a b : F) → IsNumber a → IsNumber b → (min_of a b ≼ a) × (min_of a b ≼ b)
  min_of-below a b ha hb = ground (arith, ha, hb, laws.lt_le b a, laws.le-eq-not-lt a b ha hb)
