-- ===== src/Fills/Bounds.antt =====
-- dqengine/runtime/core/fills.py: where a fill price lies, and when there is one.
use deployquant.Prelude.{Bool, true, false, ◌≡◌, refl, Option, none, some, arith, is_some}
use deployquant.Prelude.Float.{Float, IsOrdered, IsNumber, ◌≼◌, min_of, max_of}
use deployquant.Fills.{limit_fill, stop_fill, stop_triggered, touch_triggered}

-- A bar whose open lies between its low and its high, so none of the three is NaN.
pub record IsBar {ℓ} {F : Type ℓ} ⦃f : Float F⦄ (o h l : F) : Type 0 where
  pub low_le_open : l ≼ o
  pub open_le_high : o ≼ h

-- `px` is no worse than `level` for the buyer or the seller.
abbrev pub NoWorse {ℓ} : {F : Type ℓ} ⦃f : Float F⦄ → Bool → F → F → Type 0
NoWorse true level px = px ≼ level
NoWorse false level px = level ≼ px

-- A limit order fills on a dip below its level or a rise above it, a stop order the other way.
abbrev pub Within {ℓ} : {F : Type ℓ} ⦃f : Float F⦄ → F → F → F → Type 0
Within l h px = (l ≼ px) × (px ≼ h)

module _ {ℓ} {F : Type ℓ} ⦃f : Float F⦄ where
  -- A stop fills exactly when the trigger of a stop-limit at the same level fires.
  pub is_some-stop_fill :
      (buy : Bool) (o h l : F) (stop : Option F)
      → is_some (stop_fill buy o h l stop) ≡ stop_triggered buy h l stop
  unfolding stop_fill stop_triggered
  is_some-stop_fill buy o h l none = refl
  is_some-stop_fill true o h l (some stop) = ground arith
  is_some-stop_fill false o h l (some stop) = ground arith

  -- A limit order fills exactly when the trigger of a limit-if-touched at the same level fires.
  pub is_some-limit_fill :
      (buy : Bool) (o h l : F) (limit : Option F)
      → is_some (limit_fill buy o h l limit) ≡ touch_triggered buy h l limit
  unfolding limit_fill touch_triggered
  is_some-limit_fill buy o h l none = refl
  is_some-limit_fill true o h l (some limit) = ground arith
  is_some-limit_fill false o h l (some limit) = ground arith

module _ {ℓ} {F : Type ℓ} ⦃f : Float F⦄ (laws : IsOrdered F) where
  open laws use {lt_number, le_number, le-eq-not-lt, le_trans, lt_le}

  min_of_bounds : (a b : F) → IsNumber a → IsNumber b → (min_of a b ≼ a) × (min_of a b ≼ b)
  min_of_bounds a b ha hb = ground (arith, le-eq-not-lt a b ha hb, lt_le b a)

  max_of_bounds : (a b : F) → IsNumber a → IsNumber b → (a ≼ max_of a b) × (b ≼ max_of a b)
  max_of_bounds a b ha hb = ground (arith, le-eq-not-lt b a hb ha, lt_le a b)

  -- Strictness: whatever the bar, a breached level is a number different from the extreme.
  dip_bounds :
      (o h l level : F)
      → IsBar o h l
      → f.lt l level ≡ true
      → Within l h (min_of o level) × (min_of o level ≼ level)
  dip_bounds o h l level bar breach =
      let level_num = (lt_number l level breach).1 in
      let open_num = (le_number l o bar.low_le_open).1 in
      let (below_open, below_level) = min_of_bounds o level open_num level_num in
      ground (
        arith,
        lt_le l level breach,
        below_open,
        below_level,
        bar.low_le_open,
        le_trans (min_of o level) o h below_open bar.open_le_high,
      )

  rise_bounds :
      (o h l level : F)
      → IsBar o h l
      → f.lt level h ≡ true
      → Within l h (max_of o level) × (level ≼ max_of o level)
  rise_bounds o h l level bar breach =
      let level_num = (lt_number level h breach).0 in
      let open_num = (le_number l o bar.low_le_open).1 in
      let (above_open, above_level) = max_of_bounds o level open_num level_num in
      ground (
        arith,
        lt_le level h breach,
        above_open,
        above_level,
        bar.open_le_high,
        le_trans l o (max_of o level) bar.low_le_open above_open,
      )

  -- On a bar whose open lies between its low and its high, a limit order that fills does so at a
  -- price inside the bar, and at its limit or better. Comparisons are those of floats.
  pub limit_fill_price :
      (buy : Bool) (o h l : F) (limit px : F)
      → IsBar o h l
      → limit_fill buy o h l (some limit) ≡ some px
      → Within l h px × NoWorse buy limit px
  unfolding limit_fill
  limit_fill_price true o h l limit px bar e = ground (arith, dip_bounds o h l limit bar)
  limit_fill_price false o h l limit px bar e = ground (arith, rise_bounds o h l limit bar)

  -- On a bar whose open lies between its low and its high, a stop order that fills does so at a
  -- price inside the bar, and at its stop or worse. Comparisons are those of floats.
  pub stop_fill_price :
      (buy : Bool) (o h l : F) (stop px : F)
      → IsBar o h l
      → stop_fill buy o h l (some stop) ≡ some px
      → Within l h px × NoWorse buy px stop
  unfolding stop_fill
  stop_fill_price true o h l stop px bar e = ground (arith, rise_bounds o h l stop bar)
  stop_fill_price false o h l stop px bar e = ground (arith, dip_bounds o h l stop bar)
