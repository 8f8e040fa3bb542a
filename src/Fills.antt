-- ===== src/Fills.antt =====
-- dqengine/runtime/core/fills.py: the fill-price rules that both engines call. Prices are floats,
-- `None` is `none`, and a bar is given by its open, high and low.
pub mod Bounds
mod Tests
use deployquant.Prelude.{Bool, true, false, Option, none, some, if◌then◌else◌}
use deployquant.Prelude.Float.{Float, min_of, max_of}

module _ {ℓ} {F : Type ℓ} ⦃f : Float F⦄ where
  open f use {lt, round2}

  pub round_price : F → F
  round_price px = round2 px

  unfoldable pub limit_fill : Bool → F → F → F → Option F → Option F
  limit_fill buy o h l none = none
  limit_fill true o h l (some limit) = if lt l limit then some (min_of o limit) else none
  limit_fill false o h l (some limit) = if lt limit h then some (max_of o limit) else none

  unfoldable pub stop_fill : Bool → F → F → F → Option F → Option F
  stop_fill buy o h l none = none
  stop_fill true o h l (some stop) = if lt stop h then some (max_of o stop) else none
  stop_fill false o h l (some stop) = if lt l stop then some (min_of o stop) else none

  unfoldable pub stop_triggered : Bool → F → F → Option F → Bool
  stop_triggered buy h l none = false
  stop_triggered buy h l (some stop) = if buy then lt stop h else lt l stop

  unfoldable pub touch_triggered : Bool → F → F → Option F → Bool
  touch_triggered buy h l none = false
  touch_triggered buy h l (some trigger) = if buy then lt l trigger else lt trigger h
