-- ===== src/Indicators/Nodes.antt =====
-- dqengine/runtime/core/indicators.py: the expressions in `of`, and `_asof`.
use deployquant.Prelude.{
  Bool, true, false, Option, none, some, List, [], ◌∷◌, length, ltb, if◌then◌else◌,
}
use deployquant.Prelude.Text.{Text}
use deployquant.Prelude.Eq.{◌==◌, eq_nat, eq_list}
use deployquant.Prelude.Float.{divide, Float}
use deployquant.Prelude.Dict.{Dict, lookup}
use deployquant.Exprs.{Value, number, flag, not_ready, ArithOp, add, sub, mul, div, is_ready}
use deployquant.Indicators.Series.{Maths, and_then, item_back, DailySeries}
use deployquant.Indicators.Plain.{
  IndName, price, prior_close, pct_rank, series_ema, series_sma, IndNode, as_value, compute_plain,
}

-- The expression in `of`, and a list of them; `bound_param` is how `_freeze` writes a parameter, and
-- `other_inner` is any form that is refused.
mutual
  pub data Inner {ℓ} (F : Type ℓ) : Type ℓ where
    inner_num : F → Inner F
    inner_param : Text → Inner F
    bound_param : Text → F → Inner F
    inner_ind : IndNode F → Inner F
    inner_arith : ArithOp → Inners F → Inner F
    other_inner : Inner F

  pub data Inners {ℓ} (F : Type ℓ) : Type ℓ where
    no_inners : Inners F
    more_inners : Inner F → Inners F → Inners F

-- The names that `_asof` refuses, and those that it answers itself.
unfoldable pub reads_history : IndName → Bool
reads_history series_ema = true
reads_history series_sma = true
reads_history pct_rank = true
reads_history name = false

-- `node.get("symbol") not in (None, symbol)`
unfoldable pub is_foreign : Text → Option Text → Bool
is_foreign here none = false
is_foreign here (some s) = if s == here then false else true

module _ {ℓ} {F : Type ℓ} ⦃f : Float F⦄ where
  open f use {plus, minus, times, le, lt}

  abbrev pub or_not_ready : Option F → Option (Value F)
  or_not_ready none = some not_ready
  or_not_ready (some x) = some (number x)

  unfoldable pub named :
      ⦃m : Maths F⦄ → IndName → Dict Text F → IndNode F → DailySeries F → Option (Value F)
  named price params node sl = or_not_ready (item_back 1 sl.closes)
  named prior_close params node sl =
      if ltb (length sl.closes) 2 then some not_ready else or_not_ready (item_back 2 sl.closes)
  named name params node sl = if reads_history name then none else compute_plain params node sl

  -- The branch of `_asof` for an indicator.
  unfoldable pub asof_ind :
      ⦃m : Maths F⦄ → Text → Dict Text F → IndNode F → DailySeries F → Option (Value F)
  asof_ind symbol params node sl =
      if is_foreign symbol node.symbol then none else named node.name params node sl

  unfoldable pub combine : ArithOp → F → F → Option F
  combine add acc v = some (plus acc v)
  combine sub acc v = some (minus acc v)
  combine mul acc v = some (times acc v)
  combine div acc v = divide acc v

  -- The loop over the operands after the first. Every value is a number here.
  unfoldable pub fold_values : ArithOp → F → List (Value F) → Option (Value F)
  fold_values op acc [] = some (number acc)
  fold_values op acc (number v ∷ vs) = and_then (combine op acc v) λ next. fold_values op next vs
  fold_values op acc (flag b ∷ vs) = none
  fold_values op acc (not_ready ∷ vs) = some not_ready

  unfoldable pub all_numbers : List (Value F) → Bool
  all_numbers [] = true
  all_numbers (v ∷ vs) = if is_ready v then all_numbers vs else false

  unfoldable pub arith_asof : ArithOp → List (Value F) → Option (Value F)
  arith_asof op [] = none
  arith_asof op (number v ∷ vs) = if all_numbers vs then fold_values op v vs else some not_ready
  arith_asof op (flag b ∷ vs) = none
  arith_asof op (not_ready ∷ vs) = some not_ready

  unfoldable mutual
    pub asof : ⦃m : Maths F⦄ → Text → Dict Text F → Inner F → DailySeries F → Option (Value F)
    asof symbol params (inner_num x) sl = some (number x)
    asof symbol params (inner_param p) sl = as_value (lookup p params)
    asof symbol params (bound_param p x) sl = some (number x)
    asof symbol params (inner_ind node) sl = asof_ind symbol params node sl
    asof symbol params (inner_arith op es) sl =
        and_then (asof_list symbol params es sl) λ vs. arith_asof op vs
    asof symbol params other_inner sl = none

    pub asof_list :
        ⦃m : Maths F⦄ → Text → Dict Text F → Inners F → DailySeries F → Option (List (Value F))
    asof_list symbol params no_inners sl = some []
    asof_list symbol params (more_inners e es) sl =
        and_then (asof symbol params e sl)
          λ v. and_then (asof_list symbol params es sl) λ vs. some (v ∷ vs)
