-- ===== src/Indicators/Plain.antt =====
-- dqengine/runtime/core/indicators.py: the indicators that read one daily series, a branch of
-- `_compute` each.
use deployquant.Prelude.{
  ℕ, zero, suc, ◌+◌, ◌-◌, Bool, ◌||◌, Option, none, some, List, [], ◌∷◌, map, length, take, drop,
  keep, ltb, if◌then◌else◌,
}
use deployquant.Prelude.Int.{ℤ, pos, negsuc}
use deployquant.Prelude.Text.{Text}
use deployquant.Prelude.Float.{divide, Float, abs_of, nought, min_of, max_of}
use deployquant.Prelude.Dict.{Dict, lookup}
use deployquant.Exprs.{Value, number, not_ready}
use deployquant.Indicators.Series.{
  Maths, and_then, item_back, last_n, DailySeries, one, count, mean, deviation,
}
use deployquant.Prelude.Eq.{eq_nat, eq_list}

-- `unknown_ind` stands for every other name.
pub data IndName : Type 0 where
  price prior_close sma ema rsi realized_vol pct_rank highest lowest cum_return drawdown std :
      IndName
  atr series_ema series_sma unknown_ind : IndName

-- An argument of a node; `bound_to` is how `_freeze` writes a parameter.
pub data Arg {ℓ} (F : Type ℓ) : Type ℓ where
  given : F → Arg F
  by_param : Text → Arg F
  bound_to : Text → F → Arg F

-- A node without its `of`. `wilder` is its smoothing's test.
pub record IndNode {ℓ} (F : Type ℓ) : Type ℓ where
  pub name : IndName
  pub window : Option (Arg F)
  pub lookback : Option (Arg F)
  pub min_obs : Option (Arg F)
  pub wilder : Bool
  pub field : Option Text
  pub symbol : Option Text
  pub include_today : Bool

-- `int(x)`; a negative count is not modelled.
unfoldable pub natural : ℤ → Option ℕ
natural (pos n) = some n
natural (negsuc n) = none

module _ {ℓ} {F : Type ℓ} ⦃f : Float F⦄ where
  open f use {of_int, lit, plus, minus, times, over, negate, lt, le, eq, trunc}

  -- `arg(key)` as a number
  unfoldable pub arg : Dict Text F → Option (Arg F) → Option F
  arg params none = none
  arg params (some (given x)) = some x
  arg params (some (by_param p)) = lookup p params
  arg params (some (bound_to p x)) = some x

  -- `int(arg(key))`
  unfoldable pub count_arg : Dict Text F → Option (Arg F) → Option ℕ
  count_arg params a = and_then (arg params a) λ x. natural (trunc x)

  abbrev pub hundred : F
  hundred = of_int (pos 100)

  abbrev pub gain_of : F → F
  gain_of d = if lt nought d then d else nought

  abbrev pub loss_of : F → F
  loss_of d = if lt d nought then negate d else nought

  -- p[i] - p[i - 1], for each i
  unfoldable pub differences : List F → List F
  differences [] = []
  differences (x ∷ []) = []
  differences (x ∷ y ∷ xs) = minus y x ∷ differences (y ∷ xs)

  unfoldable pub ema_loop : F → F → List F → F
  ema_loop k e [] = e
  ema_loop k e (c ∷ cs) = ema_loop k (plus (times c k) (times e (minus one k))) cs

  -- The average, seeded on the first w of a list.
  unfoldable pub ema_of : ⦃m : Maths F⦄ → ℕ → List F → Option (Value F)
  ema_of w xs =
      and_then (divide (of_int (pos 2)) (count (w + 1)))
        λ k. and_then (mean (take w xs) w) λ seed. some (number (ema_loop k seed (drop w xs)))

  -- 100 - 100 / (1 + g / l), and 100 where l is 0
  unfoldable pub strength : F → F → Option (Value F)
  strength g l =
      if eq l nought
      then some (number hundred)
      else and_then (divide hundred (plus one (over g l))) λ x. some (number (minus hundred x))

  unfoldable pub sum_gains : F → List F → F
  sum_gains acc [] = acc
  sum_gains acc (d ∷ ds) = sum_gains (plus acc (gain_of d)) ds

  unfoldable pub sum_losses : F → List F → F
  sum_losses acc [] = acc
  sum_losses acc (d ∷ ds) = sum_losses (plus acc (loss_of d)) ds

  abbrev pub smoothed : ℕ → F → F → F
  smoothed w avg x = over (plus (times avg (count (w - 1))) x) (count w)

  unfoldable pub wilder_loop : ℕ → F → F → List F → F × F
  wilder_loop w ag al [] = (ag, al)
  wilder_loop w ag al (d ∷ ds) =
      wilder_loop w (smoothed w ag (gain_of d)) (smoothed w al (loss_of d)) ds

  unfoldable pub wilder_rsi : ℕ → List F → Option (Value F)
  wilder_rsi w p =
      let ds = differences p in
      let averages =
        wilder_loop w (over (sum_gains nought (take w ds)) (count w))
          (over (sum_losses nought (take w ds)) (count w)) (drop w ds) in
      if ltb w 1 || ltb (length p) (w + 1) then some not_ready else strength averages.0 averages.1

  unfoldable pub simple_rsi : ⦃m : Maths F⦄ → ℕ → List F → Option (Value F)
  simple_rsi ⦃m⦄ w returns =
      let window = last_n w returns in
      if ltb (length returns) w
      then some not_ready
      else and_then (mean (keep (λ r. lt nought r) window) w)
          λ g. and_then (mean (map negate (keep (λ r. lt r nought) window)) w) λ l. strength g l

  -- `max(xs)` and `min(xs)`
  unfoldable pub max_from : F → List F → F
  max_from best [] = best
  max_from best (x ∷ xs) = max_from (max_of best x) xs

  unfoldable pub min_from : F → List F → F
  min_from best [] = best
  min_from best (x ∷ xs) = min_from (min_of best x) xs

  unfoldable pub max_list : List F → Option (Value F)
  max_list [] = none
  max_list (x ∷ xs) = some (number (max_from x xs))

  unfoldable pub min_list : List F → Option (Value F)
  min_list [] = none
  min_list (x ∷ xs) = some (number (min_from x xs))

  unfoldable pub drawdown_loop : F → F → List F → Option F
  drawdown_loop peak worst [] = some worst
  drawdown_loop peak worst (c ∷ cs) =
      let top = max_of peak c in
      and_then (divide c top) λ q. drawdown_loop top (min_of worst (minus q one)) cs

  unfoldable pub drawdown_of : List F → Option (Value F)
  drawdown_of [] = none
  drawdown_of (c ∷ cs) = and_then (drawdown_loop c nought (c ∷ cs)) λ worst. some (number worst)

  -- The ranges of n sessions, from lists that start at the first of them, and the closes one before.
  unfoldable pub true_ranges : ℕ → List F → List F → List F → Option (List F)
  true_ranges zero highs lows prev = some []
  true_ranges (suc n) (h ∷ highs) (l ∷ lows) (pc ∷ prev) =
      and_then (true_ranges n highs lows prev) λ rest.
        some (max_of (max_of (minus h l) (abs_of (minus h pc))) (abs_of (minus l pc)) ∷ rest)
  true_ranges (suc n) (h ∷ highs) (l ∷ lows) [] = none
  true_ranges (suc n) (h ∷ highs) [] prev = none
  true_ranges (suc n) [] lows prev = none

  unfoldable pub atr_of : ⦃m : Maths F⦄ → ℕ → DailySeries F → Option (Value F)
  atr_of w s =
      let n = length s.closes in
      and_then
        (true_ranges w (drop (n - w) s.highs) (drop (n - w) s.lows) (drop (n - w - 1) s.closes))
        λ trs. and_then (mean trs w) λ x. some (number x)

  unfoldable pub cum_return_of : ℕ → List F → Option (Value F)
  cum_return_of w closes = and_then (item_back 1 closes) λ x.
      and_then (item_back (w + 1) closes)
        λ y. and_then (divide x y) λ q. some (number (minus q one))

  -- Nothing is ready before there are n observations.
  abbrev pub ready_after : ℕ → List F → Option (Value F) → Option (Value F)
  ready_after n xs v = if ltb (length xs) n then some not_ready else v

  abbrev pub as_value : Option F → Option (Value F)
  as_value x = and_then x λ y. some (number y)

  unfoldable pub windowed : ⦃m : Maths F⦄ → IndName → Bool → ℕ → DailySeries F → Option (Value F)
  windowed sma wilder w s = ready_after w s.closes (as_value (mean (last_n w s.closes) w))
  windowed ema wilder w s = ready_after w s.closes (ema_of w s.closes)
  windowed rsi wilder w s = if wilder then wilder_rsi w s.closes else simple_rsi w s.returns
  windowed realized_vol wilder w s =
      ready_after w s.returns (as_value (deviation (last_n w s.returns) w))
  windowed highest wilder w s = ready_after w s.closes (max_list (last_n w s.closes))
  windowed lowest wilder w s = ready_after w s.closes (min_list (last_n w s.closes))
  windowed cum_return wilder w s = ready_after (w + 1) s.closes (cum_return_of w s.closes)
  windowed drawdown wilder w s = ready_after w s.closes (drawdown_of (last_n w s.closes))
  windowed std wilder w s = ready_after w s.closes (as_value (deviation (last_n w s.closes) w))
  windowed atr wilder w s = ready_after (w + 1) s.closes (atr_of w s)
  windowed name wilder w s = none

  -- `_compute` for a node whose name is not one of those that read a history.
  unfoldable pub compute_plain :
      ⦃m : Maths F⦄ → Dict Text F → IndNode F → DailySeries F → Option (Value F)
  compute_plain params node s =
      and_then (count_arg params node.window) λ w. windowed node.name node.wilder w s
