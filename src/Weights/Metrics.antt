-- ===== src/Weights/Metrics.antt =====
-- dqengine/runtime/core/weights.py: the metrics that children are ranked by. The outer `none` is the
-- ValueError, the inner one is None.
use deployquant.Prelude.{ℕ, ◌+◌, Option, none, some, List, [], ◌∷◌, map, length, ltb, if◌then◌else◌}
use deployquant.Prelude.Float.{Float, nought, min_of, max_of, nonzero}
use deployquant.Indicators.Series.{Maths, item_back, last_n, one, count}

pub data Metric : Type 0 where
  cum_return_metric drawdown_metric mean_return_metric realized_vol_metric other_metric : Metric

module _ {ℓ} {F : Type ℓ} ⦃f : Float F⦄ where
  open f use {plus, minus, times, over, lt, eq}

  -- closes[i] / closes[i - 1] - 1.0, where closes[i - 1] is not 0
  unfoldable pub returns_of : List F → List F
  returns_of [] = []
  returns_of (x ∷ []) = []
  returns_of (x ∷ y ∷ xs) =
      if nonzero x then minus (over y x) one ∷ returns_of (y ∷ xs) else returns_of (y ∷ xs)

  unfoldable pub product : F → List F → F
  product acc [] = acc
  product acc (x ∷ xs) = product (times acc (plus one x)) xs

  -- The worst fall below a peak: of closes, and of an equity curve.
  unfoldable pub worst_of_closes : F → F → List F → F
  worst_of_closes peak worst [] = worst
  worst_of_closes peak worst (c ∷ cs) =
      let top = max_of peak c in
      worst_of_closes top (if lt nought top then min_of worst (minus (over c top) one) else worst)
        cs

  unfoldable pub worst_of_returns : F → F → F → List F → F
  worst_of_returns equity peak worst [] = worst
  worst_of_returns equity peak worst (x ∷ xs) =
      let now = times equity (plus one x) in
      let top = max_of peak now in
      worst_of_returns now top
        (if lt nought top then min_of worst (minus (over now top) one) else worst) xs

  abbrev pub average_of : ⦃m : Maths F⦄ → List F → F
  average_of ⦃m⦄ r = over (m.sum_of r) (count (length r))

  unfoldable pub deviation_of : ⦃m : Maths F⦄ → List F → F
  deviation_of ⦃m⦄ r =
      m.sqrt (over (m.sum_of (map (λ x. m.square (minus x (average_of r))) r)) (count (length r)))

  -- None of an empty list.
  unfoldable pub of_any : List F → F → Option F
  of_any [] v = none
  of_any (x ∷ xs) v = some v

  -- `r` is the last returns of the window.
  unfoldable pub metric_of_window : ⦃m : Maths F⦄ → Metric → List F → Option (Option F)
  metric_of_window cum_return_metric r = some (of_any r (minus (product one r) one))
  metric_of_window drawdown_metric r = some (of_any r (worst_of_returns one one nought r))
  metric_of_window mean_return_metric r = some (of_any r (average_of r))
  metric_of_window realized_vol_metric r =
      some (if ltb (length r) 2 then none else some (deviation_of r))
  metric_of_window other_metric r = none

  unfoldable pub metric_from_returns : ⦃m : Maths F⦄ → Metric → List F → ℕ → Option (Option F)
  metric_from_returns metric rets window = metric_of_window metric (last_n window rets)

  unfoldable pub total_return : Option F → Option F → Option F
  total_return none base = none
  total_return (some x) none = none
  total_return (some x) (some base) =
      if eq base nought then none else some (minus (over x base) one)

  unfoldable pub drawdown_of_closes : List F → Option F
  drawdown_of_closes [] = none
  drawdown_of_closes (c ∷ []) = none
  drawdown_of_closes (c ∷ d ∷ cs) = some (worst_of_closes c nought (c ∷ d ∷ cs))

  unfoldable pub metric_from_closes : ⦃m : Maths F⦄ → Metric → List F → ℕ → Option (Option F)
  metric_from_closes cum_return_metric closes n = some (
      if ltb (length closes) (n + 1)
      then none
      else total_return (item_back 1 closes) (item_back (n + 1) closes))
  metric_from_closes drawdown_metric closes n = some (drawdown_of_closes (last_n (n + 1) closes))
  metric_from_closes metric closes n = metric_from_returns metric (returns_of closes) n
