-- ===== src/Indicators/History.antt =====
-- dqengine/runtime/core/indicators.py: `_compute`, and the histories that its last indicators read.
use deployquant.Prelude.{
  ℕ, zero, suc, ◌+◌, ◌-◌, Bool, true, false, Option, none, some, List, [], ◌∷◌, ◌++◌, length, take,
  drop, ltb, leb, if◌then◌else◌,
}
use deployquant.Prelude.Text.{Text}
use deployquant.Prelude.Eq.{eq_nat, eq_list}
use deployquant.Prelude.Float.{divide, Float, min_of}
use deployquant.Prelude.Dict.{Dict}
use deployquant.Exprs.{Value, number, flag, not_ready}
use deployquant.Indicators.Series.{
  Maths, and_then, item_back, last_n, DailySeries, one, count, mean, deviation,
}
use deployquant.Indicators.Plain.{
  IndName, realized_vol, pct_rank, series_ema, series_sma, Arg, IndNode, count_arg, ema_of,
  as_value, compute_plain,
}
use deployquant.Indicators.Nodes.{Inner, asof, inner_num, inner_ind}

abbrev pub max_ℕ : ℕ → ℕ → ℕ
max_ℕ a b = if leb a b then b else a

module _ {ℓ} {F : Type ℓ} ⦃f : Float F⦄ where
  open f use {plus, minus, times, le, lt}

  -- The series as it stood after `upto` sessions.
  unfoldable pub slice_to : ℕ → DailySeries F → DailySeries F
  slice_to upto s = record {
    closes = take upto s.closes;
    returns = take (upto - 1) s.returns;
    highs = take upto s.highs;
    lows = take upto s.lows;
  }

  -- `vals` after one more value: a day that is not ready starts the run again.
  unfoldable pub trailing_run : List F → Value F → List F
  trailing_run vals (number v) = vals ++ v ∷ []
  trailing_run vals (flag b) = vals
  trailing_run vals not_ready = []

  unfoldable pub history_loop :
      ⦃m : Maths F⦄
      → Text
      → Dict Text F
      → Inner F
      → DailySeries F
      → ℕ
      → ℕ
      → List F
      → Option (List F)
  history_loop symbol params e s zero upto vals = some vals
  history_loop symbol params e s (suc n) upto vals =
      and_then (asof symbol params e (slice_to upto s))
        λ v. history_loop symbol params e s n (suc upto) (trailing_run vals v)

  -- None is the empty list.
  unfoldable pub expr_history :
      ⦃m : Maths F⦄ → Text → Dict Text F → Inner F → DailySeries F → ℕ → Option (List F)
  expr_history symbol params e s len =
      let n = length s.closes in
      let start = max_ℕ 1 (n + 1 - len) in history_loop symbol params e s (n + 1 - start) start []

  -- The deviations of the w returns before `end` and before each later end.
  unfoldable pub vol_loop : ⦃m : Maths F⦄ → ℕ → List F → ℕ → ℕ → Option (List F)
  vol_loop w rets zero end = some []
  vol_loop w rets (suc n) end =
      and_then (deviation (take w (drop (end - w) rets)) w)
        λ v. and_then (vol_loop w rets n (suc end)) λ vs. some (v ∷ vs)

  unfoldable pub vol_history : ⦃m : Maths F⦄ → ℕ → ℕ → List F → Option (List F)
  vol_history w lookback rets =
      let start = max_ℕ w (length rets + 1 - lookback) in
      if ltb (length rets) w then some [] else vol_loop w rets (length rets + 1 - start) start

  unfoldable pub inner_history_of :
      ⦃m : Maths F⦄ → IndName → Text → Dict Text F → IndNode F → DailySeries F → ℕ → Option (List F)
  inner_history_of realized_vol symbol params node s lookback =
      and_then (count_arg params node.window) λ w. vol_history w lookback s.returns
  inner_history_of name symbol params node s lookback =
      expr_history symbol params (inner_ind node) s lookback

  -- `inner_node.get` is an error for a number.
  unfoldable pub inner_history :
      ⦃m : Maths F⦄ → Text → Dict Text F → Inner F → DailySeries F → ℕ → Option (List F)
  inner_history symbol params (inner_num x) s lookback = none
  inner_history symbol params (inner_ind node) s lookback =
      inner_history_of node.name symbol params node s lookback
  inner_history symbol params e s lookback = expr_history symbol params e s lookback

  -- `sorted(xs)`
  unfoldable pub insert_sorted : F → List F → List F
  insert_sorted x [] = x ∷ []
  insert_sorted x (y ∷ ys) = if lt x y then x ∷ y ∷ ys else y ∷ insert_sorted x ys

  unfoldable pub sorted_from : List F → List F → List F
  sorted_from done [] = done
  sorted_from done (x ∷ xs) = sorted_from (insert_sorted x done) xs

  -- One more than the last index i with v >= xs[i], of those from `i`.
  unfoldable pub rank_loop : F → ℕ → List F → ℕ → ℕ
  rank_loop v i [] best = best
  rank_loop v i (x ∷ xs) best = rank_loop v (suc i) xs (if le x v then suc i else best)

  unfoldable pub rank_of : List F → Option (Value F)
  rank_of hist =
      let n = length hist in
      and_then (item_back 1 hist) λ v.
        if leb n 1
        then some (number one)
        else (and_then (divide (count (rank_loop v 0 (sorted_from [] hist) 0)) (count (n - 1)))
            λ r. some (number (min_of one r)))

  unfoldable pub too_short : List F → ℕ → Bool
  too_short [] n = true
  too_short (x ∷ xs) n = ltb (length (x ∷ xs)) n

  -- `int(arg("min_obs", 60))`
  unfoldable pub min_obs_of : Dict Text F → Option (Arg F) → Option ℕ
  min_obs_of params none = some 60
  min_obs_of params (some a) = count_arg params (some a)

  unfoldable pub percentile :
      ⦃m : Maths F⦄ → Text → Dict Text F → IndNode F → Inner F → DailySeries F → Option (Value F)
  percentile symbol params node e live = and_then (count_arg params node.lookback) λ lookback.
      and_then (min_obs_of params node.min_obs) λ min_obs.
        and_then (inner_history symbol params e live lookback)
          λ hist. if too_short hist min_obs then some not_ready else rank_of hist

  unfoldable pub smooth :
      ⦃m : Maths F⦄
      → Bool
      → Text
      → Dict Text F
      → IndNode F
      → Inner F
      → DailySeries F
      → Option (Value F)
  smooth is_sma symbol params node e live = and_then (count_arg params node.window) λ w.
      and_then (expr_history symbol params e live (w + w + w + 10)) λ hist.
        if too_short hist w
        then some not_ready
        else (if is_sma then as_value (mean (last_n w hist) w) else ema_of w hist)

  -- `s` is the series to read, and `live` the one that histories are taken from.
  unfoldable pub compute_as :
      ⦃m : Maths F⦄
      → IndName
      → Text
      → Dict Text F
      → IndNode F
      → Inner F
      → DailySeries F
      → DailySeries F
      → Option (Value F)
  compute_as pct_rank symbol params node e live s = percentile symbol params node e live
  compute_as series_sma symbol params node e live s = smooth true symbol params node e live
  compute_as series_ema symbol params node e live s = smooth false symbol params node e live
  compute_as name symbol params node e live s = compute_plain params node s

  abbrev pub compute :
      ⦃m : Maths F⦄
      → Text
      → Dict Text F
      → IndNode F
      → Inner F
      → DailySeries F
      → DailySeries F
      → Option (Value F)
  compute symbol params node e live s = compute_as node.name symbol params node e live s
