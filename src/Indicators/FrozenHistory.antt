-- ===== src/Indicators/FrozenHistory.antt =====
-- A frozen node computes what it did before: the indicators that read a history.
use deployquant.Prelude.{
  ℕ, zero, suc, ◌+◌, ◌≡◌, refl, ap, ◌∙◌, Bool, true, false, Option, none, some, List, [],
  if◌then◌else◌,
}
use deployquant.Prelude.Text.{Text}
use deployquant.Prelude.Float.{Float}
use deployquant.Prelude.Eq.{eq_nat, eq_list}
use deployquant.Prelude.Dict.{Dict, lookup}
use deployquant.Exprs.{Value, not_ready}
use deployquant.Indicators.Series.{Maths, and_then, DailySeries}
use deployquant.Indicators.Plain.{
  IndName, price, prior_close, sma, ema, rsi, realized_vol, pct_rank, highest, lowest, cum_return,
  drawdown, std, atr, series_ema, series_sma, unknown_ind, IndNode, as_value, count_arg,
}
use deployquant.Indicators.Nodes.{
  Inner, inner_num, inner_param, bound_param, inner_ind, inner_arith, other_inner, asof,
}
use deployquant.Indicators.History.{
  slice_to, trailing_run, history_loop, expr_history, inner_history_of, inner_history, percentile,
  smooth, compute_as, vol_history,
}
use deployquant.Indicators.Engine.{freeze_node, freeze_inner, freeze_inners}
use deployquant.Indicators.History.{min_obs_of, rank_of, too_short, compute}
use deployquant.Indicators.Series.{last_n, mean}
use deployquant.Indicators.Plain.{ema_of}
use deployquant.Indicators.Engine.{freeze_key, Key}
use deployquant.Indicators.Frozen.{
  and_then-some, some_inj, Same, freeze_node-Same, plain-Same, asof-freeze,
}

then_eq {ℓ κ} :
    {A : Type ℓ} {B : Type κ} (o : Option A) {g k : A → Option B}
    → ((a : A) → g a ≡ k a)
    → and_then o g ≡ and_then o k
then_eq none h = refl
then_eq (some a) h = h a

module _ {ℓ} {F : Type ℓ} ⦃f : Float F⦄ ⦃m : Maths F⦄ where
  loop-freeze :
      (symbol : Text) (params : Dict Text F) (e k : Inner F) (s : DailySeries F) (n upto : ℕ)
      (vals : List F)
      → freeze_inner params e ≡ some k
      → history_loop symbol params e s n upto vals ≡ history_loop symbol [] k s n upto vals
  unfolding history_loop
  loop-freeze symbol params e k s zero upto vals h = refl
  loop-freeze symbol params e k s (suc n) upto vals h =
      ap (λ o. and_then o λ v. history_loop symbol params e s n (suc upto) (trailing_run vals v))
        (asof-freeze symbol params e k (slice_to upto s) h)
      ∙ then_eq (asof symbol [] k (slice_to upto s))
          λ v. loop-freeze symbol params e k s n (suc upto) (trailing_run vals v) h

  expr-freeze :
      (symbol : Text) (params : Dict Text F) (e k : Inner F) (s : DailySeries F) (len : ℕ)
      → freeze_inner params e ≡ some k
      → expr_history symbol params e s len ≡ expr_history symbol [] k s len
  unfolding expr_history
  expr-freeze symbol params e k s len h = loop-freeze symbol params e k s _ _ [] h

  ind-freeze :
      (name : IndName) (symbol : Text) (params : Dict Text F) (n j : IndNode F) (s : DailySeries F)
      (len : ℕ)
      → Same params n j
      → freeze_inner params (inner_ind n) ≡ some (inner_ind j)
      → inner_history_of name symbol params n s len ≡ inner_history_of name symbol [] j s len
  unfolding inner_history_of
  ind-freeze price symbol params n j s len same h =
      expr-freeze symbol params (inner_ind n) (inner_ind j) s len h
  ind-freeze prior_close symbol params n j s len same h =
      expr-freeze symbol params (inner_ind n) (inner_ind j) s len h
  ind-freeze sma symbol params n j s len same h =
      expr-freeze symbol params (inner_ind n) (inner_ind j) s len h
  ind-freeze ema symbol params n j s len same h =
      expr-freeze symbol params (inner_ind n) (inner_ind j) s len h
  ind-freeze rsi symbol params n j s len same h =
      expr-freeze symbol params (inner_ind n) (inner_ind j) s len h
  ind-freeze realized_vol symbol params n j s len same h =
      ap (λ o. and_then o λ w. vol_history w len s.returns) same.window_eq
  ind-freeze pct_rank symbol params n j s len same h =
      expr-freeze symbol params (inner_ind n) (inner_ind j) s len h
  ind-freeze highest symbol params n j s len same h =
      expr-freeze symbol params (inner_ind n) (inner_ind j) s len h
  ind-freeze lowest symbol params n j s len same h =
      expr-freeze symbol params (inner_ind n) (inner_ind j) s len h
  ind-freeze cum_return symbol params n j s len same h =
      expr-freeze symbol params (inner_ind n) (inner_ind j) s len h
  ind-freeze drawdown symbol params n j s len same h =
      expr-freeze symbol params (inner_ind n) (inner_ind j) s len h
  ind-freeze std symbol params n j s len same h =
      expr-freeze symbol params (inner_ind n) (inner_ind j) s len h
  ind-freeze atr symbol params n j s len same h =
      expr-freeze symbol params (inner_ind n) (inner_ind j) s len h
  ind-freeze series_ema symbol params n j s len same h =
      expr-freeze symbol params (inner_ind n) (inner_ind j) s len h
  ind-freeze series_sma symbol params n j s len same h =
      expr-freeze symbol params (inner_ind n) (inner_ind j) s len h
  ind-freeze unknown_ind symbol params n j s len same h =
      expr-freeze symbol params (inner_ind n) (inner_ind j) s len h

  history-freeze :
      (symbol : Text) (params : Dict Text F) (e k : Inner F) (s : DailySeries F) (len : ℕ)
      → freeze_inner params e ≡ some k
      → inner_history symbol params e s len ≡ inner_history symbol [] k s len
  unfolding inner_history freeze_inner
  history-freeze symbol params (inner_num x) k s len h =
      ap (λ j. inner_history symbol [] j s len) (some_inj h)
  history-freeze symbol params (bound_param p x) k s len h =
      expr-freeze symbol params (bound_param p x) (bound_param p x) s len refl
      ∙ ap (λ j. inner_history symbol [] j s len) (some_inj h)
  history-freeze symbol params other_inner k s len h =
      expr-freeze symbol params other_inner other_inner s len refl
      ∙ ap (λ j. inner_history symbol [] j s len) (some_inj h)
  history-freeze symbol params (inner_param p) k s len h =
      let split = and_then-some (lookup p params) _ k h in
      expr-freeze symbol params (inner_param p) (bound_param p split.0) s len
        (ap (λ o. and_then o λ x. some (bound_param p x)) split.1.0)
      ∙ ap (λ j. inner_history symbol [] j s len) (some_inj split.1.1)
  history-freeze symbol params (inner_ind n) k s len h =
      let split = and_then-some (freeze_node params n) _ k h in
      let same = freeze_node-Same params n split.0 split.1.0 in
      ind-freeze n.name symbol params n split.0 s len same
        (ap (λ o. and_then o λ j. some (inner_ind j)) split.1.0)
      ∙ ap (λ x. inner_history_of x symbol [] split.0 s len) same.name_eq
      ∙ ap (λ j. inner_history symbol [] j s len) (some_inj split.1.1)
  history-freeze symbol params (inner_arith op es) k s len h =
      let split = and_then-some (freeze_inners params es) _ k h in
      expr-freeze symbol params (inner_arith op es) (inner_arith op split.0) s len
        (ap (λ o. and_then o λ ks. some (inner_arith op ks)) split.1.0)
      ∙ ap (λ j. inner_history symbol [] j s len) (some_inj split.1.1)

  percentile-freeze :
      (symbol : Text) (params : Dict Text F) (n j : IndNode F) (e k : Inner F) (s : DailySeries F)
      → Same params n j
      → freeze_inner params e ≡ some k
      → percentile symbol params n e s ≡ percentile symbol [] j k s
  unfolding percentile
  percentile-freeze symbol params n j e k s same h =
      let rank : ℕ → List F → Option (Value F) =
        λ obs hist. if too_short hist obs then some not_ready else rank_of hist in
      ap
        (λ o. and_then o λ len.
          and_then (min_obs_of params n.min_obs)
            λ obs. and_then (inner_history symbol params e s len) (rank obs))
        same.lookback_eq
      ∙ ap
          (λ o.
            and_then (count_arg [] j.lookback)
              λ len. and_then o λ obs. and_then (inner_history symbol params e s len) (rank obs))
          same.min_obs_eq
      ∙ then_eq (count_arg [] j.lookback) λ len.
        then_eq (min_obs_of [] j.min_obs)
          λ obs. ap (λ o. and_then o (rank obs)) (history-freeze symbol params e k s len h)

  smooth-freeze :
      (b : Bool) (symbol : Text) (params : Dict Text F) (n j : IndNode F) (e k : Inner F)
      (s : DailySeries F)
      → Same params n j
      → freeze_inner params e ≡ some k
      → smooth b symbol params n e s ≡ smooth b symbol [] j k s
  unfolding smooth
  smooth-freeze b symbol params n j e k s same h =
      let finish : ℕ → List F → Option (Value F) = λ w hist.
        if too_short hist w
        then some not_ready
        else (if b then as_value (mean (last_n w hist) w) else ema_of w hist) in
      ap
        (λ o. and_then o λ w. and_then (expr_history symbol params e s (w + w + w + 10)) (finish w))
        same.window_eq
      ∙ then_eq (count_arg [] j.window)
          λ w. ap (λ o. and_then o (finish w)) (expr-freeze symbol params e k s (w + w + w + 10) h)

  compute_as-freeze :
      (name : IndName) (symbol : Text) (params : Dict Text F) (n j : IndNode F) (e k : Inner F)
      (live s : DailySeries F)
      → Same params n j
      → freeze_inner params e ≡ some k
      → compute_as name symbol params n e live s ≡ compute_as name symbol [] j k live s
  unfolding compute_as
  compute_as-freeze price symbol params n j e k live s same h = plain-Same params n j s same
  compute_as-freeze prior_close symbol params n j e k live s same h = plain-Same params n j s same
  compute_as-freeze sma symbol params n j e k live s same h = plain-Same params n j s same
  compute_as-freeze ema symbol params n j e k live s same h = plain-Same params n j s same
  compute_as-freeze rsi symbol params n j e k live s same h = plain-Same params n j s same
  compute_as-freeze realized_vol symbol params n j e k live s same h = plain-Same params n j s same
  compute_as-freeze pct_rank symbol params n j e k live s same h =
      percentile-freeze symbol params n j e k live same h
  compute_as-freeze highest symbol params n j e k live s same h = plain-Same params n j s same
  compute_as-freeze lowest symbol params n j e k live s same h = plain-Same params n j s same
  compute_as-freeze cum_return symbol params n j e k live s same h = plain-Same params n j s same
  compute_as-freeze drawdown symbol params n j e k live s same h = plain-Same params n j s same
  compute_as-freeze std symbol params n j e k live s same h = plain-Same params n j s same
  compute_as-freeze atr symbol params n j e k live s same h = plain-Same params n j s same
  compute_as-freeze series_ema symbol params n j e k live s same h =
      smooth-freeze false symbol params n j e k live same h
  compute_as-freeze series_sma symbol params n j e k live s same h =
      smooth-freeze true symbol params n j e k live same h
  compute_as-freeze unknown_ind symbol params n j e k live s same h = plain-Same params n j s same

  -- The value of a node is the value of its key.
  pub compute-freeze :
      (symbol : Text) (params : Dict Text F) (n : IndNode F) (e : Inner F) (key : Key F)
      (s : DailySeries F)
      → freeze_key symbol params n e ≡ some key
      → (symbol ≡ key.0) × (compute symbol params n e s s ≡ compute key.0 [] key.1.0 key.1.1 s s)
  unfolding freeze_key
  compute-freeze symbol params n e key s h =
      let node = and_then-some (freeze_node params n) _ key h in
      let inner = and_then-some (freeze_inner params e) _ key node.1.1 in
      let p = some_inj inner.1.1 in
      let same = freeze_node-Same params n node.0 node.1.0 in
      (
        ap (λ (x : Key F). x.0) p,
        compute_as-freeze n.name symbol params n node.0 e inner.0 s s same inner.1.0
            ∙ ap (λ x. compute_as x symbol [] node.0 inner.0 s s) same.name_eq
            ∙ ap (λ (x : Key F). compute x.0 [] x.1.0 x.1.1 s s) p,
      )
