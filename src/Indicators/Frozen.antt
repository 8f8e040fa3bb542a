-- ===== src/Indicators/Frozen.antt =====
-- A node that is frozen under its parameters computes what it did before, and needs none.
use deployquant.Prelude.{◌≡◌, refl, ap, ◌∙◌, Option, none, some, [], ◌∷◌, if◌then◌else◌}
use deployquant.Prelude.Text.{Text}
use deployquant.Prelude.Float.{Float}
use deployquant.Prelude.Eq.{eq_nat, eq_list}
use deployquant.Prelude.Dict.{Dict, lookup}
use deployquant.Indicators.Series.{Maths, and_then, DailySeries}
use deployquant.Indicators.Plain.{
  IndName, price, prior_close, sma, ema, rsi, realized_vol, pct_rank, highest, lowest, cum_return,
  drawdown, std, atr, series_ema, series_sma, unknown_ind, Arg, given, by_param, bound_to, IndNode,
  arg, natural, as_value, count_arg, windowed, compute_plain,
}
use deployquant.Indicators.Nodes.{
  Inner, inner_num, inner_param, bound_param, inner_ind, inner_arith, other_inner, Inners,
  no_inners, more_inners, reads_history, is_foreign, named, asof_ind, asof, asof_list, arith_asof,
}
use deployquant.Indicators.History.{min_obs_of}
use deployquant.Indicators.Engine.{freeze_arg, freeze_node, freeze_inner, freeze_inners}

-- A chain that answers has answered at every step.
pub and_then-some {ℓ κ} :
    {A : Type ℓ} {B : Type κ} (o : Option A) (k : A → Option B) (b : B)
    → and_then o k ≡ some b
    → (a : A) × ((o ≡ some a) × (k a ≡ some b))
and_then-some none k b h = absurd (cc h)
and_then-some (some a) k b h = (a, (refl, h))

pub some_inj {ℓ} : {A : Type ℓ} {a b : A} → some a ≡ some b → a ≡ b
some_inj h = cc h

module _ {ℓ} {F : Type ℓ} ⦃f : Float F⦄ ⦃m : Maths F⦄ where
  bound_is_some : (params : Dict Text F) (a : Arg F) → freeze_arg params (some a) ≡ some none → ⊥
  unfolding freeze_arg
  bound_is_some params (given x) h = absurd (cc (some_inj h))
  bound_is_some params (bound_to p x) h = absurd (cc (some_inj h))
  bound_is_some params (by_param p) h =
      absurd (cc (some_inj (and_then-some (lookup p params) _ none h).1.1))

  arg-freeze :
      (params : Dict Text F) (a b : Option (Arg F))
      → freeze_arg params a ≡ some b
      → arg params a ≡ arg [] b
  unfolding freeze_arg arg
  arg-freeze params none b h = ap (arg []) (some_inj h)
  arg-freeze params (some (given x)) b h = ap (arg []) (some_inj h)
  arg-freeze params (some (bound_to p x)) b h = ap (arg []) (some_inj h)
  arg-freeze params (some (by_param p)) b h =
      let split = and_then-some (lookup p params) _ b h in
      split.1.0 ∙ ap (arg []) (some_inj split.1.1)

  count_arg-freeze :
      (params : Dict Text F) (a b : Option (Arg F))
      → freeze_arg params a ≡ some b
      → count_arg params a ≡ count_arg [] b
  unfolding count_arg
  count_arg-freeze params a b h =
      ap (λ o. and_then o λ x. natural (f.trunc x)) (arg-freeze params a b h)

  min_obs-freeze :
      (params : Dict Text F) (a b : Option (Arg F))
      → freeze_arg params a ≡ some b
      → min_obs_of params a ≡ min_obs_of [] b
  unfolding min_obs_of freeze_arg
  min_obs-freeze params none b h = ap (min_obs_of []) (some_inj h)
  min_obs-freeze params (some a) none h = absurd (bound_is_some params a h)
  min_obs-freeze params (some a) (some b) h = count_arg-freeze params (some a) (some b) h

  -- What a frozen node keeps of the node.
  pub record Same (params : Dict Text F) (n k : IndNode F) : Type ℓ where
    pub name_eq : n.name ≡ k.name
    pub window_eq : count_arg params n.window ≡ count_arg [] k.window
    pub lookback_eq : count_arg params n.lookback ≡ count_arg [] k.lookback
    pub min_obs_eq : min_obs_of params n.min_obs ≡ min_obs_of [] k.min_obs
    pub wilder_eq : n.wilder ≡ k.wilder
    pub symbol_eq : n.symbol ≡ k.symbol

  pub freeze_node-Same :
      (params : Dict Text F) (n k : IndNode F) → freeze_node params n ≡ some k → Same params n k
  unfolding freeze_node
  freeze_node-Same params n k h =
      let w = and_then-some (freeze_arg params n.window) _ k h in
      let l = and_then-some (freeze_arg params n.lookback) _ k w.1.1 in
      let o = and_then-some (freeze_arg params n.min_obs) _ k l.1.1 in
      let p = some_inj o.1.1 in
      record {
        name_eq = ap (λ (j : IndNode F). j.name) p;
        window_eq =
            count_arg-freeze params n.window w.0 w.1.0
            ∙ ap (λ (j : IndNode F). count_arg [] j.window) p;
        lookback_eq =
            count_arg-freeze params n.lookback l.0 l.1.0
            ∙ ap (λ (j : IndNode F). count_arg [] j.lookback) p;
        min_obs_eq =
            min_obs-freeze params n.min_obs o.0 o.1.0
            ∙ ap (λ (j : IndNode F). min_obs_of [] j.min_obs) p;
        wilder_eq = ap (λ (j : IndNode F). j.wilder) p;
        symbol_eq = ap (λ (j : IndNode F). j.symbol) p;
      }

  pub plain-Same :
      (params : Dict Text F) (n k : IndNode F) (s : DailySeries F)
      → Same params n k
      → compute_plain params n s ≡ compute_plain [] k s
  unfolding compute_plain
  plain-Same params n k s h =
      ap (λ o. and_then o λ w. windowed n.name n.wilder w s) h.window_eq
      ∙ ap (λ x. and_then (count_arg [] k.window) λ w. windowed x n.wilder w s) h.name_eq
      ∙ ap (λ x. and_then (count_arg [] k.window) λ w. windowed k.name x w s) h.wilder_eq

  named-Same :
      (name : IndName) (params : Dict Text F) (n k : IndNode F) (s : DailySeries F)
      → Same params n k
      → named name params n s ≡ named name [] k s
  unfolding named
  named-Same price params n k s h = refl
  named-Same prior_close params n k s h = refl
  named-Same sma params n k s h =
      ap (λ o. if reads_history sma then none else o) (plain-Same params n k s h)
  named-Same ema params n k s h =
      ap (λ o. if reads_history ema then none else o) (plain-Same params n k s h)
  named-Same rsi params n k s h =
      ap (λ o. if reads_history rsi then none else o) (plain-Same params n k s h)
  named-Same realized_vol params n k s h =
      ap (λ o. if reads_history realized_vol then none else o) (plain-Same params n k s h)
  named-Same pct_rank params n k s h =
      ap (λ o. if reads_history pct_rank then none else o) (plain-Same params n k s h)
  named-Same highest params n k s h =
      ap (λ o. if reads_history highest then none else o) (plain-Same params n k s h)
  named-Same lowest params n k s h =
      ap (λ o. if reads_history lowest then none else o) (plain-Same params n k s h)
  named-Same cum_return params n k s h =
      ap (λ o. if reads_history cum_return then none else o) (plain-Same params n k s h)
  named-Same drawdown params n k s h =
      ap (λ o. if reads_history drawdown then none else o) (plain-Same params n k s h)
  named-Same std params n k s h =
      ap (λ o. if reads_history std then none else o) (plain-Same params n k s h)
  named-Same atr params n k s h =
      ap (λ o. if reads_history atr then none else o) (plain-Same params n k s h)
  named-Same series_ema params n k s h =
      ap (λ o. if reads_history series_ema then none else o) (plain-Same params n k s h)
  named-Same series_sma params n k s h =
      ap (λ o. if reads_history series_sma then none else o) (plain-Same params n k s h)
  named-Same unknown_ind params n k s h =
      ap (λ o. if reads_history unknown_ind then none else o) (plain-Same params n k s h)

  asof_ind-Same :
      (symbol : Text) (params : Dict Text F) (n k : IndNode F) (s : DailySeries F)
      → Same params n k
      → asof_ind symbol params n s ≡ asof_ind symbol [] k s
  unfolding asof_ind
  asof_ind-Same symbol params n k s h =
      ap (λ o. if is_foreign symbol n.symbol then none else o)
        (named-Same n.name params n k s h ∙ ap (λ x. named x [] k s) h.name_eq)
      ∙ ap (λ x. if is_foreign symbol x then none else named k.name [] k s) h.symbol_eq

  mutual
    unfolding freeze_inner asof freeze_inners asof_list

    pub asof-freeze :
        (symbol : Text) (params : Dict Text F) (e k : Inner F) (s : DailySeries F)
        → freeze_inner params e ≡ some k
        → asof symbol params e s ≡ asof symbol [] k s
    asof-freeze symbol params (inner_num x) k s h = ap (λ j. asof symbol [] j s) (some_inj h)
    asof-freeze symbol params (bound_param p x) k s h = ap (λ j. asof symbol [] j s) (some_inj h)
    asof-freeze symbol params other_inner k s h = ap (λ j. asof symbol [] j s) (some_inj h)
    asof-freeze symbol params (inner_param p) k s h =
        let split = and_then-some (lookup p params) _ k h in
        ap as_value split.1.0 ∙ ap (λ j. asof symbol [] j s) (some_inj split.1.1)
    asof-freeze symbol params (inner_ind n) k s h =
        let split = and_then-some (freeze_node params n) _ k h in
        asof_ind-Same symbol params n split.0 s (freeze_node-Same params n split.0 split.1.0)
        ∙ ap (λ j. asof symbol [] j s) (some_inj split.1.1)
    asof-freeze symbol params (inner_arith op es) k s h =
        let split = and_then-some (freeze_inners params es) _ k h in
        ap (λ o. and_then o λ vs. arith_asof op vs)
          (asof_list-freeze symbol params es split.0 s split.1.0)
        ∙ ap (λ j. asof symbol [] j s) (some_inj split.1.1)

    asof_list-freeze :
        (symbol : Text) (params : Dict Text F) (es ks : Inners F) (s : DailySeries F)
        → freeze_inners params es ≡ some ks
        → asof_list symbol params es s ≡ asof_list symbol [] ks s
    asof_list-freeze symbol params no_inners ks s h =
        ap (λ js. asof_list symbol [] js s) (some_inj h)
    asof_list-freeze symbol params (more_inners e es) ks s h =
        let first = and_then-some (freeze_inner params e) _ ks h in
        let rest = and_then-some (freeze_inners params es) _ ks first.1.1 in
        ap (λ o. and_then o λ v. and_then (asof_list symbol params es s) λ vs. some (v ∷ vs))
          (asof-freeze symbol params e first.0 s first.1.0)
        ∙ ap (λ o. and_then (asof symbol [] first.0 s) λ v. and_then o λ vs. some (v ∷ vs))
            (asof_list-freeze symbol params es rest.0 s rest.1.0)
        ∙ ap (λ js. asof_list symbol [] js s) (some_inj rest.1.1)
