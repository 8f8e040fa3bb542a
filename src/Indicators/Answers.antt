-- ===== src/Indicators/Answers.antt =====
-- An answer agrees with a fresh computation, whether it was in the cache or not.
use deployquant.Prelude.{
  ℕ, ◌≡◌, refl, sym, ap, ◌∙◌, Bool, true, false, Option, none, some, if◌then◌else◌,
}
use deployquant.Prelude.Text.{Text}
use deployquant.Prelude.Float.{Float}
use deployquant.Prelude.Eq.{Eq, eq_nat, eq_list}
use deployquant.Prelude.Dict.{Dict, lookup, get}
use deployquant.Exprs.{Value}
use deployquant.Indicators.Series.{Maths, and_then}
use deployquant.Indicators.Plain.{
  IndName, price, prior_close, sma, ema, rsi, realized_vol, pct_rank, highest, lowest, cum_return,
  drawdown, std, atr, series_ema, series_sma, unknown_ind, IndNode,
}
use deployquant.Indicators.Nodes.{Inner}
use deployquant.Indicators.History.{compute}
use deployquant.Indicators.Engine.{
  Key, Engine, series, freeze_key, series_with_today, snapshot, price_value, fresh_hit, remember,
  answer, cached_value, unchanged, series_value, value_of,
}
use deployquant.Indicators.FrozenHistory.{compute-freeze}
use deployquant.Indicators.Cache.{worth, Coherent, remember-Coherent, hit_lem}

module _ {ℓ} {F : Type ℓ} ⦃f : Float F⦄ ⦃m : Maths F⦄ where
  -- A value without the cache: a node whose parameters are missing has none.
  unfoldable pub fresh_series_value :
      IndNode F → Inner F → Text → Dict Text F → Engine F → Option (Value F)
  fresh_series_value node of symbol params e =
      if node.include_today
      then compute symbol params node of (series symbol e) (series_with_today symbol e)
      else (and_then (freeze_key symbol params node of)
          λ key. compute symbol params node of (series symbol e) (series symbol e))

  unfoldable pub fresh_value_of :
      IndName → IndNode F → Inner F → Text → Dict Text F → Engine F → Option (Value F)
  fresh_value_of price node of symbol params e = price_value node.field symbol e
  fresh_value_of prior_close node of symbol params e = snapshot (lookup symbol e.prior_close_of)
  fresh_value_of name node of symbol params e = fresh_series_value node of symbol params e

  module _ ⦃same : Eq (Key F)⦄ where
    -- An answer agrees with the fresh value, and the engine after it is coherent.
    unfoldable pub Agrees : Option (Engine F × Value F) → Option (Value F) → Type ℓ
    Agrees none w = w ≡ none
    Agrees (some (e, x)) w = (w ≡ some x) × Coherent e

    remember-Agrees :
        (key : Key F) (ver : ℕ) (e : Engine F) (w : Option (Value F))
        → Coherent e
        → ver ≡ get key.0 e.version 0
        → w ≡ worth key (series key.0 e)
        → Agrees (remember key ver e w) w
    unfolding Agrees remember
    remember-Agrees key ver e none coherent now h = refl
    remember-Agrees key ver e (some x) coherent now h =
        (refl, remember-Coherent key ver e x coherent now (sym h))

    answer-Agrees :
        (key : Key F) (ver : ℕ) (e : Engine F) (hit w : Option (Value F))
        → Coherent e
        → ver ≡ get key.0 e.version 0
        → fresh_hit {F = F} (lookup key e.cache) ver ≡ hit
        → w ≡ worth key (series key.0 e)
        → Agrees (answer key ver e hit w) w
    unfolding Agrees answer Coherent
    answer-Agrees key ver e none w coherent now h k = remember-Agrees key ver e w coherent now k
    answer-Agrees key ver e (some x) w coherent now h k =
        let hit = hit_lem (lookup key e.cache) ver x h in
        (k ∙ (coherent key hit.0 x hit.1.0).1 (hit.1.1 ∙ now), coherent)

    unchanged-Agrees : (e : Engine F) (w : Option (Value F)) → Coherent e → Agrees (unchanged e w) w
    unfolding Agrees
    unchanged-Agrees e none h = refl
    unchanged-Agrees e (some x) h = (refl, h)

    chain-Agrees :
        (o : Option (Key F)) (g : Key F → Option (Engine F × Value F))
        (w : Key F → Option (Value F))
        → ((key : Key F) → o ≡ some key → Agrees (g key) (w key))
        → Agrees (and_then o g) (and_then o w)
    unfolding Agrees
    chain-Agrees none g w h = refl
    chain-Agrees (some key) g w h = h key refl

    branch-Agrees :
        (b : Bool) (r r' : Option (Engine F × Value F)) (w w' : Option (Value F))
        → Agrees r w
        → Agrees r' w'
        → Agrees (if b then r else r') (if b then w else w')
    branch-Agrees true r r' w w' h k = h
    branch-Agrees false r r' w w' h k = k

    cached-Agrees :
        (node : IndNode F) (of : Inner F) (symbol : Text) (params : Dict Text F) (e : Engine F)
        → Coherent e
        → Agrees (cached_value node of symbol params e) (
            and_then
              (freeze_key symbol params node of)
              λ key. compute symbol params node of (series symbol e) (series symbol e))
    unfolding cached_value
    cached-Agrees node of symbol params e h =
        chain-Agrees (freeze_key symbol params node of) _ _ λ key frozen.
          let same_key = compute-freeze symbol params node of key (series symbol e) frozen in
          answer-Agrees key (get symbol e.version 0) e _ _ h
            (ap (λ t. get t e.version 0) same_key.0) refl
            (same_key.1 ∙ ap (λ t. worth key (series t e)) same_key.0)

    series-Agrees :
        (node : IndNode F) (of : Inner F) (symbol : Text) (params : Dict Text F) (e : Engine F)
        → Coherent e
        → Agrees (series_value node of symbol params e) (fresh_series_value node of symbol params e)
    unfolding series_value fresh_series_value
    series-Agrees node of symbol params e h =
        branch-Agrees node.include_today _ _ _ _
          (unchanged-Agrees e
            (compute symbol params node of (series symbol e) (series_with_today symbol e)) h)
          (cached-Agrees node of symbol params e h)

    pub value-Agrees :
        (name : IndName) (node : IndNode F) (of : Inner F) (symbol : Text) (params : Dict Text F)
        (e : Engine F)
        → Coherent e
        → Agrees
            (value_of name node of symbol params e)
            (fresh_value_of name node of symbol params e)
    unfolding value_of fresh_value_of
    value-Agrees price node of symbol params e h =
        unchanged-Agrees e (price_value node.field symbol e) h
    value-Agrees prior_close node of symbol params e h =
        unchanged-Agrees e (snapshot (lookup symbol e.prior_close_of)) h
    value-Agrees sma node of symbol params e h = series-Agrees node of symbol params e h
    value-Agrees ema node of symbol params e h = series-Agrees node of symbol params e h
    value-Agrees rsi node of symbol params e h = series-Agrees node of symbol params e h
    value-Agrees realized_vol node of symbol params e h = series-Agrees node of symbol params e h
    value-Agrees pct_rank node of symbol params e h = series-Agrees node of symbol params e h
    value-Agrees highest node of symbol params e h = series-Agrees node of symbol params e h
    value-Agrees lowest node of symbol params e h = series-Agrees node of symbol params e h
    value-Agrees cum_return node of symbol params e h = series-Agrees node of symbol params e h
    value-Agrees drawdown node of symbol params e h = series-Agrees node of symbol params e h
    value-Agrees std node of symbol params e h = series-Agrees node of symbol params e h
    value-Agrees atr node of symbol params e h = series-Agrees node of symbol params e h
    value-Agrees series_ema node of symbol params e h = series-Agrees node of symbol params e h
    value-Agrees series_sma node of symbol params e h = series-Agrees node of symbol params e h
    value-Agrees unknown_ind node of symbol params e h = series-Agrees node of symbol params e h
