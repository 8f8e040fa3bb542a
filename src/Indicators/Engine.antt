-- ===== src/Indicators/Engine.antt =====
-- dqengine/runtime/core/indicators.py: IndicatorEngine. `none` is an exception.
use deployquant.Prelude.{ℕ, suc, Option, none, some, List, [], ◌∷◌, ◌++◌, nat_eq, if◌then◌else◌}
use deployquant.Prelude.Text.{Text, codes}
use deployquant.Prelude.Eq.{Eq, ◌==◌, eq_nat, eq_list}
use deployquant.Prelude.Float.{Float, nonzero}
use deployquant.Prelude.Dict.{Dict, lookup, get, insert}
use deployquant.Exprs.{Value, number, not_ready}
use deployquant.Indicators.Series.{
  Maths, and_then, item_back, DailySeries, new_series, one, on_session_close,
}
use deployquant.Indicators.Plain.{
  IndName, price, prior_close, Arg, given, by_param, bound_to, IndNode,
}
use deployquant.Indicators.Nodes.{
  Inner, inner_num, inner_param, bound_param, inner_ind, inner_arith, other_inner, Inners,
  no_inners, more_inners,
}
use deployquant.Indicators.History.{compute}

-- A frozen node and its symbol.
abbrev pub Key {ℓ} : Type ℓ → Type ℓ
Key F = Text × (IndNode F × Inner F)

pub record Engine {ℓ} (F : Type ℓ) : Type ℓ where
  pub daily : Dict Text (DailySeries F)
  pub last_price : Dict Text F
  pub prior_close_of : Dict Text F
  pub cache : Dict (Key F) (ℕ × Value F)
  pub version : Dict Text ℕ

module _ {ℓ} {F : Type ℓ} where
  abbrev pub new_engine : Engine F
  new_engine = record { daily = []; last_price = []; prior_close_of = []; cache = []; version = [] }

  -- The series that `series` gives; an entry that it adds is as empty as no entry.
  abbrev pub series : Text → Engine F → DailySeries F
  series symbol e = get symbol e.daily new_series

  unfoldable pub freeze_arg : Dict Text F → Option (Arg F) → Option (Option (Arg F))
  freeze_arg params none = some none
  freeze_arg params (some (given x)) = some (some (given x))
  freeze_arg params (some (by_param p)) = and_then (lookup p params) λ x. some (some (bound_to p x))
  freeze_arg params (some (bound_to p x)) = some (some (bound_to p x))

  unfoldable pub freeze_node : Dict Text F → IndNode F → Option (IndNode F)
  freeze_node params n = and_then (freeze_arg params n.window) λ w.
      and_then (freeze_arg params n.lookback) λ l.
        and_then (freeze_arg params n.min_obs)
          λ m. some (record n { window = w; lookback = l; min_obs = m })

  unfoldable mutual
    pub freeze_inner : Dict Text F → Inner F → Option (Inner F)
    freeze_inner params (inner_num x) = some (inner_num x)
    freeze_inner params (inner_param p) = and_then (lookup p params) λ x. some (bound_param p x)
    freeze_inner params (bound_param p x) = some (bound_param p x)
    freeze_inner params (inner_ind node) =
        and_then (freeze_node params node) λ n. some (inner_ind n)
    freeze_inner params (inner_arith op es) =
        and_then (freeze_inners params es) λ ks. some (inner_arith op ks)
    freeze_inner params other_inner = some other_inner

    pub freeze_inners : Dict Text F → Inners F → Option (Inners F)
    freeze_inners params no_inners = some no_inners
    freeze_inners params (more_inners e es) =
        and_then (freeze_inner params e)
          λ k. and_then (freeze_inners params es) λ ks. some (more_inners k ks)

  -- `_freeze` of a node and its symbol
  unfoldable pub freeze_key : Text → Dict Text F → IndNode F → Inner F → Option (Key F)
  freeze_key symbol params node e =
      and_then (freeze_node params node)
        λ n. and_then (freeze_inner params e) λ k. some (symbol, (n, k))

module _ {ℓ} {F : Type ℓ} ⦃f : Float F⦄ where
  open f use {over, minus}

  -- IndicatorEngine.on_session_close
  unfoldable pub close_session : Text → F → Option F → Option F → Engine F → Engine F
  close_session symbol close high low e = record e {
    daily = insert symbol (on_session_close close high low (series symbol e)) e.daily;
    version = insert symbol (suc (get symbol e.version 0)) e.version;
  }

  -- `[lp / prev - 1.0] if prev else []`
  unfoldable pub return_today : F → Option F → List F
  return_today lp none = []
  return_today lp (some prev) = if nonzero prev then minus (over lp prev) one ∷ [] else []

  unfoldable pub with_price : Option F → DailySeries F → DailySeries F
  with_price none s = s
  with_price (some lp) s =
      if nonzero lp
      then record {
        closes = s.closes ++ lp ∷ [];
        returns = s.returns ++ return_today lp (item_back 1 s.closes);
        highs = s.highs ++ lp ∷ [];
        lows = s.lows ++ lp ∷ [];
      }
      else s

  unfoldable pub series_with_today : Text → Engine F → DailySeries F
  series_with_today symbol e = with_price (lookup symbol e.last_price) (series symbol e)

  abbrev pub snapshot : Option F → Option (Value F)
  snapshot none = some not_ready
  snapshot (some x) = some (number x)

  -- `price` of a field; the fields of a running session are refused.
  unfoldable pub price_value : Option Text → Text → Engine F → Option (Value F)
  price_value none symbol e = snapshot (lookup symbol e.last_price)
  price_value (some field) symbol e =
      if field == codes "last"
      then snapshot (lookup symbol e.last_price)
      else (if field == codes "close" then snapshot (lookup symbol e.prior_close_of) else none)

  module _ ⦃m : Maths F⦄ ⦃same : Eq (Key F)⦄ where
    -- What stands in the cache, if it is of the symbol's present version.
    unfoldable pub fresh_hit : Option (ℕ × Value F) → ℕ → Option (Value F)
    fresh_hit none ver = none
    fresh_hit (some (v, x)) ver = if nat_eq v ver then some x else none

    unfoldable pub remember : Key F → ℕ → Engine F → Option (Value F) → Option (Engine F × Value F)
    remember key ver e none = none
    remember key ver e (some x) = some (record e { cache = insert key (ver, x) e.cache }, x)

    unfoldable pub answer :
        Key F → ℕ → Engine F → Option (Value F) → Option (Value F) → Option (Engine F × Value F)
    answer key ver e (some x) computed = some (e, x)
    answer key ver e none computed = remember key ver e computed

    unfoldable pub cached_value :
        IndNode F → Inner F → Text → Dict Text F → Engine F → Option (Engine F × Value F)
    cached_value node of symbol params e = and_then (freeze_key symbol params node of) λ key.
        let ver = get symbol e.version 0 in
        let s = series symbol e in
        answer key ver e (fresh_hit (lookup key e.cache) ver) (compute symbol params node of s s)

    abbrev pub unchanged : Engine F → Option (Value F) → Option (Engine F × Value F)
    unchanged e v = and_then v λ x. some (e, x)

    unfoldable pub series_value :
        IndNode F → Inner F → Text → Dict Text F → Engine F → Option (Engine F × Value F)
    series_value node of symbol params e =
        if node.include_today
        then unchanged e
            (compute symbol params node of (series symbol e) (series_with_today symbol e))
        else cached_value node of symbol params e

    unfoldable pub value_of :
        IndName → IndNode F → Inner F → Text → Dict Text F → Engine F → Option (Engine F × Value F)
    value_of price node of symbol params e = unchanged e (price_value node.field symbol e)
    value_of prior_close node of symbol params e =
        unchanged e (snapshot (lookup symbol e.prior_close_of))
    value_of name node of symbol params e = series_value node of symbol params e

    abbrev pub value :
        IndNode F → Inner F → Text → Dict Text F → Engine F → Option (Engine F × Value F)
    value node of symbol params e = value_of node.name node of symbol params e
