-- ===== src/Weights/Tree.antt =====
-- dqengine/runtime/core/weights.py: WeightEngine over weight trees. `none` is an exception.
use deployquant.Prelude.{
  ℕ, zero, suc, Bool, true, false, not, Option, none, some, List, [], ◌∷◌, ◌++◌, ◌-◌, drop, map,
  length, take, any, if◌then◌else◌,
}
use deployquant.Prelude.Text.{Text, codes}
use deployquant.Prelude.Eq.{◌==◌, eq_nat, eq_list, eq_option}
use deployquant.Prelude.Float.{divide, Float, nought, nonzero}
use deployquant.Prelude.Dict.{Dict, lookup, get, insert}
use deployquant.Exprs.{Expr, EvalContext}
use deployquant.Identity.{decimal}
use deployquant.Indicators.Series.{Maths, and_then, one, count}
use deployquant.Indicators.Plain.{natural}
use deployquant.Weights.Metrics.{Metric, metric_from_closes, metric_from_returns}

abbrev pub shadow_maxlen : ℕ
shadow_maxlen = 300

-- A number, or a parameter.
pub data Num {ℓ} (F : Type ℓ) : Type ℓ where
  num : F → Num F
  num_param : Text → Num F

-- `by`, `order` and `n` of a `best` node, with their defaults filled in.
pub record BestBy {ℓ} (F : Type ℓ) : Type ℓ where
  pub metric : Metric
  pub window : Num F
  pub is_top : Bool
  pub n : ℕ

mutual
  pub data Node {ℓ} (F : Type ℓ) : Type ℓ where
    asset : Text → Node F
    equal_node : Nodes F → Node F
    weighted : Items F → Node F
    if_node : Expr F → Nodes F → Nodes F → Node F
    inverse_vol : Num F → Nodes F → Node F
    best : BestBy F → Nodes F → Node F
    unknown_node : Node F

  pub data Nodes {ℓ} (F : Type ℓ) : Type ℓ where
    no_nodes : Nodes F
    more_nodes : Node F → Nodes F → Nodes F

  pub data Items {ℓ} (F : Type ℓ) : Type ℓ where
    no_items : Items F
    more_items : Num F → Node F → Items F → Items F

-- A vector: symbols and their fractions.
abbrev pub Vec {ℓ} : Type ℓ → Type ℓ
Vec F = Dict Text F

-- `collections.deque`: no more than `maxlen` items, if it has one.
pub record Deque {ℓ} (F : Type ℓ) : Type ℓ where
  pub maxlen : Option ℕ
  pub items : List F

pub record Shadows {ℓ} (F : Type ℓ) : Type ℓ where
  pub node_ret : Dict Text (Deque F)
  pub node_prevw : Dict Text (Vec F)
  pub marked_day : Dict Text ℕ

-- What an evaluation reads: the engine's closes and prices, the context, and the day.
pub record Market {ℓ} (F : Type ℓ) : Type ℓ where
  pub closes : Text → List F
  pub prior_close : Dict Text F
  pub last_price : Dict Text F
  pub ctx : EvalContext F
  pub day : ℕ

-- A child: its vector and its score.
abbrev pub Child {ℓ} : Type ℓ → Type ℓ
Child F = Vec F × Option F

-- The paths of the children of a node start with its path and a dot, and a branch's tag.
abbrev pub dotted : Text → Text
dotted path = path ++ codes "."

abbrev pub branch_path : Text → Text → Text
branch_path path tag = path ++ codes "." ++ tag

abbrev pub child_path : Text → ℕ → Text
child_path start i = start ++ decimal i

abbrev pub at_least_one : ℕ → ℕ
at_least_one zero = 1
at_least_one (suc n) = suc n

module _ {ℓ} {F : Type ℓ} where
  abbrev pub new_shadows : Shadows F
  new_shadows = record { node_ret = []; node_prevw = []; marked_day = [] }

  -- `deque(maxlen=...)`
  unfoldable pub new_deque : Option ℕ → Deque F
  new_deque maxlen = record { maxlen = maxlen; items = [] }

  -- The newest items, as many as may stay.
  unfoldable pub newest : Option ℕ → List F → List F
  newest none xs = xs
  newest (some n) xs = drop (length xs - n) xs

  unfoldable pub append_to : F → Deque F → Deque F
  append_to x d = record d { items = newest d.maxlen (d.items ++ x ∷ []) }

  unfoldable pub count_nodes : Nodes F → ℕ
  count_nodes no_nodes = 0
  count_nodes (more_nodes c cs) = suc (count_nodes cs)

  unfoldable pub is_asset : Node F → Bool
  is_asset (asset s) = true
  is_asset node = false

module _ {ℓ} {F : Type ℓ} ⦃f : Float F⦄ where
  open f use {plus, minus, times, over, lt, trunc}

  unfoldable pub value_of_num : Market F → Num F → Option F
  value_of_num mk (num x) = some x
  value_of_num mk (num_param p) = lookup p mk.ctx.params

  unfoldable pub window_of : Market F → Num F → Option ℕ
  window_of mk n = and_then (value_of_num mk n) λ x. natural (trunc x)

  -- `x if x else None`
  unfoldable pub truthy_price : Option F → Option F
  truthy_price none = none
  truthy_price (some x) = if nonzero x then some x else none

  unfoldable pub today_ret : Market F → Text → Option F
  today_ret mk sym = and_then (truthy_price (lookup sym mk.prior_close)) λ prior.
      and_then (truthy_price (lookup sym mk.last_price)) λ last. some (minus (over last prior) one)

  unfoldable pub with_last : List F → Option F → List F
  with_last closes none = closes
  with_last closes (some last) = closes ++ last ∷ []

  unfoldable pub asset_closes : Market F → Text → List F
  asset_closes mk sym = with_last (mk.closes sym) (truthy_price (lookup sym mk.last_price))

  -- An asset with a history, or with a price, is held whole.
  unfoldable pub asset_vec : Market F → Text → Vec F
  asset_vec mk sym = elim (asset_closes mk sym) [ [] ↦ [] | x ∷ xs ↦ (sym, one) ∷ [] ]

  -- `out[s] = out.get(s, 0.0) + w * x`, for the entries of a vector
  unfoldable pub add_scaled : F → Vec F → Vec F → Vec F
  add_scaled w [] out = out
  add_scaled w ((s, x) ∷ vec) out =
      add_scaled w vec (insert s (plus (get s out nought) (times w x)) out)

  unfoldable pub add_all_scaled : F → List (Vec F) → Vec F → Vec F
  add_all_scaled w [] out = out
  add_all_scaled w (vec ∷ vecs) out = add_all_scaled w vecs (add_scaled w vec out)

  -- An equal blend; nothing of no vector.
  unfoldable pub equal_blend : List (Vec F) → Vec F
  equal_blend [] = []
  equal_blend (vec ∷ vecs) = add_all_scaled (over one (count (length (vec ∷ vecs)))) (vec ∷ vecs) []

  unfoldable pub shadow_return : Market F → Vec F → F → F
  shadow_return mk [] r = r
  shadow_return mk ((s, w) ∷ prevw) r = elim (today_ret mk s) [
    | none ↦ shadow_return mk prevw r
    | some tr ↦ shadow_return mk prevw (plus r (times w tr))
  ]

  -- The series after a day on which `prevw` was held; an empty vector marks no return.
  unfoldable pub marked_series : Market F → Text → Vec F → Dict Text (Deque F) → Dict Text (Deque F)
  marked_series mk path [] rets = insert path (get path rets (new_deque (some shadow_maxlen))) rets
  marked_series mk path (e ∷ prevw) rets =
      insert path
        (append_to (shadow_return mk (e ∷ prevw) nought)
          (get path rets (new_deque (some shadow_maxlen))))
        rets

  -- `_mark_shadow` after its evaluation
  unfoldable pub mark_shadow : Market F → Text → Vec F → Shadows F → Shadows F
  mark_shadow mk path vec sh = if lookup path sh.marked_day == some mk.day then sh else record {
    node_ret = marked_series mk path (get path sh.node_prevw []) sh.node_ret;
    node_prevw = insert path vec sh.node_prevw;
    marked_day = insert path mk.day sh.marked_day;
  }

  module _ ⦃m : Maths F⦄ where
    unfoldable pub closes_metric : Metric → ℕ → List F → Option (Option F)
    closes_metric metric window [] = some none
    closes_metric metric window (c ∷ []) = some none
    closes_metric metric window (c ∷ d ∷ cs) = metric_from_closes metric (c ∷ d ∷ cs) window

    unfoldable pub returns_metric : Metric → ℕ → List F → Option (Option F)
    returns_metric metric window [] = some none
    returns_metric metric window (r ∷ rets) = metric_from_returns metric (r ∷ rets) window

    unfoldable pub child_metric :
        Market F → Node F → Text → Metric → ℕ → Shadows F → Option (Option F)
    child_metric mk (asset sym) path metric window sh =
        closes_metric metric window (asset_closes mk sym)
    child_metric mk child path metric window sh = elim (lookup path sh.node_ret) [
      | none ↦ some none
      | some rets ↦ returns_metric metric window rets.items
    ]

    -- `not v` for a volatility
    unfoldable pub is_unreadable : Child F → Bool
    is_unreadable (vec, none) = true
    is_unreadable (vec, some v) = not (nonzero v)

    unfoldable pub inverses : List (Child F) → List (Vec F × F)
    inverses [] = []
    inverses ((vec, none) ∷ kids) = inverses kids
    inverses ((vec, some v) ∷ kids) = (vec, over one v) ∷ inverses kids

    unfoldable pub blend_by : F → List (Vec F × F) → Vec F → Option (Vec F)
    blend_by total [] out = some out
    blend_by total ((vec, w) ∷ kids) out =
        and_then (divide w total) λ share. blend_by total kids (add_scaled share vec out)

    unfoldable pub by_inverse_vol : List (Child F) → Option (Vec F)
    by_inverse_vol kids =
        let inv = inverses kids in
        if any is_unreadable kids
        then some (equal_blend (map (λ kid. kid.0) kids))
        else blend_by (m.sum_of (map (λ kid. kid.1) inv)) inv []

    -- The children with a score and a vector, best first; equal scores keep their order.
    unfoldable pub rank_in : Bool → Vec F × F → List (Vec F × F) → List (Vec F × F)
    rank_in is_top kid [] = kid ∷ []
    rank_in is_top kid (other ∷ kids) =
        if (if is_top then lt other.1 kid.1 else lt kid.1 other.1)
        then kid ∷ other ∷ kids
        else other ∷ rank_in is_top kid kids

    unfoldable pub rank_kids : Bool → List (Child F) → List (Vec F × F) → List (Vec F × F)
    rank_kids is_top [] ranked = ranked
    rank_kids is_top ((vec, none) ∷ kids) ranked = rank_kids is_top kids ranked
    rank_kids is_top (([], some score) ∷ kids) ranked = rank_kids is_top kids ranked
    rank_kids is_top ((e ∷ vec, some score) ∷ kids) ranked =
        rank_kids is_top kids (rank_in is_top (e ∷ vec, score) ranked)

    unfoldable pub choose_best : BestBy F → List (Child F) → Vec F
    choose_best by kids =
        equal_blend (map (λ kid. kid.0) (take (at_least_one by.n) (rank_kids by.is_top kids [])))
