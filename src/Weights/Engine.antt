-- ===== src/Weights/Engine.antt =====
-- dqengine/runtime/core/weights.py: `evaluate`, with the shadows passed along.
use deployquant.Prelude.{ℕ, suc, Option, none, some, List, [], ◌∷◌, if◌then◌else◌}
use deployquant.Prelude.Text.{Text, codes}
use deployquant.Prelude.Float.{Float, nonzero}
use deployquant.Exprs.{evaluate, as_bool}
use deployquant.Indicators.Series.{Maths, and_then}
use deployquant.Weights.Metrics.{Metric, realized_vol_metric}
use deployquant.Weights.Tree.{
  Node, asset, equal_node, weighted, if_node, inverse_vol, best, unknown_node, Nodes, no_nodes,
  more_nodes, Items, no_items, more_items, Vec, Shadows, Market, Child, child_path, dotted,
  branch_path, is_asset, value_of_num, window_of, asset_vec, add_scaled, equal_blend, mark_shadow,
  child_metric, by_inverse_vol, choose_best,
}

-- The shadows after an evaluation, and its answer.
abbrev pub Marks {ℓ} : Type ℓ → Type ℓ → Type ℓ
Marks F A = Option (Shadows F × A)

abbrev pub then_marks {ℓ} : {F A B : Type ℓ} → Marks F A → (Shadows F → A → Marks F B) → Marks F B
then_marks r k = and_then r λ x. k x.0 x.1

module _ {ℓ} {F : Type ℓ} ⦃f : Float F⦄ ⦃m : Maths F⦄ where
  unfoldable mutual
    pub evaluate_weights : Market F → Node F → Text → Shadows F → Marks F (Vec F)
    evaluate_weights mk (asset s) path sh = some (sh, asset_vec mk s)
    evaluate_weights mk (equal_node cs) path sh =
        then_marks (evaluate_kids mk cs (dotted path) 0 sh) λ sh' vecs. some (sh', equal_blend vecs)
    evaluate_weights mk (weighted items) path sh = evaluate_items mk items (dotted path) 0 [] sh
    evaluate_weights mk (if_node c t e) path sh = and_then (evaluate mk.ctx c []) λ r.
        let yes_kids = evaluate_kids mk t (branch_path path (codes "t")) 0 sh in
        let no_kids = evaluate_kids mk e (branch_path path (codes "e")) 0 sh in
        then_marks (if as_bool r.0 then yes_kids else no_kids)
          λ sh' vecs. some (sh', equal_blend vecs)
    evaluate_weights mk (inverse_vol w cs) path sh = and_then (window_of mk w) λ window.
        then_marks (score_kids mk realized_vol_metric window cs (dotted path) 0 sh)
          λ sh' kids. and_then (by_inverse_vol kids) λ vec. some (sh', vec)
    evaluate_weights mk (best by cs) path sh = and_then (window_of mk by.window) λ window.
        then_marks (score_kids mk by.metric window cs (dotted path) 0 sh)
          λ sh' kids. some (sh', choose_best by kids)
    evaluate_weights mk unknown_node path sh = none

    -- The vectors of the children from the i-th on.
    pub evaluate_kids : Market F → Nodes F → Text → ℕ → Shadows F → Marks F (List (Vec F))
    evaluate_kids mk no_nodes start i sh = some (sh, [])
    evaluate_kids mk (more_nodes c cs) start i sh =
        then_marks (evaluate_weights mk c (child_path start i) sh) λ sh' vec.
          then_marks (evaluate_kids mk cs start (suc i) sh') λ sh'' vecs. some (sh'', vec ∷ vecs)

    -- The loop of a weighted node.
    pub evaluate_items : Market F → Items F → Text → ℕ → Vec F → Shadows F → Marks F (Vec F)
    evaluate_items mk no_items start i out sh = some (sh, out)
    evaluate_items mk (more_items w c items) start i out sh = and_then (value_of_num mk w) λ x.
        let skipped = evaluate_items mk items start (suc i) out sh in
        let added =
          then_marks (evaluate_weights mk c (child_path start i) sh)
            λ sh' vec. evaluate_items mk items start (suc i) (add_scaled x vec out) sh' in
        if nonzero x then added else skipped

    -- The vectors and scores of the children from the i-th on: strategies are marked.
    pub score_kids :
        Market F → Metric → ℕ → Nodes F → Text → ℕ → Shadows F → Marks F (List (Child F))
    score_kids mk metric window no_nodes start i sh = some (sh, [])
    score_kids mk metric window (more_nodes c cs) start i sh =
        then_marks (evaluate_weights mk c (child_path start i) sh) λ sh' vec.
          let after = if is_asset c then sh' else mark_shadow mk (child_path start i) vec sh' in
          and_then (child_metric mk c (child_path start i) metric window after) λ score.
            then_marks (score_kids mk metric window cs start (suc i) after)
              λ sh'' kids. some (sh'', (vec, score) ∷ kids)
