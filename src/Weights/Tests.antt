-- ===== src/Weights/Tests.antt =====
-- dqengine/runtime/core/weights.py: two days of the better of two strategies.
use deployquant.Prelude.{ℕ, ◌≡◌, refl, true, none, some, [], ◌∷◌}
use deployquant.Prelude.Int.{pos, ◌+ℤ◌, ◌-ℤ◌, ◌*ℤ◌}
use deployquant.Prelude.Text.{codes}
use deployquant.Prelude.Float.{Fixed, fixed_float, quot}
use deployquant.Prelude.Dict.{lookup, insert}
use deployquant.Exprs.{number, not_ready}
use deployquant.Identity.{decimal, decimal_from}
use deployquant.Indicators.Series.{fixed_maths, last_n}
use deployquant.Indicators.Plain.{natural}
use deployquant.Weights.Metrics.{
  cum_return_metric, metric_from_returns, metric_of_window, product, of_any,
}
use deployquant.Weights.Tree.{
  num, Node, asset, equal_node, best, no_nodes, more_nodes, Shadows, new_shadows, Market,
  value_of_num, window_of, truthy_price, today_ret, with_last, asset_closes, asset_vec, add_scaled,
  add_all_scaled, equal_blend, shadow_return, new_deque, append_to, newest, marked_series,
  mark_shadow, is_asset, child_metric, returns_metric,
}
use deployquant.Weights.Engine.{evaluate_weights, evaluate_kids, score_kids}
use deployquant.Weights.Shadows.{IsBounded, run_days, run_days-IsBounded}

abbrev tree : Node Fixed
tree =
    best (record { metric = cum_return_metric; window = num (pos 20_000); is_top = true; n = 1 })
      (more_nodes (equal_node (more_nodes (asset (codes "A")) no_nodes))
        (more_nodes (equal_node (more_nodes (asset (codes "B")) no_nodes)) no_nodes))

-- A gains a tenth every day, and B nothing.
abbrev on_day : ℕ → Market Fixed
on_day d = record {
  closes = λ s. [];
  prior_close = (codes "A", pos 1_000_000) ∷ (codes "B", pos 500_000) ∷ [];
  last_price = (codes "A", pos 1_100_000) ∷ (codes "B", pos 500_000) ∷ [];
  ctx = record {
    params = [];
    default_symbol = none;
    indicator_fn = λ name symbol. not_ready;
    position_fn = λ name symbol. number (pos 0);
    sleeve_fn = λ name. pos 0;
  };
  day = d;
}

abbrev two_days : Shadows Fixed
two_days = record {
  node_ret =
      (codes "w.0", record { maxlen = some 300; items = pos 1_000 ∷ [] })
      ∷ (codes "w.1", record { maxlen = some 300; items = pos 0 ∷ [] })
      ∷ [];
  node_prevw =
      (codes "w.0", (codes "A", pos 10_000) ∷ [])
      ∷ (codes "w.1", (codes "B", pos 10_000) ∷ [])
      ∷ [];
  marked_day = (codes "w.0", 8) ∷ (codes "w.1", 8) ∷ [];
}

-- The second evaluation of a day marks nothing.
ran :
    run_days ((on_day 7, tree) ∷ (on_day 8, tree) ∷ (on_day 8, tree) ∷ []) new_shadows
    ≡ some two_days
unfolding run_days evaluate_weights evaluate_kids score_kids window_of value_of_num natural is_asset
    asset_vec asset_closes with_last truthy_price equal_blend add_all_scaled add_scaled mark_shadow
    marked_series new_deque append_to newest shadow_return today_ret last_n child_metric
    returns_metric metric_from_returns metric_of_window of_any product lookup insert decimal
    decimal_from quot ◌+ℤ◌ ◌-ℤ◌ ◌*ℤ◌
ran = refl

run_days-IsBounded_example : IsBounded two_days
run_days-IsBounded_example =
    run_days-IsBounded ((on_day 7, tree) ∷ (on_day 8, tree) ∷ (on_day 8, tree) ∷ []) two_days ran
