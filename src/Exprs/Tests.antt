-- ===== src/Exprs/Tests.antt =====
-- dqengine/runtime/core/exprs.py: an oversold rule, with and without its indicator.
use deployquant.Prelude.{none, some, [], ◌∷◌}
use deployquant.Prelude.Int.{pos}
use deployquant.Prelude.Text.{Text, codes}
use deployquant.Prelude.Float.{Fixed, fixed_float}
use deployquant.Exprs.Defs.{
  number, not_ready, lt, div, EvalContext, Expr, lit_num, param, ind, negation, compare_to,
  arith_of, if_expr, no_exprs, more_exprs,
}

abbrev spy : Text
spy = codes "SPY"

-- No indicator is ready.
abbrev cold : EvalContext Fixed
cold = record {
  params = (codes "level", pos 300_000) ∷ [];
  default_symbol = some spy;
  indicator_fn = λ name symbol. not_ready;
  position_fn = λ name symbol. number (pos 0);
  sleeve_fn = λ name. pos 0;
}

abbrev rsi : Expr Fixed
rsi = ind (codes "rsi") none

abbrev oversold : Expr Fixed
oversold = compare_to lt rsi (param (codes "level"))

abbrev rule : Expr Fixed
rule =
    if_expr (negation oversold)
      (arith_of div (more_exprs rsi (more_exprs (lit_num (pos 0)) no_exprs))) (lit_num (pos 10_000))
