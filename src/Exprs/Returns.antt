-- ===== src/Exprs/Returns.antt =====
-- dqengine/runtime/core/exprs.py: which expressions evaluate without an exception.
use deployquant.Prelude.{
  true, not, ◌||◌, Option, none, some, List, [], ◌∷◌, ◌≡◌, refl, arith, is_some, if-cases,
  Bool-cases, Option-cases, inl, inr,
}
use deployquant.Prelude.Eq.{eq_nat, eq_list}
use deployquant.Prelude.Text.{Text}
use deployquant.Prelude.Float.{Float, nought, divide}
use deployquant.Prelude.Dict.{lookup}
use deployquant.Exprs.Defs.{
  Value, CompareOp, ArithOp, add, sub, mul, div, Trace, saw_ind, saw_pos, Expr, Exprs, Cases,
  EvalContext, Eval, then_eval, symbol_of, look, is_ready, all_ready, as_number, as_bool,
  compare_ready, fold_arith, arith_values, evaluate, evaluate_all, evaluate_any, evaluate_list,
  evaluate_cases, lit_num, lit_flag, param, ind, pos_ref, sleeve_ref, all_of, any_of, negation,
  compare_to, arith_of, if_expr, cases_expr, no_exprs, more_exprs, otherwise, more_cases,
}

-- A computation that returns.
abbrev Returns {κ} : {A : Type κ} → Option A → Type 0
Returns m = is_some m ≡ true

module _ {ℓ} {F : Type ℓ} where
  -- Every parameter is bound, every reference to data has a symbol, and arithmetic has an operand.
  unfoldable mutual
    pub IsFormed : EvalContext F → Expr F → Type 0
    IsFormed ctx (lit_num x) = Unit
    IsFormed ctx (lit_flag b) = Unit
    IsFormed ctx (param p) = is_some (lookup p ctx.params) ≡ true
    IsFormed ctx (ind name s) = is_some (symbol_of ctx s) ≡ true
    IsFormed ctx (pos_ref name s) = is_some (symbol_of ctx s) ≡ true
    IsFormed ctx (sleeve_ref name) = Unit
    IsFormed ctx (all_of es) = AreFormed ctx es
    IsFormed ctx (any_of es) = AreFormed ctx es
    IsFormed ctx (negation e) = IsFormed ctx e
    IsFormed ctx (compare_to op a b) = IsFormed ctx a × IsFormed ctx b
    IsFormed ctx (arith_of op es) = IsOperands ctx es
    IsFormed ctx (if_expr c t e) = IsFormed ctx c × IsFormed ctx t × IsFormed ctx e
    IsFormed ctx (cases_expr cs) = CasesFormed ctx cs

    pub AreFormed : EvalContext F → Exprs F → Type 0
    AreFormed ctx no_exprs = Unit
    AreFormed ctx (more_exprs e es) = IsFormed ctx e × AreFormed ctx es

    pub IsOperands : EvalContext F → Exprs F → Type 0
    IsOperands ctx no_exprs = ⊥
    IsOperands ctx (more_exprs e es) = IsFormed ctx e × AreFormed ctx es

    pub CasesFormed : EvalContext F → Cases F → Type 0
    CasesFormed ctx (otherwise d) = IsFormed ctx d
    CasesFormed ctx (more_cases w v cs) = IsFormed ctx w × IsFormed ctx v × CasesFormed ctx cs

  then-Returns :
      {A B : Type ℓ} (m : Eval F A) (k : A → List (Trace F) → Eval F B)
      → Returns m
      → ((a : A) (tr : List (Trace F)) → Returns (k a tr))
      → Returns (then_eval m k)
  then-Returns none k h next = absurd (cc h)
  then-Returns (some (a, tr)) k h next = next a tr

  look-Returns :
      (read : Text → Text → Value F) (entry : Text → Text → Value F → Trace F) (name : Text)
      (s : Option Text) (tr : List (Trace F))
      → Returns s
      → Returns (look read entry name s tr)
  look-Returns read entry name none tr h = absurd (cc h)
  look-Returns read entry name (some s) tr h = refl

module _ {ℓ} {F : Type ℓ} ⦃f : Float F⦄ where
  fold_arith-Returns :
      (op : ArithOp) (vs : List (Value F)) (acc : Value F) (tr : List (Trace F))
      → Returns (fold_arith op acc vs tr)
  unfolding fold_arith divide
  fold_arith-Returns op [] acc tr = refl
  fold_arith-Returns add (v ∷ vs) acc tr = fold_arith-Returns add vs _ tr
  fold_arith-Returns sub (v ∷ vs) acc tr = fold_arith-Returns sub vs _ tr
  fold_arith-Returns mul (v ∷ vs) acc tr = fold_arith-Returns mul vs _ tr
  fold_arith-Returns div (v ∷ vs) acc tr = elim (Bool-cases (f.eq (as_number v) nought)) [
    | inl zero_v ↦ rw zero_v refl
    | inr q ↦ rw q (fold_arith-Returns div vs _ tr)
  ]

  compare_ready-Returns :
      (op : CompareOp) (a b : Value F) (tr : List (Trace F)) → Returns (compare_ready op a b tr)
  unfolding compare_ready
  compare_ready-Returns op a b tr =
      if-cases Returns (not (is_ready a) || not (is_ready b)) refl refl

  arith_values-Returns :
      (op : ArithOp) (v : Value F) (vs : List (Value F)) (tr : List (Trace F))
      → Returns (arith_values op (v ∷ vs) tr)
  unfolding arith_values
  arith_values-Returns op v vs tr =
      if-cases Returns (all_ready (v ∷ vs)) (fold_arith-Returns op vs v tr) refl

  operands-Returns :
      (first : Eval F (Value F)) (others : List (Trace F) → Eval F (List (Value F))) (op : ArithOp)
      → Returns first
      → ((tr : List (Trace F)) → Returns (others tr))
      → Returns (
          then_eval
            (then_eval first λ v tr. then_eval (others tr) λ vs tr'. some (v ∷ vs, tr'))
            (λ vs tr. arith_values op vs tr))
  operands-Returns none others op h hs = absurd (cc h)
  operands-Returns (some (v, tr)) others op h hs = elim (Option-cases (others tr)) [
    | inl e ↦ absurd (cc (e, hs tr))
    | inr ((vs, tr'), e) ↦ rw e (arith_values-Returns op v vs tr')
  ]

  mutual
    unfolding evaluate IsFormed

    expr-Returns :
        (ctx : EvalContext F) (e : Expr F) (tr : List (Trace F))
        → IsFormed ctx e
        → Returns (evaluate ctx e tr)
    expr-Returns ctx (lit_num x) tr h = refl
    expr-Returns ctx (lit_flag b) tr h = refl
    expr-Returns ctx (param p) tr h = ground arith
    expr-Returns ctx (ind name s) tr h = look-Returns ctx.indicator_fn saw_ind name _ tr h
    expr-Returns ctx (pos_ref name s) tr h = look-Returns ctx.position_fn saw_pos name _ tr h
    expr-Returns ctx (sleeve_ref name) tr h = refl
    expr-Returns ctx (all_of es) tr h = all-Returns ctx es tr h
    expr-Returns ctx (any_of es) tr h = any-Returns ctx es tr h
    expr-Returns ctx (negation e) tr h = then-Returns _ _ (expr-Returns ctx e tr h) λ v tr'. refl
    expr-Returns ctx (compare_to op a b) tr (ha, hb) =
        then-Returns _ _ (expr-Returns ctx a tr ha) λ va tr'.
          then-Returns _ _ (expr-Returns ctx b tr' hb)
            λ vb tr''. compare_ready-Returns op va vb tr''
    expr-Returns ctx (arith_of op no_exprs) tr h = absurd h
    expr-Returns ctx (arith_of op (more_exprs e es)) tr (h, hs) =
        operands-Returns _ _ op (expr-Returns ctx e tr h) λ tr'. list-Returns ctx es tr' hs
    expr-Returns ctx (if_expr c t e) tr (hc, ht, he) =
        then-Returns _ _ (expr-Returns ctx c tr hc) λ v tr'.
          if-cases Returns (as_bool v) (expr-Returns ctx t tr' ht) (expr-Returns ctx e tr' he)
    expr-Returns ctx (cases_expr cs) tr h = cases-Returns ctx cs tr h

    all-Returns :
        (ctx : EvalContext F) (es : Exprs F) (tr : List (Trace F))
        → AreFormed ctx es
        → Returns (evaluate_all ctx es tr)
    all-Returns ctx no_exprs tr h = refl
    all-Returns ctx (more_exprs e es) tr (h, hs) =
        then-Returns _ _ (expr-Returns ctx e tr h)
          λ v tr'. if-cases Returns (not (as_bool v)) refl (all-Returns ctx es tr' hs)

    any-Returns :
        (ctx : EvalContext F) (es : Exprs F) (tr : List (Trace F))
        → AreFormed ctx es
        → Returns (evaluate_any ctx es tr)
    any-Returns ctx no_exprs tr h = refl
    any-Returns ctx (more_exprs e es) tr (h, hs) =
        then-Returns _ _ (expr-Returns ctx e tr h)
          λ v tr'. if-cases Returns (as_bool v) refl (any-Returns ctx es tr' hs)

    list-Returns :
        (ctx : EvalContext F) (es : Exprs F) (tr : List (Trace F))
        → AreFormed ctx es
        → Returns (evaluate_list ctx es tr)
    list-Returns ctx no_exprs tr h = refl
    list-Returns ctx (more_exprs e es) tr (h, hs) =
        then-Returns _ _ (expr-Returns ctx e tr h)
          λ v tr'. then-Returns _ _ (list-Returns ctx es tr' hs) λ vs tr''. refl

    cases-Returns :
        (ctx : EvalContext F) (cs : Cases F) (tr : List (Trace F))
        → CasesFormed ctx cs
        → Returns (evaluate_cases ctx cs tr)
    cases-Returns ctx (otherwise d) tr h = expr-Returns ctx d tr h
    cases-Returns ctx (more_cases w v cs) tr (hw, hv, hs) =
        then-Returns _ _ (expr-Returns ctx w tr hw) λ hit tr'.
          if-cases Returns (as_bool hit) (expr-Returns ctx v tr' hv) (cases-Returns ctx cs tr' hs)
