-- ===== src/Exprs/Defs.antt =====
-- dqengine/runtime/core/exprs.py: expressions, what they see, and `evaluate`. `none` is an exception;
-- the journal's trace is passed along. A node is the one form that its keys select.
use deployquant.Prelude.{
  Bool, true, false, not, ◌||◌, Option, none, some, List, [], ◌∷◌, ◌++◌, if◌then◌else◌,
}
use deployquant.Prelude.Eq.{eq_nat, eq_list}
use deployquant.Prelude.Int.{pos}
use deployquant.Prelude.Text.{Text, truthy}
use deployquant.Prelude.Float.{Float, nought, nonzero, divide}
use deployquant.Prelude.Dict.{Dict, lookup}

-- What an evaluation returns.
pub data Value {ℓ} (F : Type ℓ) : Type ℓ where
  number : F → Value F
  flag : Bool → Value F
  not_ready : Value F

pub data CompareOp : Type 0 where
  gt gte lt lte eq ne : CompareOp

pub data ArithOp : Type 0 where
  add sub mul div : ArithOp

-- An entry of the trace.
pub data Trace {ℓ} (F : Type ℓ) : Type ℓ where
  saw_ind : Text → Text → Value F → Trace F
  saw_pos : Text → Text → Value F → Trace F
  saw_sleeve : Text → F → Trace F
  compared_not_ready : CompareOp → Trace F
  divided_by_zero : Trace F

-- `ind` and `pos` carry the node's name and its own symbol, if it has one.
mutual
  pub data Expr {ℓ} (F : Type ℓ) : Type ℓ where
    lit_num : F → Expr F
    lit_flag : Bool → Expr F
    param : Text → Expr F
    ind : Text → Option Text → Expr F
    pos_ref : Text → Option Text → Expr F
    sleeve_ref : Text → Expr F
    all_of : Exprs F → Expr F
    any_of : Exprs F → Expr F
    negation : Expr F → Expr F
    compare_to : CompareOp → Expr F → Expr F → Expr F
    arith_of : ArithOp → Exprs F → Expr F
    if_expr : Expr F → Expr F → Expr F → Expr F
    cases_expr : Cases F → Expr F

  pub data Exprs {ℓ} (F : Type ℓ) : Type ℓ where
    no_exprs : Exprs F
    more_exprs : Expr F → Exprs F → Exprs F

  pub data Cases {ℓ} (F : Type ℓ) : Type ℓ where
    otherwise : Expr F → Cases F
    more_cases : Expr F → Expr F → Cases F → Cases F

-- The functions are what the runtime installs.
pub record EvalContext {ℓ} (F : Type ℓ) : Type ℓ where
  pub params : Dict Text F
  pub default_symbol : Option Text
  pub indicator_fn : Text → Text → Value F
  pub position_fn : Text → Text → Value F
  pub sleeve_fn : Text → F

-- A value and the trace after it.
abbrev pub Eval {ℓ} : Type ℓ → Type ℓ → Type ℓ
Eval F A = Option (A × List (Trace F))

abbrev pub then_eval {ℓ} : {F A B : Type ℓ} → Eval F A → (A → List (Trace F) → Eval F B) → Eval F B
then_eval none k = none
then_eval (some (a, tr)) k = k a tr

module _ {ℓ} {F : Type ℓ} where
  -- `node.get("symbol") or self.default_symbol`; an empty one is a ValueError.
  unfoldable pub symbol_of : EvalContext F → Option Text → Option Text
  symbol_of ctx s =
      let chosen = if truthy s then s else ctx.default_symbol in
      if truthy chosen then chosen else none

  abbrev pub is_ready : Value F → Bool
  is_ready not_ready = false
  is_ready (number x) = true
  is_ready (flag b) = true

  abbrev pub all_ready : List (Value F) → Bool
  all_ready [] = true
  all_ready (v ∷ vs) = if is_ready v then all_ready vs else false

  abbrev pub look :
      (Text → Text → Value F)
      → (Text → Text → Value F → Trace F)
      → Text
      → Option Text
      → List (Trace F)
      → Eval F (Value F)
  look read entry name none tr = none
  look read entry name (some s) tr = some (read name s, tr ++ entry name s (read name s) ∷ [])

module _ {ℓ} {F : Type ℓ} ⦃f : Float F⦄ where
  -- A flag among numbers is 0 or 1.
  unfoldable pub as_number : Value F → F
  as_number (number x) = x
  as_number (flag b) = if b then f.of_int (pos 1) else nought
  as_number not_ready = nought

  -- `bool(v)`, and False for NOT_READY
  unfoldable pub as_bool : Value F → Bool
  as_bool (number x) = nonzero x
  as_bool (flag b) = b
  as_bool not_ready = false

  unfoldable pub compare_values : CompareOp → F → F → Bool
  compare_values gt a b = f.lt b a
  compare_values gte a b = f.le b a
  compare_values lt a b = f.lt a b
  compare_values lte a b = f.le a b
  compare_values eq a b = f.eq a b
  compare_values ne a b = not (f.eq a b)

  unfoldable pub compare_ready : CompareOp → Value F → Value F → List (Trace F) → Eval F (Value F)
  compare_ready op a b tr =
      if not (is_ready a) || not (is_ready b)
      then some (flag false, tr ++ compared_not_ready op ∷ [])
      else some (flag (compare_values op (as_number a) (as_number b)), tr)

  -- The loop over the operands after the first.
  unfoldable pub fold_arith : ArithOp → Value F → List (Value F) → List (Trace F) → Eval F (Value F)
  fold_arith op acc [] tr = some (acc, tr)
  fold_arith add acc (v ∷ vs) tr =
      fold_arith add (number (f.plus (as_number acc) (as_number v))) vs tr
  fold_arith sub acc (v ∷ vs) tr =
      fold_arith sub (number (f.minus (as_number acc) (as_number v))) vs tr
  fold_arith mul acc (v ∷ vs) tr =
      fold_arith mul (number (f.times (as_number acc) (as_number v))) vs tr
  fold_arith div acc (v ∷ vs) tr =
      let rest : Eval F (Value F) = elim (divide (as_number acc) (as_number v)) [
        | none ↦ none
        | some q ↦ fold_arith div (number q) vs tr
      ] in
      if nonzero (as_number v) then rest else some (not_ready, tr ++ divided_by_zero ∷ [])

  unfoldable pub arith_values : ArithOp → List (Value F) → List (Trace F) → Eval F (Value F)
  arith_values op [] tr = none
  arith_values op (v ∷ vs) tr =
      if all_ready (v ∷ vs) then fold_arith op v vs tr else some (not_ready, tr)

  unfoldable mutual
    pub evaluate : EvalContext F → Expr F → List (Trace F) → Eval F (Value F)
    evaluate ctx (lit_num x) tr = some (number x, tr)
    evaluate ctx (lit_flag b) tr = some (flag b, tr)
    evaluate ctx (param p) tr = elim (lookup p ctx.params) [
      | none ↦ none
      | some x ↦ some (number x, tr)
    ]
    evaluate ctx (ind name s) tr = look ctx.indicator_fn saw_ind name (symbol_of ctx s) tr
    evaluate ctx (pos_ref name s) tr = look ctx.position_fn saw_pos name (symbol_of ctx s) tr
    evaluate ctx (sleeve_ref name) tr =
        some (number (ctx.sleeve_fn name), tr ++ saw_sleeve name (ctx.sleeve_fn name) ∷ [])
    evaluate ctx (all_of es) tr = evaluate_all ctx es tr
    evaluate ctx (any_of es) tr = evaluate_any ctx es tr
    evaluate ctx (negation e) tr =
        then_eval (evaluate ctx e tr) λ v tr'. some (flag (not (as_bool v)), tr')
    evaluate ctx (compare_to op a b) tr =
        then_eval (evaluate ctx a tr)
          λ va tr'. then_eval (evaluate ctx b tr') λ vb tr''. compare_ready op va vb tr''
    evaluate ctx (arith_of op es) tr =
        then_eval (evaluate_list ctx es tr) λ vs tr'. arith_values op vs tr'
    evaluate ctx (if_expr c t e) tr =
        then_eval (evaluate ctx c tr)
          λ v tr'. if as_bool v then evaluate ctx t tr' else evaluate ctx e tr'
    evaluate ctx (cases_expr cs) tr = evaluate_cases ctx cs tr

    pub evaluate_all : EvalContext F → Exprs F → List (Trace F) → Eval F (Value F)
    evaluate_all ctx no_exprs tr = some (flag true, tr)
    evaluate_all ctx (more_exprs e es) tr =
        then_eval (evaluate ctx e tr)
          λ v tr'. if not (as_bool v) then some (flag false, tr') else evaluate_all ctx es tr'

    pub evaluate_any : EvalContext F → Exprs F → List (Trace F) → Eval F (Value F)
    evaluate_any ctx no_exprs tr = some (flag false, tr)
    evaluate_any ctx (more_exprs e es) tr =
        then_eval (evaluate ctx e tr)
          λ v tr'. if as_bool v then some (flag true, tr') else evaluate_any ctx es tr'

    pub evaluate_list : EvalContext F → Exprs F → List (Trace F) → Eval F (List (Value F))
    evaluate_list ctx no_exprs tr = some ([], tr)
    evaluate_list ctx (more_exprs e es) tr =
        then_eval (evaluate ctx e tr)
          λ v tr'. then_eval (evaluate_list ctx es tr') λ vs tr''. some (v ∷ vs, tr'')

    pub evaluate_cases : EvalContext F → Cases F → List (Trace F) → Eval F (Value F)
    evaluate_cases ctx (otherwise d) tr = evaluate ctx d tr
    evaluate_cases ctx (more_cases w v cs) tr =
        then_eval (evaluate ctx w tr)
          λ hit tr'. if as_bool hit then evaluate ctx v tr' else evaluate_cases ctx cs tr'
