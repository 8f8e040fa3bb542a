-- ===== src/Weights/Shadows.antt =====
-- The shadow series stay within their length.
use deployquant.Prelude.{
  ℕ, zero, suc, ◌-◌, ◌≤◌, ◌≡◌, Option, none, some, List, [], ◌∷◌, length, drop, All, if◌then◌else◌,
  if-cases, Bool-cases, inl, inr, ◌++◌, refl, arith,
}
use deployquant.Prelude.Text.{Text, codes}
use deployquant.Prelude.Eq.{◌==◌, eq_nat, eq_list, eq_option}
use deployquant.Prelude.Float.{Float, nonzero}
use deployquant.Prelude.Dict.{Dict, lookup, get, insert}
use mathlib.Core.Path.{subst}
use deployquant.Indicators.Frozen.{some_inj}
use deployquant.Exprs.{evaluate, as_bool}
use deployquant.Indicators.Series.{Maths, and_then}
use deployquant.Weights.Metrics.{Metric, realized_vol_metric}
use deployquant.Weights.Tree.{
  shadow_maxlen, Node, asset, equal_node, weighted, if_node, inverse_vol, best, unknown_node, Nodes,
  no_nodes, more_nodes, Items, no_items, more_items, Vec, Deque, new_deque, newest, append_to,
  Shadows, new_shadows, Market, child_path, dotted, branch_path, is_asset, value_of_num, window_of,
  add_scaled, mark_shadow, marked_series, child_metric, by_inverse_vol,
}
use deployquant.Weights.Engine.{
  Marks, then_marks, evaluate_weights, evaluate_kids, evaluate_items, score_kids,
}

module _ {ℓ} {F : Type ℓ} where
  -- A deque that can hold, and holds, at most 300 returns.
  unfoldable pub IsShort : Text × Deque F → Type 0
  IsShort (path, rets) = (rets.maxlen ≡ some 300) × (length rets.items ≤ 300)

  -- Every series of shadow returns has at most 300 of them.
  unfoldable pub IsBounded : Shadows F → Type 0
  IsBounded sh = All IsShort sh.node_ret

  insert-IsShort :
      (path : Text) (rets : Deque F) (d : Dict Text (Deque F))
      → IsShort (path, rets)
      → All IsShort d
      → All IsShort (insert path rets d)
  unfolding insert IsShort
  insert-IsShort path rets [] h k = (h, tt)
  insert-IsShort path rets ((p, r) ∷ d) h k =
      if-cases (All IsShort) (p == path) (h, k.1) (k.0, insert-IsShort path rets d h k.1)

  get-IsShort :
      (path : Text) (d : Dict Text (Deque F))
      → All IsShort d
      → IsShort (path, get path d (new_deque (some shadow_maxlen)))
  unfolding lookup IsShort new_deque
  get-IsShort path [] k = (refl, omega arith)
  get-IsShort path ((p, r) ∷ d) k = elim (Bool-cases (p == path)) [
    | inl h ↦ rw h k.0
    | inr h ↦ rw h (get-IsShort path d k.1)
  ]

  length-drop : (n : ℕ) (xs : List F) → length (drop n xs) ≡ length xs - n
  length-drop zero xs = omega arith
  length-drop (suc n) [] = omega arith
  length-drop (suc n) (x ∷ xs) = omega (arith, length-drop n xs)

  append_to-IsShort :
      (path : Text) (x : F) (rets : Deque F)
      → IsShort (path, rets)
      → IsShort (path, append_to x rets)
  unfolding append_to newest IsShort
  append_to-IsShort path x rets (h, k) = (
    h,
    rw h (omega (arith, length-drop (length (rets.items ++ x ∷ []) - 300) (rets.items ++ x ∷ []))),
  )

module _ {ℓ} {F : Type ℓ} ⦃f : Float F⦄ where
  marked-IsShort :
      (mk : Market F) (path : Text) (prevw : Vec F) (rets : Dict Text (Deque F))
      → All IsShort rets
      → All IsShort (marked_series mk path prevw rets)
  unfolding marked_series
  marked-IsShort mk path [] rets h = insert-IsShort path _ rets (get-IsShort path rets h) h
  marked-IsShort mk path (e ∷ prevw) rets h =
      insert-IsShort path _ rets (append_to-IsShort path _ _ (get-IsShort path rets h)) h

  mark_shadow-IsBounded :
      (mk : Market F) (path : Text) (vec : Vec F) (sh : Shadows F)
      → IsBounded sh
      → IsBounded (mark_shadow mk path vec sh)
  unfolding IsBounded mark_shadow
  mark_shadow-IsBounded mk path vec sh h =
      if-cases (λ (s : Shadows F). All IsShort s.node_ret)
        (lookup path sh.marked_day == some mk.day) h
        (marked-IsShort mk path (get path sh.node_prevw []) sh.node_ret h)

-- An evaluation that answers leaves the series short.
Keeps {ℓ} : {F A : Type ℓ} → Marks F A → Type 0
Keeps none = Unit
Keeps (some (sh, a)) = IsBounded sh

then_marks-Keeps {ℓ} :
    {F A B : Type ℓ} (r : Marks F A) (k : Shadows F → A → Marks F B)
    → Keeps r
    → ((sh : Shadows F) (a : A) → IsBounded sh → Keeps (k sh a))
    → Keeps (then_marks r k)
unfolding Keeps
then_marks-Keeps none k h g = tt
then_marks-Keeps (some (sh, a)) k h g = g sh a h

and_then-Keeps {ℓ κ} :
    {F B : Type ℓ} {A : Type κ} (o : Option A) (k : A → Marks F B)
    → ((a : A) → Keeps (k a))
    → Keeps (and_then o k)
unfolding Keeps
and_then-Keeps none k g = tt
and_then-Keeps (some a) k g = g a

module _ {ℓ} {F : Type ℓ} ⦃f : Float F⦄ ⦃m : Maths F⦄ where
  mutual
    unfolding evaluate_weights evaluate_kids evaluate_items score_kids Keeps

    evaluate_weights-Keeps :
        (mk : Market F) (node : Node F) (path : Text) (sh : Shadows F)
        → IsBounded sh
        → Keeps (evaluate_weights mk node path sh)
    evaluate_weights-Keeps mk (asset s) path sh h = h
    evaluate_weights-Keeps mk (equal_node cs) path sh h =
        then_marks-Keeps _ _ (evaluate_kids-Keeps mk cs (dotted path) 0 sh h) λ sh' a k. k
    evaluate_weights-Keeps mk (weighted items) path sh h =
        evaluate_items-Keeps mk items (dotted path) 0 [] sh h
    evaluate_weights-Keeps mk (if_node c t e) path sh h =
        and_then-Keeps (evaluate mk.ctx c []) _ λ r.
          then_marks-Keeps _ _
            (if-cases Keeps (as_bool r.0)
              (evaluate_kids-Keeps mk t (branch_path path (codes "t")) 0 sh h)
              (evaluate_kids-Keeps mk e (branch_path path (codes "e")) 0 sh h))
            λ sh' a k. k
    evaluate_weights-Keeps mk (inverse_vol w cs) path sh h =
        and_then-Keeps (window_of mk w) _ λ window.
          then_marks-Keeps _ _
            (score_kids-Keeps mk realized_vol_metric window cs (dotted path) 0 sh h)
            λ sh' kids k. and_then-Keeps (by_inverse_vol kids) _ λ vec. k
    evaluate_weights-Keeps mk (best by cs) path sh h =
        and_then-Keeps (window_of mk by.window) _ λ window.
          then_marks-Keeps _ _ (score_kids-Keeps mk by.metric window cs (dotted path) 0 sh h)
            λ sh' kids k. k
    evaluate_weights-Keeps mk unknown_node path sh h = tt

    evaluate_kids-Keeps :
        (mk : Market F) (cs : Nodes F) (start : Text) (i : ℕ) (sh : Shadows F)
        → IsBounded sh
        → Keeps (evaluate_kids mk cs start i sh)
    evaluate_kids-Keeps mk no_nodes start i sh h = h
    evaluate_kids-Keeps mk (more_nodes c cs) start i sh h =
        then_marks-Keeps _ _ (evaluate_weights-Keeps mk c (child_path start i) sh h) λ sh' vec k.
          then_marks-Keeps _ _ (evaluate_kids-Keeps mk cs start (suc i) sh' k) λ sh'' a j. j

    evaluate_items-Keeps :
        (mk : Market F) (items : Items F) (start : Text) (i : ℕ) (out : Vec F) (sh : Shadows F)
        → IsBounded sh
        → Keeps (evaluate_items mk items start i out sh)
    evaluate_items-Keeps mk no_items start i out sh h = h
    evaluate_items-Keeps mk (more_items w c items) start i out sh h =
        and_then-Keeps (value_of_num mk w) _ λ x.
          if-cases Keeps (nonzero x)
            (then_marks-Keeps _ _ (evaluate_weights-Keeps mk c (child_path start i) sh h)
              λ sh' vec k. evaluate_items-Keeps mk items start (suc i) (add_scaled x vec out) sh' k)
            (evaluate_items-Keeps mk items start (suc i) out sh h)

    score_kids-Keeps :
        (mk : Market F) (metric : Metric) (window : ℕ) (cs : Nodes F) (start : Text) (i : ℕ)
        (sh : Shadows F)
        → IsBounded sh
        → Keeps (score_kids mk metric window cs start i sh)
    score_kids-Keeps mk metric window no_nodes start i sh h = h
    score_kids-Keeps mk metric window (more_nodes c cs) start i sh h =
        then_marks-Keeps _ _ (evaluate_weights-Keeps mk c (child_path start i) sh h) λ sh' vec k.
          let after = if is_asset c then sh' else mark_shadow mk (child_path start i) vec sh' in
          let kept : IsBounded after =
            if-cases IsBounded (is_asset c) k
              (mark_shadow-IsBounded mk (child_path start i) vec sh' k) in
          and_then-Keeps (child_metric mk c (child_path start i) metric window after) _ λ score.
            then_marks-Keeps _ _ (score_kids-Keeps mk metric window cs start (suc i) after kept)
              λ sh'' kids j. j

  -- A tree evaluated on one day after another.
  unfoldable pub run_days : List (Market F × Node F) → Shadows F → Option (Shadows F)
  run_days [] sh = some sh
  run_days ((mk, node) ∷ days) sh =
      and_then (evaluate_weights mk node (codes "w") sh) λ r. run_days days r.0

  after_day :
      (r : Marks F (Vec F)) (k : Shadows F → Option (Shadows F)) (end : Shadows F)
      → Keeps r
      → and_then r (λ x. k x.0) ≡ some end
      → (sh : Shadows F) × (IsBounded sh × (k sh ≡ some end))
  unfolding Keeps
  after_day none k end h e = absurd (cc e)
  after_day (some (sh, vec)) k end h e = (sh, (h, e))

  days-IsBounded :
      (days : List (Market F × Node F)) (sh end : Shadows F)
      → IsBounded sh
      → run_days days sh ≡ some end
      → IsBounded end
  unfolding run_days
  days-IsBounded [] sh end h r = subst IsBounded (some_inj r) h
  days-IsBounded ((mk, node) ∷ days) sh end h r =
      let next =
        after_day (evaluate_weights mk node (codes "w") sh) (run_days days) end
          (evaluate_weights-Keeps mk node (codes "w") sh h) r in
      days-IsBounded days next.0 end next.1.0 next.1.1

  -- However many days of whatever markets the weight trees are evaluated on, however deep the trees,
  -- every series of shadow returns is made with a length of 300, and none ever
  -- holds more than 300 of them.
  pub run_days-IsBounded :
      (days : List (Market F × Node F)) (end : Shadows F)
      → run_days days new_shadows ≡ some end
      → IsBounded end
  unfolding IsBounded
  run_days-IsBounded days end r = days-IsBounded days new_shadows end tt r
