-- ===== src/Ledger/Sublists.antt =====
-- dqengine/runtime/core/ledger.py: what is chosen is a part, in order, of the candidates, and these
-- of the enumerated rows.
use deployquant.Prelude.{ℕ, Bool, List, [], ◌∷◌, if-cases, keep, All, is_some}
use deployquant.Prelude.Text.{truthy}
use deployquant.Ledger.Defs.{
  LedgerFill, or_list, same_order, same_rule, no_order_id, choose, choose_rule,
}

pub data Sub {ℓ} {A : Type ℓ} : List A → List A → Type ℓ where
  done : Sub [] []
  skip : {xs ys : List A} (y : A) → Sub xs ys → Sub xs (y ∷ ys)
  pick : {xs ys : List A} (y : A) → Sub xs ys → Sub (y ∷ xs) (y ∷ ys)

module _ {ℓ} {A : Type ℓ} where
  pub Sub-refl : (xs : List A) → Sub xs xs
  Sub-refl [] = done
  Sub-refl (x ∷ xs) = pick x (Sub-refl xs)

  pub Sub-nil : (xs : List A) → Sub [] xs
  Sub-nil [] = done
  Sub-nil (x ∷ xs) = skip x (Sub-nil xs)

  pub Sub-trans : {ys zs : List A} → Sub ys zs → {xs : List A} → Sub xs ys → Sub xs zs
  Sub-trans done s = s
  Sub-trans (skip z t) s = skip z (Sub-trans t s)
  Sub-trans (pick z t) (skip y s) = skip z (Sub-trans t s)
  Sub-trans (pick z t) (pick y s) = pick z (Sub-trans t s)

  pub keep-Sub : (p : A → Bool) (xs : List A) → Sub (keep p xs) xs
  keep-Sub p [] = done
  keep-Sub p (x ∷ xs) =
      let rest = keep-Sub p xs in if-cases (λ ys. Sub ys (x ∷ xs)) (p x) (pick x rest) (skip x rest)

  pub or_list-Sub : (p : A → Bool) (xs : List A) → Sub (or_list (keep p xs) xs) xs
  or_list-Sub p xs = step (keep p xs) (keep-Sub p xs)
    where
      step : (ys : List A) → Sub ys xs → Sub (or_list ys xs) xs
      step [] s = Sub-refl xs
      step (y ∷ ys) s = s

  pub Sub-All {κ} : (P : A → Type κ) {xs ys : List A} → Sub xs ys → All P ys → All P xs
  Sub-All P done h = tt
  Sub-All P (skip y s) h = Sub-All P s h.1
  Sub-All P (pick y s) h = (h.0, Sub-All P s h.1)

module _ {ℓ} {F : Type ℓ} where
  pub choose-Sub : (pool : List (ℕ × LedgerFill F)) → Sub (choose pool) pool
  unfolding choose
  choose-Sub [] = done
  choose-Sub ((i, first) ∷ rest) =
      let pool = (i, first) ∷ rest in
      if-cases (λ chosen. Sub chosen pool) (truthy first.broker_order_id)
        (keep-Sub (same_order first) pool)
        (if-cases (λ chosen. Sub chosen pool) (is_some first.rule_tag)
          (keep-Sub (same_rule first) pool) (pick (i, first) (Sub-nil rest)))

  pub choose_rule-Sub : (pool : List (ℕ × LedgerFill F)) → Sub (choose_rule pool) pool
  unfolding choose_rule
  choose_rule-Sub [] = done
  choose_rule-Sub ((i, first) ∷ rest) =
      let pool = (i, first) ∷ rest in
      if-cases (λ chosen. Sub chosen pool) (truthy first.broker_order_id)
        (keep-Sub (same_order first) pool) (keep-Sub no_order_id pool)
