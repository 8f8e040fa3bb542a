-- ===== src/Ledger/Rows.antt =====
-- dqengine/runtime/core/ledger.py: to which rows an answer is confined.
use deployquant.Prelude.{
  ℕ, true, false, Option, some, List, [], ◌∷◌, ◌≡◌, sym, ◌⊎◌, arith, if-cases, keep-All, All,
  All-map,
}
use deployquant.Prelude.Eq.{eq_nat, eq_list, eq_option, list_eq_iff}
use deployquant.Prelude.Int.{ℤ}
use deployquant.Prelude.Text.{Text, truthy}
use deployquant.Ledger.Defs.{
  LedgerFill, ExecutionLedger, Reply, enumerate, rows, is_candidate, on_side, tagged, candidates,
  take, take_from, take_chosen, absence_unknown, outside_window, norm_sym,
}
use deployquant.Ledger.Sublists.{Sub-trans, or_list-Sub, Sub-All, choose-Sub}
use deployquant.Ledger.Conservation.{handed}

module _ {ℓ} {F : Type ℓ} where
  pub rows-All :
      (P : LedgerFill F → Type 0) (xs : List (ℕ × LedgerFill F))
      → All (λ p. P p.1) xs
      → All P (rows xs)
  rows-All P [] h = tt
  rows-All P ((i, r) ∷ xs) h = (h.0, rows-All P xs h.1)

  -- A row that answers a question of `take`.
  pub record IsAnswer (day : ℕ) (symbol : Text) (side : Option ℤ) (r : LedgerFill F) : Type 0 where
    pub same_day : r.day ≡ day
    pub same_symbol : r.symbol ≡ symbol
    pub same_side : on_side side r ≡ true

  is_candidate-IsAnswer :
      (l : ExecutionLedger F) (day : ℕ) (symbol : Text) (side : Option ℤ) (p : ℕ × LedgerFill F)
      → is_candidate l day symbol side p ≡ true
      → IsAnswer day symbol side p.1
  unfolding is_candidate
  is_candidate-IsAnswer l day symbol side p e = ground (arith, list_eq_iff p.1.symbol symbol)

  candidates-IsAnswer :
      (l : ExecutionLedger F) (day : ℕ) (symbol : Text) (side : Option ℤ)
      → All (λ p. IsAnswer day symbol side p.1) (candidates l day symbol side)
  unfolding candidates
  candidates-IsAnswer l day symbol side =
      All-map _ _ (is_candidate-IsAnswer l day symbol side) _ (keep-All _ (enumerate 0 l.fills))

  take_from-IsAnswer :
      (l : ExecutionLedger F) (day : ℕ) (symbol : Text) (rule_id : Option Text) (side : Option ℤ)
      (avail : List (ℕ × LedgerFill F))
      → All (λ p. IsAnswer day symbol side p.1) avail
      → All (IsAnswer day symbol side) (handed (take_from l day symbol rule_id avail).1)
  unfolding take_from take_chosen
  take_from-IsAnswer l day symbol rule_id side [] h =
      if-cases (λ a. All (IsAnswer day symbol side) (handed a)) (absence_unknown l day symbol) tt tt
  take_from-IsAnswer l day symbol rule_id side (c ∷ avail) h =
      rows-All _ _
        (Sub-All _ (Sub-trans (or_list-Sub (tagged rule_id) (c ∷ avail)) (choose-Sub _)) h)

  -- Every row that `take` gives out is of the day asked for, of the symbol asked for in any case of
  -- its letters, and on the asking order's side.
  pub take-IsAnswer :
      (l : ExecutionLedger F) (day : ℕ) (symbol : Text) (rule_id : Option Text) (side : Option ℤ)
      → All (IsAnswer day (norm_sym (some symbol)) side) (handed (take l day symbol rule_id side).1)
  unfolding take
  take-IsAnswer l day symbol rule_id side =
      let sym = norm_sym (some symbol) in
      if-cases (λ (a : Reply F). All (IsAnswer day sym side) (handed a.1)) (outside_window l day) tt
        (take_from-IsAnswer l day sym rule_id side _ (candidates-IsAnswer l day sym side))

  -- Rows of one order of the broker: with one order id, or else with none and one rule tag.
  abbrev pub IsOneOrder : List (LedgerFill F) → Type 0
  IsOneOrder [] = Unit
  IsOneOrder (first ∷ rest) =
      All (λ r. r.broker_order_id ≡ first.broker_order_id) rest
      ⊎ (All (λ r. (truthy r.broker_order_id ≡ false) × (r.rule_tag ≡ first.rule_tag)) rest)
