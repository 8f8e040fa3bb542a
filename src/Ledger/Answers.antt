-- ===== src/Ledger/Answers.antt =====
-- dqengine/runtime/core/ledger.py: which of its three answers `take` gives, and to what rows.
use deployquant.Prelude.{
  ℕ, Bool, false, Option, none, some, List, [], ◌∷◌, ◌≡◌, ◌≢◌, ◌↔◌, refl, arith, keep,
}
use deployquant.Prelude.Eq.{eq_nat, eq_list, eq_option, ==_refl}
use deployquant.Prelude.Int.{ℤ}
use deployquant.Prelude.Text.{Text}
use deployquant.Ledger.Defs.{
  LedgerFill, ExecutionLedger, rows, or_list, is_candidate, tagged, choose, choose_rule, candidates,
  take, take_from, take_chosen, absence_unknown, outside_window, norm_sym, mark,
}

module _ {ℓ} {F : Type ℓ} where
  -- The first row of the pool belongs to its own order.
  rows-choose-ne-nil :
      (c : ℕ × LedgerFill F) (r : List (ℕ × LedgerFill F)) → rows (choose (c ∷ r)) ≢ []
  unfolding choose
  rows-choose-ne-nil (i, first) r =
      ground (arith, ==_refl first.broker_order_id, ==_refl first.rule_tag)

  pub rows-choose_rule-ne-nil :
      (c : ℕ × LedgerFill F) (r : List (ℕ × LedgerFill F)) → rows (choose_rule (c ∷ r)) ≢ []
  unfolding choose_rule
  rows-choose_rule-ne-nil (i, first) r = ground (arith, ==_refl first.broker_order_id)

  rows-choose-or_list-ne-nil :
      (p : ℕ × LedgerFill F → Bool) (c : ℕ × LedgerFill F) (r : List (ℕ × LedgerFill F))
      → rows (choose (or_list (keep p (c ∷ r)) (c ∷ r))) ≢ []
  rows-choose-or_list-ne-nil p c r = step (keep p (c ∷ r))
    where
      step : (xs : List (ℕ × LedgerFill F)) → rows (choose (or_list xs (c ∷ r))) ≢ []
      step [] = rows-choose-ne-nil c r
      step (x ∷ xs) = rows-choose-ne-nil x xs

  take_from-eq-nil :
      (l : ExecutionLedger F) (day : ℕ) (symbol : Text) (rule_id : Option Text)
      (avail : List (ℕ × LedgerFill F))
      → ((take_from l day symbol rule_id avail).1 ≡ some [])
        ↔ ((avail ≡ []) × (absence_unknown l day symbol ≡ false))
  unfolding take_from take_chosen
  take_from-eq-nil l day symbol rule_id [] = ground arith
  take_from-eq-nil l day symbol rule_id (c ∷ avail) =
      ground (arith, rows-choose-or_list-ne-nil (tagged rule_id) c avail)

  -- `take` answers "the broker did not fill" exactly when the day is inside the reconciled window,
  -- no row is left for this day, symbol and side, and the absence of rows is not unknown.
  pub take-eq-nil :
      (l : ExecutionLedger F) (day : ℕ) (symbol : Text) (rule_id : Option Text) (side : Option ℤ)
      → let sym = norm_sym (some symbol) in
        ((take l day symbol rule_id side).1 ≡ some []) ↔ (
          (outside_window l day ≡ false)
          × (candidates l day sym side ≡ [])
          × (absence_unknown l day sym ≡ false))
  unfolding take
  take-eq-nil l day symbol rule_id side =
      let sym = norm_sym (some symbol) in
      ground (arith, take_from-eq-nil l day sym rule_id (candidates l day sym side))

  -- The ledger with another account of what cannot be seen.
  unfoldable pub with_unknown : ExecutionLedger F → List Text → Option ℕ → ExecutionLedger F
  with_unknown l unknown unknown_from = record l { unknown = unknown; unknown_from = unknown_from }

  take_from-presence :
      (l : ExecutionLedger F) (day : ℕ) (symbol : Text) (rule_id : Option Text)
      (avail : List (ℕ × LedgerFill F)) (unknown : List Text) (unknown_from : Option ℕ)
      → avail ≢ []
      → let (l', answer) = take_from l day symbol rule_id avail in
        (answer ≢ none)
        × (answer ≢ some [])
        × (take_from (with_unknown l unknown unknown_from) day symbol rule_id avail
            ≡ (with_unknown l' unknown unknown_from, answer))
  unfolding take_from take_chosen with_unknown mark
  take_from-presence l day symbol rule_id [] unknown unknown_from h = absurd (h refl)
  take_from-presence l day symbol rule_id (c ∷ avail) unknown unknown_from h =
      (λ e. cc, λ e. ground (arith, rows-choose-or_list-ne-nil (tagged rule_id) c avail), refl)

  -- Presence wins: inside the window, while a row for this day, symbol and side is left, `take`
  -- answers with rows, and its answer is the same whatever symbols and days are unknown.
  pub take-presence :
      (l : ExecutionLedger F) (day : ℕ) (symbol : Text) (rule_id : Option Text) (side : Option ℤ)
      (unknown : List Text) (unknown_from : Option ℕ)
      → outside_window l day ≡ false
      → candidates l day (norm_sym (some symbol)) side ≢ []
      → let (l', answer) = take l day symbol rule_id side in
        (answer ≢ none)
        × (answer ≢ some [])
        × (take (with_unknown l unknown unknown_from) day symbol rule_id side
            ≡ (with_unknown l' unknown unknown_from, answer))
  unfolding take candidates is_candidate outside_window with_unknown
  take-presence l day symbol rule_id side unknown unknown_from inside present =
      rw (inside, outside_window)
        (take_from-presence l day (norm_sym (some symbol)) rule_id _ unknown unknown_from present)
