-- ===== src/Ledger/Capped.antt =====
-- dqengine/runtime/core/ledger.py: `take_rule_fill`, and the ledger of a warm engine.
use deployquant.Prelude.{
  ℕ, ◌≤◌, ◌<◌, true, Option, some, List, [], ◌∷◌, ◌≡◌, ◌≢◌, arith, if-cases, keep-All, All, All-map,
}
use deployquant.Prelude.Eq.{eq_nat, eq_list, eq_option, list_eq_iff, option_eq_iff}
use deployquant.Prelude.Int.{ℤ}
use deployquant.Prelude.Text.{Text}
use deployquant.Ledger.Defs.{
  LedgerFill, ExecutionLedger, Reply, LiveCappedLedger, enumerate, is_visible, visible, take,
  take_chosen, take_rule_fill, take_visible, outside_window, norm_sym, take_capped, cap_answer,
}
use deployquant.Ledger.Sublists.{Sub-All, choose_rule-Sub}
use deployquant.Ledger.Conservation.{handed}
use deployquant.Ledger.Answers.{rows-choose_rule-ne-nil}
use deployquant.Ledger.Rows.{rows-All}

module _ {ℓ} {F : Type ℓ} where
  -- A row that the fill pump may adopt for a rule by a given time.
  pub record IsPumped (day : ℕ) (symbol tag : Text) (upto_ms : ℕ) (r : LedgerFill F) : Type 0 where
    pub same_day : r.day ≡ day
    pub same_symbol : r.symbol ≡ symbol
    pub same_tag : r.rule_tag ≡ some tag
    pub in_time : r.time_ms < upto_ms

  is_visible-IsPumped :
      (l : ExecutionLedger F) (day : ℕ) (symbol tag : Text) (upto_ms : ℕ) (p : ℕ × LedgerFill F)
      → is_visible l day symbol tag upto_ms p ≡ true
      → IsPumped day symbol tag upto_ms p.1
  unfolding is_visible
  is_visible-IsPumped l day symbol tag upto_ms p e =
      ground (arith, list_eq_iff p.1.symbol symbol, option_eq_iff p.1.rule_tag (some tag))

  visible-IsPumped :
      (l : ExecutionLedger F) (day : ℕ) (symbol tag : Text) (upto_ms : ℕ)
      → All (λ p. IsPumped day symbol tag upto_ms p.1) (visible l day symbol tag upto_ms)
  unfolding visible
  visible-IsPumped l day symbol tag upto_ms =
      All-map _ _ (is_visible-IsPumped l day symbol tag upto_ms) _
        (keep-All _ (enumerate 0 l.fills))

  -- The answers of the pump: unknown, or rows of the rule.
  abbrev pub Adopts : ℕ → Text → Text → ℕ → Option (List (LedgerFill F)) → Type ℓ
  Adopts day symbol tag upto_ms answer =
      (answer ≢ some []) × All (IsPumped day symbol tag upto_ms) (handed answer)

  take_visible-Adopts :
      (l : ExecutionLedger F) (day : ℕ) (symbol tag : Text) (upto_ms : ℕ)
      (avail : List (ℕ × LedgerFill F))
      → All (λ p. IsPumped day symbol tag upto_ms p.1) avail
      → Adopts day symbol tag upto_ms (take_visible l avail).1
  unfolding take_visible take_chosen
  take_visible-Adopts l day symbol tag upto_ms [] h = (λ e. cc, tt)
  take_visible-Adopts l day symbol tag upto_ms (c ∷ avail) h = (
    λ e. ground (arith, rows-choose_rule-ne-nil c avail),
    rows-All _ _ (Sub-All _ (choose_rule-Sub (c ∷ avail)) h),
  )

  -- The fill pump never concludes that the broker did not fill, and adopts only rows of the given
  -- day and symbol that carry the rule's own tag and happened before `upto_ms`.
  pub take_rule_fill-Adopts :
      (l : ExecutionLedger F) (day : ℕ) (symbol tag : Text) (upto_ms : ℕ)
      → Adopts day
          (norm_sym (some symbol))
          tag
          upto_ms
          (take_rule_fill l day symbol (some tag) upto_ms).1
  unfolding take_rule_fill
  take_rule_fill-Adopts l day symbol tag upto_ms =
      let sym = norm_sym (some symbol) in
      if-cases (λ (a : Reply F). Adopts day sym tag upto_ms a.1) (outside_window l day)
        ((λ e. cc), tt)
        (take_visible-Adopts l day sym tag upto_ms _ (visible-IsPumped l day sym tag upto_ms))

  -- On a live day a warm engine's ledger consumes the rows that the inner one does and hands them on,
  -- and it never answers that the broker did not fill.
  pub take_capped_live :
      (c : LiveCappedLedger F) (day : ℕ) (symbol : Text) (rule_id : Option Text) (side : Option ℤ)
      → c.live_from ≤ day
      → let (c', capped) = take_capped c day symbol rule_id side in
        let (l', real) = take c.inner day symbol rule_id side in
        (c' ≡ record c { inner = l' }) × (capped ≢ some []) × (handed capped ≡ handed real)
  unfolding take_capped cap_answer
  take_capped_live c day symbol rule_id side live = ground arith

  -- On a day before the live ones a warm engine's ledger answers as the inner ledger does.
  pub take_capped_settled :
      (c : LiveCappedLedger F) (day : ℕ) (symbol : Text) (rule_id : Option Text) (side : Option ℤ)
      → day < c.live_from
      → let (l', real) = take c.inner day symbol rule_id side in
        take_capped c day symbol rule_id side ≡ (record c { inner = l' }, real)
  unfolding take_capped cap_answer
  take_capped_settled c day symbol rule_id side settled = ground arith
