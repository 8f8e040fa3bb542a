-- ===== src/Ledger/Conservation.antt =====
-- dqengine/runtime/core/ledger.py: every execution of the broker is given out at most once, whatever
-- the engine asks and in whatever order.
use mathlib.Core.List.{Perm, perm_middle}
use mathlib.Core.List.Perm
use deployquant.Prelude.{
  ℕ, suc, ◌<◌, false, not, Option, none, some, List, [], ◌∷◌, ◌++◌, ◌≡◌, refl, arith, if-cases,
  keep, keep-All, All, All-map, Bool-cases, inl, inr,
}
use deployquant.Prelude.Eq.{eq_nat, contains}
use deployquant.Prelude.Int.{ℤ}
use deployquant.Prelude.Text.{Text}
use deployquant.Ledger.Defs.{
  LedgerFill, ExecutionLedger, Reply, enumerate, indices, rows, is_candidate, is_visible, tagged,
  mark, candidates, visible, take, take_from, take_chosen, take_rule_fill, take_visible, is_left,
  leftovers, earlier, absence_unknown, norm_sym, insert_fill, sort_fills, outside_window,
}
use deployquant.Ledger.Sublists.{
  Sub, done, skip, pick, Sub-trans, keep-Sub, or_list-Sub, Sub-All, choose-Sub, choose_rule-Sub,
}

-- The rows of an answer.
abbrev pub handed {ℓ} : {A : Type ℓ} → Option (List A) → List A
handed none = []
handed (some rs) = rs

abbrev Free {ℓ} : {A : Type ℓ} → List ℕ → ℕ × A → Type 0
Free taken p = contains p.0 taken ≡ false

module _ {ℓ} {A : Type ℓ} where
  abbrev pub left : List ℕ → ℕ → List A → List A
  left taken n xs = rows (keep (λ p. not (contains p.0 taken)) (enumerate n xs))

  -- A mark below the first index changes nothing.
  left-mark_below :
      (k n : ℕ) (taken : List ℕ) (xs : List A) → k < n → left (k ∷ taken) n xs ≡ left taken n xs
  left-mark_below k n taken [] h = refl
  left-mark_below k n taken (x ∷ xs) h = ground (arith, left-mark_below k (suc n) taken xs)

  left-mark_head :
      (n : ℕ) (taken : List ℕ) (x : A) (xs : List A)
      → left (n ∷ taken) n (x ∷ xs) ≡ left taken (suc n) xs
  left-mark_head n taken x xs = ground (arith, left-mark_below n (suc n) taken xs)

  contains-indices :
      (k n : ℕ) (taken : List ℕ) (xs : List A) {chosen : List (ℕ × A)}
      → k < n
      → Sub chosen (enumerate n xs)
      → contains k (indices chosen ++ taken) ≡ contains k taken
  contains-indices k n taken [] h done = refl
  contains-indices k n taken (x ∷ xs) h (skip _ s) =
      contains-indices k (suc n) taken xs (omega arith) s
  contains-indices k n taken (x ∷ xs) h (pick _ s) =
      ground (arith, contains-indices k (suc n) taken xs (omega arith) s)

  -- Marking a part of the enumerated rows moves it from the free rows to the chosen ones.
  left-mark :
      (n : ℕ) (taken : List ℕ) (xs : List A) {chosen : List (ℕ × A)}
      → Sub chosen (enumerate n xs)
      → All (Free taken) chosen
      → Perm (left taken n xs) (rows chosen ++ left (indices chosen ++ taken) n xs)
  left-mark n taken [] done h = Perm.refl []
  left-mark n taken (x ∷ xs) (skip {xs = chosen} _ s) h = elim (Bool-cases (contains n taken)) [
    | inl e ↦
        rw (contains-indices n (suc n) taken xs (omega arith) s, e) (left-mark (suc n) taken xs s h)
    | inr e ↦
        rw (contains-indices n (suc n) taken xs (omega arith) s, e)
          (Perm.trans (Perm.cons x (left-mark (suc n) taken xs s h))
            (Perm.symm (perm_middle (rows chosen) _)))
  ]
  left-mark n taken (x ∷ xs) (pick {xs = chosen} _ s) h =
      rw (h.0, left-mark_head n (indices chosen ++ taken) x xs)
        (Perm.cons x (left-mark (suc n) taken xs s h.1))

module _ {ℓ} {F : Type ℓ} where
  -- What an answer must satisfy at a ledger.
  abbrev pub Conserves : ExecutionLedger F → Reply F → Type ℓ
  Conserves l (l', answer) = Perm (leftovers l) (handed answer ++ leftovers l')

  take_chosen-Conserves :
      (l : ExecutionLedger F) {chosen : List (ℕ × LedgerFill F)}
      → Sub chosen (enumerate 0 l.fills)
      → All (Free l.taken) chosen
      → Conserves l (take_chosen l chosen)
  unfolding take_chosen leftovers is_left mark
  take_chosen-Conserves l s h = left-mark 0 l.taken l.fills s h

  candidates-Free :
      (l : ExecutionLedger F) (day : ℕ) (symbol : Text) (side : Option ℤ)
      → All (Free l.taken) (candidates l day symbol side)
  unfolding candidates is_candidate
  candidates-Free l day symbol side =
      All-map _ _ (λ p e. ground arith) _
        (keep-All (is_candidate l day symbol side) (enumerate 0 l.fills))

  take_from-Conserves :
      (l : ExecutionLedger F) (day : ℕ) (symbol : Text) (rule_id : Option Text)
      (avail : List (ℕ × LedgerFill F))
      → Sub avail (enumerate 0 l.fills)
      → All (Free l.taken) avail
      → Conserves l (take_from l day symbol rule_id avail)
  unfolding take_from
  take_from-Conserves l day symbol rule_id [] s h =
      if-cases (λ a. Conserves l (l, a)) (absence_unknown l day symbol) (Perm.refl _) (Perm.refl _)
  take_from-Conserves l day symbol rule_id (c ∷ avail) s h =
      let chosen = Sub-trans (or_list-Sub (tagged rule_id) (c ∷ avail)) (choose-Sub _) in
      take_chosen-Conserves l (Sub-trans s chosen) (Sub-All (Free l.taken) chosen h)

  -- `take` moves rows from the leftovers to its answer: none is lost, made up or given out again.
  pub take-Conserves :
      (l : ExecutionLedger F) (day : ℕ) (symbol : Text) (rule_id : Option Text) (side : Option ℤ)
      → Conserves l (take l day symbol rule_id side)
  unfolding take
  take-Conserves l day symbol rule_id side =
      let sym = norm_sym (some symbol) in
      if-cases (Conserves l) (outside_window l day) (Perm.refl _) (
        take_from-Conserves l day sym rule_id (candidates l day sym side)
          (unfold candidates in keep-Sub _ _) (candidates-Free l day sym side))

  visible-Free :
      (l : ExecutionLedger F) (day : ℕ) (symbol rule_tag : Text) (upto_ms : ℕ)
      → All (Free l.taken) (visible l day symbol rule_tag upto_ms)
  unfolding visible is_visible
  visible-Free l day symbol rule_tag upto_ms =
      All-map _ _ (λ p e. ground arith) _
        (keep-All (is_visible l day symbol rule_tag upto_ms) (enumerate 0 l.fills))

  take_visible-Conserves :
      (l : ExecutionLedger F) (avail : List (ℕ × LedgerFill F))
      → Sub avail (enumerate 0 l.fills)
      → All (Free l.taken) avail
      → Conserves l (take_visible l avail)
  unfolding take_visible
  take_visible-Conserves l [] s h = Perm.refl _
  take_visible-Conserves l (c ∷ avail) s h =
      let chosen = choose_rule-Sub (c ∷ avail) in
      take_chosen-Conserves l (Sub-trans s chosen) (Sub-All (Free l.taken) chosen h)

  -- So does `take_rule_fill`.
  pub take_rule_fill-Conserves :
      (l : ExecutionLedger F) (day : ℕ) (symbol : Text) (rule_tag : Option Text) (upto_ms : ℕ)
      → Conserves l (take_rule_fill l day symbol rule_tag upto_ms)
  unfolding take_rule_fill
  take_rule_fill-Conserves l day symbol none upto_ms = Perm.refl _
  take_rule_fill-Conserves l day symbol (some tag) upto_ms =
      let sym = norm_sym (some symbol) in
      if-cases (Conserves l) (outside_window l day) (Perm.refl _) (
        take_visible-Conserves l (visible l day sym tag upto_ms) (unfold visible in keep-Sub _ _)
          (visible-Free l day sym tag upto_ms))

  insert_fill-perm :
      (x : LedgerFill F) (xs : List (LedgerFill F)) → Perm (x ∷ xs) (insert_fill x xs)
  unfolding insert_fill
  insert_fill-perm x [] = Perm.refl _
  insert_fill-perm x (y ∷ ys) =
      if-cases (Perm (x ∷ y ∷ ys)) (earlier y x)
        (Perm.trans (Perm.swap y x ys) (Perm.cons y (insert_fill-perm x ys))) (Perm.refl _)

  pub sort_fills-perm : (xs : List (LedgerFill F)) → Perm xs (sort_fills xs)
  unfolding sort_fills
  sort_fills-perm [] = Perm.refl _
  sort_fills-perm (x ∷ xs) = Perm.trans (Perm.cons x (sort_fills-perm xs)) (insert_fill-perm x _)
