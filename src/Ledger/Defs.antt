-- ===== src/Ledger/Defs.antt =====
-- dqengine/runtime/core/ledger.py: the rows, the ledger and its operations.
use deployquant.Prelude.{
  ℕ, suc, Bool, true, false, not, ◌&&◌, ◌||◌, Option, none, some, List, [], ◌∷◌, ◌++◌, map, ltb,
  leb, if◌then◌else◌, is_some, keep,
}
use deployquant.Prelude.Eq.{◌==◌, eq_nat, eq_list, eq_option, contains}
use deployquant.Prelude.Int.{ℤ, is_pos}
use deployquant.Prelude.Text.{Text, upper, truthy}

unfoldable pub norm_sym : Option Text → Text
norm_sym none = []
norm_sym (some s) = upper s

pub record LedgerFill {ℓ} (F : Type ℓ) : Type ℓ where
  pub day : ℕ
  pub time_ms : ℕ
  pub symbol : Text
  pub qty : ℤ
  pub price : F
  pub fees : F
  pub rule_tag : Option Text
  pub broker_order_id : Option Text

-- The arguments of the constructor; a day bound is `none` for Python's `None`.
pub record ExecutionLedger {ℓ} (F : Type ℓ) : Type ℓ where
  pub fills : List (LedgerFill F)
  pub taken : List ℕ
  pub unknown : List Text
  pub reconciled_from : Option ℕ
  pub unknown_from : Option ℕ

-- What the methods return: the ledger after the call, and the answer.
abbrev pub Reply {ℓ} : Type ℓ → Type ℓ
Reply F = ExecutionLedger F × Option (List (LedgerFill F))

-- `enumerate(xs, n)`
abbrev pub enumerate {ℓ} : {A : Type ℓ} → ℕ → List A → List (ℕ × A)
enumerate n [] = []
enumerate n (x ∷ xs) = (n, x) ∷ enumerate (suc n) xs

-- `a == b` on truth values
abbrev pub same_bool : Bool → Bool → Bool
same_bool true b = b
same_bool false b = not b

-- `xs or ys`
abbrev pub or_list {ℓ} : {A : Type ℓ} → List A → List A → List A
or_list [] ys = ys
or_list (x ∷ xs) ys = x ∷ xs

abbrev pub indices {ℓ} : {A : Type ℓ} → List (ℕ × A) → List ℕ
indices [] = []
indices ((i, x) ∷ r) = i ∷ indices r

abbrev pub rows {ℓ} : {A : Type ℓ} → List (ℕ × A) → List A
rows [] = []
rows ((i, x) ∷ r) = x ∷ rows r

module _ {ℓ} {F : Type ℓ} where
  -- `__post_init__`
  unfoldable pub post_init : LedgerFill F → LedgerFill F
  post_init r = record r { symbol = norm_sym (some r.symbol) }

  -- The order of `key=lambda f: (f.day, f.time_ms)`.
  unfoldable pub earlier : LedgerFill F → LedgerFill F → Bool
  earlier a b = ltb a.day b.day || (a.day == b.day && ltb a.time_ms b.time_ms)

  -- `sorted`, which is stable.
  unfoldable pub insert_fill : LedgerFill F → List (LedgerFill F) → List (LedgerFill F)
  insert_fill x [] = x ∷ []
  insert_fill x (y ∷ ys) = if earlier y x then y ∷ insert_fill x ys else x ∷ y ∷ ys

  unfoldable pub sort_fills : List (LedgerFill F) → List (LedgerFill F)
  sort_fills [] = []
  sort_fills (x ∷ xs) = insert_fill x (sort_fills xs)

  -- `__init__`
  unfoldable pub new_ledger :
      List (LedgerFill F) → List Text → Option ℕ → Option ℕ → ExecutionLedger F
  new_ledger fills unknown reconciled_from unknown_from = record {
    fills = sort_fills fills;
    taken = [];
    unknown = map (λ s. norm_sym (some s)) unknown;
    reconciled_from = reconciled_from;
    unknown_from = unknown_from;
  }

  unfoldable pub absence_unknown : ExecutionLedger F → ℕ → Text → Bool
  absence_unknown l day symbol =
      if not (contains symbol l.unknown)
      then false
      else elim l.unknown_from [ none ↦ true | some from ↦ leb from day ]

  -- `self.reconciled_from is None or day < self.reconciled_from`
  unfoldable pub outside_window : ExecutionLedger F → ℕ → Bool
  outside_window l day = elim l.reconciled_from [ none ↦ true | some from ↦ ltb day from ]

  unfoldable pub on_side : Option ℤ → LedgerFill F → Bool
  on_side none r = true
  on_side (some side) r = same_bool (is_pos r.qty) (is_pos side)

  -- The rows that `take` may give out, with their indices.
  unfoldable pub is_candidate : ExecutionLedger F → ℕ → Text → Option ℤ → ℕ × LedgerFill F → Bool
  is_candidate l day symbol side (i, r) =
      not (contains i l.taken) && (r.day == day && (r.symbol == symbol && on_side side r))

  unfoldable pub tagged : Option Text → ℕ × LedgerFill F → Bool
  tagged rule_id (i, r) = r.rule_tag == rule_id

  abbrev pub same_order : LedgerFill F → ℕ × LedgerFill F → Bool
  same_order first p = p.1.broker_order_id == first.broker_order_id

  abbrev pub no_order_id : ℕ × LedgerFill F → Bool
  no_order_id p = not (truthy p.1.broker_order_id)

  abbrev pub same_rule : LedgerFill F → ℕ × LedgerFill F → Bool
  same_rule first p = (p.1.rule_tag == first.rule_tag) && no_order_id p

  -- The rows of the first row's order.
  unfoldable pub choose : List (ℕ × LedgerFill F) → List (ℕ × LedgerFill F)
  choose [] = []
  choose ((i, first) ∷ rest) =
      if truthy first.broker_order_id
      then keep (same_order first) ((i, first) ∷ rest)
      else if is_some first.rule_tag
      then keep (same_rule first) ((i, first) ∷ rest)
      else (i, first) ∷ []

  unfoldable pub mark : ExecutionLedger F → List (ℕ × LedgerFill F) → ExecutionLedger F
  mark l chosen = record l { taken = indices chosen ++ l.taken }

  unfoldable pub candidates : ExecutionLedger F → ℕ → Text → Option ℤ → List (ℕ × LedgerFill F)
  candidates l day symbol side = keep (is_candidate l day symbol side) (enumerate 0 l.fills)

  unfoldable pub take_chosen : ExecutionLedger F → List (ℕ × LedgerFill F) → Reply F
  take_chosen l chosen = (mark l chosen, some (rows chosen))

  -- `take`, once the window has been checked and the candidates are known.
  unfoldable pub take_from :
      ExecutionLedger F → ℕ → Text → Option Text → List (ℕ × LedgerFill F) → Reply F
  take_from l day symbol rule_id [] = (l, if absence_unknown l day symbol then none else some [])
  take_from l day symbol rule_id (c ∷ avail) =
      take_chosen l (choose (or_list (keep (tagged rule_id) (c ∷ avail)) (c ∷ avail)))

  unfoldable pub take : ExecutionLedger F → ℕ → Text → Option Text → Option ℤ → Reply F
  take l day symbol rule_id side =
      let sym = norm_sym (some symbol) in
      if outside_window l day
      then (l, none)
      else take_from l day sym rule_id (candidates l day sym side)

  unfoldable pub is_visible : ExecutionLedger F → ℕ → Text → Text → ℕ → ℕ × LedgerFill F → Bool
  is_visible l day symbol rule_tag upto_ms (i, r) =
      not (contains i l.taken)
      && (r.day == day
          && (r.symbol == symbol && (r.rule_tag == some rule_tag && ltb r.time_ms upto_ms)))

  unfoldable pub choose_rule : List (ℕ × LedgerFill F) → List (ℕ × LedgerFill F)
  choose_rule [] = []
  choose_rule ((i, first) ∷ rest) =
      if truthy first.broker_order_id
      then keep (same_order first) ((i, first) ∷ rest)
      else keep no_order_id ((i, first) ∷ rest)

  unfoldable pub visible : ExecutionLedger F → ℕ → Text → Text → ℕ → List (ℕ × LedgerFill F)
  visible l day symbol rule_tag upto_ms =
      keep (is_visible l day symbol rule_tag upto_ms) (enumerate 0 l.fills)

  unfoldable pub take_visible : ExecutionLedger F → List (ℕ × LedgerFill F) → Reply F
  take_visible l [] = (l, none)
  take_visible l (c ∷ avail) = take_chosen l (choose_rule (c ∷ avail))

  unfoldable pub take_rule_fill : ExecutionLedger F → ℕ → Text → Option Text → ℕ → Reply F
  take_rule_fill l day symbol none upto_ms = (l, none)
  take_rule_fill l day symbol (some rule_tag) upto_ms =
      if outside_window l day
      then (l, none)
      else take_visible l (visible l day (norm_sym (some symbol)) rule_tag upto_ms)

  unfoldable pub is_left : ExecutionLedger F → ℕ × LedgerFill F → Bool
  is_left l (i, r) = not (contains i l.taken)

  unfoldable pub leftovers : ExecutionLedger F → List (LedgerFill F)
  leftovers l = rows (keep (is_left l) (enumerate 0 l.fills))

-- `LiveCappedLedger`: the other methods are the inner ledger's.
pub record LiveCappedLedger {ℓ} (F : Type ℓ) : Type ℓ where
  pub inner : ExecutionLedger F
  pub live_from : ℕ

-- `None` if `real == []` on a live day, else `real`.
unfoldable pub cap_answer {ℓ} : {A : Type ℓ} → Bool → Option (List A) → Option (List A)
cap_answer live (some []) = if live then none else some []
cap_answer live real = real

module _ {ℓ} {F : Type ℓ} where
  unfoldable pub take_capped :
      LiveCappedLedger F
      → ℕ
      → Text
      → Option Text
      → Option ℤ
      → LiveCappedLedger F × Option (List (LedgerFill F))
  take_capped c day symbol rule_id side =
      let (l, real) = take c.inner day symbol rule_id side in
      (record c { inner = l }, cap_answer (leb c.live_from day) real)
