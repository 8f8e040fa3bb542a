-- ===== src/LiveBook/Audit.antt =====
-- dqengine/live/book.py: what an audit overwrites, and what it leaves.
use deployquant.Prelude.{
  ℕ, ◌+◌, ◌-◌, ◌<◌, Bool, true, false, not, ◌&&◌, ◌||◌, Option, none, some, List, [], ◌∷◌, ◌++◌,
  ◌≡◌, inl, inr, refl, arith, ltb, if◌then◌else◌, Bool-cases, Option-cases, map, keep,
}
use deployquant.Prelude.Eq.{eq_nat, eq_list, eq_option, list_eq_iff, ==_refl, contains}
use deployquant.Prelude.Text.{Text, truthy_text, upper}
use deployquant.Prelude.Dict.{
  Dict, lookup, has_key, insert, erase, lookup-insert, lookup-erase, HasUniqueKeys,
  insert-HasUniqueKeys,
}
use deployquant.LiveBook.Defs.{
  Book, Order, Submission, recent_ms, text_of, gc, note_submit, note_ack, ack_key, is_dead,
  settling, fetched_positions, fetched_orders, fetched_cids, keep_positions, is_kept, keep_orders,
  apply_audit,
}

contains-append_left :
    (x : Text) (xs ys : List Text) → contains x xs ≡ true → contains x (xs ++ ys) ≡ true
contains-append_left x [] ys h = absurd (cc h)
contains-append_left x (y ∷ xs) ys h = ground (arith, contains-append_left x xs ys)

module _ {ℓ} {F : Type ℓ} where
  lookup-keep_positions :
      (own : Dict Text F) (syms : List Text) (new : Dict Text F) (sym : Text)
      → lookup sym (keep_positions own syms new)
        ≡ (if contains sym syms then lookup sym own else lookup sym new)
  unfolding keep_positions
  lookup-keep_positions own [] new sym = refl
  lookup-keep_positions own (s ∷ syms) new sym = elim (Option-cases (lookup s own)) [
    | inl e ↦ rw e (
        ground (
          arith,
          lookup-keep_positions own syms (erase s new) sym,
          lookup-erase s sym new,
          list_eq_iff s sym,
        ))
    | inr (q, e) ↦ rw e (
        ground (
          arith,
          lookup-keep_positions own syms (insert s q new) sym,
          lookup-insert s sym q new,
          list_eq_iff s sym,
        ))
  ]

  -- After an audit each position is the fetched one, unless the symbol settles: then it is
  -- what the book had, or none.
  pub lookup-apply_audit :
      (now : ℕ) (positions : Dict Text F) (orders : List (Order F)) (b : Book F) (sym : Text)
      → lookup sym (apply_audit now positions orders b).positions ≡ (
          if contains sym (settling (gc now b))
          then lookup sym b.positions
          else lookup sym (fetched_positions [] positions))
  unfolding apply_audit
  lookup-apply_audit now positions orders b sym =
      lookup-keep_positions b.positions (settling (gc now b)) (fetched_positions [] positions) sym

  -- An open order of the book that the fetch does not have.
  abbrev pub kept_order : List Text → List Text → Option (Order F) → Option (Order F)
  kept_order settle cids none = none
  kept_order settle cids (some o) = if is_kept settle cids o then some o else none

  abbrev pub first_some : Option (Order F) → Option (Order F) → Option (Order F)
  first_some none o = o
  first_some (some o) _ = some o

  lookup-keep_orders :
      (settle cids : List Text) (own new : Dict Text (Order F)) (key : Text)
      → HasUniqueKeys own
      → lookup key (keep_orders settle cids own new)
        ≡ first_some (lookup key new) (kept_order settle cids (lookup key own))
  unfolding keep_orders lookup
  lookup-keep_orders settle cids [] new key h = ground arith
  lookup-keep_orders settle cids ((k, o) ∷ own) new key (fresh, h) =
      elim (Bool-cases (is_kept settle cids o && not (has_key k new))) [
        | inl add ↦ rw add (
            ground (
              arith,
              lookup-keep_orders settle cids own (insert k o new) key h,
              lookup-insert k key o new,
              list_eq_iff k key,
            ))
        | inr skip ↦
            rw skip
              (ground (arith, lookup-keep_orders settle cids own new key h, list_eq_iff k key))
      ]

  -- After an audit an open order is as it was fetched; one that was not fetched is still there
  -- exactly if its symbol settles and the fetch has no order with its client's id. The open orders
  -- of the book are a dictionary.
  pub lookup-apply_audit_order :
      (now : ℕ) (positions : Dict Text F) (orders : List (Order F)) (b : Book F) (key : Text)
      → HasUniqueKeys b.open_orders
      → lookup key (apply_audit now positions orders b).open_orders
        ≡ first_some (lookup key (fetched_orders [] orders)) (
            kept_order
              (settling (gc now b))
              (fetched_cids (fetched_orders [] orders))
              (lookup key b.open_orders))
  unfolding apply_audit
  lookup-apply_audit_order now positions orders b key h =
      lookup-keep_orders (settling (gc now b)) (fetched_cids (fetched_orders [] orders))
        b.open_orders (fetched_orders [] orders) key h

  keep_twice :
      (p q : Submission F → Bool) (e : Submission F) (rs : List (Submission F))
      → p e ≡ true
      → q e ≡ true
      → contains e.sym (map (λ r. r.sym) (keep q (keep p (rs ++ e ∷ [])))) ≡ true
  keep_twice p q e [] hp hq = rw (hp, hq, ==_refl e.sym) refl
  keep_twice p q e (r ∷ rs) hp hq = elim (Bool-cases (p r)) [
    | inl kept1 ↦ rw kept1 (elim (Bool-cases (q r)) [
      | inl kept2 ↦ rw kept2 (ground (arith, keep_twice p q e rs hp hq))
      | inr gone ↦ rw gone (keep_twice p q e rs hp hq)
    ])
    | inr gone ↦ rw gone (keep_twice p q e rs hp hq)
  ]

  order_kept :
      (settle cids : List Text) (sym : Text) (order : Order F)
      → order.symbol ≡ some sym
      → contains (upper sym) settle ≡ true
      → contains (text_of order.client_order_id) cids ≡ false
      → is_kept settle cids order ≡ true
  unfolding is_kept
  order_kept settle cids sym order named settles unseen =
      let e : text_of order.symbol ≡ sym = unfold text_of in rw named refl in
      rw (e, settles, unseen) refl

  -- A book that has just submitted an order and had it acknowledged.
  unfoldable pub submitted : ℕ → Text → Text → Text → F → Order F → Book F → Book F
  submitted at cid sym side qty order b =
      note_ack cid (some order) (note_submit at cid sym side qty b)

  module _ (at now : ℕ) (cid sym side : Text) (qty : F) (order : Order F) (b : Book F)
      (live : (not (truthy_text (ack_key cid order)) || is_dead order) ≡ false)
      (soon : now < at + recent_ms) where
    submitted_settles :
        contains (upper sym) (settling (gc now (submitted at cid sym side qty order b))) ≡ true
    unfolding settling gc submitted note_ack note_submit
    submitted_settles = rw live (
        contains-append_left (upper sym) _ _ (
          keep_twice (λ r. ltb (at - r.at) recent_ms) (λ r. ltb (now - r.at) recent_ms)
            (record { sym = upper sym; side = side; qty = qty; at = at }) b.recent (ground arith)
            (ground (arith, soon))))

    submitted_orders :
        (submitted at cid sym side qty order b).open_orders
        ≡ insert (ack_key cid order) order b.open_orders
    unfolding submitted note_ack note_submit gc
    submitted_orders = rw live refl

    submitted_positions : (submitted at cid sym side qty order b).positions ≡ b.positions
    unfolding submitted note_ack note_submit gc
    submitted_positions = rw live refl

    -- An order that is submitted, and acknowledged as neither rejected nor cancelled, survives an
    -- audit within the settle window whose fetch has neither its key nor its client's id: the book
    -- still holds it, and its symbol's position is the one that the book had. The open orders of the
    -- book are a dictionary, and the order is one of the submitted symbol.
    pub submitted-apply_audit :
        (positions : Dict Text F) (orders : List (Order F))
        → HasUniqueKeys b.open_orders
        → order.symbol ≡ some sym
        → lookup (ack_key cid order) (fetched_orders [] orders) ≡ none
        → contains (text_of order.client_order_id) (fetched_cids (fetched_orders [] orders)) ≡ false
        → (lookup
              (ack_key cid order)
              (apply_audit now positions orders (submitted at cid sym side qty order b)).open_orders
            ≡ some order)
          × (lookup
                (upper sym)
                (apply_audit now positions orders (submitted at cid sym side qty order b)).positions
              ≡ lookup (upper sym) b.positions)
    submitted-apply_audit positions orders unique named absent unseen =
        let b' = submitted at cid sym side qty order b in
        let key = ack_key cid order in
        let unique' : HasUniqueKeys b'.open_orders =
          rw submitted_orders (insert-HasUniqueKeys key order b.open_orders unique) in
        let held : lookup key b'.open_orders ≡ some order =
          rw (submitted_orders, lookup-insert key key order b.open_orders, ==_refl key) refl in
        (
          rw
              (
                lookup-apply_audit_order now positions orders b' key unique',
                absent,
                held,
                order_kept _ _ sym order named submitted_settles unseen,
              )
              refl,
          rw
              (
                lookup-apply_audit now positions orders b' (upper sym),
                submitted_settles,
                submitted_positions,
              )
              refl,
        )
