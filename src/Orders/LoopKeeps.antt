-- ===== src/Orders/LoopKeeps.antt =====
-- dqengine/runtime/orders.py: the loops over the open list, updates and cancellations keep the book
-- valid.
use deployquant.Prelude.{
  ℕ, Bool, true, not, none, some, ◌||◌, Option, List, keep, [], ◌∷◌, ◌≡◌, inl, inr, refl, arith,
  if-cases, Bool-cases, Option-cases,
}
use deployquant.Prelude.Eq.{eq_nat, eq_list, contains}
use deployquant.Prelude.Int.{ℤ}
use deployquant.Prelude.Text.{Text, upper}
use deployquant.Prelude.Float.{Float}
use deployquant.Prelude.Dict.{Dict, lookup}
use deployquant.Orders.Defs.{OrderType, OrderBook, Env, Result, ok, ◌>>=◌, is_open}
use deployquant.Orders.Entry.{cancel}
use deployquant.Orders.Resting.{
  Bar, UpdateOrderFields, check_one, check_all, check_resting, is_created_on, edge_one, edge_all,
  fill_at_session_edge, same_type, int_of, new_quantity, updated, reserved_update, update,
  open_tickets, is_listed, cancel_all, cancel_open_orders,
}
use deployquant.Orders.Keeps.{
  IsValid, After, After-refl, Ends, Ends-bind, Ends-After, is_unsupported, is_infinite, is_nan,
  IsKnown, IsKnown-Holds, IsKnown-After, ticket-Holds, put-After, IsPolite,
}
use deployquant.Orders.EntryKeeps.{refuse-After}
use deployquant.Orders.RestingKeeps.{fill_if-Ends, check_one-Ends}
use deployquant.Orders.MethodKeeps.{cancel-Ends, open-not-final}

contains-keep :
    (p : ℕ → Bool) (i : ℕ) (is : List ℕ) → contains i (keep p is) ≡ true → contains i is ≡ true
contains-keep p i [] h = h
contains-keep p i (k ∷ is) h = ground (arith, contains-keep p i is)

module _ {ℓ} {F : Type ℓ} where
  -- The ids of the open list are the book's.
  abbrev AllKnown : OrderBook F → List ℕ → Type 0
  AllKnown b ids = (id : ℕ) → contains id ids ≡ true → IsKnown b id

  opened-IsKnown : {b : OrderBook F} → IsValid b → AllKnown b b.open_ids
  opened-IsKnown {b} v id h = elim (Option-cases (lookup id b.tickets)) [
    | inl e ↦ ground (arith, v.store.opened id)
    | inr (t, e) ↦ ground (arith, v.store.known id)
  ]

  head-IsKnown : (b : OrderBook F) (id : ℕ) (ids : List ℕ) → AllKnown b (id ∷ ids) → IsKnown b id
  head-IsKnown b id ids h = h id (ground arith)

  tail-IsKnown :
      {b b' : OrderBook F} (id : ℕ) (ids : List ℕ)
      → After b b'
      → AllKnown b (id ∷ ids)
      → AllKnown b' ids
  tail-IsKnown id ids g h j e = IsKnown-After j g (h j (ground arith))

  -- A loop over ids of the book, each round of which keeps the book valid.
  loop-Ends :
      (step : ℕ → OrderBook F → Result (OrderBook F))
      → (all : List ℕ → OrderBook F → Result (OrderBook F)) → ((b : OrderBook F) → all [] b ≡ ok b)
      → ((id : ℕ) (ids : List ℕ) (b : OrderBook F)
          → all (id ∷ ids) b ≡ (step id b >>= λ b'. all ids b'))
      → ((b : OrderBook F) (id : ℕ) → IsValid b → IsKnown b id → Ends (After b) (step id b))
      → (ids : List ℕ) (b : OrderBook F) → IsValid b
      → AllKnown b ids
      → Ends (After b) (all ids b)
  loop-Ends step all stop next keeps [] b v h = rw (stop b) (After-refl v)
  loop-Ends step all stop next keeps (id ∷ ids) b v h = rw (next id ids b) (
      Ends-bind (After b) (After b) _ _ (keeps b id v (head-IsKnown b id ids h)) λ b' g.
        Ends-After _ g
          (loop-Ends step all stop next keeps ids b' g.valid (tail-IsKnown id ids g h)))

module _ {ℓ} {F : Type ℓ} ⦃f : Float F⦄ (env : Env F) (polite : IsPolite env) where
  -- The price handler's call: `check_resting` on any bar.
  pub check_resting-Ends :
      (b : OrderBook F) (symbol : Text) (bar : Bar F) (exclude : Option (ℕ × ℕ))
      → IsValid b
      → Ends (After b) (check_resting env symbol bar exclude b)
  unfolding check_resting
  check_resting-Ends b symbol bar exclude v =
      loop-Ends (check_one env (upper symbol) bar exclude)
        (check_all env (upper symbol) bar exclude) (λ b. unfold check_all in refl)
        (λ id ids b. unfold check_all in refl)
        (λ b id. check_one-Ends env polite b (upper symbol) bar exclude id) _ b v (opened-IsKnown v)

  edge_one-Ends :
      (kind : OrderType) (prices : Dict Text F) (day : Option ℕ) (b : OrderBook F) (id : ℕ)
      → IsValid b
      → IsKnown b id
      → Ends (After b) (edge_one env kind prices day id b)
  unfolding edge_one
  edge_one-Ends kind prices day b id v known =
      let (t, e) = IsKnown-Holds id v known in
      rw (ticket-Holds b id t e) (elim (Bool-cases (is_open t)) [
        | inl live ↦
            if-cases (Ends (After b))
              (not (is_open t) || (not (same_type t.order_type kind) || is_created_on day t))
              {x = ok b} (After-refl v)
              (fill_if-Ends env polite v id t e (open-not-final t live) _ _)
        | inr shut ↦ rw shut (After-refl v)
      ])

  pub fill_at_session_edge-Ends :
      (b : OrderBook F) (kind : OrderType) (prices : Dict Text F) (day : Option ℕ)
      → IsValid b
      → Ends (After b) (fill_at_session_edge env kind prices day b)
  unfolding fill_at_session_edge
  fill_at_session_edge-Ends b kind prices day v =
      loop-Ends (edge_one env kind prices day) (edge_all env kind prices day)
        (λ b. unfold edge_all in refl) (λ id ids b. unfold edge_all in refl)
        (edge_one-Ends kind prices day) _ b v (opened-IsKnown v)

  new_quantity-Ends : (given : Option F) (old : ℤ) → Ends (λ q. Unit {0}) (new_quantity given old)
  unfolding new_quantity int_of
  new_quantity-Ends none old = tt
  new_quantity-Ends (some x) old =
      if-cases (Ends (λ q. Unit {0})) (f.finite x) tt
        (if-cases (Ends (λ q. Unit {0})) (f.le x x) is_infinite is_nan)

  pub update-Ends :
      (b : OrderBook F) (id : ℕ) (u : UpdateOrderFields F)
      → IsValid b
      → IsKnown b id
      → Ends (After b) (update id u b)
  unfolding update
  update-Ends b id u v known =
      let (t, e) = IsKnown-Holds id v known in
      rw (ticket-Holds b id t e) (elim (Bool-cases (is_open t)) [
        | inl live ↦ rw live (
            if-cases (Ends (After b)) (reserved_update u b) is_unsupported (
              Ends-bind (λ q. Unit) (After b) _ _ (new_quantity-Ends u.quantity t.quantity)
                λ q h.
                  put-After v id t (updated u q t) e (open-not-final t live)
                    (unfold updated is_open in refl) (unfold updated in refl)))
        | inr shut ↦ rw shut (refuse-After _ v)
      ])

  listed-IsKnown :
      {b : OrderBook F} (symbol : Option Text) → IsValid b → AllKnown b (open_tickets symbol b)
  unfolding open_tickets
  listed-IsKnown {b} symbol v id h =
      opened-IsKnown v id (contains-keep (is_listed symbol b) id b.open_ids h)

  pub cancel_open_orders-Ends :
      (b : OrderBook F) (symbol : Option Text)
      → IsValid b
      → Ends (After b) (cancel_open_orders env symbol b)
  unfolding cancel_open_orders
  cancel_open_orders-Ends b symbol v =
      loop-Ends (cancel env) (cancel_all env) (λ b. unfold cancel_all in refl)
        (λ id ids b. unfold cancel_all in refl) (λ b id. cancel-Ends env polite b id) _ b v
        (listed-IsKnown symbol v)
