-- ===== src/Orders/CancelAll.antt =====
-- dqengine/runtime/orders.py: `cancel_open_orders` under a handler that does nothing.
use deployquant.Prelude.{
  ℕ, Bool, true, none, List, [], ◌∷◌, ◌≡◌, inl, inr, refl, arith, Option-cases, keep,
}
use deployquant.Prelude.Eq.{==_refl, eq_nat, eq_list, contains}
use deployquant.Prelude.Int.{pos}
use deployquant.Prelude.Text.{codes}
use deployquant.Prelude.Float.{Float, nought}
use deployquant.Prelude.Dict.{lookup}
use deployquant.Orders.Defs.{
  OrderTicket, OrderBook, Env, Result, ok, err, canceled, is_open, put, unrest, remove_one,
  close_ticket, log_order,
}
use deployquant.Orders.Entry.{cancel}
use deployquant.Orders.Resting.{is_listed, open_tickets, cancel_all, cancel_open_orders}
use deployquant.Orders.Keeps.{IsValid, After, Ends, Holds, Holds-put, IsKnown, ticket-Holds}
use deployquant.Orders.MethodKeeps.{cancel-Ends}
use deployquant.Orders.FillReturns.{IsQuiet, quiet-IsPolite, emit-quiet}

module _ {ℓ} {F : Type ℓ} ⦃f : Float F⦄ (env : Env F) (quiet : IsQuiet env) where
  canceled_book : ℕ → OrderTicket F → OrderBook F → OrderBook F
  canceled_book id t b =
      close_ticket id (record t { status = canceled }) (log_order t (codes "canceled") b)

  cancel-quiet :
      (id : ℕ) (t : OrderTicket F) (b : OrderBook F)
      → Holds b id t
      → is_open t ≡ true
      → cancel env id b ≡ ok (canceled_book id t b)
  unfolding cancel canceled_book
  cancel-quiet id t b e live =
      rw (ticket-Holds b id t e, live)
        (emit-quiet env quiet id (record t { status = canceled }) canceled nought (pos 0) [] _
          (unfold close_ticket unrest in Holds-put _ id (record t { status = canceled })))

  open_ids-canceled_book :
      (id : ℕ) (t : OrderTicket F) (b : OrderBook F) (ids : List ℕ)
      → b.open_ids ≡ id ∷ ids
      → (canceled_book id t b).open_ids ≡ ids
  unfolding canceled_book close_ticket unrest put log_order remove_one
  open_ids-canceled_book id t b ids e = rw (e, ==_refl id) refl

  -- The first id of the open list is that of an open ticket.
  first-open :
      (b : OrderBook F) (id : ℕ) (ids : List ℕ)
      → IsValid b
      → b.open_ids ≡ id ∷ ids
      → (t : OrderTicket F) × Holds b id t × (is_open t ≡ true) × IsKnown b id
  first-open b id ids v e =
      let shown : contains id b.open_ids ≡ true = rw (e, ==_refl id) refl in
      elim (Option-cases (lookup id b.tickets)) [
        | inl absent ↦ absurd (ground (arith, v.store.opened id))
        | inr (t, held) ↦
            (t, held, ground (arith, v.store.opened id), ground (arith, v.store.known id))
      ]

  ended-After :
      (b b' : OrderBook F) (m : Result (OrderBook F)) → m ≡ ok b' → Ends (After b) m → After b b'
  ended-After b b' (ok b'') e h = let same : b'' ≡ b' = cc e in rw⁻¹ same h
  ended-After b b' (err why) e h = absurd (cc e)

  cancel_all-empties :
      (ids : List ℕ) (b : OrderBook F)
      → IsValid b
      → b.open_ids ≡ ids
      → (b' : OrderBook F) × (cancel_all env ids b ≡ ok b') × (b'.open_ids ≡ []) × IsValid b'
  unfolding cancel_all
  cancel_all-empties [] b v e = (b, refl, e, v)
  cancel_all-empties (id ∷ ids) b v e =
      let (t, held, live, known) = first-open b id ids v e in
      let once = cancel-quiet id t b held live in
      let next =
        ended-After b (canceled_book id t b) _ once
          (cancel-Ends env (quiet-IsPolite env quiet) b id v known) in
      let (b', done, none_left, v') =
        cancel_all-empties ids (canceled_book id t b) next.valid
          (open_ids-canceled_book id t b ids e) in
      (b', rw once done, none_left, v')

  keep-all :
      (p : ℕ → Bool) (ids : List ℕ)
      → ((id : ℕ) → contains id ids ≡ true → p id ≡ true)
      → keep p ids ≡ ids
  keep-all p [] h = refl
  keep-all p (id ∷ ids) h =
      rw (h id (ground (arith, ==_refl id)), keep-all p ids λ j e. h j (ground arith)) refl

  open-listed :
      (b : OrderBook F)
      → IsValid b
      → (id : ℕ) → contains id b.open_ids ≡ true
      → is_listed none b id ≡ true
  unfolding is_listed
  open-listed b v id e = ground (arith, v.store.opened id)

  -- With a handler that does nothing, cancelling the open orders of a valid book returns, and leaves
  -- a valid book with no open order.
  pub cancel_open_orders-empties :
      (b : OrderBook F)
      → IsValid b
      → (b' : OrderBook F) × (cancel_open_orders env none b ≡ ok b')
        × (b'.open_ids ≡ [])
        × IsValid b'
  unfolding cancel_open_orders open_tickets
  cancel_open_orders-empties b v =
      rw (keep-all (is_listed none b) b.open_ids (open-listed b v))
        (cancel_all-empties b.open_ids b v refl)
