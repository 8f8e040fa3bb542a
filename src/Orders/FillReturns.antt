-- ===== src/Orders/FillReturns.antt =====
-- dqengine/runtime/orders.py: `_fill` under a handler that does nothing returns.
use deployquant.Prelude.{
  ℕ, Bool, true, false, not, ◌&&◌, ◌||◌, Option, none, some, List, [], ◌∷◌, ◌≡◌, refl, if-cases,
}
use deployquant.Prelude.Eq.{eq_nat, eq_list}
use deployquant.Prelude.Int.{ℤ, pos, ◌+ℤ◌}
use deployquant.Prelude.Text.{Text}
use deployquant.Prelude.Float.{Float, nought}
use deployquant.Ledger.{LedgerFill}
use deployquant.Sleeve.{Sleeve}
use deployquant.Sleeve.Basis
use deployquant.Orders.Defs.{
  OrderTicket, OrderStatus, OrderEvent, OrderBook, AnyLedger, Env, Result, ok, err, filled,
  canceled, invalid, ◌>>=◌, is_open, unrest, close_ticket, emit, event, reject,
}
use deployquant.Orders.Fill.{
  apply_rows, row_fill, settle, broker_fill, give_up, no_fill, is_edge, model_fill, model_record,
  book_model, exceeds_power, fill_with, fill_by, fill,
}
use deployquant.Orders.Store.{is_final}
use deployquant.Orders.Keeps.{IsValid, After-refl, IsPolite, Holds, Holds-put, ticket-Holds}
use deployquant.Orders.WriteKeeps.{add_order-IsValid, Fills}
use deployquant.Orders.FillKeeps.{fill-Fills}

-- A handler that does nothing.
pub record IsQuiet {ℓ} {F : Type ℓ} (env : Env F) : Type ℓ where
  pub silent : (e : OrderEvent F) (b : OrderBook F) → env.events_out e b ≡ ok b

abbrev pub returns {ℓ} : {A : Type ℓ} → Result A → Bool
returns (ok a) = true
returns (err e) = false

returns-bind {ℓ κ} :
    {A : Type ℓ} {B : Type κ} (m : Result A) (k : A → Result B)
    → returns m ≡ true
    → ((a : A) → returns (k a) ≡ true)
    → returns (m >>= k) ≡ true
returns-bind (ok a) k h next = next a
returns-bind (err e) k h next = absurd (cc h)

module _ {ℓ} {F : Type ℓ} where
  pub quiet-IsPolite : (env : Env F) → IsQuiet env → IsPolite env
  quiet-IsPolite env quiet = record { handles = λ e b v. rw (quiet.silent e b) (After-refl v) }

  pub emit-quiet :
      (env : Env F) (quiet : IsQuiet env) (id : ℕ) (t : OrderTicket F) (status : OrderStatus)
      (px : F) (qty : ℤ) (message : Text) (b : OrderBook F)
      → Holds b id t
      → emit env id status px qty message b ≡ ok b
  unfolding emit
  emit-quiet env quiet id t status px qty message b e =
      rw (ticket-Holds b id t e, quiet.silent (event id t status px qty message) b) refl

  emit-returns :
      (env : Env F) (quiet : IsQuiet env) (id : ℕ) (t : OrderTicket F) (status : OrderStatus)
      (px : F) (qty : ℤ) (message : Text) (b : OrderBook F)
      → Holds b id t
      → returns (emit env id status px qty message b) ≡ true
  emit-returns env quiet id t status px qty message b e =
      rw (emit-quiet env quiet id t status px qty message b e) refl

  then_pair :
      (m : Result (OrderBook F)) (done : Bool)
      → returns m ≡ true
      → returns {A = Bool × OrderBook F} (m >>= λ b. ok (done, b)) ≡ true
  then_pair m done h = returns-bind m _ h λ b. refl

module _ {ℓ} {F : Type ℓ} ⦃f : Float F⦄ (env : Env F) (quiet : IsQuiet env) where
  closed-returns :
      (b : OrderBook F) (id : ℕ) (t' : OrderTicket F) (status : OrderStatus) (px : F) (qty : ℤ)
      (message : Text)
      → returns (emit env id status px qty message (close_ticket id t' b)) ≡ true
  unfolding close_ticket unrest
  closed-returns b id t' status px qty message =
      emit-returns env quiet id t' status px qty message _ (Holds-put b id t')

  settled-returns :
      (b : OrderBook F) (id : ℕ) (t : OrderTicket F) (s : Sleeve F) (n : ℤ) (last px : F) (qty : ℤ)
      → returns (emit env id filled px qty [] (settle id t s n last b)) ≡ true
  unfolding settle
  settled-returns b id t s n last px qty = closed-returns _ id _ filled px qty []

  apply_rows-returns :
      (t : OrderTicket F) (model_price : Option F) (rs : List (LedgerFill F)) (s : Sleeve F) (n : ℤ)
      (px : F)
      → Basis.IsValid s
      → returns (apply_rows t model_price s n px rs) ≡ true
  unfolding apply_rows
  apply_rows-returns t model_price [] s n px v = refl
  apply_rows-returns t model_price (r ∷ rs) s n px v =
      let (s', e, v') = Basis.apply_fill-IsValid s (row_fill t model_price r) v in
      rw (e, apply_rows)
        (apply_rows-returns t model_price rs _ (n +ℤ r.qty) r.price (add_order-IsValid _ s' v'))

  module _ {b : OrderBook F} (v : IsValid b) (id : ℕ) (t : OrderTicket F) (e : Holds b id t) where
    broker_fill-returns :
        (model_price : Option F) (px : F) (rs : List (LedgerFill F))
        → returns (broker_fill env id t model_price px rs b) ≡ true
    unfolding broker_fill
    broker_fill-returns model_price px rs =
        returns-bind _ _ (apply_rows-returns t model_price rs b.sleeve (pos 0) px v.funded)
          λ (s, n, last). then_pair _ true (settled-returns b id t s n last last n)

    no_fill-returns : returns (no_fill env id t b) ≡ true
    unfolding no_fill give_up
    no_fill-returns =
        if-cases (λ (m : Result (Bool × OrderBook F)). returns m ≡ true)
          (not (is_open t) || (b.cancel_edge_on_no_fill && is_edge t.order_type))
          (then_pair _ false (
            emit-returns env quiet id (record t { status = canceled }) canceled nought (pos 0) _ _
              (Holds-put _ id (record t { status = canceled }))))
          refl

    reject-returns : (why : Text) → returns (reject env id why b) ≡ true
    unfolding reject
    reject-returns why =
        rw (ticket-Holds b id t e) (closed-returns _ id _ invalid nought (pos 0) why)

    model_fill-returns :
        (px : F) (confirmed : Bool) → returns (model_fill env id t px confirmed b) ≡ true
    unfolding model_fill book_model model_record
    model_fill-returns px confirmed =
        let (s, booked, funded) =
          Basis.apply_fill-IsValid b.sleeve (model_record env t px confirmed b) v.funded in
        if-cases (λ (m : Result (Bool × OrderBook F)). returns m ≡ true) (exceeds_power t px b)
          (then_pair _ false (reject-returns _))
          (rw (booked, book_model)
            (then_pair _ true (settled-returns b id t _ t.quantity px px t.quantity)))

  fill_with-returns :
      {b : OrderBook F} (v : IsValid b) (id : ℕ) (t : OrderTicket F) (e : Holds b id t) (px : F)
      (real : Option (List (LedgerFill F)))
      → returns (fill_with env id t px real b) ≡ true
  unfolding fill_with
  fill_with-returns v id t e px none = model_fill-returns v id t e px false
  fill_with-returns v id t e px (some []) = no_fill-returns v id t e
  fill_with-returns v id t e px (some (r ∷ rs)) = broker_fill-returns v id t e (some px) px (r ∷ rs)

  fill_by-returns :
      {b : OrderBook F} (v : IsValid b) (id : ℕ) (t : OrderTicket F) (e : Holds b id t) (px : F)
      (l : Option (AnyLedger F))
      → returns (fill_by env id t px l b) ≡ true
  unfolding fill_by
  fill_by-returns v id t e px none = model_fill-returns v id t e px true
  fill_by-returns {b} v id t e px (some l) =
      fill_with-returns (record { store = v.store; funded = v.funded; accounts = v.accounts }) id t
        e px _

  -- With a handler that does nothing, `_fill` of a ticket of a valid book that is not final returns,
  -- whatever the ledger answers, and leaves a valid book in which every final ticket is as it was.
  pub fill-returns :
      {b : OrderBook F} (v : IsValid b) (id : ℕ) (t : OrderTicket F) (e : Holds b id t)
      (live : is_final t ≡ false) (price slip : F)
      → (returns (fill env id price slip b) ≡ true) × Fills b (fill env id price slip b)
  fill-returns {b} v id t e live price slip = (
    unfold fill in rw (ticket-Holds b id t e) (fill_by-returns v id t e _ b.ledger),
    fill-Fills env (quiet-IsPolite env quiet) v id t e live price slip,
  )
