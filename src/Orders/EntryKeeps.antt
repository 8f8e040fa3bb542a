-- ===== src/Orders/EntryKeeps.antt =====
-- dqengine/runtime/orders.py: every way to place or cancel an order keeps the book valid.
use deployquant.Prelude.{ℕ, false, not, Option, none, [], ◌≡◌, refl, arith, if-cases}
use deployquant.Prelude.Eq.{eq_nat, eq_list}
use deployquant.Prelude.Int.{ℤ, pos}
use deployquant.Prelude.Text.{Text, upper}
use deployquant.Prelude.Float.{Float, nought}
use deployquant.Prelude.Dict.{lookup-insert}
use deployquant.Orders.Defs.{
  OrderType, OrderTicket, OrderBook, Env, Result, ok, new, submitted, invalid, ◌>>=◌, is_open, put,
  new_ticket, fresh_ticket, append_ticket, is_reserved, refuse,
}
use deployquant.Orders.Entry.{refuse_unpriced, refuse_warmup, submit, rest_new, rest, refuse_late}
use deployquant.Orders.Store.{is_final, open-Sound, put-Grows}
use deployquant.Orders.Accounts.{put-Accounted}
use deployquant.Orders.Keeps.{
  IsValid, After, After-refl, After-trans, Ends, Ends-bind, Ends-After, is_unsupported, Holds,
  Holds-put, IsKnown, IsKnown-After, ticket-Holds, put-After, append_ticket-After, IsPolite,
  emit-Ends,
}
use deployquant.Orders.FillKeeps.{reject-Ends}

module _ {ℓ} {F : Type ℓ} where
  -- What placing an order returns: the id of a ticket of the book.
  abbrev pub Places : OrderBook F → Result (ℕ × OrderBook F) → Type ℓ
  Places b = Ends λ (r : ℕ × OrderBook F). After b r.1 × IsKnown r.1 r.0

  -- A ticket that has just been made.
  abbrev pub IsMade : OrderBook F → ℕ × OrderBook F → Type ℓ
  IsMade b (id, b') =
      After b b' × IsKnown b' id × (t : OrderTicket F) × Holds b' id t × (t.status ≡ new)

  pub refuse-After : {b : OrderBook F} (message : Text) → IsValid b → After b (refuse message b)
  unfolding refuse
  refuse-After message v = record {
    valid = record { store = v.store; funded = v.funded; accounts = v.accounts };
    grows = (After-refl v).grows;
  }

  refuse-Holds :
      (b : OrderBook F) (message : Text) (id : ℕ) (t : OrderTicket F)
      → Holds b id t
      → Holds (refuse message b) id t
  unfolding refuse
  refuse-Holds b message id t e = e

  pub submit-After :
      {b : OrderBook F} (id : ℕ) (t : OrderTicket F)
      → IsValid b
      → Holds b id t
      → t.status ≡ new
      → After b (submit id t b)
  unfolding submit put is_final is_open
  submit-After id t v e made =
      let live = record t { status = submitted } in
      record {
        valid = record {
          store = open-Sound _ _ _ id t live v.store e (rw made) refl;
          funded = v.funded;
          accounts = put-Accounted v.accounts id t live e (rw made) refl;
        };
        grows = put-Grows _ [] _ id t live e (rw made);
      }

  pub new-not-final : (t : OrderTicket F) → t.status ≡ new → is_final t ≡ false
  unfolding is_final
  new-not-final t made = rw made

  new-not-open : (t : OrderTicket F) → t.status ≡ new → is_open t ≡ false
  unfolding is_open
  new-not-open t made = rw made

  Places-of_Ends :
      (b b' : OrderBook F) (id : ℕ) (m : Result (OrderBook F))
      → After b b'
      → IsKnown b' id
      → Ends (After b') m
      → Places b (m >>= λ b''. ok (id, b''))
  Places-of_Ends b b' id m g known h =
      Ends-bind (After b') (λ (r : ℕ × OrderBook F). After b r.1 × IsKnown r.1 r.0) m _ h
        λ b'' g'. (After-trans g g', IsKnown-After id g' known)

module _ {ℓ} {F : Type ℓ} ⦃f : Float F⦄ where
  new_ticket-IsMade :
      (b : OrderBook F) (symbol : Text) (qty : ℤ) (order_type : OrderType) (tag : Text)
      (limit_price stop_price : Option F)
      → IsValid b
      → Ends (IsMade b) (new_ticket symbol qty order_type tag limit_price stop_price b)
  unfolding new_ticket fresh_ticket append_ticket is_open
  new_ticket-IsMade b symbol qty order_type tag limit_price stop_price v =
      let t = fresh_ticket (upper symbol) qty order_type tag limit_price stop_price b.clock in
      if-cases (Ends (IsMade b)) (is_reserved tag b) is_unsupported (
        append_ticket-After t v refl refl,
        ground (arith, v.store.started),
        t,
        ground (arith, lookup-insert b.next_id b.next_id t b.tickets),
        refl,
      )

  module _ (env : Env F) (polite : IsPolite env) where
    -- A ticket is made, and something is done with it.
    pub After-new :
        (b : OrderBook F) (symbol : Text) (qty : ℤ) (order_type : OrderType) (tag : Text)
        (limit_price stop_price : Option F) (k : ℕ × OrderBook F → Result (ℕ × OrderBook F))
        → IsValid b
        → ((id : ℕ) (b' : OrderBook F) (t : OrderTicket F)
            → After b b'
            → IsKnown b' id
            → Holds b' id t
            → t.status ≡ new
            → Places b (k (id, b')))
        → Places b (new_ticket symbol qty order_type tag limit_price stop_price b >>= k)
    After-new b symbol qty order_type tag limit_price stop_price k v next =
        Ends-bind (IsMade b) (λ (r : ℕ × OrderBook F). After b r.1 × IsKnown r.1 r.0) _ k
          (new_ticket-IsMade b symbol qty order_type tag limit_price stop_price v)
          λ (id, b') (g, known, t, e, made). next id b' t g known e made

    pub refuse_unpriced-Places :
        (b : OrderBook F) (symbol : Text) (qty : ℤ) (order_type : OrderType) (tag : Text)
        → IsValid b
        → Places b (refuse_unpriced env symbol qty order_type tag b)
    unfolding refuse_unpriced
    refuse_unpriced-Places b symbol qty order_type tag v =
        After-new b symbol qty order_type tag none none _ v λ id b' t g known e made.
          let refused = refuse-After _ g.valid in
          Places-of_Ends b b' id _ g known (
            Ends-After _ refused (
              reject-Ends env polite id t _ refused.valid (refuse-Holds b' _ id t e)
                (new-not-final t made)))

    pub refuse_late-Places :
        (b : OrderBook F) (symbol : Text) (qty : ℤ) (tag : Text)
        → IsValid b
        → Places b (refuse_late env symbol qty tag b)
    unfolding refuse_late
    refuse_late-Places b symbol qty tag v =
        After-new b symbol qty OrderType.market_on_close tag none none _ v λ id b' t g known e made.
          let refused = refuse-After _ g.valid in
          Places-of_Ends b b' id _ g known (
            Ends-After _ refused (
              reject-Ends env polite id t _ refused.valid (refuse-Holds b' _ id t e)
                (new-not-final t made)))

    pub refuse_warmup-Places :
        (b : OrderBook F) (symbol : Text) (qty : ℤ) (order_type : OrderType) (tag : Text)
        → IsValid b
        → Places b (refuse_warmup env symbol qty order_type tag b)
    unfolding refuse_warmup is_open
    refuse_warmup-Places b symbol qty order_type tag v =
        After-new b symbol qty order_type tag none none _ v λ id b' t g known e made.
          let dead = record t { status = invalid } in
          let killed =
            put-After g.valid id t dead e (new-not-final t made) (unfold is_open in rw made) refl in
          let refused = refuse-After _ killed.valid in
          rw (ticket-Holds b' id t e) (
            Places-of_Ends b b' id _ g known (
              Ends-After _ (After-trans killed refused) (
                emit-Ends env polite id dead invalid nought (pos 0) _ refused.valid
                  (refuse-Holds (put id dead b') _ id dead (Holds-put b' id dead)))))

    pub rest_new-Places :
        (b b' : OrderBook F) (id : ℕ) (t : OrderTicket F)
        → After b b'
        → IsKnown b' id
        → Holds b' id t
        → t.status ≡ new
        → Places b (rest_new env id b')
    unfolding rest_new
    rest_new-Places b b' id t g known e made =
        let live = record t { status = submitted } in
        let resting = submit-After id t g.valid e made in
        rw (ticket-Holds b' id t e) (
          Places-of_Ends b b' id _ g known (
            Ends-After _ resting (
              emit-Ends env polite id live submitted nought (pos 0) [] resting.valid
                (unfold submit in Holds-put b' id live))))

    -- Resting an order, whatever its kind.
    pub rest-Places :
        (b : OrderBook F) (symbol : Text) (qty : ℤ) (order_type : OrderType) (tag : Text)
        (limit_price stop_price : Option F)
        → IsValid b
        → Places b (rest env symbol qty order_type tag limit_price stop_price b)
    unfolding rest
    rest-Places b symbol qty order_type tag limit_price stop_price v =
        if-cases (Places b) (not b.allow_orders)
          (refuse_warmup-Places b symbol qty order_type tag v)
          (After-new b symbol qty order_type tag limit_price stop_price _ v
            λ id b' t g known e made. rest_new-Places b b' id t g known e made)
