-- ===== src/Orders/MethodKeeps.antt =====
-- dqengine/runtime/orders.py: the methods that place, change and cancel orders keep the book
-- valid.
use deployquant.Prelude.{
  ℕ, Bool, true, false, not, ◌&&◌, ◌||◌, none, [], ◌≡◌, inl, inr, refl, arith, leb, if◌then◌else◌,
  if-cases, Bool-cases,
}
use deployquant.Prelude.Eq.{eq_nat, eq_list}
use deployquant.Prelude.Int.{ℤ, pos}
use deployquant.Prelude.Text.{Text, codes}
use deployquant.Prelude.Float.{Float, nought}
use deployquant.Orders.Defs.{
  OrderType, OrderTicket, OrderBook, Env, Result, ok, canceled, is_open, put, log_order,
}
use deployquant.Orders.Entry.{
  notice, limit, stop_market, stop_limit, market_on_open, is_late, market_on_close, market_now,
  market, trailing_stop, limit_if_touched, cancel, priced, daily_conversion_notice,
}
use deployquant.Orders.Store.{is_final}
use deployquant.Orders.Keeps.{
  IsValid, After, After-refl, After-trans, Ends, Ends-bind, Ends-map, Ends-After, Holds, IsKnown,
  IsKnown-Holds, IsKnown-After, ticket-Holds, put-After, IsPolite,
}
use deployquant.Orders.WriteKeeps.{log_order-After}
use deployquant.Orders.FillKeeps.{fill-Fills, close-emit-Ends}
use deployquant.Orders.EntryKeeps.{
  Places, new-not-final, After-new, refuse_unpriced-Places, refuse_late-Places,
  refuse_warmup-Places, rest_new-Places, rest-Places,
}

module _ {ℓ} {F : Type ℓ} ⦃f : Float F⦄ where
  notice-After : {b : OrderBook F} (message : Text) → IsValid b → After b (notice message b)
  unfolding notice
  notice-After {b} message v =
      if-cases (After b) (b.noticed || not b.notice_out) (After-refl v) (record {
        valid = record { store = v.store; funded = v.funded; accounts = v.accounts };
        grows = (After-refl v).grows;
      })

  pub open-not-final : (t : OrderTicket F) → is_open t ≡ true → is_final t ≡ false
  unfolding is_open is_final
  open-not-final t h = ground arith

  module _ (env : Env F) (polite : IsPolite env) where
    -- The methods that only choose prices and kinds for `_rest`.
    pub limit-Places :
        (b : OrderBook F) (symbol : Text) (qty : ℤ) (price : F) (tag : Text)
        → IsValid b
        → Places b (limit env symbol qty price tag b)
    unfolding limit
    limit-Places b symbol qty price tag v =
        rest-Places env polite b symbol qty OrderType.limit tag _ none v

    pub stop_market-Places :
        (b : OrderBook F) (symbol : Text) (qty : ℤ) (price : F) (tag : Text)
        → IsValid b
        → Places b (stop_market env symbol qty price tag b)
    unfolding stop_market
    stop_market-Places b symbol qty price tag v =
        rest-Places env polite b symbol qty OrderType.stop_market tag none _ v

    pub stop_limit-Places :
        (b : OrderBook F) (symbol : Text) (qty : ℤ) (stop price : F) (tag : Text)
        → IsValid b
        → Places b (stop_limit env symbol qty stop price tag b)
    unfolding stop_limit
    stop_limit-Places b symbol qty stop price tag v =
        rest-Places env polite b symbol qty OrderType.stop_limit tag _ _ v

    pub market_on_open-Places :
        (b : OrderBook F) (symbol : Text) (qty : ℤ) (tag : Text)
        → IsValid b
        → Places b (market_on_open env symbol qty tag b)
    unfolding market_on_open
    market_on_open-Places b symbol qty tag v =
        rest-Places env polite b symbol qty OrderType.market_on_open tag none none v

    pub market_on_close-Places :
        (b : OrderBook F) (symbol : Text) (qty : ℤ) (tag : Text)
        → IsValid b
        → Places b (market_on_close env symbol qty tag b)
    unfolding market_on_close
    market_on_close-Places b symbol qty tag v =
        let resting =
          rest-Places env polite b symbol qty OrderType.market_on_close tag none none v in
        if-cases (Places b) (b.daily_conversion && b.allow_orders)
          (if-cases (Places b) (not (priced symbol b))
            (refuse_unpriced-Places env polite b symbol qty OrderType.market_on_close tag v)
            (if-cases (Places b) (is_late env b) (refuse_late-Places env polite b symbol qty tag v)
              resting))
          resting

    market_now-Places :
        (b : OrderBook F) (symbol : Text) (qty : ℤ) (price : F) (tag : Text)
        → IsValid b
        → Places b (market_now env symbol qty price tag b)
    unfolding market_now
    market_now-Places b symbol qty price tag v =
        After-new env polite b symbol qty OrderType.market tag none none _ v
          λ id b' t g known e made. rw (ticket-Holds b' id t e) (
            if-cases (Places b) b.carried (rest_new-Places env polite b b' id t g known e made) (
              Ends-bind (λ (r : Bool × OrderBook F). After b' r.1)
                (λ (r : ℕ × OrderBook F). After b r.1 × IsKnown r.1 r.0) _ _
                (fill-Fills env polite g.valid id t e (new-not-final t made) price _)
                λ (done, b'') g'. (After-trans g g', IsKnown-After id g' known)))

    Places-After :
        (b b' : OrderBook F) (m : Result (ℕ × OrderBook F)) → After b b' → Places b' m → Places b m
    Places-After b b' m g h =
        Ends-map (λ (r : ℕ × OrderBook F). After b' r.1 × IsKnown r.1 r.0) _ m h
          λ r (g', known). (After-trans g g', known)

    -- A market order, on every branch: refused, converted, carried or filled at once.
    pub market-Places :
        (b : OrderBook F) (symbol : Text) (qty : ℤ) (price : F) (tag : Text)
        → IsValid b
        → Places b (market env symbol qty price tag b)
    unfolding market
    market-Places b symbol qty price tag v =
        let now = market_now-Places b symbol qty price tag v in
        let told = notice-After daily_conversion_notice v in
        if-cases (Places b) (not b.allow_orders)
          (refuse_warmup-Places env polite b symbol qty OrderType.market tag v)
          (if-cases (Places b) (b.daily_conversion && not (priced symbol b))
            (refuse_unpriced-Places env polite b symbol qty OrderType.market tag v)
            (if-cases (Places b) (b.after_close_to_moo && not b.carried)
              (if-cases (Places b) (leb (env.close_time_ms b.clock.0) b.clock.1)
                (rest-Places env polite b symbol qty OrderType.market_on_open tag none none v)
                (if-cases (Places b) b.daily_conversion
                  (Places-After b _ _ told
                    (rest-Places env polite _ symbol qty _ tag none none told.valid))
                  now))
              now))

    -- What `trailing_stop` and `limit_if_touched` write afterwards, if the ticket is still open.
    amend-Places :
        (b b' : OrderBook F) (id : ℕ) (t t' : OrderTicket F)
        → After b b'
        → IsKnown b' id
        → Holds b' id t
        → t'.status ≡ t.status
        → t'.quantity_filled ≡ t.quantity_filled
        → Places b (ok (id, if is_open t then put id t' b' else b'))
    unfolding is_open
    amend-Places b b' id t t' g known e same filled_same = elim (Bool-cases (is_open t)) [
      | inl live ↦
          let written =
            put-After g.valid id t t' e (open-not-final t live) (unfold is_open in rw same)
              filled_same in
          rw live (After-trans g written, IsKnown-After id written known)
      | inr shut ↦ rw shut (g, known)
    ]

    pub trailing_stop-Places :
        (b : OrderBook F) (symbol : Text) (qty : ℤ) (amount : F) (as_percentage : Bool) (tag : Text)
        → IsValid b
        → Places b (trailing_stop env symbol qty amount as_percentage tag b)
    unfolding trailing_stop
    trailing_stop-Places b symbol qty amount as_percentage tag v =
        Ends-bind (λ (r : ℕ × OrderBook F). After b r.1 × IsKnown r.1 r.0)
          (λ (r : ℕ × OrderBook F). After b r.1 × IsKnown r.1 r.0) _ _
          (rest-Places env polite b symbol qty OrderType.trailing_stop tag none none v)
          λ (id, b') (g, known).
            let (t, e) = IsKnown-Holds id g.valid known in
            rw (ticket-Holds b' id t e) (amend-Places b b' id t _ g known e refl refl)

    pub limit_if_touched-Places :
        (b : OrderBook F) (symbol : Text) (qty : ℤ) (trigger price : F) (tag : Text)
        → IsValid b
        → Places b (limit_if_touched env symbol qty trigger price tag b)
    unfolding limit_if_touched
    limit_if_touched-Places b symbol qty trigger price tag v =
        Ends-bind (λ (r : ℕ × OrderBook F). After b r.1 × IsKnown r.1 r.0)
          (λ (r : ℕ × OrderBook F). After b r.1 × IsKnown r.1 r.0) _ _
          (rest-Places env polite b symbol qty OrderType.limit_if_touched tag _ none v)
          λ (id, b') (g, known).
            let (t, e) = IsKnown-Holds id g.valid known in
            rw (ticket-Holds b' id t e) (amend-Places b b' id t _ g known e refl refl)

    -- Cancelling a ticket of the book.
    pub cancel-Ends :
        (b : OrderBook F) (id : ℕ) → IsValid b → IsKnown b id → Ends (After b) (cancel env id b)
    unfolding cancel is_open
    cancel-Ends b id v known =
        let (t, e) = IsKnown-Holds id v known in
        let logged = log_order-After t (codes "canceled") v in
        rw (ticket-Holds b id t e) (elim (Bool-cases (is_open t)) [
          | inl live ↦ rw live (
              Ends-After _ logged (
                close-emit-Ends env polite id t (record t { status = canceled }) nought (pos 0) []
                  logged.valid (unfold log_order in e) (open-not-final t live)
                  (unfold is_open in refl) refl))
          | inr shut ↦ rw shut (After-refl v)
        ])
