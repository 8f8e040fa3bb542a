-- ===== src/Orders/RestingKeeps.antt =====
-- dqengine/runtime/orders.py: bars, session edges, updates and cancellations keep the book valid.
use deployquant.Prelude.{
  ℕ, Bool, true, false, not, ◌||◌, Option, none, some, ◌≡◌, inl, inr, refl, if◌then◌else◌, if-cases,
  Bool-cases,
}
use deployquant.Prelude.Eq.{◌==◌, eq_nat, eq_list}
use deployquant.Prelude.Text.{Text}
use deployquant.Prelude.Float.{Float, nought}
use deployquant.Orders.Defs.{OrderType, OrderTicket, OrderBook, Env, Result, ok, ◌>>=◌, is_open}
use deployquant.Orders.Resting.{
  Bar, fill_if, trail, two_step, on_bar, ratchet, is_excluded, check_one,
}
use deployquant.Orders.Store.{is_final}
use deployquant.Orders.Keeps.{
  IsValid, After, After-refl, Ends, Ends-bind, Ends-After, is_untrailed, Holds, Holds-put, IsKnown,
  IsKnown-Holds, ticket-Holds, put-After, IsPolite,
}
use deployquant.Orders.WriteKeeps.{Fills, Adopted}
use deployquant.Orders.FillKeeps.{fill-Fills, pump_by-Pumps}
use deployquant.Orders.MethodKeeps.{open-not-final}

module _ {ℓ} {F : Type ℓ} ⦃f : Float F⦄ (env : Env F) (polite : IsPolite env) where
  Ends-of_Fills :
      (b : OrderBook F) (m : Result (Bool × OrderBook F))
      → Fills b m
      → Ends (After b) (m >>= λ (_, b'). ok b')
  Ends-of_Fills b m h = Ends-bind (λ (r : Bool × OrderBook F). After b r.1) (After b) m _ h λ r g. g

  module _ {b : OrderBook F} (v : IsValid b) (id : ℕ) (t : OrderTicket F) (e : Holds b id t)
      (live : is_final t ≡ false) where
    pub fill_if-Ends : (px : Option F) (slip : F) → Ends (After b) (fill_if env id px slip b)
    unfolding fill_if
    fill_if-Ends none slip = After-refl v
    fill_if-Ends (some px) slip = Ends-of_Fills b _ (fill-Fills env polite v id t e live px slip)

    two_step-Ends :
        (bar : Bar F) (breached : Bool) → Ends (After b) (two_step env id t bar breached b)
    unfolding two_step is_open
    two_step-Ends bar breached = if-cases (Ends (After b)) t.triggered (fill_if-Ends _ nought) (
        if-cases (After b) breached
          (put-After v id t (record t { triggered = true }) e live (unfold is_open in refl) refl)
          (After-refl v))

  module _ {b : OrderBook F} (v : IsValid b) (id : ℕ) (t : OrderTicket F) (e : Holds b id t)
      (live : is_final t ≡ false) where
    trail-Ends :
        (bar : Bar F) (slip : F) (amount : Option F)
        → Ends (After b) (trail env id t bar slip amount b)
    unfolding trail is_final
    trail-Ends bar slip none = is_untrailed
    trail-Ends bar slip (some amt) =
        let t' = record t { stop_price = some (ratchet t amt bar) } in
        let moved = put-After v id t t' e live (unfold is_open in refl) refl in
        Ends-After _ moved (fill_if-Ends moved.valid id t' (Holds-put b id t') live _ slip)

    on_bar-Ends :
        (kind : OrderType) (bar : Bar F) (slip : F)
        → Ends (After b) (on_bar env kind id t bar slip b)
    unfolding on_bar
    on_bar-Ends OrderType.market bar slip = fill_if-Ends v id t e live _ slip
    on_bar-Ends OrderType.limit bar slip = fill_if-Ends v id t e live _ nought
    on_bar-Ends OrderType.stop_market bar slip = fill_if-Ends v id t e live _ slip
    on_bar-Ends OrderType.trailing_stop bar slip = trail-Ends bar slip t.trailing_amount
    on_bar-Ends OrderType.limit_if_touched bar slip = two_step-Ends v id t e live bar _
    on_bar-Ends OrderType.stop_limit bar slip = two_step-Ends v id t e live bar _
    on_bar-Ends OrderType.market_on_open bar slip = After-refl v
    on_bar-Ends OrderType.market_on_close bar slip = After-refl v

  -- One round of the loop: the snapshot's ticket may have been closed by a handler in the meantime.
  pub check_one-Ends :
      (b : OrderBook F) (sym : Text) (bar : Bar F) (exclude : Option (ℕ × ℕ)) (id : ℕ)
      → IsValid b
      → IsKnown b id
      → Ends (After b) (check_one env sym bar exclude id b)
  unfolding check_one
  check_one-Ends b sym bar exclude id v known =
      let (t, e) = IsKnown-Holds id v known in
      rw (ticket-Holds b id t e) (elim (Bool-cases (is_open t)) [
        | inl live ↦
            let alive = open-not-final t live in
            if-cases (Ends (After b))
              (not (is_open t) || (not (t.symbol == sym) || is_excluded exclude t)) {x = ok b}
              (After-refl v)
              (Ends-bind (Adopted b) (After b) _ _
                (pump_by-Pumps env polite v id t e alive b.ledger) (step t e alive))
        | inr shut ↦ rw shut (After-refl v)
      ])
    where
      step :
          (t : OrderTicket F)
          → Holds b id t
          → is_final t ≡ false
          → (r : Bool × OrderBook F) → Adopted b r
          → Ends
              (After b)
              (if r.0 then ok r.1 else on_bar env t.order_type id t bar (env.slippage sym t) r.1)
      step t e alive (true, b') (g, kept) = g
      step t e alive (false, b') (g, inl h) = absurd (cc)
      step t e alive (false, b') (g, inr same) =
          Ends-After _ g (on_bar-Ends g.valid id t (rw same e) alive t.order_type bar _)
