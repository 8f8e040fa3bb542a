-- ===== src/Orders/Fill.antt =====
-- dqengine/runtime/orders.py: `_fill` and `_pump`.
use deployquant.Prelude.{
  ℕ, Bool, true, false, not, ◌&&◌, ◌||◌, Option, none, some, List, [], ◌∷◌, ◌++◌, if◌then◌else◌,
}
use deployquant.Prelude.Eq.{eq_nat, eq_list}
use deployquant.Prelude.Int.{ℤ, pos, negsuc, ◌+ℤ◌, ◌-ℤ◌, abs, is_pos}
use deployquant.Prelude.Text.{Text, codes}
use deployquant.Prelude.Float.{Float, nought}
use deployquant.Ledger.{LedgerFill, take, take_capped, take_rule_fill}
use deployquant.Sleeve.{Sleeve, Fill, position, buying_power, apply_fill}
use deployquant.Identity.{intent_id}
use deployquant.Orders.Defs.{
  OrderType, OrderTicket, OrderBook, AnyLedger, plain, capped, Env, Result, ok, err, key_error,
  ◌>>=◌, filled, canceled, type_value, is_open, ticket, put, unrest, add_order, order_record,
  close_ticket, emit, reject,
}

-- The order kinds whose one moment is a session's edge.
unfoldable pub is_edge : OrderType → Bool
is_edge OrderType.market_on_close = true
is_edge OrderType.market_on_open = true
is_edge _ = false

module _ {ℓ} {F : Type ℓ} where
  unfoldable pub any_take :
      AnyLedger F → ℕ → Text → Option Text → Option ℤ → AnyLedger F × Option (List (LedgerFill F))
  any_take (plain l) day symbol rule_id side =
      let (l', real) = take l day symbol rule_id side in (plain l', real)
  any_take (capped c) day symbol rule_id side =
      let (c', real) = take_capped c day symbol rule_id side in (capped c', real)

  -- A capped ledger passes `take_rule_fill` on to the inner one.
  unfoldable pub any_take_rule_fill :
      AnyLedger F → ℕ → Text → Option Text → ℕ → AnyLedger F × Option (List (LedgerFill F))
  any_take_rule_fill (plain l) day symbol rule_tag upto_ms =
      let (l', real) = take_rule_fill l day symbol rule_tag upto_ms in (plain l', real)
  any_take_rule_fill (capped c) day symbol rule_tag upto_ms =
      let (l', real) = take_rule_fill c.inner day symbol rule_tag upto_ms in
      (capped (record c { inner = l' }), real)

  unfoldable pub order_side : OrderTicket F → ℤ
  order_side t = if is_pos t.quantity then pos 1 else negsuc 0

  unfoldable pub ticket_intent : ℕ → OrderTicket F → Text
  ticket_intent id t = intent_id t.symbol id t.tag

module _ {ℓ} {F : Type ℓ} ⦃f : Float F⦄ where
  open f use {of_int, lit, plus, minus, times, lt}

  -- The fill that a row of the broker is booked as.
  unfoldable pub row_fill : OrderTicket F → Option F → LedgerFill F → Fill F
  row_fill t model_price r = record {
    day = r.day;
    time_ms = r.time_ms;
    symbol = t.symbol;
    qty = r.qty;
    price = r.price;
    tag = t.tag;
    fees = r.fees;
    model_price = model_price;
    confirmed = true;
    kind = type_value t.order_type;
  }

  -- The loop over the rows; `filled` and `last_px` are its variables.
  unfoldable pub apply_rows :
      OrderTicket F → Option F → Sleeve F → ℤ → F → List (LedgerFill F) → Result (Sleeve F × ℤ × F)
  apply_rows t model_price s total last_px [] = ok (s, total, last_px)
  apply_rows t model_price s total last_px (r ∷ rs) =
      elim (apply_fill s (row_fill t model_price r)) [
        | none ↦ err key_error
        | some s' ↦
            apply_rows t model_price
              (add_order (order_record t r.day r.time_ms r.qty (codes "filled") (some r.price)) s')
              (total +ℤ r.qty) r.price rs
      ]

  -- A filled ticket leaves the open list, with the sleeve as it is after the fill.
  unfoldable pub settle : ℕ → OrderTicket F → Sleeve F → ℤ → F → OrderBook F → OrderBook F
  settle id t s total px b =
      close_ticket id
        (record t { status = filled; average_fill_price = px; quantity_filled = total })
        (record b { sleeve = s })

  unfoldable pub broker_fill :
      Env F
      → ℕ
      → OrderTicket F
      → Option F
      → F
      → List (LedgerFill F)
      → OrderBook F
      → Result (Bool × OrderBook F)
  broker_fill env id t model_price px real b = do
    (s, total, last_px) ← apply_rows t model_price b.sleeve (pos 0) px real
    b' ← emit env id filled last_px total [] (settle id t s total last_px b)
    ok (true, b')

  -- A ticket that the broker did not fill is dead; at a session's edge it was resting until now.
  unfoldable pub give_up : Env F → ℕ → OrderTicket F → Bool → OrderBook F → Result (OrderBook F)
  give_up env id t edge b =
      emit env id canceled nought (pos 0) (codes "broker confirmed no fill")
        (put id (record t { status = canceled }) (if edge then unrest id b else b))

  -- The broker confirmed that it did not fill.
  unfoldable pub no_fill : Env F → ℕ → OrderTicket F → OrderBook F → Result (Bool × OrderBook F)
  no_fill env id t b =
      let edge = b.cancel_edge_on_no_fill && is_edge t.order_type in
      let noted = record b { unfilled_log = b.unfilled_log ++ (b.clock.0, id) ∷ [] } in
      if not (is_open t) || edge
      then (give_up env id t edge noted >>= λ b'. ok (false, b'))
      else ok (false, noted)

  -- The fill that the model makes for a ticket.
  unfoldable pub model_record : Env F → OrderTicket F → F → Bool → OrderBook F → Fill F
  model_record env t px confirmed b = record {
    day = b.clock.0;
    time_ms = b.clock.1;
    symbol = t.symbol;
    qty = t.quantity;
    price = px;
    tag = t.tag;
    fees = env.fee t.symbol;
    model_price = none;
    confirmed = confirmed;
    kind = type_value t.order_type;
  }

  -- What follows `apply_fill`.
  unfoldable pub book_model :
      Env F → ℕ → OrderTicket F → F → Option (Sleeve F) → OrderBook F → Result (Bool × OrderBook F)
  book_model env id t px none b = err key_error
  book_model env id t px (some s) b =
      let r = order_record t b.clock.0 b.clock.1 t.quantity (codes "filled") (some px) in
      emit env id filled px t.quantity [] (settle id t (add_order r s) t.quantity px b) >>= λ b'.
      ok (true, b')

  -- The exposure that an order adds, at its price.
  unfoldable pub added_exposure : OrderTicket F → F → OrderBook F → F
  added_exposure t px b =
      let prev = position b.sleeve t.symbol in
      times (of_int (abs (prev +ℤ t.quantity) -ℤ abs prev)) px

  -- `added > self.sleeve.buying_power(self.prices) + 1e-9`
  unfoldable pub exceeds_power : OrderTicket F → F → OrderBook F → Bool
  exceeds_power t px b =
      lt (plus (buying_power b.sleeve b.prices) (lit (pos 1) 9)) (added_exposure t px b)

  -- The fill of the model itself, without a ledger or where the ledger does not know.
  unfoldable pub model_fill :
      Env F → ℕ → OrderTicket F → F → Bool → OrderBook F → Result (Bool × OrderBook F)
  model_fill env id t px confirmed b =
      if exceeds_power t px b
      then (reject env id (codes "insufficient buying power") b >>= λ b'. ok (false, b'))
      else book_model env id t px (apply_fill b.sleeve (model_record env t px confirmed b)) b

  -- What `_fill` does with the ledger's answer.
  unfoldable pub fill_with :
      Env F
      → ℕ
      → OrderTicket F
      → F
      → Option (List (LedgerFill F))
      → OrderBook F
      → Result (Bool × OrderBook F)
  fill_with env id t px none b = model_fill env id t px false b
  fill_with env id t px (some []) b = no_fill env id t b
  fill_with env id t px (some (r ∷ rs)) b = broker_fill env id t (some px) px (r ∷ rs) b

  unfoldable pub fill_by :
      Env F
      → ℕ
      → OrderTicket F
      → F
      → Option (AnyLedger F)
      → OrderBook F
      → Result (Bool × OrderBook F)
  fill_by env id t px none b = model_fill env id t px true b
  fill_by env id t px (some l) b =
      let (l', real) =
        any_take l b.clock.0 t.symbol (some (ticket_intent id t)) (some (order_side t)) in
      fill_with env id t px real (record b { ledger = some l' })

  -- `_fill`
  unfoldable pub fill : Env F → ℕ → F → F → OrderBook F → Result (Bool × OrderBook F)
  fill env id price slip b = do
    t ← ticket id b
    fill_by env id t (if is_pos t.quantity then plus price slip else minus price slip) b.ledger b

  unfoldable pub pump_with :
      Env F
      → ℕ
      → OrderTicket F
      → Option (List (LedgerFill F))
      → OrderBook F
      → Result (Bool × OrderBook F)
  pump_with env id t (some (r ∷ rs)) b = broker_fill env id t none nought (r ∷ rs) b
  pump_with env id t _ b = ok (false, b)

  -- `self.ledger is not None and self._pump(t)`
  unfoldable pub pump_by :
      Env F → ℕ → OrderTicket F → Option (AnyLedger F) → OrderBook F → Result (Bool × OrderBook F)
  pump_by env id t none b = ok (false, b)
  pump_by env id t (some l) b =
      let (l', real) =
        any_take_rule_fill l b.clock.0 t.symbol (some (ticket_intent id t)) b.clock.1 in
      pump_with env id t real (record b { ledger = some l' })
