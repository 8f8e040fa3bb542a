-- ===== src/Orders/FillKeeps.antt =====
-- dqengine/runtime/orders.py: `_fill`, `_pump` and `_reject` keep the book valid, on every branch.
use deployquant.Prelude.{
  ℕ, Bool, true, false, not, ◌&&◌, ◌||◌, Option, none, some, List, [], ◌∷◌, ◌++◌, ◌≡◌, inl, inr,
  refl, arith, if-cases, Bool-cases,
}
use deployquant.Prelude.Eq.{eq_nat, eq_list}
use deployquant.Prelude.Int.{ℤ, pos, ◌+ℤ◌, zero_+ℤ}
use deployquant.Prelude.Text.{Text, codes}
use deployquant.Prelude.Float.{Float, nought}
use deployquant.Ledger.{LedgerFill}
use deployquant.Sleeve.{Sleeve, OrderRecord, apply_fill}
use deployquant.Sleeve.Basis
use deployquant.Orders.Defs.{
  OrderTicket, OrderBook, AnyLedger, Env, Result, ok, filled, canceled, invalid, ◌>>=◌, is_open,
  put, unrest, close_ticket, add_order, order_record, log_order, count_rejection, emit, reject,
}
use deployquant.Orders.Fill.{
  any_take, any_take_rule_fill, is_edge, row_fill, apply_rows, settle, broker_fill, no_fill,
  model_fill, model_record, book_model, exceeds_power, give_up, fill_with, fill_by, fill, pump_with,
  pump_by, order_side, ticket_intent,
}
use deployquant.Orders.Store.{is_final}
use deployquant.Orders.WriteKeeps.{
  add_order-IsValid, position-add_order, ledger-After, log_order-After, count_rejection-After,
  Fills, Adopted, Pumps, Pumps-Fills, Moved, Moved-refl, Moved-fill, settle-After,
}
use deployquant.Orders.Keeps.{
  IsValid, After, After-refl, After-trans, Ends, Ends-bind, Ends-map, Ends-After, Holds, Holds-put,
  ticket-Holds, put-After, close_ticket-After, IsPolite, emit-Ends,
}

module _ {ℓ} {F : Type ℓ} ⦃f : Float F⦄ (env : Env F) (polite : IsPolite env) where
  -- Closing a ticket and telling the handler.
  pub close-emit-Ends :
      {b : OrderBook F} (id : ℕ) (t t' : OrderTicket F) (price : F) (qty : ℤ) (message : Text)
      → IsValid b
      → Holds b id t
      → is_final t ≡ false
      → is_open t' ≡ false
      → t'.quantity_filled ≡ t.quantity_filled
      → Ends (After b) (emit env id t'.status price qty message (close_ticket id t' b))
  close-emit-Ends {b} id t t' price qty message v e live shut same =
      let closed = close_ticket-After v id t t' e live shut same in
      Ends-After _ closed (
        emit-Ends env polite id t' t'.status price qty message closed.valid
          (unfold close_ticket unrest in Holds-put b id t'))

  pub reject-Ends :
      {b : OrderBook F} (id : ℕ) (t : OrderTicket F) (why : Text)
      → IsValid b
      → Holds b id t
      → is_final t ≡ false
      → Ends (After b) (reject env id why b)
  unfolding reject is_open
  reject-Ends {b} id t why v e live =
      let counted = count_rejection-After why v in
      let logged = log_order-After t (codes "rejected") counted.valid in
      rw (ticket-Holds b id t e) (
        Ends-After _ (After-trans counted logged) (
          close-emit-Ends id t (record t { status = invalid }) nought (pos 0) why logged.valid
            (unfold log_order count_rejection in e) live refl refl))

  Moved-row :
      (t : OrderTicket F) (model_price : Option F) (r : LedgerFill F) (s₀ s s' : Sleeve F) (n : ℤ)
      (line : OrderRecord F)
      → Moved s₀ t s n
      → apply_fill s (row_fill t model_price r) ≡ some s'
      → Moved s₀ t (add_order line s') (n +ℤ r.qty)
  unfolding row_fill
  Moved-row t model_price r s₀ s s' n line moved e symbol = ground (
    arith,
    position-add_order line s' symbol,
    Moved-fill t s₀ s s' n (row_fill t model_price r) moved e refl symbol,
  )

  apply_rows-Ends :
      (t : OrderTicket F) (model_price : Option F) (rs : List (LedgerFill F)) (s₀ s : Sleeve F)
      (n : ℤ) (px : F)
      → Basis.IsValid s
      → Moved s₀ t s n
      → Ends
          (λ (r : Sleeve F × ℤ × F). Basis.IsValid r.0 × Moved s₀ t r.0 r.1)
          (apply_rows t model_price s n px rs)
  unfolding apply_rows
  apply_rows-Ends t model_price [] s₀ s n px v moved = (v, moved)
  apply_rows-Ends t model_price (r ∷ rs) s₀ s n px v moved =
      let (s', e, v') = Basis.apply_fill-IsValid s (row_fill t model_price r) v in
      rw (e, apply_rows)
        (apply_rows-Ends t model_price rs s₀ _ (n +ℤ r.qty) r.price (add_order-IsValid _ s' v')
          (Moved-row t model_price r s₀ s s' n _ moved e))

  Fills-of_Ends :
      (b : OrderBook F) (done : Bool) (m : Result (OrderBook F))
      → Ends (After b) m
      → Fills b (m >>= λ b'. ok (done, b'))
  Fills-of_Ends b done m h =
      Ends-bind (After b) (λ (r : Bool × OrderBook F). After b r.1) m _ h λ b' a. a

  module _ {b : OrderBook F} (v : IsValid b) (id : ℕ) (t : OrderTicket F) (e : Holds b id t)
      (live : is_final t ≡ false) where
    settle-Ends :
        (s : Sleeve F) (n : ℤ) (px : F)
        → Basis.IsValid s
        → Moved b.sleeve t s n
        → Ends (After b) (emit env id filled px n [] (settle id t s n px b))
    settle-Ends s n px funded moved =
        let settled = settle-After id t s n px v e live funded moved in
        let t' = record t { status = filled; average_fill_price = px; quantity_filled = n } in
        Ends-After _ settled (
          emit-Ends env polite id t' filled px n [] settled.valid
            (unfold settle close_ticket unrest in Holds-put (record b { sleeve = s }) id t'))

    broker_fill-Pumps :
        (model_price : Option F) (px : F) (rs : List (LedgerFill F))
        → Pumps b (broker_fill env id t model_price px rs b)
    unfolding broker_fill
    broker_fill-Pumps model_price px rs =
        Ends-bind (λ (r : Sleeve F × ℤ × F). Basis.IsValid r.0 × Moved b.sleeve t r.0 r.1)
          (Adopted b) _ _
          (apply_rows-Ends t model_price rs b.sleeve b.sleeve (pos 0) px v.funded
            (Moved-refl t b.sleeve))
          λ (s, n, last) (funded, moved).
            Ends-bind (After b) (Adopted b) _ _ (settle-Ends s n last funded moved)
              λ b' g. (g, inl refl)

    model-Moved :
        (px : F) (confirmed : Bool) (s : Sleeve F)
        → apply_fill b.sleeve (model_record env t px confirmed b) ≡ some s
        → Moved b.sleeve t
            (add_order (order_record t b.clock.0 b.clock.1 t.quantity (codes "filled") (some px)) s)
            t.quantity
    unfolding model_record
    model-Moved px confirmed s booked symbol = ground (
      arith,
      position-add_order (order_record t b.clock.0 b.clock.1 t.quantity (codes "filled") (some px))
          s symbol,
      Moved-fill t b.sleeve b.sleeve s (pos 0) (model_record env t px confirmed b)
          (Moved-refl t b.sleeve) booked refl symbol,
      zero_+ℤ t.quantity,
    )

    model_fill-Fills : (px : F) (confirmed : Bool) → Fills b (model_fill env id t px confirmed b)
    unfolding model_fill book_model
    model_fill-Fills px confirmed =
        let (s, booked, funded) =
          Basis.apply_fill-IsValid b.sleeve (model_record env t px confirmed b) v.funded in
        if-cases (Fills b) (exceeds_power t px b)
          (Fills-of_Ends b false _ (reject-Ends id t _ v e live))
          (rw (booked, book_model)
            (Fills-of_Ends b true _ (
              settle-Ends _ t.quantity px (add_order-IsValid _ s funded)
                (model-Moved px confirmed s booked))))

    give_up-Ends :
        (edge : Bool) → (not (is_open t) || edge) ≡ true → Ends (After b) (give_up env id t edge b)
    unfolding give_up is_open put close_ticket unrest
    give_up-Ends true h =
        close-emit-Ends id t (record t { status = canceled }) nought (pos 0) _ v e live refl refl
    give_up-Ends false h =
        let dead = record t { status = canceled } in
        let killed = put-After v id t dead e live (ground arith) refl in
        Ends-After _ killed (
          emit-Ends env polite id dead canceled nought (pos 0) _ killed.valid (Holds-put b id dead))

  -- The note that the broker did not fill.
  noted-After :
      {b : OrderBook F} (log : List (ℕ × ℕ)) → IsValid b → After b (record b { unfilled_log = log })
  noted-After log v = record {
    valid = record { store = v.store; funded = v.funded; accounts = v.accounts };
    grows = (After-refl v).grows;
  }

  module _ {b : OrderBook F} (v : IsValid b) (id : ℕ) (t : OrderTicket F) (e : Holds b id t)
      (live : is_final t ≡ false) where
    no_fill-Fills : Fills b (no_fill env id t b)
    unfolding no_fill
    no_fill-Fills =
        let noted = noted-After (b.unfilled_log ++ (b.clock.0, id) ∷ []) v in
        let edge = b.cancel_edge_on_no_fill && is_edge t.order_type in
        elim (Bool-cases (not (is_open t) || edge)) [
          | inl dies ↦ rw dies (
              Fills-of_Ends b false _
                (Ends-After _ noted (give_up-Ends noted.valid id t e live edge dies)))
          | inr rests ↦ rw rests noted
        ]

    fill_with-Fills :
        (px : F) (real : Option (List (LedgerFill F))) → Fills b (fill_with env id t px real b)
    unfolding fill_with
    fill_with-Fills px none = model_fill-Fills v id t e live px false
    fill_with-Fills px (some []) = no_fill-Fills
    fill_with-Fills px (some (r ∷ rs)) =
        Pumps-Fills b _ (broker_fill-Pumps v id t e live (some px) px (r ∷ rs))

    pump_with-Pumps : (real : Option (List (LedgerFill F))) → Pumps b (pump_with env id t real b)
    unfolding pump_with
    pump_with-Pumps (some (r ∷ rs)) = broker_fill-Pumps v id t e live none nought (r ∷ rs)
    pump_with-Pumps none = (After-refl v, inr refl)
    pump_with-Pumps (some []) = (After-refl v, inr refl)

  Fills-After :
      {b b' : OrderBook F} (r : Result (Bool × OrderBook F)) → After b b' → Fills b' r → Fills b r
  Fills-After {b} {b'} r g h =
      Ends-map (λ (x : Bool × OrderBook F). After b' x.1) _ r h λ x h'. After-trans g h'

  module _ {b : OrderBook F} (v : IsValid b) (id : ℕ) (t : OrderTicket F) (e : Holds b id t)
      (live : is_final t ≡ false) where
    fill_by-Fills : (px : F) (l : Option (AnyLedger F)) → Fills b (fill_by env id t px l b)
    unfolding fill_by
    fill_by-Fills px none = model_fill-Fills v id t e live px true
    fill_by-Fills px (some l) =
        let (l', real) =
          any_take l b.clock.0 t.symbol (some (ticket_intent id t)) (some (order_side t)) in
        let read = ledger-After (some l') v in
        Fills-After _ read (fill_with-Fills read.valid id t e live px real)

    -- `_fill` of a ticket that is not final keeps the book valid and every final ticket as it was,
    -- and raises nothing of its own, whatever the ledger answers.
    pub fill-Fills : (price slip : F) → Fills b (fill env id price slip b)
    unfolding fill
    fill-Fills price slip = rw (ticket-Holds b id t e) (fill_by-Fills _ b.ledger)

    pub pump_by-Pumps : (l : Option (AnyLedger F)) → Pumps b (pump_by env id t l b)
    unfolding pump_by
    pump_by-Pumps none = (After-refl v, inr refl)
    pump_by-Pumps (some l) =
        let (l', real) =
          any_take_rule_fill l b.clock.0 t.symbol (some (ticket_intent id t)) b.clock.1 in
        let read = ledger-After (some l') v in
        Ends-map (Adopted (record b { ledger = some l' })) (Adopted b) _
          (pump_with-Pumps read.valid id t e live real) λ r (g, kept). (After-trans read g, kept)
