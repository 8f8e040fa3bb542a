-- ===== src/Orders/WriteKeeps.antt =====
-- dqengine/runtime/orders.py: the writes of `_fill`, `_pump` and `_reject` keep the book valid.
use deployquant.Prelude.{ℕ, Bool, true, false, Option, some, [], ◌≡◌, ◌⊎◌, refl, arith}
use deployquant.Prelude.Eq.{eq_nat, eq_list}
use deployquant.Prelude.Int.{ℤ, pos, ◌+ℤ◌, +ℤ_assoc, +ℤ_zero}
use deployquant.Prelude.Text.{Text}
use deployquant.Prelude.Float.{Float}
use deployquant.Sleeve.{Sleeve, Fill, OrderRecord, position, invested, apply_fill}
use deployquant.Sleeve.Basis
use deployquant.Sleeve.Positions.{apply_fill-position}
use deployquant.Orders.Defs.{
  OrderTicket, OrderBook, AnyLedger, Result, filled, is_open, put, unrest, close_ticket, add_order,
  log_order, count_rejection,
}
use deployquant.Orders.Fill.{settle}
use deployquant.Orders.Store.{is_final, close-Sound, put-Grows}
use deployquant.Orders.Accounts.{filled_of, fill-Accounted}
use deployquant.Orders.Keeps.{IsValid, After, After-refl, Ends, Ends-map, Holds}

module _ {ℓ} {F : Type ℓ} where
  pub add_order-IsValid :
      (r : OrderRecord F) (s : Sleeve F) → Basis.IsValid s → Basis.IsValid (add_order r s)
  unfolding add_order invested position
  add_order-IsValid r s v = record {
    basis = λ symbol. record {
      cost_held = (v.basis symbol).cost_held;
      entry_held = (v.basis symbol).entry_held;
      day_held = (v.basis symbol).day_held;
      peak_held = (v.basis symbol).peak_held;
      long_priced = (v.basis symbol).long_priced;
    };
  }

  pub position-add_order :
      (r : OrderRecord F) (s : Sleeve F) (symbol : Text)
      → position (add_order r s) symbol ≡ position s symbol
  unfolding add_order position
  position-add_order r s symbol = refl

  pub sleeve-After :
      {b : OrderBook F} (s : Sleeve F)
      → IsValid b
      → Basis.IsValid s
      → ((symbol : Text) → position s symbol ≡ position b.sleeve symbol)
      → After b (record b { sleeve = s })
  sleeve-After s v funded same = record {
    valid = record {
      store = v.store;
      funded = funded;
      accounts = record {
        balanced = λ symbol. cc (same symbol, v.accounts.balanced symbol);
        unfilled = v.accounts.unfilled;
      };
    };
    grows = (After-refl v).grows;
  }

  pub ledger-After :
      {b : OrderBook F} (l : Option (AnyLedger F)) → IsValid b → After b (record b { ledger = l })
  ledger-After l v = record {
    valid = record { store = v.store; funded = v.funded; accounts = v.accounts };
    grows = (After-refl v).grows;
  }

  pub log_order-After :
      {b : OrderBook F} (t : OrderTicket F) (status : Text)
      → IsValid b
      → After b (log_order t status b)
  unfolding log_order
  log_order-After {b} t status v =
      sleeve-After _ v (add_order-IsValid _ _ v.funded) (position-add_order _ b.sleeve)

  pub count_rejection-After :
      {b : OrderBook F} (why : Text) → IsValid b → After b (count_rejection why b)
  unfolding count_rejection
  count_rejection-After why v = record {
    valid = record { store = v.store; funded = v.funded; accounts = v.accounts };
    grows = (After-refl v).grows;
  }

  -- What `_fill` returns.
  abbrev pub Fills : OrderBook F → Result (Bool × OrderBook F) → Type ℓ
  Fills b = Ends λ (r : Bool × OrderBook F). After b r.1

  -- A call that returns false has not written to any ticket.
  abbrev pub Adopted : OrderBook F → Bool × OrderBook F → Type ℓ
  Adopted b (done, b') = After b b' × ((done ≡ true) ⊎ (b'.tickets ≡ b.tickets))

  -- What `_pump` returns.
  abbrev pub Pumps : OrderBook F → Result (Bool × OrderBook F) → Type ℓ
  Pumps b = Ends (Adopted b)

  pub Pumps-Fills : (b : OrderBook F) (r : Result (Bool × OrderBook F)) → Pumps b r → Fills b r
  Pumps-Fills b r h = Ends-map (Adopted b) (λ (x : Bool × OrderBook F). After b x.1) r h λ x a. a.0

  -- From the first sleeve to the second, the symbol of the ticket has moved by this many shares and
  -- no other symbol has.
  abbrev pub Moved : Sleeve F → OrderTicket F → Sleeve F → ℤ → Type 0
  Moved s t s' n =
      (symbol : Text)
      → position s' symbol
        ≡ position s symbol +ℤ filled_of symbol (record t { quantity_filled = n })

  pub Moved-refl : (t : OrderTicket F) (s : Sleeve F) → Moved s t s (pos 0)
  unfolding filled_of
  Moved-refl t s symbol = ground (arith, +ℤ_zero (position s symbol))

module _ {ℓ} {F : Type ℓ} ⦃f : Float F⦄ where
  pub Moved-fill :
      (t : OrderTicket F) (s s' s'' : Sleeve F) (n : ℤ) (r : Fill F)
      → Moved s t s' n
      → apply_fill s' r ≡ some s''
      → r.symbol ≡ t.symbol
      → Moved s t s'' (n +ℤ r.qty)
  unfolding filled_of
  Moved-fill t s s' s'' n r h e same symbol =
      ground (
        arith,
        (apply_fill-position s' r symbol e).0,
        h symbol,
        +ℤ_assoc (position s symbol) n r.qty,
      )

  pub settle-After :
      {b : OrderBook F} (id : ℕ) (t : OrderTicket F) (s : Sleeve F) (n : ℤ) (px : F)
      → IsValid b
      → Holds b id t
      → is_final t ≡ false
      → Basis.IsValid s
      → Moved b.sleeve t s n
      → After b (settle id t s n px b)
  unfolding settle close_ticket put unrest is_open is_final
  settle-After id t s n px v e live funded moved =
      let t' = record t { status = filled; average_fill_price = px; quantity_filled = n } in
      record {
        valid = record {
          store = close-Sound _ _ _ id t t' v.store e (unfold is_open in refl);
          funded = funded;
          accounts =
              fill-Accounted v.accounts id t t' e live (unfold filled_of in moved)
                (unfold is_final in refl);
        };
        grows = put-Grows _ [] _ id t t' e live;
      }
