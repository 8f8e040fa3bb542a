-- ===== src/Orders/Run.antt =====
-- dqengine/runtime/orders.py: a book as it is made, and the sequences of calls that strategies and
-- the runner make on it.
use deployquant.Prelude.{
  ℕ, Bool, true, false, Option, List, [], ◌∷◌, ◌≡◌, refl, arith, inl, inr, if◌then◌else◌,
  Bool-cases,
}
use deployquant.Prelude.Eq.{eq_nat, eq_list}
use deployquant.Prelude.Int.{ℤ}
use deployquant.Prelude.Text.{Text}
use deployquant.Prelude.Float.{Float}
use deployquant.Prelude.Dict.{Dict, lookup, has_key}
use deployquant.Sleeve.{Sleeve, EntryPriceMode, new_sleeve, position}
use deployquant.Sleeve.Basis
use deployquant.Orders.Defs.{OrderType, OrderBook, AnyLedger, Env, Result, ok, ◌>>=◌}
use deployquant.Orders.Entry.{
  limit, stop_market, stop_limit, market_on_open, market_on_close, market, trailing_stop,
  limit_if_touched, cancel,
}
use deployquant.Orders.Resting.{
  Bar, UpdateOrderFields, check_resting, fill_at_session_edge, update, cancel_open_orders,
}
use deployquant.Orders.Accounts.{total}
use deployquant.Orders.Keeps.{
  IsValid, After, After-refl, Ends, Ends-bind, Ends-map, Ends-After, IsKnown, IsPolite,
}
use deployquant.Orders.EntryKeeps.{Places}
use deployquant.Orders.MethodKeeps.{
  limit-Places, stop_market-Places, stop_limit-Places, market_on_open-Places,
  market_on_close-Places, market-Places, trailing_stop-Places, limit_if_touched-Places, cancel-Ends,
}
use deployquant.Orders.LoopKeeps.{
  check_resting-Ends, fill_at_session_edge-Ends, update-Ends, cancel_open_orders-Ends,
}

-- A call on the book, or the runner's write to its clock and its prices. `cancel` and `update` are
-- made through `get`, which knows only the book's own tickets.
pub data Command {ℓ} (F : Type ℓ) : Type ℓ where
  place_market : Text → ℤ → F → Text → Command F
  place_limit : Text → ℤ → F → Text → Command F
  place_stop_market : Text → ℤ → F → Text → Command F
  place_stop_limit : Text → ℤ → F → F → Text → Command F
  place_market_on_open : Text → ℤ → Text → Command F
  place_market_on_close : Text → ℤ → Text → Command F
  place_trailing_stop : Text → ℤ → F → Bool → Text → Command F
  place_limit_if_touched : Text → ℤ → F → F → Text → Command F
  change : ℕ → UpdateOrderFields F → Command F
  withdraw : ℕ → Command F
  withdraw_open : Option Text → Command F
  see_bar : Text → Bar F → Option (ℕ × ℕ) → Command F
  reach_edge : OrderType → Dict Text F → Option ℕ → Command F
  set_clock : ℕ × ℕ → Bool → Command F
  set_prices : Dict Text F → Command F

module _ {ℓ} {F : Type ℓ} ⦃f : Float F⦄ where
  -- `OrderBook(sleeve, clock, events_out, prices, securities, ledger)`
  unfoldable pub new_book : Sleeve F → ℕ × ℕ → Dict Text F → Option (AnyLedger F) → OrderBook F
  new_book sleeve clock prices ledger = record {
    sleeve = sleeve;
    clock = clock;
    prices = prices;
    tickets = [];
    open_ids = [];
    next_id = 1;
    allow_orders = true;
    carried = false;
    after_close_to_moo = false;
    daily_conversion = false;
    cancel_edge_on_no_fill = false;
    notice_out = false;
    noticed = false;
    notices = [];
    refused_log = [];
    rejections = [];
    ledger = ledger;
    unfilled_log = [];
    generated = false;
  }

  -- A method that returns the ticket it made.
  unfoldable pub forget : Result (ℕ × OrderBook F) → Result (OrderBook F)
  forget m = m >>= λ (id, b). ok b

  unfoldable pub perform : Env F → Command F → OrderBook F → Result (OrderBook F)
  perform env (place_market s q p tag) b = forget (market env s q p tag b)
  perform env (place_limit s q p tag) b = forget (limit env s q p tag b)
  perform env (place_stop_market s q p tag) b = forget (stop_market env s q p tag b)
  perform env (place_stop_limit s q stop p tag) b = forget (stop_limit env s q stop p tag b)
  perform env (place_market_on_open s q tag) b = forget (market_on_open env s q tag b)
  perform env (place_market_on_close s q tag) b = forget (market_on_close env s q tag b)
  perform env (place_trailing_stop s q a pct tag) b = forget (trailing_stop env s q a pct tag b)
  perform env (place_limit_if_touched s q trigger p tag) b =
      forget (limit_if_touched env s q trigger p tag b)
  perform env (change id u) b = if has_key id b.tickets then update id u b else ok b
  perform env (withdraw id) b = if has_key id b.tickets then cancel env id b else ok b
  perform env (withdraw_open symbol) b = cancel_open_orders env symbol b
  perform env (see_bar symbol bar exclude) b = check_resting env symbol bar exclude b
  perform env (reach_edge kind prices day) b = fill_at_session_edge env kind prices day b
  perform env (set_clock clock carried) b = ok (record b { clock = clock; carried = carried })
  perform env (set_prices prices) b = ok (record b { prices = prices })

  unfoldable pub run : Env F → List (Command F) → OrderBook F → Result (OrderBook F)
  run env [] b = ok b
  run env (c ∷ cs) b = perform env c b >>= λ b'. run env cs b'

  module _ (env : Env F) (polite : IsPolite env) where
    forget-Ends :
        (b : OrderBook F) (m : Result (ℕ × OrderBook F)) → Places b m → Ends (After b) (forget m)
    unfolding forget
    forget-Ends b m h =
        Ends-bind (λ (r : ℕ × OrderBook F). After b r.1 × IsKnown r.1 r.0) (After b) m _ h
          λ (id, b') (g, known). g

    has_key-IsKnown :
        {b : OrderBook F} (id : ℕ) → IsValid b → has_key id b.tickets ≡ true → IsKnown b id
    has_key-IsKnown id v h = cc (v.store.known id, h)

    told-After :
        {b : OrderBook F} (clock : ℕ × ℕ) (carried : Bool) (prices : Dict Text F)
        → IsValid b
        → After b (record b { clock = clock; carried = carried; prices = prices })
    told-After clock carried prices v = record {
      valid = record { store = v.store; funded = v.funded; accounts = v.accounts };
      grows = (After-refl v).grows;
    }

    -- A call on a valid book, on any branch and through any re-entrant handler, returns a valid
    -- book in which every filled, canceled or invalid ticket is as it was, or raises
    -- UnsupportedApiError, the ValueError or OverflowError of a quantity that is NaN or infinite, or
    -- the TypeError of a trailing stop without an amount: it raises no KeyError and follows no
    -- dangling reference. The handler is one that does the same.
    pub perform-After :
        (c : Command F) (b : OrderBook F) → IsValid b → Ends (After b) (perform env c b)
    unfolding perform
    perform-After (place_market s q p tag) b v =
        forget-Ends b _ (market-Places env polite b s q p tag v)
    perform-After (place_limit s q p tag) b v =
        forget-Ends b _ (limit-Places env polite b s q p tag v)
    perform-After (place_stop_market s q p tag) b v =
        forget-Ends b _ (stop_market-Places env polite b s q p tag v)
    perform-After (place_stop_limit s q stop p tag) b v =
        forget-Ends b _ (stop_limit-Places env polite b s q stop p tag v)
    perform-After (place_market_on_open s q tag) b v =
        forget-Ends b _ (market_on_open-Places env polite b s q tag v)
    perform-After (place_market_on_close s q tag) b v =
        forget-Ends b _ (market_on_close-Places env polite b s q tag v)
    perform-After (place_trailing_stop s q a pct tag) b v =
        forget-Ends b _ (trailing_stop-Places env polite b s q a pct tag v)
    perform-After (place_limit_if_touched s q trigger p tag) b v =
        forget-Ends b _ (limit_if_touched-Places env polite b s q trigger p tag v)
    perform-After (change id u) b v = elim (Bool-cases (has_key id b.tickets)) [
      | inl h ↦ rw h (update-Ends env polite b id u v (has_key-IsKnown id v h))
      | inr h ↦ rw h (After-refl v)
    ]
    perform-After (withdraw id) b v = elim (Bool-cases (has_key id b.tickets)) [
      | inl h ↦ rw h (cancel-Ends env polite b id v (has_key-IsKnown id v h))
      | inr h ↦ rw h (After-refl v)
    ]
    perform-After (withdraw_open symbol) b v = cancel_open_orders-Ends env polite b symbol v
    perform-After (see_bar symbol bar exclude) b v =
        check_resting-Ends env polite b symbol bar exclude v
    perform-After (reach_edge kind prices day) b v =
        fill_at_session_edge-Ends env polite b kind prices day v
    perform-After (set_clock clock carried) b v = told-After clock carried b.prices v
    perform-After (set_prices prices) b v = told-After b.clock b.carried prices v

    pub run-After :
        (cs : List (Command F)) (b : OrderBook F) → IsValid b → Ends (After b) (run env cs b)
    unfolding run
    run-After [] b v = After-refl v
    run-After (c ∷ cs) b v =
        Ends-bind (After b) (After b) _ _ (perform-After c b v)
          λ b' g. Ends-After _ g (run-After cs b' g.valid)

    pub new_book-IsValid :
        (cash margin_max : F) (mode : EntryPriceMode) (clock : ℕ × ℕ) (prices : Dict Text F)
        (ledger : Option (AnyLedger F))
        → IsValid (new_book (new_sleeve cash margin_max mode) clock prices ledger)
    unfolding new_book
    new_book-IsValid cash margin_max mode clock prices ledger = record {
      store = record {
        known = λ id. unfold lookup in ground arith;
        opened = λ id. unfold lookup in refl;
        distinct = tt;
        started = omega arith;
      };
      funded = Basis.new_sleeve-IsValid cash margin_max mode;
      accounts = record {
        balanced = λ symbol. unfold position new_sleeve total lookup in refl;
        unfilled = λ id. unfold lookup in refl;
      };
    }

    -- A run of a new book, whatever its ledger and its handler, ends in a valid book, if it does not
    -- raise one of the exceptions that IsRefusal names: the open list holds exactly the open tickets, each position is the
    -- sum of the shares that the tickets report filled, and it has a cost basis. The handler keeps
    -- books valid.
    pub run-new_book :
        (cs : List (Command F)) (cash margin_max : F) (mode : EntryPriceMode) (clock : ℕ × ℕ)
        (prices : Dict Text F) (ledger : Option (AnyLedger F))
        → Ends IsValid (run env cs (new_book (new_sleeve cash margin_max mode) clock prices ledger))
    run-new_book cs cash margin_max mode clock prices ledger =
        let start = new_book-IsValid cash margin_max mode clock prices ledger in
        Ends-map (After (new_book (new_sleeve cash margin_max mode) clock prices ledger)) IsValid _
          (run-After cs _ start) λ b g. g.valid
