-- ===== src/Orders/Keeps.antt =====
-- dqengine/runtime/orders.py: the invariant of the book, and a rule for each of the writes and calls
-- that the methods are made of.
use deployquant.Prelude.{
  ℕ, true, false, ◌&&◌, some, [], ◌≡◌, inl, inr, arith, ltb, leb, Option-cases,
}
use deployquant.Prelude.Eq.{eq_nat}
use deployquant.Prelude.Int.{ℤ, pos}
use deployquant.Prelude.Text.{Text}
use deployquant.Prelude.Dict.{lookup, lookup-insert}
use deployquant.Sleeve.Basis
use deployquant.Orders.Defs.{
  OrderTicket, OrderStatus, OrderEvent, OrderBook, Env, Error, Result, ok, err, unsupported,
  value_error, overflow_error, type_error, ◌>>=◌, is_open, deref, ticket, put, close_ticket, unrest,
  append_ticket, emit, event,
}
use deployquant.Orders.Accounts.{Accounted, append-Accounted, put-Accounted}
use deployquant.Orders.Store.{
  is_final, Sound, Grows, Grows-refl, Grows-trans, put-Sound, put-Grows, close-Sound, append-Sound,
  append-Grows,
}

module _ {ℓ} {F : Type ℓ} where
  -- The book's invariant: its open list holds exactly its open tickets, each once, its ids are those
  -- it has given out, its sleeve has a basis for every position, and each position is the sum of the
  -- shares that its tickets report filled.
  pub record IsValid (b : OrderBook F) : Type 0 where
    pub store : Sound b.tickets b.open_ids b.next_id
    pub funded : Basis.IsValid b.sleeve
    pub accounts : Accounted b.sleeve b.tickets

  -- What a call has left: a valid book, in which every ticket that was final is as it was.
  pub record After (b b' : OrderBook F) : Type ℓ where
    pub valid : IsValid b'
    pub grows : Grows b.tickets b.next_id b'.tickets b'.next_id

-- The exceptions that a call may raise: UnsupportedApiError, those of `int` on a quantity that is NaN
-- or infinite, and the TypeError of a trailing stop that is tested before it has its amount.
pub data IsRefusal {κ} : Error → Type κ where
  is_unsupported : IsRefusal unsupported
  is_nan : IsRefusal value_error
  is_infinite : IsRefusal overflow_error
  is_untrailed : IsRefusal type_error

-- A call returns a value with the property, or raises one of these: it raises no KeyError and
-- follows no dangling reference.
abbrev pub Ends {ℓ κ} : {A : Type ℓ} → (A → Type κ) → Result A → Type κ
Ends P (ok a) = P a
Ends P (err e) = IsRefusal e

pub Ends-bind {ℓ κ μ ν} :
    {A : Type ℓ} {B : Type κ} (P : A → Type μ) (Q : B → Type ν) (m : Result A) (k : A → Result B)
    → Ends P m
    → ((a : A) → P a → Ends Q (k a))
    → Ends Q (m >>= k)
Ends-bind P Q (ok a) k h next = next a h
Ends-bind P Q (err _) k is_unsupported next = is_unsupported
Ends-bind P Q (err _) k is_nan next = is_nan
Ends-bind P Q (err _) k is_infinite next = is_infinite
Ends-bind P Q (err _) k is_untrailed next = is_untrailed

pub Ends-map {ℓ κ μ} :
    {A : Type ℓ} (P : A → Type κ) (Q : A → Type μ) (m : Result A)
    → Ends P m
    → ((a : A) → P a → Q a)
    → Ends Q m
Ends-map P Q (ok a) h f = f a h
Ends-map P Q (err _) is_unsupported f = is_unsupported
Ends-map P Q (err _) is_nan f = is_nan
Ends-map P Q (err _) is_infinite f = is_infinite
Ends-map P Q (err _) is_untrailed f = is_untrailed

module _ {ℓ} {F : Type ℓ} where
  pub After-refl : {b : OrderBook F} → IsValid b → After b b
  After-refl v = record { valid = v; grows = Grows-refl _ _ }

  pub After-trans : {b b' b'' : OrderBook F} → After b b' → After b' b'' → After b b''
  After-trans g h = record { valid = h.valid; grows = Grows-trans g.grows h.grows }

  -- A call made after a write.
  pub Ends-After :
      {b b' : OrderBook F} (r : Result (OrderBook F))
      → After b b'
      → Ends (After b') r
      → Ends (After b) r
  Ends-After {b} {b'} r g h = Ends-map (After b') (After b) r h λ b'' h'. After-trans g h'

  -- The store holds this ticket under this id.
  abbrev pub Holds : OrderBook F → ℕ → OrderTicket F → Type ℓ
  Holds b id t = lookup id b.tickets ≡ some t

  abbrev pub IsKnown : OrderBook F → ℕ → Type 0
  IsKnown b id = (leb 1 id && ltb id b.next_id) ≡ true

  pub IsKnown-Holds :
      {b : OrderBook F} (id : ℕ) → IsValid b → IsKnown b id → (t : OrderTicket F) × Holds b id t
  IsKnown-Holds {b} id v h = elim (Option-cases (lookup id b.tickets)) [
    | inl e ↦ absurd (ground (arith, v.store.known id))
    | inr found ↦ found
  ]

  pub IsKnown-After : {b b' : OrderBook F} (id : ℕ) → After b b' → IsKnown b id → IsKnown b' id
  IsKnown-After id g h = ground (arith, g.grows.more)

  pub ticket-Holds :
      (b : OrderBook F) (id : ℕ) (t : OrderTicket F) → Holds b id t → ticket id b ≡ ok t
  unfolding ticket deref
  ticket-Holds b id t e = rw e

  pub Holds-put :
      (b : OrderBook F) (id : ℕ) (t : OrderTicket F) → lookup id (put id t b).tickets ≡ some t
  unfolding put
  Holds-put b id t = ground (arith, lookup-insert id id t b.tickets)

  module _ {b : OrderBook F} (v : IsValid b) (id : ℕ) (t t' : OrderTicket F) (e : Holds b id t)
      (live : is_final t ≡ false) where
    pub put-After :
        is_open t' ≡ is_open t → t'.quantity_filled ≡ t.quantity_filled → After b (put id t' b)
    unfolding put
    put-After same filled_same = record {
      valid = record {
        store = put-Sound _ _ _ id t t' v.store e same;
        funded = v.funded;
        accounts = put-Accounted v.accounts id t t' e live filled_same;
      };
      grows = put-Grows _ [] _ id t t' e live;
    }

    pub close_ticket-After :
        is_open t' ≡ false → t'.quantity_filled ≡ t.quantity_filled → After b (close_ticket id t' b)
    unfolding close_ticket put unrest
    close_ticket-After shut filled_same = record {
      valid = record {
        store = close-Sound _ _ _ id t t' v.store e shut;
        funded = v.funded;
        accounts = put-Accounted v.accounts id t t' e live filled_same;
      };
      grows = put-Grows _ [] _ id t t' e live;
    }

-- A handler of events that leaves a valid book, in which every final ticket is as it was.
pub record IsPolite {ℓ} {F : Type ℓ} (env : Env F) : Type ℓ where
  pub handles :
      (e : OrderEvent F) (b : OrderBook F) → IsValid b → Ends (After b) (env.events_out e b)

module _ {ℓ} {F : Type ℓ} where
  pub append_ticket-After :
      {b : OrderBook F} (t : OrderTicket F)
      → IsValid b
      → is_open t ≡ false
      → t.quantity_filled ≡ pos 0
      → After b (append_ticket t b)
  unfolding append_ticket
  append_ticket-After {b} t v shut z = record {
    valid = record {
      store = append-Sound _ _ _ t v.store shut;
      funded = v.funded;
      accounts =
          append-Accounted v.accounts b.next_id t (ground (arith, v.store.known b.next_id)) z;
    };
    grows = append-Grows _ _ _ t v.store;
  }

  module _ (env : Env F) (polite : IsPolite env) where
    pub emit-Ends :
        {b : OrderBook F} (id : ℕ) (t : OrderTicket F) (status : OrderStatus) (price : F) (qty : ℤ)
        (message : Text)
        → IsValid b
        → Holds b id t
        → Ends (After b) (emit env id status price qty message b)
    unfolding emit
    emit-Ends {b} id t status price qty message v e =
        rw (ticket-Holds b id t e) (polite.handles (event id t status price qty message) b v)
