-- ===== src/Orders/Resting.antt =====
-- dqengine/runtime/orders.py: resting orders against a bar or a session's edge, updates and queries.
use deployquant.Prelude.{
  ℕ, Bool, true, false, not, ◌&&◌, ◌||◌, Option, none, some, List, [], ◌∷◌, ◌++◌, if◌then◌else◌,
  or_else, keep,
}
use deployquant.Prelude.Eq.{◌==◌, eq_nat, eq_list}
use deployquant.Prelude.Int.{ℤ, pos, is_pos}
use deployquant.Prelude.Text.{Text, codes, upper}
use deployquant.Prelude.Float.{Float, nought, min_of, max_of, nonzero}
use deployquant.Prelude.Dict.{Dict, lookup}
use deployquant.Fills.{limit_fill, stop_fill, stop_triggered, touch_triggered}
use deployquant.Identity.{decimal}
use deployquant.Orders.Defs.{
  OrderType, OrderStatus, OrderTicket, OrderBook, Env, Result, ok, err, unsupported, value_error,
  overflow_error, type_error, ◌>>=◌, is_open, ticket, put, refuse, is_reserved,
}
use deployquant.Orders.Fill.{fill, pump_by}
use deployquant.Orders.Entry.{cancel}

unfoldable pub same_type : OrderType → OrderType → Bool
same_type OrderType.market OrderType.market = true
same_type OrderType.limit OrderType.limit = true
same_type OrderType.stop_market OrderType.stop_market = true
same_type OrderType.stop_limit OrderType.stop_limit = true
same_type OrderType.market_on_open OrderType.market_on_open = true
same_type OrderType.market_on_close OrderType.market_on_close = true
same_type OrderType.trailing_stop OrderType.trailing_stop = true
same_type OrderType.limit_if_touched OrderType.limit_if_touched = true
same_type _ _ = false

-- The open, high, low and close of a bar.
pub record Bar {ℓ} (F : Type ℓ) : Type ℓ where
  pub o : F
  pub h : F
  pub l : F
  pub c : F

pub record UpdateOrderFields {ℓ} (F : Type ℓ) : Type ℓ where
  pub quantity : Option F
  pub limit_price : Option F
  pub stop_price : Option F
  pub tag : Option Text

unfoldable pub status_value : OrderStatus → Text
status_value OrderStatus.new = codes "new"
status_value OrderStatus.submitted = codes "submitted"
status_value OrderStatus.filled = codes "filled"
status_value OrderStatus.canceled = codes "canceled"
status_value OrderStatus.invalid = codes "invalid"
status_value OrderStatus.update_submitted = codes "update_submitted"

module _ {ℓ} {F : Type ℓ} ⦃f : Float F⦄ where
  open f use {of_int, plus, minus, times, round2, trunc, finite, le}

  -- `if px is not None: self._fill(t, px, slip)`
  unfoldable pub fill_if : Env F → ℕ → Option F → F → OrderBook F → Result (OrderBook F)
  fill_if env id none slip b = ok b
  fill_if env id (some px) slip b = fill env id px slip b >>= λ (_, b'). ok b'

  -- The trailing stop's level on a bar, before it is compared with the one it had.
  unfoldable pub new_stop : OrderTicket F → F → Bar F → F
  new_stop t amt bar =
      let one = of_int (pos 1) in
      let buy = is_pos t.quantity in
      let ref = if buy then bar.l else bar.h in
      if t.trailing_as_percentage
      then (if buy then times ref (plus one amt) else times ref (minus one amt))
      else if buy
      then plus ref amt
      else minus ref amt

  -- It moves only in the direction that protects the position.
  unfoldable pub ratchet : OrderTicket F → F → Bar F → F
  ratchet t amt bar = elim t.stop_price [
    | none ↦ new_stop t amt bar
    | some stop ↦
        if is_pos t.quantity
        then min_of stop (new_stop t amt bar)
        else max_of stop (new_stop t amt bar)
  ]

  -- The amount is the ticket's.
  unfoldable pub trail :
      Env F → ℕ → OrderTicket F → Bar F → F → Option F → OrderBook F → Result (OrderBook F)
  trail env id t bar slip none b = err type_error
  trail env id t bar slip (some amt) b =
      let stop = some (ratchet t amt bar) in
      fill_if env id (stop_fill (is_pos t.quantity) bar.o bar.h bar.l stop) slip
        (put id (record t { stop_price = stop }) b)

  -- A triggered ticket tries its limit leg; another only looks at its trigger.
  unfoldable pub two_step :
      Env F → ℕ → OrderTicket F → Bar F → Bool → OrderBook F → Result (OrderBook F)
  two_step env id t bar breached b =
      if t.triggered
      then fill_if env id (limit_fill (is_pos t.quantity) bar.o bar.h bar.l t.limit_price) nought b
      else ok (if breached then put id (record t { triggered = true }) b else b)

  unfoldable pub on_bar :
      Env F → OrderType → ℕ → OrderTicket F → Bar F → F → OrderBook F → Result (OrderBook F)
  on_bar env OrderType.market id t bar slip b = fill_if env id (some bar.c) slip b
  on_bar env OrderType.limit id t bar slip b =
      fill_if env id (limit_fill (is_pos t.quantity) bar.o bar.h bar.l t.limit_price) nought b
  on_bar env OrderType.stop_market id t bar slip b =
      fill_if env id (stop_fill (is_pos t.quantity) bar.o bar.h bar.l t.stop_price) slip b
  on_bar env OrderType.trailing_stop id t bar slip b = trail env id t bar slip t.trailing_amount b
  on_bar env OrderType.limit_if_touched id t bar slip b =
      two_step env id t bar (touch_triggered (is_pos t.quantity) bar.h bar.l t.stop_price) b
  on_bar env OrderType.stop_limit id t bar slip b =
      two_step env id t bar (stop_triggered (is_pos t.quantity) bar.h bar.l t.stop_price) b
  on_bar env OrderType.market_on_open id t bar slip b = ok b
  on_bar env OrderType.market_on_close id t bar slip b = ok b

  -- `exclude_created is not None and t.created == exclude_created`
  unfoldable pub is_excluded : Option (ℕ × ℕ) → OrderTicket F → Bool
  is_excluded none t = false
  is_excluded (some (day, ms)) t = t.created.0 == day && t.created.1 == ms

  -- One round of `check_resting`'s loop.
  unfoldable pub check_one :
      Env F → Text → Bar F → Option (ℕ × ℕ) → ℕ → OrderBook F → Result (OrderBook F)
  check_one env sym bar exclude id b = do
    t ← ticket id b
    let skipped = not (is_open t) || (not (t.symbol == sym) || is_excluded exclude t)
    let checked : Result (OrderBook F) = pump_by env id t b.ledger b >>= λ (pumped, b').
        if pumped then ok b' else on_bar env t.order_type id t bar (env.slippage sym t) b'
    if skipped then ok b else checked

  -- The loop runs over a snapshot of the open list.
  unfoldable pub check_all :
      Env F → Text → Bar F → Option (ℕ × ℕ) → List ℕ → OrderBook F → Result (OrderBook F)
  check_all env sym bar exclude [] b = ok b
  check_all env sym bar exclude (id ∷ ids) b =
      check_one env sym bar exclude id b >>= λ b'. check_all env sym bar exclude ids b'

  unfoldable pub check_resting :
      Env F → Text → Bar F → Option (ℕ × ℕ) → OrderBook F → Result (OrderBook F)
  check_resting env symbol bar exclude b = check_all env (upper symbol) bar exclude b.open_ids b

  -- `not_created_on is not None and t.created[0] == not_created_on`
  unfoldable pub is_created_on : Option ℕ → OrderTicket F → Bool
  is_created_on none t = false
  is_created_on (some day) t = t.created.0 == day

  -- `px = prices.get(t.symbol)`, `none` also if it is 0.
  unfoldable pub edge_price : Dict Text F → OrderTicket F → Option F
  edge_price prices t = elim (lookup t.symbol prices) [
    | none ↦ none
    | some px ↦ if nonzero px then some px else none
  ]

  unfoldable pub edge_one :
      Env F → OrderType → Dict Text F → Option ℕ → ℕ → OrderBook F → Result (OrderBook F)
  edge_one env kind prices not_created_on id b = do
    t ← ticket id b
    let skipped =
        not (is_open t) || (not (same_type t.order_type kind) || is_created_on not_created_on t)
    let filled_now = fill_if env id (edge_price prices t) (env.slippage t.symbol t) b
    if skipped then ok b else filled_now

  unfoldable pub edge_all :
      Env F → OrderType → Dict Text F → Option ℕ → List ℕ → OrderBook F → Result (OrderBook F)
  edge_all env kind prices not_created_on [] b = ok b
  edge_all env kind prices not_created_on (id ∷ ids) b =
      edge_one env kind prices not_created_on id b >>= λ b'.
      edge_all env kind prices not_created_on ids b'

  unfoldable pub fill_at_session_edge :
      Env F → OrderType → Dict Text F → Option ℕ → OrderBook F → Result (OrderBook F)
  fill_at_session_edge env kind prices not_created_on b =
      edge_all env kind prices not_created_on b.open_ids b

  unfoldable pub round_or : Option F → Option F → Option F
  round_or none old = old
  round_or (some px) old = some (round2 px)

  -- `int(x)`
  unfoldable pub int_of : F → Result ℤ
  int_of x =
      if finite x then ok (trunc x) else if le x x then err overflow_error else err value_error

  -- The quantity of the ticket, or the one that is given.
  unfoldable pub new_quantity : Option F → ℤ → Result ℤ
  new_quantity none old = ok old
  new_quantity (some x) old = int_of x

  -- The ticket with that quantity and the other fields that are given.
  unfoldable pub updated : UpdateOrderFields F → ℤ → OrderTicket F → OrderTicket F
  updated u q t = record t {
    quantity = q;
    limit_price = round_or u.limit_price t.limit_price;
    stop_price = round_or u.stop_price t.stop_price;
    tag = or_else u.tag t.tag;
  }

  unfoldable pub reserved_update : UpdateOrderFields F → OrderBook F → Bool
  reserved_update u b = elim u.tag [ none ↦ false | some tag ↦ is_reserved tag b ]

  unfoldable pub update : ℕ → UpdateOrderFields F → OrderBook F → Result (OrderBook F)
  update id u b = do
    t ← ticket id b
    let ignored =
        codes "update ignored on " ++ status_value t.status ++ codes " order " ++ decimal id
    if not (is_open t)
        then ok (refuse ignored b)
        else if reserved_update u b
        then err unsupported
        else (new_quantity u.quantity t.quantity >>= λ q. ok (put id (updated u q t) b))

  -- `open_tickets`, as ids.
  unfoldable pub is_listed : Option Text → OrderBook F → ℕ → Bool
  is_listed symbol b id = elim (lookup id b.tickets) [
    | none ↦ false
    | some t ↦ is_open t && elim symbol [ none ↦ true | some s ↦ t.symbol == upper s ]
  ]

  unfoldable pub open_tickets : Option Text → OrderBook F → List ℕ
  open_tickets symbol b = keep (is_listed symbol b) b.open_ids

  unfoldable pub cancel_all : Env F → List ℕ → OrderBook F → Result (OrderBook F)
  cancel_all env [] b = ok b
  cancel_all env (id ∷ ids) b = cancel env id b >>= λ b'. cancel_all env ids b'

  -- `Transactions.cancel_open_orders`
  unfoldable pub cancel_open_orders : Env F → Option Text → OrderBook F → Result (OrderBook F)
  cancel_open_orders env symbol b = cancel_all env (open_tickets symbol b) b
