-- ===== src/Orders/Defs.antt =====
-- dqengine/runtime/orders.py: tickets, the book, and its helpers.
use deployquant.Prelude.{
  ℕ, ◌+◌, Bool, true, false, not, ◌&&◌, Option, none, some, List, [], ◌∷◌, ◌++◌, if◌then◌else◌,
}
use deployquant.Prelude.Eq.{◌==◌, eq_nat, eq_list}
use deployquant.Prelude.Int.{ℤ, pos, is_pos}
use deployquant.Prelude.Text.{Text, codes, upper, starts_with}
use deployquant.Prelude.Float.{Float, nought}
use deployquant.Prelude.Dict.{Dict, lookup, get, insert}
use deployquant.Ledger.{ExecutionLedger, LiveCappedLedger}
use deployquant.Sleeve.{Sleeve, OrderRecord}
use deployquant.Identity.{generated_tag_prefix}

pub data OrderType : Type 0 where
  market limit stop_market stop_limit market_on_open market_on_close trailing_stop : OrderType
  limit_if_touched : OrderType

-- The value of the enum, which the records show.
unfoldable pub type_value : OrderType → Text
type_value OrderType.market = codes "market"
type_value OrderType.limit = codes "limit"
type_value OrderType.stop_market = codes "stop"
type_value OrderType.stop_limit = codes "stop_limit"
type_value OrderType.market_on_open = codes "market_on_open"
type_value OrderType.market_on_close = codes "market_on_close"
type_value OrderType.trailing_stop = codes "trailing_stop"
type_value OrderType.limit_if_touched = codes "limit_if_touched"

pub data OrderStatus : Type 0 where
  new submitted filled canceled invalid update_submitted : OrderStatus

pub data OrderDirection : Type 0 where
  buy sell : OrderDirection

pub record OrderEvent {ℓ} (F : Type ℓ) : Type ℓ where
  pub order_id : ℕ
  pub symbol : Text
  pub status : OrderStatus
  pub direction : OrderDirection
  pub fill_price : F
  pub fill_quantity : ℤ
  pub quantity : ℤ
  pub message : Text

pub record OrderTicket {ℓ} (F : Type ℓ) : Type ℓ where
  pub symbol : Text
  pub quantity : ℤ
  pub order_type : OrderType
  pub tag : Text
  pub limit_price : Option F
  pub stop_price : Option F
  pub status : OrderStatus
  pub average_fill_price : F
  pub quantity_filled : ℤ
  pub created : ℕ × ℕ
  pub triggered : Bool
  pub trailing_amount : Option F
  pub trailing_as_percentage : Bool

-- The two objects that may stand in `OrderBook.ledger`.
pub data AnyLedger {ℓ} (F : Type ℓ) : Type ℓ where
  plain : ExecutionLedger F → AnyLedger F
  capped : LiveCappedLedger F → AnyLedger F

-- An entry of `unfilled_log` is the day and the id that its text is made of. `clock` is what the
-- callable returns at present; `notice_out` says whether a sink is installed, and `notices` is what
-- it was given.
pub record OrderBook {ℓ} (F : Type ℓ) : Type ℓ where
  pub sleeve : Sleeve F
  pub clock : ℕ × ℕ
  pub prices : Dict Text F
  pub tickets : Dict ℕ (OrderTicket F)
  pub open_ids : List ℕ
  pub next_id : ℕ
  pub allow_orders : Bool
  pub carried : Bool
  pub after_close_to_moo : Bool
  pub daily_conversion : Bool
  pub cancel_edge_on_no_fill : Bool
  pub notice_out : Bool
  pub noticed : Bool
  pub notices : List Text
  pub refused_log : List Text
  pub rejections : Dict Text ℕ
  pub ledger : Option (AnyLedger F)
  pub unfilled_log : List (ℕ × ℕ)
  pub generated : Bool

-- `unsupported` is UnsupportedApiError, `key_error` a KeyError of the sleeve, `dangling` the use of
-- a ticket that the book never made, and the others have Python's names.
pub data Error : Type 0 where
  unsupported value_error overflow_error type_error key_error dangling : Error

pub data Result {ℓ} (A : Type ℓ) : Type ℓ where
  ok : A → Result A
  err : Error → Result A

-- What the book is given: the handler of its events, which may call the book again, the fee and
-- slippage models, and the close of each session's day.
pub record Env {ℓ} (F : Type ℓ) : Type ℓ where
  pub events_out : OrderEvent F → OrderBook F → Result (OrderBook F)
  pub fee : Text → F
  pub slippage : Text → OrderTicket F → F
  pub close_time_ms : ℕ → ℕ

unfoldable pub is_open {ℓ} : {F : Type ℓ} → OrderTicket F → Bool
is_open t = elim t.status [ submitted ↦ true | update_submitted ↦ true | _ ↦ false ]

unfoldable pub direction {ℓ} : {F : Type ℓ} → OrderTicket F → OrderDirection
direction t = if is_pos t.quantity then buy else sell

infixl 5 ◌>>=◌
abbrev pub ◌>>=◌ {ℓ κ} : {A : Type ℓ} {B : Type κ} → Result A → (A → Result B) → Result B
ok a >>= k = k a
err e >>= k = err e

-- `list.remove`: the first occurrence, if there is one.
unfoldable pub remove_one : ℕ → List ℕ → List ℕ
remove_one i [] = []
remove_one i (j ∷ js) = if j == i then js else j ∷ remove_one i js

module _ {ℓ} {F : Type ℓ} where
  -- The ticket that a reference points to, and a write through it.
  unfoldable pub deref : Option (OrderTicket F) → Result (OrderTicket F)
  deref none = err dangling
  deref (some t) = ok t

  unfoldable pub ticket : ℕ → OrderBook F → Result (OrderTicket F)
  ticket id b = deref (lookup id b.tickets)

  unfoldable pub put : ℕ → OrderTicket F → OrderBook F → OrderBook F
  put id t b = record b { tickets = insert id t b.tickets }

  -- `_unrest`
  unfoldable pub unrest : ℕ → OrderBook F → OrderBook F
  unrest id b = record b { open_ids = remove_one id b.open_ids }

  -- `self.sleeve.orders.append(OrderRecord(...))`
  unfoldable pub add_order : OrderRecord F → Sleeve F → Sleeve F
  add_order r s = record s { orders = s.orders ++ r ∷ [] }

  unfoldable pub order_record : OrderTicket F → ℕ → ℕ → ℤ → Text → Option F → OrderRecord F
  order_record t day ms qty status price = record {
    day = day;
    time_ms = ms;
    symbol = t.symbol;
    qty = qty;
    kind = type_value t.order_type;
    tag = t.tag;
    status = status;
    price = price;
  }

  -- The status of a ticket, and the ticket out of the open list.
  unfoldable pub close_ticket : ℕ → OrderTicket F → OrderBook F → OrderBook F
  close_ticket id t b = unrest id (put id t b)

  unfoldable pub log_order : OrderTicket F → Text → OrderBook F → OrderBook F
  log_order t status b = record b {
    sleeve = add_order (order_record t b.clock.0 b.clock.1 t.quantity status none) b.sleeve;
  }

  unfoldable pub count_rejection : Text → OrderBook F → OrderBook F
  count_rejection why b = record b {
    rejections = insert why (get why b.rejections 0 + 1) b.rejections;
  }

  unfoldable pub refuse : Text → OrderBook F → OrderBook F
  refuse message b = record b { refused_log = b.refused_log ++ message ∷ [] }

  -- `tag.startswith("ir:")` in a book that may not use the prefix.
  unfoldable pub is_reserved : Text → OrderBook F → Bool
  is_reserved tag b = starts_with tag generated_tag_prefix && not b.generated

  unfoldable pub append_ticket : OrderTicket F → OrderBook F → OrderBook F
  append_ticket t b = record b { tickets = insert b.next_id t b.tickets; next_id = b.next_id + 1 }

  unfoldable pub event : ℕ → OrderTicket F → OrderStatus → F → ℤ → Text → OrderEvent F
  event id t status fill_price fill_qty message = record {
    order_id = id;
    symbol = t.symbol;
    status = status;
    direction = direction t;
    fill_price = fill_price;
    fill_quantity = fill_qty;
    quantity = t.quantity;
    message = message;
  }

  -- `_emit`
  unfoldable pub emit : Env F → ℕ → OrderStatus → F → ℤ → Text → OrderBook F → Result (OrderBook F)
  emit env id status fill_price fill_qty message b = do
    t ← ticket id b
    env.events_out (event id t status fill_price fill_qty message) b

module _ {ℓ} {F : Type ℓ} ⦃f : Float F⦄ where
  -- The ticket as `__init__` leaves it, with its creation time.
  unfoldable pub fresh_ticket :
      Text → ℤ → OrderType → Text → Option F → Option F → ℕ × ℕ → OrderTicket F
  fresh_ticket symbol qty order_type tag limit_price stop_price created = record {
    symbol = symbol;
    quantity = qty;
    order_type = order_type;
    tag = tag;
    limit_price = limit_price;
    stop_price = stop_price;
    status = new;
    average_fill_price = nought;
    quantity_filled = pos 0;
    created = created;
    triggered = false;
    trailing_amount = none;
    trailing_as_percentage = true;
  }

  unfoldable pub new_ticket :
      Text → ℤ → OrderType → Text → Option F → Option F → OrderBook F → Result (ℕ × OrderBook F)
  new_ticket symbol qty order_type tag limit_price stop_price b =
      let t = fresh_ticket (upper symbol) qty order_type tag limit_price stop_price b.clock in
      if is_reserved tag b then err unsupported else ok (b.next_id, append_ticket t b)

  unfoldable pub reject : Env F → ℕ → Text → OrderBook F → Result (OrderBook F)
  reject env id why b = do
    t ← ticket id b
    emit env id invalid nought (pos 0) why (
        close_ticket id (record t { status = invalid })
          (log_order t (codes "rejected") (count_rejection why b)))
