-- ===== src/Orders/Entry.antt =====
-- dqengine/runtime/orders.py: the methods that place, change and cancel orders.
use deployquant.Prelude.{
  ℕ, ◌-◌, Bool, true, not, ◌&&◌, ◌||◌, Option, none, some, [], ◌∷◌, ◌++◌, ltb, leb, if◌then◌else◌,
}
use deployquant.Prelude.Eq.{eq_nat, eq_list}
use deployquant.Prelude.Int.{ℤ, pos}
use deployquant.Prelude.Text.{Text, codes, upper}
use deployquant.Prelude.Float.{Float, nought}
use deployquant.Prelude.Dict.{get}
use deployquant.Orders.Defs.{
  OrderType, OrderTicket, OrderBook, Env, Result, ok, ◌>>=◌, submitted, canceled, invalid,
  type_value, is_open, ticket, put, new_ticket, emit, reject, refuse, log_order, close_ticket,
}
use deployquant.Identity.{int_text}
use deployquant.Orders.Fill.{fill}

-- 00:15:30 before the close
abbrev pub moc_submission_buffer_ms : ℕ
moc_submission_buffer_ms = 930_000

abbrev pub moc_buffer_message : Text
moc_buffer_message =
    codes
      "MarketOnClose orders must be placed within 00:15:30 before market close. Override this TimeSpan buffer by setting Orders.MarketOnCloseOrder.SubmissionTimeBuffer in QCAlgorithm.Initialize()."

abbrev pub unpriced_message : Text → Text
unpriced_message symbol =
    symbol
    ++ codes
        ": The security does not have an accurate price as it has not yet received a bar of data. Before placing a trade (or using set_holdings) warm up your algorithm with set_warmup, or use slice.contains(symbol) to confirm the Slice object has price before using the data."

abbrev pub warmup_message : Text
warmup_message = codes "orders are not allowed during warm-up"

abbrev pub daily_conversion_notice : Text
daily_conversion_notice =
    codes
      "Warning: market orders on daily resolution data sent during market hours are automatically converted into MarketOnClose orders (or MarketOnOpen near the close) to avoid filling at the stale previous close. The conversion applies in live trading too, so a live run fills where its backtest fills. For intraday timing, subscribe at minute resolution and keep the daily indicators."

-- The kind that a market order of a daily strategy is converted into.
unfoldable pub converted : ℕ → ℕ → OrderType
converted close_ms ms =
    if leb moc_submission_buffer_ms (close_ms - ms)
    then OrderType.market_on_close
    else OrderType.market_on_open

module _ {ℓ} {F : Type ℓ} where
  -- A ticket becomes live: submitted, at the end of the open list.
  unfoldable pub submit : ℕ → OrderTicket F → OrderBook F → OrderBook F
  submit id t b =
      let b' = put id (record t { status = submitted }) b in
      record b' { open_ids = b'.open_ids ++ id ∷ [] }

module _ {ℓ} {F : Type ℓ} ⦃f : Float F⦄ where
  open f use {lt, round2}

  -- `_priced`
  unfoldable pub priced : Text → OrderBook F → Bool
  priced symbol b = lt nought (get (upper symbol) b.prices nought)

  -- `_notice`
  unfoldable pub notice : Text → OrderBook F → OrderBook F
  notice message b =
      if b.noticed || not b.notice_out
      then b
      else record b { noticed = true; notices = b.notices ++ message ∷ [] }

  module _ (env : Env F) where
    unfoldable pub refuse_unpriced :
        Text → ℤ → OrderType → Text → OrderBook F → Result (ℕ × OrderBook F)
    refuse_unpriced symbol qty order_type tag b = do
      (id, b1) ← new_ticket symbol qty order_type tag none none b
      b2 ←
          reject env id (unpriced_message (upper symbol))
            (refuse (unpriced_message (upper symbol)) b1)
      ok (id, b2)

    unfoldable pub refuse_warmup :
        Text → ℤ → OrderType → Text → OrderBook F → Result (ℕ × OrderBook F)
    refuse_warmup symbol qty order_type tag b = do
      (id, b1) ← new_ticket symbol qty order_type tag none none b
      t ← ticket id b1
      b2 ← emit env id invalid nought (pos 0) warmup_message (
          refuse
            (codes "order during warm-up refused: "
              ++ type_value order_type
              ++ codes " "
              ++ int_text qty
              ++ codes " "
              ++ t.symbol)
            (put id (record t { status = invalid }) b1))
      ok (id, b2)

    unfoldable pub rest_new : ℕ → OrderBook F → Result (ℕ × OrderBook F)
    rest_new id b = do
      t ← ticket id b
      b' ← emit env id submitted nought (pos 0) [] (submit id t b)
      ok (id, b')

    -- `_rest`, with the stop price that `stop_market` and `stop_limit` set.
    unfoldable pub rest :
        Text → ℤ → OrderType → Text → Option F → Option F → OrderBook F → Result (ℕ × OrderBook F)
    rest symbol qty order_type tag limit_price stop_price b =
        if not b.allow_orders
        then refuse_warmup symbol qty order_type tag b
        else (new_ticket symbol qty order_type tag limit_price stop_price b >>= λ (id, b').
            rest_new id b')

    unfoldable pub limit : Text → ℤ → F → Text → OrderBook F → Result (ℕ × OrderBook F)
    limit symbol qty price tag b = rest symbol qty OrderType.limit tag (some (round2 price)) none b

    unfoldable pub stop_market : Text → ℤ → F → Text → OrderBook F → Result (ℕ × OrderBook F)
    stop_market symbol qty price tag b =
        rest symbol qty OrderType.stop_market tag none (some (round2 price)) b

    unfoldable pub stop_limit : Text → ℤ → F → F → Text → OrderBook F → Result (ℕ × OrderBook F)
    stop_limit symbol qty stop price tag b =
        rest symbol qty OrderType.stop_limit tag (some (round2 price)) (some (round2 stop)) b

    unfoldable pub market_on_open : Text → ℤ → Text → OrderBook F → Result (ℕ × OrderBook F)
    market_on_open symbol qty tag b = rest symbol qty OrderType.market_on_open tag none none b

    -- Too late for this session's close, and not yet past it.
    unfoldable pub is_late : OrderBook F → Bool
    is_late b =
        let (day, ms) = b.clock in
        let close_ms = env.close_time_ms day in
        ltb ms close_ms && ltb (close_ms - ms) moc_submission_buffer_ms

    unfoldable pub refuse_late : Text → ℤ → Text → OrderBook F → Result (ℕ × OrderBook F)
    refuse_late symbol qty tag b = do
      (id, b1) ← new_ticket symbol qty OrderType.market_on_close tag none none b
      b2 ← reject env id moc_buffer_message (refuse moc_buffer_message b1)
      ok (id, b2)

    unfoldable pub market_on_close : Text → ℤ → Text → OrderBook F → Result (ℕ × OrderBook F)
    market_on_close symbol qty tag b =
        let resting = rest symbol qty OrderType.market_on_close tag none none b in
        if b.daily_conversion && b.allow_orders
        then (if not (priced symbol b)
            then refuse_unpriced symbol qty OrderType.market_on_close tag b
            else if is_late b
            then refuse_late symbol qty tag b
            else resting)
        else resting

    unfoldable pub market_now : Text → ℤ → F → Text → OrderBook F → Result (ℕ × OrderBook F)
    market_now symbol qty price tag b = do
      (id, b1) ← new_ticket symbol qty OrderType.market tag none none b
      t ← ticket id b1
      if b.carried
          then rest_new id b1
          else (fill env id price (env.slippage t.symbol t) b1 >>= λ (_, b2). ok (id, b2))

    unfoldable pub market : Text → ℤ → F → Text → OrderBook F → Result (ℕ × OrderBook F)
    market symbol qty price tag b =
        let (day, ms) = b.clock in
        let close_ms = env.close_time_ms day in
        if not b.allow_orders
        then refuse_warmup symbol qty OrderType.market tag b
        else if b.daily_conversion && not (priced symbol b)
        then refuse_unpriced symbol qty OrderType.market tag b
        else if b.after_close_to_moo && not b.carried
        then (if leb close_ms ms
            then rest symbol qty OrderType.market_on_open tag none none b
            else if b.daily_conversion
            then rest symbol qty (converted close_ms ms) tag none none
                (notice daily_conversion_notice b)
            else market_now symbol qty price tag b)
        else market_now symbol qty price tag b

    unfoldable pub trailing_stop :
        Text → ℤ → F → Bool → Text → OrderBook F → Result (ℕ × OrderBook F)
    trailing_stop symbol qty amount as_percentage tag b = do
      (id, b1) ← rest symbol qty OrderType.trailing_stop tag none none b
      t ← ticket id b1
      let trailed = record t {
        trailing_amount = some amount;
        trailing_as_percentage = as_percentage;
        stop_price = none;
      }
      ok (id, if is_open t then put id trailed b1 else b1)

    unfoldable pub limit_if_touched :
        Text → ℤ → F → F → Text → OrderBook F → Result (ℕ × OrderBook F)
    limit_if_touched symbol qty trigger price tag b = do
      (id, b1) ← rest symbol qty OrderType.limit_if_touched tag (some (round2 price)) none b
      t ← ticket id b1
      ok (id, if is_open t then put id (record t { stop_price = some (round2 trigger) }) b1 else b1)

    unfoldable pub cancel : ℕ → OrderBook F → Result (OrderBook F)
    cancel id b = do
      t ← ticket id b
      if not (is_open t)
          then ok b
          else emit env id canceled nought (pos 0) []
              (close_ticket id (record t { status = canceled }) (log_order t (codes "canceled") b))
