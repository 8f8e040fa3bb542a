-- ===== src/Orders/Tests.antt =====
-- dqengine/runtime/orders.py: a book under a handler that does nothing.
use deployquant.Prelude.{ℕ, ◌*◌, true, false, none, some, List, [], ◌∷◌, ◌≡◌, refl, if◌then◌else◌}
use deployquant.Prelude.Eq.{eq_nat, eq_list}
use deployquant.Prelude.Int.{pos, negsuc, is_pos}
use deployquant.Prelude.Text.{Text, codes}
use deployquant.Prelude.Float.{Fixed, fixed_float, Fixed-IsOrdered, ◌≼◌}
use deployquant.Prelude.Dict.{lookup, insert}
use deployquant.Sleeve.{last_fill, new_sleeve}
use deployquant.Orders.Defs.{
  OrderType, OrderTicket, OrderBook, Env, ok, submitted, append_ticket, is_open, fresh_ticket,
}
use deployquant.Orders.Entry.{submit}
use deployquant.Orders.Fill.{fill}
use deployquant.Orders.Resting.{Bar, ratchet, cancel_open_orders}
use deployquant.Orders.Store.{is_final}
use deployquant.Orders.Keeps.{IsValid, After, append_ticket-After, Ends, Holds}
use deployquant.Orders.WriteKeeps.{Fills}
use deployquant.Orders.FillReturns.{IsQuiet, returns, quiet-IsPolite, fill-returns}
use deployquant.Orders.Behaviour.{ratchet-protects}
use deployquant.Orders.EntryKeeps.{submit-After}
use deployquant.Orders.CancelAll.{cancel_open_orders-empties}
use deployquant.Orders.Run.{
  Command, place_market, place_stop_market, see_bar, withdraw_open, new_book, perform, run,
  perform-After, run-new_book, new_book-IsValid,
}

abbrev dollars : ℕ → Fixed
dollars n = pos (n * 10000)

abbrev spy : Text
spy = codes "SPY"

abbrev env : Env Fixed
env = record {
  events_out = λ e b. ok b;
  fee = λ symbol. pos 0;
  slippage = λ symbol t. pos 0;
  close_time_ms = λ day. 57_600_000;
}

env-IsQuiet : IsQuiet env
env-IsQuiet = record { silent = λ e b. refl }

abbrev start : OrderBook Fixed
start = new_book (new_sleeve (dollars 100_000) (dollars 1) last_fill) (3, 36_000_000) [] none

start-IsValid : IsValid start
start-IsValid =
    new_book-IsValid env (quiet-IsPolite env env-IsQuiet) (dollars 100_000) (dollars 1) last_fill
      (3, 36_000_000) [] none

abbrev bar : Bar Fixed
bar = record { o = dollars 100; h = dollars 101; l = dollars 94; c = dollars 96 }

-- Buys ten, rests a stop under them, sees it hit, and withdraws the rest.
abbrev commands : List (Command Fixed)
commands =
    place_market spy (pos 10) (dollars 100) []
    ∷ place_stop_market spy (negsuc 9) (dollars 95) []
    ∷ see_bar spy bar none
    ∷ withdraw_open none
    ∷ []

run-new_book_example : Ends IsValid (run env commands start)
run-new_book_example =
    run-new_book env (quiet-IsPolite env env-IsQuiet) commands (dollars 100_000) (dollars 1)
      last_fill (3, 36_000_000) [] none

perform-After_example :
    Ends (After start) (perform env (place_market spy (pos 10) (dollars 100) []) start)
perform-After_example =
    perform-After env (quiet-IsPolite env env-IsQuiet) (place_market spy (pos 10) (dollars 100) [])
      start start-IsValid

abbrev trailing : OrderTicket Fixed
trailing = record {
  symbol = spy;
  quantity = negsuc 9;
  order_type = OrderType.trailing_stop;
  tag = [];
  limit_price = none;
  stop_price = some (dollars 95);
  status = submitted;
  average_fill_price = pos 0;
  quantity_filled = pos 0;
  created = (3, 36_000_000);
  triggered = false;
  trailing_amount = some (pos 500);
  trailing_as_percentage = true;
}

ratchet-protects_example :
    (if is_pos (negsuc 9) then ratchet trailing (pos 500) bar else dollars 95)
    ≼ (if is_pos (negsuc 9) then dollars 95 else ratchet trailing (pos 500) bar)
ratchet-protects_example =
    ratchet-protects Fixed-IsOrdered trailing (pos 500) bar (dollars 95) refl refl

-- The ticket of a market order that has just been made.
abbrev fresh : OrderTicket Fixed
fresh = fresh_ticket spy (pos 10) OrderType.market [] none none (3, 36_000_000)

abbrev with_fresh : OrderBook Fixed
with_fresh = append_ticket fresh start

with_fresh-IsValid : IsValid with_fresh
with_fresh-IsValid =
    (append_ticket-After fresh start-IsValid (unfold is_open fresh_ticket in refl)
      (unfold fresh_ticket in refl)).valid

held : Holds with_fresh 1 fresh
unfolding append_ticket new_book insert lookup
held = refl

unfinished : is_final fresh ≡ false
unfolding is_final fresh_ticket
unfinished = refl

fill-returns_example :
    (returns (fill env 1 (dollars 100) (pos 0) with_fresh) ≡ true)
    × Fills with_fresh (fill env 1 (dollars 100) (pos 0) with_fresh)
fill-returns_example =
    fill-returns env env-IsQuiet with_fresh-IsValid 1 fresh held unfinished (dollars 100) (pos 0)

-- The book with that ticket resting.
abbrev resting : OrderBook Fixed
resting = submit 1 fresh with_fresh

resting-IsValid : IsValid resting
resting-IsValid = (submit-After 1 fresh with_fresh-IsValid held (unfold fresh_ticket in refl)).valid

cancel_open_orders-empties_example :
    (b' : OrderBook Fixed) × (cancel_open_orders env none resting ≡ ok b')
    × (b'.open_ids ≡ [])
    × IsValid b'
cancel_open_orders-empties_example =
    cancel_open_orders-empties env env-IsQuiet resting resting-IsValid
