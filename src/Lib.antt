-- ===== src/Lib.antt =====
-- A verification library for the trading engine's money path: what an order fills at, which broker
-- executions it is given, what the sleeve records, how tickets live, how second bars are built, when
-- the live book may submit directly, how rule expressions, indicators and weight trees evaluate, and
-- the executor's rules on order ids, prices, kept shares and retries.
--
-- The parts and how they interact. A strategy calls the order book. The book asks the fill-price
-- rules whether a bar fills a resting order, asks the execution ledger what the broker did, and
-- records fills in the sleeve. A live run builds its second bars from trades, and submits orders
-- through the live book, which mirrors the broker. Block strategies decide by rule expressions, which
-- read the daily indicators, and allocate by weight trees. The executor names the orders that it
-- rests with ids that remember their levels, and leaves the owner's kept shares alone.
--
-- Files, and the code that they model:
--   Prelude    shared types: integers and text over native numbers, dictionaries in insertion order,
--              and floats as an interface with the laws of IEEE comparisons. Fixed-point numbers
--              meet the laws and stand in for floats in tests.
--   Fills      dqengine/runtime/core/fills.py
--   Ledger     dqengine/runtime/core/ledger.py: ExecutionLedger and LiveCappedLedger. A method returns
--              the ledger after the call and the answer; `none` is Python's None, `some []` is [].
--   Sleeve     dqengine/runtime/core/portfolio.py: Sleeve.apply_fill and the valuations. `none` is a
--              KeyError.
--   Identity   dqengine/runtime/identity.py
--   Orders     dqengine/runtime/orders.py: Defs the data and helpers, Fill `_fill` and `_pump`, Entry the
--              methods that place and cancel, Resting the bars, session edges and updates. Store,
--              Accounts and Keeps state the invariant, and the files named ...Keeps prove that each
--              method keeps it. Run has sequences of calls.
--   Seconds    dqengine/live/secbars.py
--   LiveBook   dqengine/live/book.py
--   Exprs      dqengine/runtime/core/exprs.py: `none` is an exception, and the trace is passed along.
--   Cids       dqengine/live/executor.py: client order ids. Base36 the encoding, Defs the prefixes and
--              tokens, Tokens and Remembers what the search for a token finds.
--   Indicators dqengine/runtime/core/indicators.py: Series and Plain the formulas, Nodes the expressions
--              as of a past session, History `_compute`, Engine the cache. Frozen, FrozenHistory, Cache
--              and Answers lead to Fresh.
--   Executor   dqengine/live/executor.py: Gateway session times and retries, Prices rails and price
--              checks, Kept the owner's shares.
--   Consolidator  dqengine/runtime/consolidators.py, with its bar from bars.py. Times and spans are in
--              microseconds. Grouping has the runs of a session, and Sessions its exceptions.
--   Schedule   dqengine/runtime/scheduling.py
--   Rebalance  dqengine/runtime/allocation.py: Allocator.rebalance. Once: no symbol has two orders.
--   Weights    dqengine/runtime/core/weights.py: Metrics, Tree the nodes and the blends, Engine `evaluate`
--
-- Correspondence. Python objects shared by reference are entries of a store: a ticket is its id in
-- `tickets`. State is passed and returned. A callback that reads (the clock, the margin provider) is
-- its present value: commands of Run change the clock's, and none changes the margin provider's. The
-- handler of order events is a function on the book, and may call the book again. An exception is an
-- `err`. Days and times of day are natural numbers. Upper and lower case are ASCII. A message of
-- `unfilled_log` is kept as its day and ticket. `int` of a float raises on NaN and infinity in
-- `update`; in the other places a value that is NaN or infinite is outside the model.
--
-- Fuel: the decimal and the base-36 digits of a number use it, with one more than the number, and a
-- number has fewer digits than that. The search for the next session day uses it too, and is given
-- more than the days until a session. Every other definition recurs on a list, a tree or a number.
--
-- Parameters: float arithmetic, floor division, sums, square roots and squares, zlib.crc32, the digits
-- of a uuid, the event handler, the fee and slippage models, and the calendar. Hypotheses on them:
-- comparisons obey the order's laws; a price of n cents rounds to n cents; a period's seconds are not
-- 0; the handler keeps books valid, or does nothing, where a theorem says so.
--
-- Not modelled: the backtester's loop, the streaming indicators, code generation, the executor's sweep,
-- storage, feeds and broker adapters, which are services, I/O or float formulas, the parsing of
-- timestamps, and negative windows of indicators.
pub mod Prelude
pub mod Fills
pub mod Ledger
pub mod Sleeve
pub mod Identity
pub mod Orders
pub mod Seconds
pub mod LiveBook
pub mod Exprs
pub mod Cids
pub mod Indicators
pub mod Executor
pub mod Consolidator
pub mod Schedule
pub mod Weights
pub mod Rebalance
