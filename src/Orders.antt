-- ===== src/Orders.antt =====
-- dqengine/runtime/orders.py: the order book. A ticket is an entry of the store `tickets`, by its id,
-- and what Python passes by reference is passed by id. Each method takes the book and returns it
-- with the result, or raises.
pub mod Defs
pub mod Fill
pub mod Entry
pub mod Resting
pub mod Store
pub mod Accounts
pub mod Keeps
pub mod WriteKeeps
pub mod FillKeeps
pub mod EntryKeeps
pub mod MethodKeeps
pub mod RestingKeeps
pub mod LoopKeeps
pub mod FillReturns
pub mod Behaviour
pub mod CancelAll
pub mod Run
mod Tests
