-- ===== src/Orders/Behaviour.antt =====
-- dqengine/runtime/orders.py: conversion to the close, and the trailing stop.
use deployquant.Prelude.{◌<◌, some, ◌≡◌, inl, inr, arith, if◌then◌else◌, Bool-cases}
use deployquant.Prelude.Eq.{eq_nat, eq_list}
use deployquant.Prelude.Int.{is_pos}
use deployquant.Prelude.Float.{Float, IsOrdered, IsNumber, ◌≼◌, min_of, max_of}
use deployquant.Orders.Defs.{OrderType, OrderTicket, OrderBook, Env}
use deployquant.Orders.Entry.{converted, is_late}
use deployquant.Orders.Resting.{Bar, new_stop, ratchet}

module _ {ℓ} {F : Type ℓ} ⦃f : Float F⦄ where
  min_of-le : (ordered : IsOrdered F) (a b : F) → IsNumber a → min_of a b ≼ a
  min_of-le ordered a b h = elim (Bool-cases (f.lt b a)) [
    | inl below ↦ rw below (ordered.lt_le b a below)
    | inr above ↦ rw above h
  ]

  le-max_of : (ordered : IsOrdered F) (a b : F) → IsNumber a → a ≼ max_of a b
  le-max_of ordered a b h = elim (Bool-cases (f.lt a b)) [
    | inl above ↦ rw above (ordered.lt_le a b above)
    | inr below ↦ rw below h
  ]

  ratchet-from :
      (t : OrderTicket F) (amt : F) (bar : Bar F) (stop : F)
      → t.stop_price ≡ some stop
      → ratchet t amt bar ≡ (
          if is_pos t.quantity
          then min_of stop (new_stop t amt bar)
          else max_of stop (new_stop t amt bar))
  unfolding ratchet
  ratchet-from t amt bar stop e = ground (arith, e)

  -- A trailing stop only moves to protect the position: for a buy it never rises, and for a sell it
  -- never falls, whatever the trailing amount. The stop it had is a number, and comparisons are
  -- those of floats.
  pub ratchet-protects :
      (ordered : IsOrdered F) (t : OrderTicket F) (amt : F) (bar : Bar F) (stop : F)
      → t.stop_price ≡ some stop
      → IsNumber stop
      → (if is_pos t.quantity then ratchet t amt bar else stop)
        ≼ (if is_pos t.quantity then stop else ratchet t amt bar)
  ratchet-protects ordered t amt bar stop e h =
      rw (ratchet-from t amt bar stop e) (elim (Bool-cases (is_pos t.quantity)) [
        | inl buy ↦ rw buy (min_of-le ordered stop (new_stop t amt bar) h)
        | inr sell ↦ rw sell (le-max_of ordered stop (new_stop t amt bar) h)
      ])

  -- What the order that `market` rests in place of a daily strategy's market order is: at the close,
  -- exactly if `market_on_close` itself would not refuse it there as late, and else at the next open.
  -- The session has not closed.
  pub converted-is_late :
      (env : Env F) (b : OrderBook F)
      → b.clock.1 < env.close_time_ms b.clock.0
      → converted (env.close_time_ms b.clock.0) b.clock.1
        ≡ (if is_late env b then OrderType.market_on_open else OrderType.market_on_close)
  unfolding converted is_late
  converted-is_late env b h = ground arith
