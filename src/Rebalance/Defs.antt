-- ===== src/Rebalance/Defs.antt =====
-- dqengine/runtime/allocation.py: Allocator.rebalance. The algorithm that it drives is a record of
-- what it calls. A set is walked in the order of the sleeve's dictionary and then the other's, where
-- Python's order is not determined: it decides the order of equal deltas.
use deployquant.Prelude.{Bool, not, ◌&&◌, none, some, List, [], ◌∷◌, ◌++◌, map, keep, if◌then◌else◌}
use deployquant.Prelude.Eq.{eq_nat, eq_list}
use deployquant.Prelude.Int.{ℤ, pos, ◌-ℤ◌, ltb_ℤ, is_zero}
use deployquant.Prelude.Text.{Text}
use deployquant.Prelude.Float.{Float, abs_of, nonzero}
use deployquant.Prelude.Dict.{Dict, lookup, get, has_key, insert}
use deployquant.Sleeve.{Sleeve, equity}

-- An order: a symbol and its change of quantity.
abbrev pub Delta : Type 0
Delta = Text × ℤ

-- `market_order` also answers whether the ticket is filled.
pub record Algorithm {ℓ κ} (S : Type ℓ) (F : Type κ) : Type (ℓ ⊔ κ) where
  pub cancel_open : S → S
  pub target_weights : S → S × Dict Text F
  pub sleeve_of : S → Sleeve F
  pub last_price_of : S → Dict Text F
  pub market_order : Text → ℤ → S → S × Bool
  pub on_flat : Text → S → S

-- `set(d) | set(e)`
unfoldable pub union_keys {ℓ κ} : {V : Type ℓ} {W : Type κ} → Dict Text V → Dict Text W → List Text
union_keys d e = map (λ kv. kv.0) d ++ keep (λ k. not (has_key k d)) (map (λ kv. kv.0) e)

-- Ascending deltas, equal ones in the order they came.
unfoldable pub insert_delta : Delta → List Delta → List Delta
insert_delta x [] = x ∷ []
insert_delta x (y ∷ ys) = if ltb_ℤ x.1 y.1 then x ∷ y ∷ ys else y ∷ insert_delta x ys

unfoldable pub sort_deltas : List Delta → List Delta → List Delta
sort_deltas ordered [] = ordered
sort_deltas ordered (x ∷ xs) = sort_deltas (insert_delta x ordered) xs

-- The change of a symbol's quantity.
abbrev pub delta_of : Dict Text ℤ → Dict Text ℤ → Text → ℤ
delta_of qty want sym = get sym want (pos 0) -ℤ get sym qty (pos 0)

module _ {ℓ} {F : Type ℓ} where
  unfoldable pub deltas_of : Dict Text ℤ → Dict Text ℤ → Dict Text F → List Text → List Delta
  deltas_of qty want prices [] = []
  deltas_of qty want prices (sym ∷ syms) =
      let rest = deltas_of qty want prices syms in
      let dq = delta_of qty want sym in
      if has_key sym prices && not (is_zero dq) then (sym, dq) ∷ rest else rest

  unfoldable pub orders_of : Dict Text ℤ → Dict Text ℤ → Dict Text F → List Delta
  orders_of qty want prices = sort_deltas [] (deltas_of qty want prices (union_keys qty want))

module _ {ℓ} {F : Type ℓ} ⦃f : Float F⦄ where
  open f use {lit, times, over, lt, trunc}

  -- The prices that are known and not 0.
  unfoldable pub marked_prices : Dict Text F → List Text → Dict Text F → Dict Text F
  marked_prices last [] prices = prices
  marked_prices last (sym ∷ syms) prices = elim (lookup sym last) [
    | none ↦ marked_prices last syms prices
    | some px ↦ marked_prices last syms (if nonzero px then insert sym px prices else prices)
  ]

  -- The shares wanted; a weight under a thousandth, or of no price, wants none.
  unfoldable pub want_shares : F → Dict Text F → Dict Text F → Dict Text ℤ → Dict Text ℤ
  want_shares total prices [] want = want
  want_shares total prices ((sym, w) ∷ weights) want = elim (lookup sym prices) [
    | none ↦ want_shares total prices weights want
    | some px ↦ want_shares total prices weights (
        if lt (abs_of w) (lit (pos 1) 3)
        then want
        else insert sym (trunc (over (times total w) px)) want)
  ]

  module _ {κ} {S : Type κ} (algo : Algorithm S F) where
    -- The order's ticket is filled and its symbol is flat.
    unfoldable pub after_order : Text → S × Bool → S
    after_order sym r =
        if r.1 && is_zero (get sym (algo.sleeve_of r.0).qty (pos 0))
        then algo.on_flat sym r.0
        else r.0

    unfoldable pub place : List Delta → S → S
    place [] s = s
    place ((sym, dq) ∷ orders) s = place orders (after_order sym (algo.market_order sym dq s))

    -- The orders that are placed, and the state after them.
    unfoldable pub rebalance : S → S × List Delta
    rebalance s =
        let weighed = algo.target_weights (algo.cancel_open s) in
        let now = weighed.0 in
        let sleeve = algo.sleeve_of now in
        let prices = marked_prices (algo.last_price_of now) (union_keys sleeve.qty weighed.1) [] in
        let want = want_shares (equity sleeve prices) prices weighed.1 [] in
        let orders = orders_of sleeve.qty want prices in (place orders now, orders)
