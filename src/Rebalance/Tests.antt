-- ===== src/Rebalance/Tests.antt =====
-- dqengine/runtime/allocation.py: one position sold, another bought.
use deployquant.Prelude.{◌≡◌, refl, true, false, [], ◌∷◌, All, Among, here, there}
use deployquant.Prelude.Eq.{eq_nat, eq_list}
use deployquant.Prelude.Int.{ℤ, pos, negsuc, ◌-ℤ◌, is_zero}
use deployquant.Prelude.Text.{Text, codes}
use deployquant.Prelude.Float.{Fixed}
use deployquant.Prelude.Dict.{Dict, lookup, has_key, HasUniqueKeys}
use deployquant.Rebalance.Defs.{
  union_keys, insert_delta, sort_deltas, delta_of, deltas_of, orders_of,
}
use deployquant.Rebalance.Once.{IsOnce, delta_symbol}
use deployquant.Rebalance.Targets.{IsAscending, Reaches, orders_of-Reaches}

abbrev qty : Dict Text ℤ
qty = (codes "A", pos 10) ∷ (codes "B", pos 5) ∷ []

abbrev want : Dict Text ℤ
want = (codes "C", pos 7) ∷ (codes "B", pos 2) ∷ []

abbrev prices : Dict Text Fixed
prices = (codes "A", pos 10_000) ∷ (codes "B", pos 20_000) ∷ (codes "C", pos 30_000) ∷ []

sells_first :
    orders_of qty want prices
    ≡ (codes "A", negsuc 9) ∷ (codes "B", negsuc 2) ∷ (codes "C", pos 7) ∷ []
unfolding orders_of sort_deltas insert_delta deltas_of union_keys lookup ◌-ℤ◌
sells_first = refl

qty-HasUniqueKeys : HasUniqueKeys qty
unfolding lookup
qty-HasUniqueKeys = (refl, (refl, tt))

want-HasUniqueKeys : HasUniqueKeys want
unfolding lookup
want-HasUniqueKeys = (refl, (refl, tt))

listed : Among (codes "C") (union_keys qty want)
unfolding union_keys lookup
listed = there _ _ (there _ _ (here _ _ refl))

has_price : has_key (codes "C") prices ≡ true
unfolding lookup
has_price = refl

moves : is_zero (delta_of qty want (codes "C")) ≡ false
unfolding lookup ◌-ℤ◌
moves = refl

orders_of-Reaches_example :
    IsAscending (orders_of qty want prices)
    × IsOnce delta_symbol (orders_of qty want prices)
    × (All (Reaches qty want prices) (orders_of qty want prices)
        × Among (codes "C", delta_of qty want (codes "C")) (orders_of qty want prices))
orders_of-Reaches_example =
    orders_of-Reaches qty want prices (codes "C") qty-HasUniqueKeys want-HasUniqueKeys listed
      has_price moves
