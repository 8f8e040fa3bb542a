-- ===== src/Sleeve/Tests.antt =====
-- dqengine/runtime/core/portfolio.py: a sleeve that buys, and then sells part.
use deployquant.Prelude.{ℕ, ◌*◌, true, none, some, List, [], ◌∷◌, ◌≡◌, refl, if◌then◌else◌}
use deployquant.Prelude.Eq.{eq_nat, eq_list}
use deployquant.Prelude.Int.{ℤ, pos, negsuc, ◌+ℤ◌, is_pos, is_zero}
use deployquant.Prelude.Text.{Text, codes}
use deployquant.Prelude.Float.{Fixed, fixed_float}
use deployquant.Prelude.Dict.{lookup}
use deployquant.Sleeve.Defs.{
  Sleeve, Fill, last_fill, new_sleeve, apply_fill, position, next_cost, book_fill, get_entry_price,
}
use deployquant.Sleeve.Basis
use deployquant.Sleeve.Basis.{apply_fill-IsValid, new_sleeve-IsValid}
use deployquant.Sleeve.Positions.{apply_all, Replays, apply_all-Replays, apply_fill-entry_price}

abbrev spy : Text
spy = codes "SPY"

abbrev spy_fill : ℤ → ℕ → Fill Fixed
spy_fill n dollars = record {
  day = 3;
  time_ms = 500;
  symbol = spy;
  qty = n;
  price = pos (dollars * 10000);
  tag = [];
  fees = pos 0;
  model_price = none;
  confirmed = true;
  kind = codes "market";
}

abbrev empty_sleeve : Sleeve Fixed
empty_sleeve = new_sleeve (pos 1_000_000_000) (pos 10000) last_fill

empty-IsValid : Basis.IsValid empty_sleeve
empty-IsValid = new_sleeve-IsValid (pos 1_000_000_000) (pos 10000) last_fill

abbrev long_sleeve : Sleeve Fixed
long_sleeve = book_fill empty_sleeve (spy_fill (pos 10) 100) (some (pos 1_000_000))

bought : apply_fill empty_sleeve (spy_fill (pos 10) 100) ≡ some long_sleeve
unfolding apply_fill next_cost position new_sleeve lookup
bought = refl

apply_fill-IsValid_example :
    (s' : Sleeve Fixed) × (apply_fill empty_sleeve (spy_fill (pos 10) 100) ≡ some s')
    × Basis.IsValid s'
apply_fill-IsValid_example = apply_fill-IsValid empty_sleeve (spy_fill (pos 10) 100) empty-IsValid

abbrev two_fills : List (Fill Fixed)
two_fills = spy_fill (pos 10) 100 ∷ spy_fill (negsuc 3) 110 ∷ []

apply_all-Replays_example :
    (s' : Sleeve Fixed) × (apply_all empty_sleeve two_fills ≡ some s')
    × Replays empty_sleeve two_fills s'
apply_all-Replays_example = apply_all-Replays empty_sleeve two_fills empty-IsValid

in_last_fill_mode : empty_sleeve.entry_price_mode ≡ last_fill
unfolding new_sleeve
in_last_fill_mode = refl

apply_fill-entry_price_example : get_entry_price long_sleeve spy ≡ (
    if is_zero (position empty_sleeve spy +ℤ pos 10)
    then none
    else if is_pos (pos 10)
    then some (pos 1_000_000)
    else get_entry_price empty_sleeve spy)
apply_fill-entry_price_example =
    apply_fill-entry_price empty_sleeve (spy_fill (pos 10) 100) in_last_fill_mode bought
