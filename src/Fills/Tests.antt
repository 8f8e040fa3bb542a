-- ===== src/Fills/Tests.antt =====
-- dqengine/runtime/core/fills.py: the rules on concrete bars.
use deployquant.Prelude.{true, false, ◌≡◌, refl, some, ◌*◌, ℕ}
use deployquant.Prelude.Int.{pos}
use deployquant.Prelude.Float.{Fixed, fixed_float, Fixed-IsOrdered}
use deployquant.Fills.{limit_fill, stop_fill}
use deployquant.Fills.Bounds.{IsBar, NoWorse, Within, limit_fill_price, stop_fill_price}

abbrev dollars : ℕ → Fixed
dollars n = pos (n * 10000)

-- Opens at 100, falls to 95 and rises to 103.
bar : IsBar (dollars 100) (dollars 103) (dollars 95)
bar = record { low_le_open = refl; open_le_high = refl }

limit_test :
    limit_fill true (dollars 100) (dollars 103) (dollars 95) (some (dollars 97)) ≡ some (dollars 97)
unfolding limit_fill
limit_test = refl

stop_test :
    stop_fill false (dollars 100) (dollars 103) (dollars 95) (some (dollars 101))
    ≡ some (dollars 100)
unfolding stop_fill
stop_test = refl

limit_fill_price_example :
    Within (dollars 95) (dollars 103) (dollars 97) × NoWorse true (dollars 97) (dollars 97)
limit_fill_price_example =
    limit_fill_price Fixed-IsOrdered true (dollars 100) (dollars 103) (dollars 95) (dollars 97)
      (dollars 97) bar limit_test

stop_fill_price_example :
    Within (dollars 95) (dollars 103) (dollars 100) × NoWorse false (dollars 100) (dollars 101)
stop_fill_price_example =
    stop_fill_price Fixed-IsOrdered false (dollars 100) (dollars 103) (dollars 95) (dollars 101)
      (dollars 100) bar stop_test
