-- ===== src/Executor/Tests.antt =====
-- dqengine/live/executor.py: a weekend, a venue's times in force, and kept shares.
use deployquant.Prelude.{◌%◌, ◌≡◌, refl, true, none, some, ◌&&◌, [], ◌∷◌, All, ltb, arith}
use deployquant.Prelude.Int.{pos, ◌-ℤ◌, ◌*ℤ◌}
use deployquant.Prelude.Text.{Text, codes}
use deployquant.Prelude.Float.{Fixed, fixed_float, Fixed-IsOrdered, IsNumber, nought}
use deployquant.Prelude.Dict.{Dict, lookup}
use deployquant.Executor.Gateway.{
  Moment, Calendar, is_session_day, next_gateway_retry_time, schedule_rate_retry, attempt,
}
use deployquant.Executor.Prices.{pick_tif}
use deployquant.Executor.Kept.{Holding, kept_now, kept_qty}
use deployquant.Executor.Retry.{IsNextOpening, next_gateway_retry_time-IsNextOpening}
use deployquant.Executor.Tif.{Picked, pick_tif-Picked}
use deployquant.Executor.KeptBounds.{Accounts, Numbers, kept_now-Accounts}

-- Day 0 is a Monday, and day 7 a holiday.
abbrev calendar : Calendar
calendar = record {
  weekday = λ d. d % 7;
  is_market_holiday = λ d. ltb 6 d && ltb d 8;
  close_time_ms = λ d. 57_600_000;
}

-- Friday evening
abbrev friday : Moment
friday = record { day = 4; ms = 70_000_000 }

tuesday : is_session_day calendar 8 ≡ true
unfolding is_session_day
tuesday = refl

next_gateway_retry_time-IsNextOpening_example :
    (r : Moment) × ((next_gateway_retry_time calendar 5 friday ≡ some r)
      × IsNextOpening calendar friday r)
next_gateway_retry_time-IsNextOpening_example =
    next_gateway_retry_time-IsNextOpening calendar 5 friday 3 (omega arith) tuesday

pick_tif-Picked_example :
    Picked
      (codes "ioc" ∷ codes "day" ∷ [])
      (codes "gtc")
      (pick_tif (codes "ioc" ∷ codes "day" ∷ []) (codes "gtc"))
pick_tif-Picked_example = pick_tif-Picked (codes "ioc" ∷ codes "day" ∷ []) (codes "gtc")

-- The account holds 120 shares, the books 50, and the owner kept 100.
abbrev positions : Dict Text Fixed
positions = (codes "SPY", pos 1_200_000) ∷ []

abbrev kept : Dict Text (Holding Fixed)
kept = (codes "SPY", record { kept = pos 1_000_000; booked = pos 500_000 }) ∷ []

kept-Numbers : All (Numbers positions) kept
unfolding Numbers lookup ◌-ℤ◌
kept-Numbers = ((refl, refl), tt)

seventy : kept_now positions kept ≡ (codes "SPY", pos 700_000) ∷ []
unfolding kept_now kept_qty lookup ◌-ℤ◌ ◌*ℤ◌
seventy = refl

zero-IsNumber : IsNumber {F = Fixed} nought
unfolding ◌*ℤ◌
zero-IsNumber = refl

kept_now-Accounts_example : All (Accounts positions kept) (kept_now positions kept)
kept_now-Accounts_example =
    kept_now-Accounts Fixed-IsOrdered positions kept zero-IsNumber kept-Numbers

-- The ladder has eight delays.
used_up : schedule_rate_retry true (codes "c") ((codes "c", 8) ∷ []) ≡ ((codes "c", 8) ∷ [], none)
unfolding schedule_rate_retry attempt lookup
used_up = refl
