-- ===== src/Consolidator/Tests.antt =====
-- dqengine/runtime/consolidators.py: three minutes in two buckets, and days in one.
use deployquant.Prelude.{ℕ, ◌*◌, ◌-◌, ◌≡◌, refl, some, none, List, [], ◌∷◌}
use deployquant.Prelude.Int.{pos, ◌*ℤ◌}
use deployquant.Prelude.Text.{codes}
use deployquant.Prelude.Float.{Fixed, fixed_float, quot}
use deployquant.Consolidator.Defs.{
  TradeBar, Consolidator, timedelta, consolidator_of, span_of, same_bucket, total_seconds,
  bucket_index, span_bucket, merge,
}
use deployquant.Consolidator.Grouping.{runs_of, add_to_runs, merge_all}
use deployquant.Consolidator.Sessions.{
  feed_sessions, session_bars, IsTimed, feed_sessions-session_bars,
}

-- The minute bar of a day that ends at minute m.
abbrev minute : ℕ → ℕ → ℕ → TradeBar Fixed
minute d m px = record {
  symbol = codes "SPY";
  time = record { date = d; us = 60_000_000 * (m - 1) };
  end_time = record { date = d; us = 60_000_000 * m };
  open_price = pos px;
  high = pos px;
  low = pos px;
  close = pos px;
  volume = pos 10_000;
}

abbrev five_minutes : Consolidator Fixed
five_minutes = record {
  span = pos 300_000_000;
  consolidated = none;
  working_bar = none;
  bucket = none;
  emitted = [];
}

abbrev days : List (List (TradeBar Fixed))
days = (minute 3 571 100 ∷ minute 3 574 102 ∷ minute 3 575 101 ∷ []) ∷ (minute 4 571 99 ∷ []) ∷ []

created : consolidator_of (timedelta (pos 300_000_000)) ≡ some five_minutes
unfolding consolidator_of span_of
created = refl

timed : IsTimed five_minutes
unfolding total_seconds quot ◌*ℤ◌
timed = refl

feed_sessions-session_bars_example :
    (end : Consolidator Fixed) × (feed_sessions days five_minutes ≡ some end)
    × (end.emitted ≡ session_bars (pos 300_000_000) days)
feed_sessions-session_bars_example =
    feed_sessions-session_bars (timedelta (pos 300_000_000)) five_minutes days created timed

-- A span of no time divides by zero.
no_span : span_bucket (pos 0) (minute 3 571 100) ≡ none
unfolding span_bucket total_seconds quot ◌*ℤ◌
no_span = refl

three_bars :
    session_bars (pos 300_000_000) days
    ≡ merge (minute 3 571 100) (minute 3 574 102) ∷ minute 3 575 101 ∷ minute 4 571 99 ∷ []
unfolding session_bars runs_of add_to_runs merge_all same_bucket bucket_index total_seconds quot
    ◌*ℤ◌ merge
three_bars = refl

-- Two days without a scan between them are one bucket of a span of a day.
one_bucket :
    runs_of (pos 86_400_000_000) (minute 3 571 100 ∷ minute 4 571 99 ∷ [])
    ≡ (minute 3 571 100, minute 4 571 99 ∷ []) ∷ []
unfolding runs_of add_to_runs same_bucket bucket_index
one_bucket = refl
