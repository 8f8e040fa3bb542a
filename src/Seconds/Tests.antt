-- ===== src/Seconds/Tests.antt =====
-- dqengine/live/secbars.py: a stream of four trades in two seconds.
use deployquant.Prelude.{ℕ, ◌+◌, List, [], ◌∷◌, ◌++◌, ◌≡◌, arith}
use deployquant.Prelude.Int.{pos}
use deployquant.Prelude.Text.{codes}
use deployquant.Prelude.Float.{Fixed, fixed_float}
use deployquant.Seconds.Defs.{Trade, new_consolidator, aggregate_trades_to_seconds, session_open_ms}
use deployquant.Seconds.Streams.{Feed, trade, flush, trades_of, IsTimed, tagged_bars, stream}
use deployquant.Seconds.Equivalence.{stream-eq-aggregate}

abbrev at_ms : ℕ → ℕ → Trade Fixed
at_ms ms px = record { ms = session_open_ms + ms; px = pos px; size = pos 10_000; conditions = [] }

abbrev events : List (Feed Fixed)
events =
    trade (at_ms 100 1_000_000)
    ∷ trade (at_ms 900 990_000)
    ∷ flush (session_open_ms + 950)
    ∷ trade (at_ms 1200 1_010_000)
    ∷ flush (session_open_ms + 2500)
    ∷ trade (at_ms 2600 1_020_000)
    ∷ []

events-IsTimed : IsTimed 0 events
events-IsTimed =
    (omega arith, (omega arith, (omega arith, (omega arith, (omega arith, (omega arith, tt))))))

stream-eq-aggregate_example :
    (stream (codes "SPY") (events ++ flush 57_601_000 ∷ []) (new_consolidator 57_600_000) []).1
    ≡ tagged_bars (codes "SPY") (aggregate_trades_to_seconds (trades_of events) 57_600_000)
stream-eq-aggregate_example =
    stream-eq-aggregate (codes "SPY") 57_600_000 57_601_000 events events-IsTimed (omega arith)
