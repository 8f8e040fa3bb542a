-- ===== src/Indicators/Tests.antt =====
-- dqengine/runtime/core/indicators.py: a run with a cached value.
use deployquant.Prelude.{◌≡◌, refl, false, none, some, List, [], ◌∷◌, arith}
use deployquant.Prelude.Int.{ℤ, pos, ◌+ℤ◌, ◌-ℤ◌, ◌*ℤ◌}
use deployquant.Prelude.Text.{Text, codes}
use deployquant.Prelude.Eq.{Eq, eq_of_discrete}
use deployquant.Prelude.Dict.{Dict, lookup, insert}
use native.Mathlib.Decide.{ℕ_discrete}
use deployquant.Prelude.Float.{divide, Fixed, fixed_float, Fixed-IsOrdered, quot}
use deployquant.Exprs.{number}
use deployquant.Indicators.Series.{
  fixed_maths, and_then, DailySeries, on_session_close, new_returns, item_back, item, mean, last_n,
}
use deployquant.Indicators.Plain.{
  IndName, sma, highest, lowest, by_param, bound_to, IndNode, compute_plain, count_arg, arg,
  natural, windowed,
}
use deployquant.Indicators.Nodes.{Inner, other_inner}
use deployquant.Indicators.History.{compute_as}
use deployquant.Indicators.Engine.{
  Key, Engine, new_engine, close_session, value, value_of, series_value, cached_value, freeze_key,
  freeze_node, freeze_arg, freeze_inner, fresh_hit, answer, remember,
}
use deployquant.Indicators.Fresh.{Command, closing, asking, run, step, value-run}
use deployquant.Indicators.Answers.{fresh_value_of}
use deployquant.Indicators.Extremes.{IsMax, IsMin, highest-lowest}

ℤ-discrete : Discrete ℤ
ℤ-discrete = hlevel (ℕ_discrete)

IndName-discrete : Discrete IndName
IndName-discrete = hlevel

Text-discrete : Discrete Text
Text-discrete = hlevel (ℕ_discrete)

IndNode-discrete : Discrete (IndNode ℤ)
IndNode-discrete = hlevel (ℕ_discrete, ℤ-discrete, IndName-discrete)

Inner-discrete : Discrete (Inner ℤ)
Inner-discrete = hlevel (ℕ_discrete, ℤ-discrete, IndNode-discrete)

Key-discrete : Discrete (Key ℤ)
Key-discrete = hlevel (Text-discrete, IndNode-discrete, Inner-discrete)

instance abbrev eq_key : Eq (Key Fixed)
eq_key = eq_of_discrete Key-discrete

abbrev spy : Text
spy = codes "SPY"

-- The average of the last `n` closes.
abbrev average : IndNode Fixed
average = record {
  name = sma;
  window = some (by_param (codes "n"));
  lookback = none;
  min_obs = none;
  wilder = false;
  field = none;
  symbol = none;
  include_today = false;
}

abbrev params : Dict Text Fixed
params = (codes "n", pos 20_000) ∷ []

abbrev commands : List (Command Fixed)
commands =
    closing spy (pos 100_000) none none
    ∷ closing spy (pos 120_000) none none
    ∷ asking average other_inner spy params
    ∷ closing spy (pos 140_000) none none
    ∷ []

abbrev day_three : DailySeries Fixed
day_three = record {
  closes = pos 100_000 ∷ pos 120_000 ∷ pos 140_000 ∷ [];
  returns = pos 2_000 ∷ pos 1_666 ∷ [];
  highs = pos 100_000 ∷ pos 120_000 ∷ pos 140_000 ∷ [];
  lows = pos 100_000 ∷ pos 120_000 ∷ pos 140_000 ∷ [];
}

-- The average of the second day stands in the cache.
abbrev after_commands : Engine Fixed
after_commands = record {
  daily = (spy, day_three) ∷ [];
  last_price = [];
  prior_close_of = [];
  cache =
      (
        (spy, (record average { window = some (bound_to (codes "n") (pos 20_000)) }, other_inner)),
        (2, number (pos 110_000)),
      )
      ∷ [];
  version = (spy, 3) ∷ [];
}

ran : run commands new_engine ≡ some after_commands
unfolding run step close_session lookup insert on_session_close new_returns item_back item value_of
    series_value cached_value freeze_key freeze_node freeze_arg freeze_inner fresh_hit answer
    remember compute_as compute_plain count_arg arg natural windowed mean divide last_n quot ◌+ℤ◌
    ◌-ℤ◌ ◌*ℤ◌
ran = refl

value-run_example :
    and_then (value average other_inner spy params after_commands) (λ r. some r.1)
    ≡ fresh_value_of sma average other_inner spy params after_commands
value-run_example = value-run commands after_commands average other_inner spy params ran

highest-lowest_example :
    ((x : Fixed) × ((windowed highest false 2 day_three ≡ some (number x))
        × IsMax x (last_n 2 day_three.closes)))
    × ((x : Fixed) × ((windowed lowest false 2 day_three ≡ some (number x))
          × IsMin x (last_n 2 day_three.closes)))
highest-lowest_example =
    highest-lowest Fixed-IsOrdered false 2 day_three (omega arith) (omega arith)
      (refl, (refl, (refl, tt)))
