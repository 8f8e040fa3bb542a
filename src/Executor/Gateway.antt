-- ===== src/Executor/Gateway.antt =====
-- dqengine/live/executor.py: session times, refusals of a closed gateway, and retries.
use deployquant.Prelude.{
  ℕ, zero, suc, ◌+◌, ◌*◌, Bool, true, false, not, ◌&&◌, ◌||◌, Option, none, some, List, [], ◌∷◌,
  any, ltb, leb, nat_eq, if◌then◌else◌,
}
use deployquant.Prelude.Eq.{eq_nat, eq_list}
use deployquant.Prelude.Text.{Text, codes, upper, lower, starts_with}
use deployquant.Prelude.Dict.{Dict, get, insert, erase}

-- A day and the milliseconds since its midnight, in New York.
pub record Moment : Type 0 where
  pub day : ℕ
  pub ms : ℕ

-- `a < b` for two moments
unfoldable pub is_before : Moment → Moment → Bool
is_before a b = ltb a.day b.day || (nat_eq a.day b.day && ltb a.ms b.ms)

abbrev pub open_s : ℕ
open_s = 9 * 3600 + 30 * 60

abbrev pub pre_market_open_s : ℕ
pre_market_open_s = 4 * 3600

abbrev pub close_window_before_s : ℕ
close_window_before_s = 180

abbrev pub close_window_after_s : ℕ
close_window_after_s = 120

-- datetime.combine of a day and so many seconds
abbrev pub at_seconds : ℕ → ℕ → Moment
at_seconds d s = record { day = d; ms = s * 1000 }

-- The whole seconds of a moment, in milliseconds.
abbrev pub second_of : ℕ → ℕ
second_of s = s * 1000

-- `cal` is the calendar: weekday, is_market_holiday and SessionCalendar.close_time_ms.
pub record Calendar : Type 0 where
  pub weekday : ℕ → ℕ
  pub is_market_holiday : ℕ → Bool
  pub close_time_ms : ℕ → ℕ

module _ (cal : Calendar) where
  open cal use {weekday, is_market_holiday, close_time_ms}

  unfoldable pub is_session_day : ℕ → Bool
  is_session_day d = ltb (weekday d) 5 && not (is_market_holiday d)

  -- `now_s` is the whole seconds since midnight.
  unfoldable pub in_close_window : ℕ → ℕ → Bool
  in_close_window d now_s =
      is_session_day d
      && (leb (close_time_ms d) (second_of now_s + second_of close_window_before_s)
          && leb (second_of now_s) (close_time_ms d + second_of close_window_after_s))

  unfoldable pub market_open_now : ℕ → ℕ → Bool
  market_open_now d now_s =
      is_session_day d && (leb open_s now_s && ltb (second_of now_s) (close_time_ms d))

  -- The loop over days, on fuel.
  unfoldable pub next_session_day : ℕ → ℕ → Option ℕ
  next_session_day zero d = none
  next_session_day (suc fuel) d =
      let later = next_session_day fuel (suc d) in if is_session_day d then some d else later

  unfoldable pub next_pre_market : ℕ → ℕ → Option Moment
  next_pre_market fuel d = elim (next_session_day fuel (suc d)) [
    | none ↦ none
    | some next ↦ some (at_seconds next pre_market_open_s)
  ]

  unfoldable pub next_gateway_retry_time : ℕ → Moment → Option Moment
  next_gateway_retry_time fuel now =
      let d = now.day in
      if is_session_day d && is_before now (at_seconds d pre_market_open_s)
      then some (at_seconds d pre_market_open_s)
      else (if is_session_day d && is_before now (at_seconds d open_s)
          then some (at_seconds d open_s)
          else next_pre_market fuel d)

-- `part in s`
unfoldable pub has_part : Text → Text → Bool
has_part s [] = true
has_part [] (p ∷ ps) = false
has_part (c ∷ s) (p ∷ ps) = starts_with (c ∷ s) (p ∷ ps) || has_part s (p ∷ ps)

unfoldable pub market_not_ready_codes : List Text
market_not_ready_codes =
    codes "CAN_NOT_TRADING_FOR_FIXGW_NOT_READY"
    ∷ codes "MARKET_NOT_READY"
    ∷ codes "DAY_ORDER_NOT_ALLOWED_AFT_CORE_TIME"
    ∷ []

unfoldable pub is_market_not_ready : Text → Bool
is_market_not_ready msg = any (has_part (upper msg)) market_not_ready_codes

-- The text of a refusal that says the requests come too fast.
unfoldable pub too_fast : Text → Bool
too_fast t =
    has_part (lower t) (codes "rate-limited")
    || has_part (lower t) (codes "too many request")
    || has_part (lower t) (codes "to many request")

-- `unavailable` is isinstance(e, BrokerUnavailable).
unfoldable pub rate_refused : Bool → Text → Bool
rate_refused unavailable t = unavailable && (too_fast t || has_part (lower t) (codes " 429"))

-- The error lines of a report, the one of its executions last.
unfoldable pub rate_limited : List Text → Bool
rate_limited errors = any too_fast errors

-- RATE_RETRY_DELAYS_S, in milliseconds.
abbrev pub rate_retry_delays : List ℕ
rate_retry_delays = 1500 ∷ 2000 ∷ 3000 ∷ 4000 ∷ 5000 ∷ 6000 ∷ 8000 ∷ 10000 ∷ []

abbrev pub delay_at : ℕ → List ℕ → Option ℕ
delay_at n [] = none
delay_at zero (d ∷ ds) = some d
delay_at (suc n) (d ∷ ds) = delay_at n ds

-- One more attempt, if the ladder has a delay for it.
unfoldable pub attempt : Text → ℕ → Option ℕ → Dict Text ℕ → Dict Text ℕ × Option ℕ
attempt conn_id n none retries = (retries, none)
attempt conn_id n (some delay) retries = (insert conn_id (suc n) retries, some delay)

-- The attempts used so far, and the delay of the next, if there is one.
unfoldable pub schedule_rate_retry : Bool → Text → Dict Text ℕ → Dict Text ℕ × Option ℕ
schedule_rate_retry in_window conn_id retries =
    let n = get conn_id retries 0 in
    if in_window
    then attempt conn_id n (delay_at n rate_retry_delays) retries
    else (erase conn_id retries, none)
