-- ===== src/Schedule.antt =====
-- dqengine/runtime/scheduling.py: when scheduled events fire. `none` is an exception; the calendar is
-- a parameter.
use deployquant.Prelude.{
  ℕ, Bool, true, Option, none, some, List, [], ◌∷◌, ◌++◌, or_else, if◌then◌else◌,
}
use deployquant.Prelude.Eq.{◌==◌, eq_nat, eq_list, contains}
use deployquant.Prelude.Int.{ℤ, pos, is_zero, ◌*ℤ◌, ◌+ℤ◌}
use deployquant.Prelude.Text.{Text, codes, lower, truthy_text}
use deployquant.Prelude.Float.{Float}
use deployquant.Prelude.Dict.{Dict, lookup}

unfoldable pub day_names : Dict Text ℕ
day_names =
    (codes "monday", 0)
    ∷ (codes "tuesday", 1)
    ∷ (codes "wednesday", 2)
    ∷ (codes "thursday", 3)
    ∷ (codes "friday", 4)
    ∷ (codes "saturday", 5)
    ∷ (codes "sunday", 6)
    ∷ []

-- A day of the week, as a number or by its name.
pub data DayArg : Type 0 where
  day_number : ℕ → DayArg
  day_name : Text → DayArg

unfoldable pub day_index : DayArg → Option ℕ
day_index (day_number n) = some n
day_index (day_name s) = lookup (lower s) day_names

pub record DateRule : Type 0 where
  pub kind : Text
  pub days : List ℕ

-- What the rules ask of the calendar, and the weekday of a day.
pub record DayCalendar : Type 0 where
  pub weekday : ℕ → ℕ
  pub is_first_of_week : ℕ → Bool
  pub is_last_of_week : ℕ → Bool
  pub is_first_of_month : ℕ → Bool
  pub is_last_of_month : ℕ → Bool

unfoldable pub matches : DateRule → ℕ → DayCalendar → Option Bool
matches rule day cal =
    if rule.kind == codes "every_day"
    then some true
    else (if rule.kind == codes "every"
        then some (contains (cal.weekday day) rule.days)
        else (if rule.kind == codes "week_start"
            then some (cal.is_first_of_week day)
            else (if rule.kind == codes "week_end"
                then some (cal.is_last_of_week day)
                else (if rule.kind == codes "month_start"
                    then some (cal.is_first_of_month day)
                    else (if rule.kind == codes "month_end"
                        then some (cal.is_last_of_month day)
                        else none)))))

unfoldable pub every_day : DateRule
every_day = record { kind = codes "every_day"; days = [] }

unfoldable pub day_indices : List DayArg → Option (List ℕ)
day_indices [] = some []
day_indices (d ∷ ds) = elim (day_index d) [
  | none ↦ none
  | some n ↦ elim (day_indices ds) [ none ↦ none | some ns ↦ some (n ∷ ns) ]
]

unfoldable pub every : List DayArg → Option DateRule
every ds = elim (day_indices ds) [
  | none ↦ none
  | some ns ↦ some (record { kind = codes "every"; days = ns })
]

-- An offset is unsupported.
unfoldable pub no_offset : ℤ → DateRule → Option DateRule
no_offset days_offset rule = if is_zero days_offset then some rule else none

unfoldable pub week_start : ℤ → Option DateRule
week_start days_offset = no_offset days_offset (record { kind = codes "week_start"; days = [] })

unfoldable pub week_end : ℤ → Option DateRule
week_end days_offset = no_offset days_offset (record { kind = codes "week_end"; days = [] })

unfoldable pub month_start : ℤ → Option DateRule
month_start days_offset = no_offset days_offset (record { kind = codes "month_start"; days = [] })

unfoldable pub month_end : ℤ → Option DateRule
month_end days_offset = no_offset days_offset (record { kind = codes "month_end"; days = [] })

pub record TimeRule {ℓ} (F : Type ℓ) : Type ℓ where
  pub kind : Text
  pub minutes : F
  pub at_ms : Option ℤ

module _ {ℓ} {F : Type ℓ} ⦃f : Float F⦄ where
  open f use {of_int, plus, minus, times, trunc}

  unfoldable pub fire_ms : TimeRule F → ℤ → ℤ → Option (Option ℤ)
  fire_ms rule open_ms close_ms =
      let offset = times rule.minutes (of_int (pos 60_000)) in
      if rule.kind == codes "at"
      then some rule.at_ms
      else (if rule.kind == codes "after_open"
          then some (some (trunc (plus (of_int open_ms) offset)))
          else (if rule.kind == codes "before_close"
              then some (some (trunc (minus (of_int close_ms) offset)))
              else none))

  unfoldable pub at_time : ℤ → ℤ → ℤ → TimeRule F
  at_time hour minute second = record {
    kind = codes "at";
    minutes = of_int (pos 0);
    at_ms = some ((hour *ℤ pos 3600 +ℤ minute *ℤ pos 60 +ℤ second) *ℤ pos 1000);
  }

  -- A leading number is the minutes, and a leading symbol is ignored.
  unfoldable pub after_market_open : Option F → F → TimeRule F
  after_market_open leading minutes = record {
    kind = codes "after_open";
    minutes = or_else leading minutes;
    at_ms = none;
  }

  unfoldable pub before_market_close : Option F → F → TimeRule F
  before_market_close leading minutes = record {
    kind = codes "before_close";
    minutes = or_else leading minutes;
    at_ms = none;
  }

-- A callback is known by its name.
pub record ScheduledEvent {ℓ} (F : Type ℓ) : Type ℓ where
  pub date_rule : DateRule
  pub time_rule : TimeRule F
  pub callback : Text
  pub name : Text

-- Schedule.on: the event is named after its callback unless it has a name.
unfoldable pub on_schedule {ℓ} :
    {F : Type ℓ}
    → DateRule
    → TimeRule F
    → Text
    → Text
    → List (ScheduledEvent F)
    → List (ScheduledEvent F)
on_schedule date_rule time_rule callback name events =
    events
    ++ record {
      date_rule = date_rule;
      time_rule = time_rule;
      callback = callback;
      name = if truthy_text name then name else callback;
    }
      ∷ []
