-- ===== src/Consolidator/Defs.antt =====
-- dqengine/runtime/consolidators.py and bars.py: the consolidator and its bars. A handler is a list of
-- what it was called with.
use deployquant.Prelude.{
  ℕ, Bool, false, not, ◌&&◌, Option, none, some, List, [], ◌∷◌, ◌++◌, if◌then◌else◌,
}
use deployquant.Prelude.Int.{ℤ, pos, leb_ℤ, eqb_ℤ}
use deployquant.Prelude.Text.{Text}
use deployquant.Prelude.Float.{Float, nought, min_of, max_of}

-- A day, and the microseconds since its midnight.
pub record Instant : Type 0 where
  pub date : ℕ
  pub us : ℕ

pub record TradeBar {ℓ} (F : Type ℓ) : Type ℓ where
  pub symbol : Text
  pub time : Instant
  pub end_time : Instant
  pub open_price : F
  pub high : F
  pub low : F
  pub close : F
  pub volume : F

-- A period is a span in microseconds, which may be negative, or a resolution.
pub data Period : Type 0 where
  timedelta : ℤ → Period
  resolution_second resolution_minute resolution_hour resolution_daily : Period

abbrev pub day_us : ℤ
day_us = pos 86_400_000_000

-- `none` is the ValueError.
unfoldable pub span_of : Period → Option ℤ
span_of (timedelta us) = some us
span_of resolution_second = some (pos 1_000_000)
span_of resolution_minute = some (pos 60_000_000)
span_of resolution_daily = some day_us
span_of resolution_hour = none

-- `emitted` is what the handlers were given, in order; its last bar is `consolidated`.
pub record Consolidator {ℓ} (F : Type ℓ) : Type ℓ where
  pub span : ℤ
  pub consolidated : Option (TradeBar F)
  pub working_bar : Option (TradeBar F)
  pub bucket : Option ℤ
  pub emitted : List (TradeBar F)

unfoldable pub same_bucket : ℤ → ℤ → Bool
same_bucket a b = eqb_ℤ a b

-- `self._bucket is not None and b != self._bucket`
abbrev pub has_other_bucket : Option ℤ → ℤ → Bool
has_other_bucket none b = false
has_other_bucket (some a) b = not (same_bucket b a)

module _ {ℓ} {F : Type ℓ} ⦃f : Float F⦄ where
  open f use {of_int, plus, over, eq, trunc, floor_div}

  -- `timedelta.total_seconds`
  unfoldable pub total_seconds : ℤ → F
  total_seconds us = over (of_int us) (of_int (pos 1_000_000))

  -- The date of the epoch is the bar's own date, so for a span of a day or more the difference is 0.
  unfoldable pub bucket_index : ℤ → TradeBar F → ℤ
  bucket_index span bar =
      if leb_ℤ day_us span
      then pos 0
      else trunc (floor_div (total_seconds (pos bar.end_time.us)) (total_seconds span))

  -- `_bucket_of` of a bar's end; `none` is the ZeroDivisionError.
  unfoldable pub span_bucket : ℤ → TradeBar F → Option ℤ
  span_bucket span bar =
      if not (leb_ℤ day_us span) && eq (total_seconds span) nought
      then none
      else some (bucket_index span bar)

  unfoldable pub consolidator_of : Period → Option (Consolidator F)
  consolidator_of period = elim (span_of period) [
    | none ↦ none
    | some span ↦ some (record {
      span = span;
      consolidated = none;
      working_bar = none;
      bucket = none;
      emitted = [];
    })
  ]

  -- The working bar after one more bar.
  unfoldable pub merge : TradeBar F → TradeBar F → TradeBar F
  merge w bar = record {
    symbol = w.symbol;
    time = w.time;
    end_time = bar.end_time;
    open_price = w.open_price;
    high = max_of w.high bar.high;
    low = min_of w.low bar.low;
    close = bar.close;
    volume = plus w.volume bar.volume;
  }

  unfoldable pub join : Option (TradeBar F) → TradeBar F → TradeBar F
  join none bar = bar
  join (some w) bar = merge w bar

  unfoldable pub emit_bar : Option (TradeBar F) → Consolidator F → Consolidator F
  emit_bar none c = c
  emit_bar (some w) c = record c {
    consolidated = some w;
    working_bar = none;
    bucket = none;
    emitted = c.emitted ++ w ∷ [];
  }

  unfoldable pub scan : Consolidator F → Consolidator F
  scan c = emit_bar c.working_bar c

  unfoldable pub scan_if : Bool → Consolidator F → Consolidator F
  scan_if b c = if b then scan c else c

  -- `update`, once the bar's bucket is known.
  unfoldable pub put_bar : ℤ → TradeBar F → Consolidator F → Consolidator F
  put_bar b bar c =
      let d = scan_if (has_other_bucket c.bucket b) c in
      record d { bucket = some b; working_bar = some (join d.working_bar bar) }

  unfoldable pub update_bar : TradeBar F → Consolidator F → Option (Consolidator F)
  update_bar bar c = elim (span_bucket c.span bar) [ none ↦ none | some b ↦ some (put_bar b bar c) ]
