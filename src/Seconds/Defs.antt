-- ===== src/Seconds/Defs.antt =====
-- dqengine/live/secbars.py: the two constructions of second bars.
use deployquant.Prelude.{
  ℕ, ◌+◌, ◌*◌, ◌/◌, Bool, not, ◌&&◌, Option, none, some, List, [], ◌∷◌, ◌++◌, leb, ltb, nat_eq,
  if◌then◌else◌, any, keep,
}
use deployquant.Prelude.Eq.{eq_nat, eq_list, contains}
use deployquant.Prelude.Text.{Text, codes}
use deployquant.Prelude.Float.{Float}
use deployquant.Prelude.Dict.{Dict, lookup, insert}

abbrev pub excluded_conditions : List Text
excluded_conditions =
    codes "C"
    ∷ codes "G"
    ∷ codes "H"
    ∷ codes "I"
    ∷ codes "M"
    ∷ codes "N"
    ∷ codes "P"
    ∷ codes "Q"
    ∷ codes "R"
    ∷ codes "T"
    ∷ codes "U"
    ∷ codes "V"
    ∷ codes "W"
    ∷ codes "Z"
    ∷ codes "4"
    ∷ codes "7"
    ∷ codes "9"
    ∷ []

-- 09:30:00
abbrev pub session_open_ms : ℕ
session_open_ms = 34_200_000

unfoldable pub trade_eligible : List Text → Bool
trade_eligible conditions = not (any (λ c. contains c excluded_conditions) conditions)

pub record Trade {ℓ} (F : Type ℓ) : Type ℓ where
  pub ms : ℕ
  pub px : F
  pub size : F
  pub conditions : List Text

-- [ms, o, h, l, c, v]
pub record SecondBar {ℓ} (F : Type ℓ) : Type ℓ where
  pub ms : ℕ
  pub o : F
  pub h : F
  pub l : F
  pub c : F
  pub v : F

pub record SecondBucketConsolidator {ℓ} (F : Type ℓ) : Type ℓ where
  pub close_ms : ℕ
  pub in_progress : Dict Text (SecondBar F)
  pub done : List (Text × SecondBar F)

-- The second that a time is in.
unfoldable pub bucket_of : ℕ → ℕ
bucket_of ms = ms / 1000 * 1000

module _ {ℓ} {F : Type ℓ} where
  -- Neither construction uses a trade that is outside the session or not eligible.
  unfoldable pub is_used : ℕ → Trade F → Bool
  is_used close_ms t =
      (leb session_open_ms t.ms && ltb t.ms close_ms) && trade_eligible t.conditions

  unfoldable pub start_bar : Trade F → SecondBar F
  start_bar t = record { ms = bucket_of t.ms; o = t.px; h = t.px; l = t.px; c = t.px; v = t.size }

  -- `SecondBucketConsolidator(close_ms)`
  unfoldable pub new_consolidator : ℕ → SecondBucketConsolidator F
  new_consolidator close_ms = record { close_ms = close_ms; in_progress = []; done = [] }

  -- `flush_before`: what is completed, and the consolidator without it.
  unfoldable pub flush_before :
      ℕ → SecondBucketConsolidator F → List (Text × SecondBar F) × SecondBucketConsolidator F
  flush_before now c =
      let elapsed : Text × SecondBar F → Bool = λ e. leb (e.1.ms + 1000) now in
      (
        c.done ++ keep elapsed c.in_progress,
        record c { done = []; in_progress = keep (λ e. not (elapsed e)) c.in_progress },
      )

module _ {ℓ} {F : Type ℓ} ⦃f : Float F⦄ where
  open f use {plus, lt}

  unfoldable pub extend_bar : Trade F → SecondBar F → SecondBar F
  extend_bar t bar = record bar {
    h = if lt bar.h t.px then t.px else bar.h;
    l = if lt t.px bar.l then t.px else bar.l;
    c = t.px;
    v = plus bar.v t.size;
  }

  unfoldable pub aggregate_one : ℕ → Trade F → Dict ℕ (SecondBar F) → Dict ℕ (SecondBar F)
  aggregate_one close_ms t out =
      if is_used close_ms t
      then insert (bucket_of t.ms)
          (elim (lookup (bucket_of t.ms) out) [ none ↦ start_bar t | some bar ↦ extend_bar t bar ])
          out
      else out

  unfoldable pub aggregate_from : ℕ → Dict ℕ (SecondBar F) → List (Trade F) → Dict ℕ (SecondBar F)
  aggregate_from close_ms out [] = out
  aggregate_from close_ms out (t ∷ ts) = aggregate_from close_ms (aggregate_one close_ms t out) ts

  unfoldable pub aggregate_trades_to_seconds : List (Trade F) → ℕ → Dict ℕ (SecondBar F)
  aggregate_trades_to_seconds trades close_ms = aggregate_from close_ms [] trades

  -- What `add_trade` does with the bar in progress.
  unfoldable pub add_to :
      Option (SecondBar F)
      → Text
      → Trade F
      → SecondBucketConsolidator F
      → SecondBucketConsolidator F
  add_to none sym t c = record c { in_progress = insert sym (start_bar t) c.in_progress }
  add_to (some bar) sym t c =
      if nat_eq bar.ms (bucket_of t.ms)
      then record c { in_progress = insert sym (extend_bar t bar) c.in_progress }
      else record c {
        done = c.done ++ (sym, bar) ∷ [];
        in_progress = insert sym (start_bar t) c.in_progress;
      }

  unfoldable pub add_trade :
      Text → Trade F → SecondBucketConsolidator F → SecondBucketConsolidator F
  add_trade sym t c = if is_used c.close_ms t then add_to (lookup sym c.in_progress) sym t c else c
