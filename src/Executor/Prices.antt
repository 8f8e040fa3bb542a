-- ===== src/Executor/Prices.antt =====
-- dqengine/live/executor.py: the rails, the time in force, and the checks on prices.
use deployquant.Prelude.{
  ℕ, Bool, true, false, not, ◌&&◌, ◌||◌, Option, none, some, List, [], ◌∷◌, or_else, ltb, nat_eq,
  if◌then◌else◌,
}
use deployquant.Prelude.Eq.{◌==◌, eq_nat, eq_list, contains}
use deployquant.Prelude.Int.{ℤ, pos}
use deployquant.Prelude.Text.{Text, codes}
use deployquant.Prelude.Float.{Float, abs_of, nought}

-- `s < t`
unfoldable pub text_lt : Text → Text → Bool
text_lt s [] = false
text_lt [] (d ∷ t) = true
text_lt (c ∷ s) (d ∷ t) = ltb c d || (nat_eq c d && text_lt s t)

-- The first of `sorted(allowed)`, from a candidate on.
unfoldable pub least_text : Text → List Text → Text
least_text best [] = best
least_text best (t ∷ ts) = least_text (if text_lt t best then t else best) ts

unfoldable pub first_sorted : List Text → Option Text
first_sorted [] = none
first_sorted (t ∷ ts) = some (least_text t ts)

-- `allowed` is caps.tifs_for(order_type), and `none` the OrderNotSupported.
unfoldable pub pick_tif : List Text → Text → Option Text
pick_tif allowed preferred =
    if contains preferred allowed
    then some preferred
    else (if contains (codes "gtc") allowed
        then some (codes "gtc")
        else (if contains (codes "day") allowed then some (codes "day") else first_sorted allowed))

-- What a refusal says of a limit price.
pub data PriceRefusal : Type 0 where
  crosses_below crosses_above outside_band : PriceRefusal

pub record Rails {ℓ} (F : Type ℓ) : Type ℓ where
  pub max_order_notional : Option F
  pub max_position_notional : Option F
  pub max_orders_per_sync : ℤ
  pub price_band_pct : F
  pub cross_tol_pct : F
  pub stop_band_pct : F
  pub paused : Bool
  pub dry_run : Bool
  pub live_allowed : Bool

-- The settings that are given, each a number or a flag.
pub record Settings {ℓ} (F : Type ℓ) : Type ℓ where
  pub max_order_notional : Option F
  pub max_position_notional : Option F
  pub max_orders_per_sync : Option F
  pub price_band_pct : Option F
  pub cross_tol_pct : Option F
  pub stop_band_pct : Option F
  pub paused : Option Bool
  pub dry_run : Option Bool

module _ {ℓ} {F : Type ℓ} ⦃f : Float F⦄ where
  open f use {of_int, plus, minus, times, over, negate, lt, le, trunc}

  -- A cap that is not positive is none.
  unfoldable pub cap : Option F → Option F
  cap none = none
  cap (some v) = if lt nought v then some v else none

  abbrev pub number_of : ℕ → F
  number_of n = of_int (pos n)

  unfoldable pub rails_from : Settings F → Text → Bool → Rails F
  rails_from s mode all_live_confirmed = record {
    max_order_notional = cap s.max_order_notional;
    max_position_notional = cap s.max_position_notional;
    max_orders_per_sync = trunc (or_else s.max_orders_per_sync (number_of 20));
    price_band_pct = or_else s.price_band_pct (number_of 50);
    cross_tol_pct = or_else s.cross_tol_pct (number_of 1);
    stop_band_pct = or_else s.stop_band_pct (number_of 50);
    paused = or_else s.paused false;
    dry_run = or_else s.dry_run false;
    live_allowed = not (mode == codes "live") || all_live_confirmed;
  }

  unfoldable pub limit_price_refusal : Text → Option F → F → Rails F → Option PriceRefusal
  limit_price_refusal side none px rails = none
  limit_price_refusal side (some level) px rails =
      let tol = over rails.cross_tol_pct (number_of 100) in
      if le px nought
      then none
      else (if (side == codes "sell") && lt level (times px (minus (number_of 1) tol))
          then some crosses_below
          else (if (side == codes "buy") && lt (times px (plus (number_of 1) tol)) level
              then some crosses_above
              else (if lt rails.price_band_pct
                    (times (abs_of (minus (over level px) (number_of 1))) (number_of 100))
                  then some outside_band
                  else none)))

  unfoldable pub quote_breaches_stop : Text → Option F → Option F → Text → Bool
  quote_breaches_stop kind none last_price side = false
  quote_breaches_stop kind (some stop_price) none side = false
  quote_breaches_stop kind (some stop_price) (some last_price) side =
      if (kind == codes "stop") || (kind == codes "trailing_stop")
      then (if side == codes "buy" then lt stop_price last_price else lt last_price stop_price)
      else false

  -- `abs(qty) / step` is not negative, so `math.floor` is `trunc`.
  unfoldable pub round_step : F → F → F
  round_step qty step =
      if le step nought
      then qty
      else times (times (of_int (trunc (over (abs_of qty) step))) step)
          (if le nought qty then number_of 1 else negate (number_of 1))
