-- ===== src/Sleeve/Defs.antt =====
-- dqengine/runtime/core/portfolio.py: the sleeve, its valuation and `apply_fill`. The dictionaries
-- `targets` and `entries` are never written there and are left out.
use deployquant.Prelude.{
  ℕ, Bool, true, false, not, ◌&&◌, Option, none, some, List, [], ◌∷◌, ◌++◌, if◌then◌else◌, or_else,
}
use deployquant.Prelude.Eq.{eq_nat, eq_list}
use deployquant.Prelude.Int.{ℤ, pos, ◌+ℤ◌, neg, abs, is_pos, is_neg, is_zero}
use deployquant.Prelude.Text.{Text}
use deployquant.Prelude.Float.{Float, nought, max_of}
use deployquant.Prelude.Dict.{Dict, lookup, get, insert, write, erase_if, insert_if}

pub record Fill {ℓ} (F : Type ℓ) : Type ℓ where
  pub day : ℕ
  pub time_ms : ℕ
  pub symbol : Text
  pub qty : ℤ
  pub price : F
  pub tag : Text
  pub fees : F
  pub model_price : Option F
  pub confirmed : Bool
  pub kind : Text

pub record OrderRecord {ℓ} (F : Type ℓ) : Type ℓ where
  pub day : ℕ
  pub time_ms : ℕ
  pub symbol : Text
  pub qty : ℤ
  pub kind : Text
  pub tag : Text
  pub status : Text
  pub price : Option F

pub data EntryPriceMode : Type 0 where
  last_fill avg_cost_mode : EntryPriceMode

-- `margin_provider` is what the installed callable returns at present, `none` if there is none.
pub record Sleeve {ℓ} (F : Type ℓ) : Type ℓ where
  pub cash : F
  pub margin_provider : Option F
  pub own_margin_max : F
  pub entry_price_mode : EntryPriceMode
  pub qty : Dict Text ℤ
  pub entry_price : Dict Text F
  pub entry_day : Dict Text ℕ
  pub avg_cost : Dict Text F
  pub peak_close : Dict Text F
  pub fills : List (Fill F)
  pub orders : List (OrderRecord F)

-- `a != b` on truth values
abbrev pub differ : Bool → Bool → Bool
differ true b = not b
differ false b = b

module _ {ℓ} {F : Type ℓ} where
  -- `__init__`
  unfoldable pub new_sleeve : F → F → EntryPriceMode → Sleeve F
  new_sleeve cash margin_max mode = record {
    cash = cash;
    margin_provider = none;
    own_margin_max = margin_max;
    entry_price_mode = mode;
    qty = [];
    entry_price = [];
    entry_day = [];
    avg_cost = [];
    peak_close = [];
    fills = [];
    orders = [];
  }

  -- `self.qty.get(symbol, 0)`
  unfoldable pub position : Sleeve F → Text → ℤ
  position s symbol = get symbol s.qty (pos 0)

  unfoldable pub invested : Sleeve F → Text → Bool
  invested s symbol = not (is_zero (position s symbol))

  unfoldable pub margin_max : Sleeve F → F
  margin_max s = or_else s.margin_provider s.own_margin_max

  unfoldable pub get_entry_price : Sleeve F → Text → Option F
  get_entry_price s symbol = elim s.entry_price_mode [
    | avg_cost_mode ↦ lookup symbol s.avg_cost
    | last_fill ↦ lookup symbol s.entry_price
  ]

module _ {ℓ} {F : Type ℓ} ⦃f : Float F⦄ where
  open f use {of_int, plus, minus, times, over, sum_of}

  -- `q * prices.get(s, 0.0) for s, q in self.qty.items() if q != 0`
  unfoldable pub values_of : Dict Text F → Dict Text ℤ → List F
  values_of prices [] = []
  values_of prices ((s, q) ∷ r) =
      let rest = values_of prices r in
      if is_zero q then rest else times (of_int q) (get s prices nought) ∷ rest

  unfoldable pub position_value : Sleeve F → Dict Text F → F
  position_value s prices = sum_of (values_of prices s.qty)

  unfoldable pub equity : Sleeve F → Dict Text F → F
  equity s prices = plus s.cash (position_value s prices)

  -- `abs(q) * prices.get(s, 0.0) for s, q in self.qty.items() if q != 0`
  unfoldable pub exposures_of : Dict Text F → Dict Text ℤ → List F
  exposures_of prices [] = []
  exposures_of prices ((s, q) ∷ r) =
      let rest = exposures_of prices r in
      if is_zero q then rest else times (of_int (abs q)) (get s prices nought) ∷ rest

  unfoldable pub gross_exposure : Sleeve F → Dict Text F → F
  gross_exposure s prices = sum_of (exposures_of prices s.qty)

  unfoldable pub buying_power : Sleeve F → Dict Text F → F
  buying_power s prices = minus (times (margin_max s) (equity s prices)) (gross_exposure s prices)

  -- The average of a position `held` at the cost `old` and `more` shares at `price`, over `new`.
  unfoldable pub blend : F → ℤ → F → ℤ → ℤ → F
  blend old held price more new =
      over (plus (times old (of_int held)) (times price (of_int more))) (of_int new)

  -- The new entry of `avg_cost`: `none` is a KeyError, `some none` leaves the entry alone.
  unfoldable pub next_cost : Option F → ℤ → ℤ → F → Option (Option F)
  next_cost old prev qty price =
      let new = prev +ℤ qty in
      if is_pos qty && not (is_neg prev)
      then (if is_zero prev
          then some (some price)
          else elim old [ none ↦ none | some a ↦ some (some (blend a prev price qty new)) ])
      else if is_neg qty && not (is_pos prev)
      then (if is_zero prev then some (some price) else elim old [
        | none ↦ none
        | some a ↦ some (some (blend a (neg prev) price (neg qty) (neg new)))
      ])
      else if not (is_zero new) && differ (is_pos prev) (is_pos new)
      then some (some price)
      else some none

  -- `apply_fill`, once the entry of `avg_cost` is known.
  unfoldable pub book_fill : Sleeve F → Fill F → Option F → Sleeve F
  book_fill s r cost =
      let new = position s r.symbol +ℤ r.qty in
      let flat = is_zero new in
      let buy = is_pos r.qty in
      let peak = max_of (get r.symbol s.peak_close nought) r.price in
      record s {
        cash = minus s.cash (plus (times (of_int r.qty) r.price) r.fees);
        qty = insert r.symbol new s.qty;
        entry_price = erase_if flat r.symbol (insert_if buy r.symbol r.price s.entry_price);
        entry_day = erase_if flat r.symbol (insert_if buy r.symbol r.day s.entry_day);
        avg_cost = erase_if flat r.symbol (write r.symbol cost s.avg_cost);
        peak_close = erase_if flat r.symbol (insert_if buy r.symbol peak s.peak_close);
        fills = s.fills ++ r ∷ [];
      }

  -- The arguments are the fields of the fill that is recorded; `none` is a KeyError.
  unfoldable pub apply_fill : Sleeve F → Fill F → Option (Sleeve F)
  apply_fill s r =
      elim (next_cost (lookup r.symbol s.avg_cost) (position s r.symbol) r.qty r.price) [
        | none ↦ none
        | some cost ↦ some (book_fill s r cost)
      ]
