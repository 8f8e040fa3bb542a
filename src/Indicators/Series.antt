-- ===== src/Indicators/Series.antt =====
-- dqengine/runtime/core/indicators.py: DailySeries, and the arithmetic that the indicators share. An
-- answer of `none` is an exception.
use deployquant.Prelude.{
  ℕ, zero, suc, ◌-◌, Option, none, some, List, [], ◌∷◌, ◌++◌, map, length, drop, or_else, nat_eq,
  if◌then◌else◌,
}
use deployquant.Prelude.Int.{pos, ◌+ℤ◌}
use deployquant.Prelude.Float.{Float, Fixed, fixed_float, divide, quot, nought}

-- The builtins that the formulas call: `sum` of a list, `math.sqrt` and `x ** 2`.
pub record Maths {ℓ} (F : Type ℓ) : Type ℓ where
  pub sum_of : List F → F
  pub sqrt : F → F
  pub square : F → F

abbrev pub and_then {ℓ κ} : {A : Type ℓ} {B : Type κ} → Option A → (A → Option B) → Option B
and_then none k = none
and_then (some a) k = k a

-- `xs[i]` for i >= 0, and `xs[-i]` for i > 0
unfoldable pub item {ℓ} : {A : Type ℓ} → ℕ → List A → Option A
item i [] = none
item zero (x ∷ xs) = some x
item (suc i) (x ∷ xs) = item i xs

unfoldable pub item_back {ℓ} : {A : Type ℓ} → ℕ → List A → Option A
item_back i xs = item (length xs - i) xs

-- `xs[-n:]`
unfoldable pub last_n {ℓ} : {A : Type ℓ} → ℕ → List A → List A
last_n n xs = if nat_eq n 0 then xs else drop (length xs - n) xs

pub record DailySeries {ℓ} (F : Type ℓ) : Type ℓ where
  pub closes : List F
  pub returns : List F
  pub highs : List F
  pub lows : List F

abbrev pub new_series {ℓ} : {F : Type ℓ} → DailySeries F
new_series = record { closes = []; returns = []; highs = []; lows = [] }

module _ {ℓ} {F : Type ℓ} ⦃f : Float F⦄ where
  open f use {of_int, plus, minus, over, lt, eq}

  abbrev pub one : F
  one = of_int (pos 1)

  abbrev pub count : ℕ → F
  count n = of_int (pos n)

  -- `self.closes[-1]`, when it is positive, makes a return.
  unfoldable pub new_returns : Option F → F → List F
  new_returns none close = []
  new_returns (some prev) close = if lt nought prev then minus (over close prev) one ∷ [] else []

  unfoldable pub on_session_close : F → Option F → Option F → DailySeries F → DailySeries F
  on_session_close close high low s = record {
    closes = s.closes ++ close ∷ [];
    returns = s.returns ++ new_returns (item_back 1 s.closes) close;
    highs = s.highs ++ or_else high close ∷ [];
    lows = s.lows ++ or_else low close ∷ [];
  }

  unfoldable pub mean : ⦃m : Maths F⦄ → List F → ℕ → Option F
  mean ⦃m⦄ xs w = divide (m.sum_of xs) (count w)

  -- The population standard deviation.
  unfoldable pub deviation : ⦃m : Maths F⦄ → List F → ℕ → Option F
  deviation ⦃m⦄ xs w = and_then (mean xs w) λ mu.
      and_then (divide (m.sum_of (map (λ x. m.square (minus x mu)) xs)) (count w))
        λ v. some (m.sqrt v)

-- Fixed-point numbers have such builtins.
abbrev total : List Fixed → Fixed → Fixed
total [] acc = acc
total (x ∷ xs) acc = total xs (acc +ℤ x)

-- Heron's method
abbrev root : ℕ → Fixed → Fixed → Fixed
root zero x guess = guess
root (suc k) x guess = root k x (quot (guess +ℤ fixed_float.over x guess) (pos 2))

instance abbrev pub fixed_maths : Maths Fixed
fixed_maths = record {
  sum_of = λ xs. total xs (pos 0);
  sqrt = λ x. root 20 x (pos 10_000);
  square = λ x. fixed_float.times x x;
}
