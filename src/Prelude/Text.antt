-- ===== src/Prelude/Text.antt =====
-- Python strings as lists of code points, with the ASCII part of `str.upper` and `str.lower`.
use Prim.Native.Nat.{ℕ, ◌+◌, ◌-◌}
use Prim.Native.Char.{code}
use Prim.Native.String.{String}
use mathlib.Core.Path.{◌≡◌, refl}
use mathlib.Core.Bool.{Bool, true, false, ◌&&◌}
use mathlib.Core.Option.{Option, none, some}
use mathlib.Core.List.{List, [], ◌∷◌}
use native.Mathlib.Omega.{arith}
use deployquant.Prelude.Tests.{leb, if◌then◌else◌}
use deployquant.Prelude.Eq.{◌==◌, eq_nat}

abbrev pub Text : Type 0
Text = List ℕ

-- A literal.
abbrev pub codes : String → Text
codes String.[] = []
codes (String.◌∷◌ c s) = code c ∷ codes s

upper_code : ℕ → ℕ
upper_code c = if leb b'a' c && leb c b'z' then c - 32 else c

-- `s.upper()`
unfoldable pub upper : Text → Text
unfolding upper_code
upper [] = []
upper (c ∷ s) = upper_code c ∷ upper s

lower_code : ℕ → ℕ
lower_code c = if leb b'A' c && leb c b'Z' then c + 32 else c

-- `s.lower()`
unfoldable pub lower : Text → Text
unfolding lower_code
lower [] = []
lower (c ∷ s) = lower_code c ∷ lower s

-- `bool(s)`
abbrev pub truthy_text : Text → Bool
truthy_text [] = false
truthy_text (c ∷ s) = true

-- `bool(s)` for a `str | None`
abbrev pub truthy : Option Text → Bool
truthy none = false
truthy (some s) = truthy_text s

-- `s.startswith(p)`
abbrev pub starts_with : Text → Text → Bool
starts_with s [] = true
starts_with [] (p ∷ ps) = false
starts_with (c ∷ s) (p ∷ ps) = (c == p) && starts_with s ps

upper_code_idem : (c : ℕ) → upper_code (upper_code c) ≡ upper_code c
unfolding upper_code
upper_code_idem c = ground arith

-- Normalising a symbol twice is normalising it once.
pub upper_idem : (s : Text) → upper (upper s) ≡ upper s
unfolding upper
upper_idem [] = refl
upper_idem (c ∷ s) = simp (upper_code_idem, upper_idem s)
