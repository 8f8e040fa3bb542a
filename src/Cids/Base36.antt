-- ===== src/Cids/Base36.antt =====
-- dqengine/live/executor.py: base 36, encoded and decoded.
use deployquant.Prelude.{
  ℕ, zero, suc, ◌+◌, ◌-◌, ◌*◌, ◌/◌, ◌%◌, ◌^◌, ◌≤◌, ◌<◌, ◌≡◌, refl, ap, ◌∙◌, Bool, true, ◌&&◌, ◌||◌,
  Option, none, some, [], ◌∷◌, ◌++◌, length, length-append, repeat, length-repeat, ltb, leb, nat_eq,
  if◌then◌else◌, arith,
}
use deployquant.Prelude.Text.{Text, codes}
use native.Mathlib.Nat.{div-add-mod}

-- `_B36_ALPHABET[r]`, for r < 36
unfoldable pub b36_char : ℕ → ℕ
b36_char r = if ltb r 10 then b'0' + r else b'a' + (r - 10)

-- `[0-9a-z]`
unfoldable pub is_b36 : ℕ → Bool
is_b36 c = (leb b'0' c && leb c b'9') || (leb b'a' c && leb c b'z')

unfoldable pub all_b36 : Text → Bool
all_b36 [] = true
all_b36 (c ∷ s) = is_b36 c && all_b36 s

-- The digits of n before `s`: the loop's list is reversed when it is joined.
unfoldable pub b36_digits : ℕ → ℕ → Text → Text
b36_digits zero n s = s
b36_digits (suc fuel) n s =
    let more = b36_digits fuel (n / 36) (b36_char (n % 36) ∷ s) in if nat_eq n 0 then s else more

unfoldable pub b36encode : ℕ → Text
b36encode n = if nat_eq n 0 then codes "0" else b36_digits (suc n) n []

-- The value of a digit that `is_b36` accepts.
unfoldable pub b36_value : ℕ → ℕ
b36_value c = if leb c b'9' then c - b'0' else c - b'a' + 10

unfoldable pub b36_read : Text → ℕ → ℕ
b36_read [] n = n
b36_read (c ∷ s) n = b36_read s (n * 36 + b36_value c)

-- `int(s, 36)`, where callers have matched `[0-9a-z]*`; another text is None here.
unfoldable pub b36decode : Text → Option ℕ
b36decode [] = none
b36decode (c ∷ s) = if all_b36 (c ∷ s) then some (b36_read (c ∷ s) 0) else none

-- `s.rjust(w, "0")`
unfoldable pub rjust : ℕ → Text → Text
rjust w s = repeat (w - length s) b'0' ++ s

char_laws : (r : ℕ) → r < 36 → (is_b36 (b36_char r) ≡ true) × (b36_value (b36_char r) ≡ r)
unfolding is_b36 b36_char b36_value
char_laws r h = ground arith

digits_read : (fuel n : ℕ) (s : Text) → n < fuel → b36_read (b36_digits fuel n s) 0 ≡ b36_read s n
unfolding b36_digits b36_read
digits_read zero n s h = ground arith
digits_read (suc fuel) n s h = ground (
  arith,
  digits_read fuel (n / 36) (b36_char (n % 36) ∷ s),
  char_laws (n % 36),
  ap (b36_read s) (div-add-mod n 36),
)

digits_b36 : (fuel n : ℕ) (s : Text) → all_b36 s ≡ true → all_b36 (b36_digits fuel n s) ≡ true
unfolding b36_digits all_b36
digits_b36 zero n s h = h
digits_b36 (suc fuel) n s h =
    ground (arith, digits_b36 fuel (n / 36) (b36_char (n % 36) ∷ s), char_laws (n % 36))

length-digits : (w fuel n : ℕ) (s : Text) → n < 36 ^ w → length (b36_digits fuel n s) ≤ w + length s
unfolding b36_digits
length-digits w zero n s h = omega arith
length-digits zero (suc fuel) n s h = ground arith
length-digits (suc w) (suc fuel) n s h =
    ground (arith, length-digits w fuel (n / 36) (b36_char (n % 36) ∷ s))

-- n in a field of w digits
abbrev pub padded : ℕ → ℕ → Text
padded w n = rjust w (b36encode n)

encode_b36 : (n : ℕ) → all_b36 (b36encode n) ≡ true
unfolding b36encode all_b36 is_b36
encode_b36 n = ground (arith, digits_b36 (suc n) n [])

zeros_b36 : (k : ℕ) (s : Text) → all_b36 s ≡ true → all_b36 (repeat k b'0' ++ s) ≡ true
unfolding all_b36 is_b36
zeros_b36 zero s h = h
zeros_b36 (suc k) s h = zeros_b36 k s h

pub padded-b36 : (w n : ℕ) → all_b36 (padded w n) ≡ true
unfolding rjust
padded-b36 w n = zeros_b36 (w - length (b36encode n)) (b36encode n) (encode_b36 n)

zeros_read : (k : ℕ) (s : Text) → b36_read (repeat k b'0' ++ s) 0 ≡ b36_read s 0
unfolding b36_read b36_value
zeros_read zero s = refl
zeros_read (suc k) s = zeros_read k s

encode_read : (n : ℕ) → b36_read (b36encode n) 0 ≡ n
unfolding b36encode b36_read b36_value
encode_read n = ground (arith, digits_read (suc n) n [])

padded_read : (w n : ℕ) → b36_read (padded w n) 0 ≡ n
unfolding rjust
padded_read w n = zeros_read (w - length (b36encode n)) (b36encode n) ∙ encode_read n

length-encode : (w n : ℕ) → n < 36 ^ suc w → length (b36encode n) ≤ suc w
unfolding b36encode
length-encode w n h = ground (arith, length-digits (suc w) (suc n) n [] h)

pub length-padded : (w n : ℕ) → n < 36 ^ suc w → length (padded (suc w) n) ≡ suc w
unfolding rjust
length-padded w n h = omega (
  arith,
  length-append (repeat (suc w - length (b36encode n)) b'0') (b36encode n),
  length-repeat {A = ℕ} (suc w - length (b36encode n)) b'0',
  length-encode w n h,
)

decode_read : (s : Text) → all_b36 s ≡ true → 0 < length s → b36decode s ≡ some (b36_read s 0)
unfolding b36decode
decode_read [] h k = ground arith
decode_read (c ∷ s) h k = ground arith

-- What a field holds is read back, whatever its padding.
pub decode-padded : (w n : ℕ) → n < 36 ^ suc w → b36decode (padded (suc w) n) ≡ some n
decode-padded w n h =
    decode_read (padded (suc w) n) (padded-b36 (suc w) n) (omega (arith, length-padded w n h))
    ∙ ap (λ k. some k) (padded_read (suc w) n)
