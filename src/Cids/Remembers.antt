-- ===== src/Cids/Remembers.antt =====
-- A level and its token.
use deployquant.Prelude.{
  ℕ, ◌-◌, ◌^◌, ◌≤◌, ◌<◌, ◌≡◌, refl, sym, ap, ◌∙◌, Bool, true, false, Option, none, some, [], ◌++◌,
  ◌⊎◌, append-nil, append_assoc, length, take, drop, take-append, drop-append, ltb, if◌then◌else◌,
  Bool-cases, inl, inr, arith,
}
use deployquant.Prelude.Eq.{eq_nat, eq_list}
use deployquant.Prelude.Text.{Text, codes}
use deployquant.Prelude.Float.{Float}
use deployquant.Cids.Base36.{all_b36, padded, padded-b36, length-padded, decode-padded}
use deployquant.Cids.Tokens.{found, missing, take_b36, length-take_long}
use deployquant.Cids.Defs.{
  exit_rand_len, search_token, of_cents, cents_of, quantize_level, encode_level, level_of_group,
  decode_level, legs_of_group, encode_maybe, level_token,
}

-- The hex digits of a fresh uuid, of which four are used.
abbrev pub IsHex : Text → Type 0
IsHex hex = (all_b36 hex ≡ true) × (4 ≤ length hex)

-- An id before its token.
abbrev pub stem : Text → Text → Text
stem cid_prefix hex = cid_prefix ++ codes "-" ++ take exit_rand_len hex

pub no_token :
    (mark cid_prefix hex : Text) (w : ℕ)
    → IsHex hex
    → 4 < w
    → search_token mark w (stem cid_prefix hex ++ []) ≡ none
no_token mark cid_prefix hex w h k =
    ap (search_token mark w) (append-nil (stem cid_prefix hex))
    ∙ missing mark cid_prefix (take 4 hex) w (take_b36 4 hex h.0)
        (omega (arith, length-take_long 4 hex h.1)) (omega (arith, k, length-take_long 4 hex h.1))

-- A price of n cents, multiplied out again, rounds to n: so do floats up to 10^13.
unfoldable pub KeepsCents {ℓ} : (F : Type ℓ) ⦃f : Float F⦄ → Type 0
KeepsCents F = (n : ℕ) → n < 10 ^ 13 → cents_of (of_cents {F = F} n) ≡ n

module _ {ℓ} {F : Type ℓ} ⦃f : Float F⦄ where
  abbrev pub is_wide : F → Bool
  is_wide value = ltb (36 ^ 5 - 1) (cents_of value)

  unfoldable pub IsPriced : Option F → Type 0
  IsPriced none = Unit
  IsPriced (some value) = cents_of value < 10 ^ 13

  -- A level whose cents fit in five digits, to the cent.
  unfoldable pub remembered : Option F → Option F
  remembered none = none
  remembered (some value) = if is_wide value then none else some (quantize_level value)

  encode_lem :
      (law : KeepsCents F) (v : F)
      → cents_of v < 10 ^ 13
      → encode_level v ≡ (if is_wide v then none else some (padded 5 (cents_of v)))
  unfolding KeepsCents encode_level quantize_level
  encode_lem law v h =
      ap (λ (n : ℕ). if ltb (36 ^ 5 - 1) n then none else some (padded 5 n)) (law (cents_of v) h)

  encode_wide :
      (law : KeepsCents F) (v : F) → cents_of v < 10 ^ 13 → is_wide v ≡ true → encode_level v ≡ none
  encode_wide law v h wide =
      encode_lem law v h ∙ ap (λ b. if b then none else some (padded 5 (cents_of v))) wide

  encode_narrow :
      (law : KeepsCents F) (v : F)
      → cents_of v < 10 ^ 13
      → is_wide v ≡ false
      → encode_level v ≡ some (padded 5 (cents_of v))
  encode_narrow law v h narrow =
      encode_lem law v h ∙ ap (λ b. if b then none else some (padded 5 (cents_of v))) narrow

  group_lem :
      (v : F)
      → is_wide v ≡ false
      → level_of_group (some (padded 5 (cents_of v))) ≡ some (quantize_level v)
  unfolding level_of_group quantize_level
  group_lem v h =
      ap (λ o. elim o [ none ↦ none | some n ↦ some (of_cents n) ])
        (decode-padded 4 (cents_of v) (ground (arith, h)))

  pub narrow_length : (v : F) → is_wide v ≡ false → length (padded 5 (cents_of v)) ≡ 5
  narrow_length v h = length-padded 4 (cents_of v) (ground (arith, h))

  -- A level either leaves no token, or leaves its cents.
  unfoldable pub Encoded : Option F → Type ℓ
  Encoded o =
      ((encode_maybe o ≡ none) × (remembered o ≡ none))
      ⊎ ((v : F) × ((is_wide v ≡ false)
            × ((encode_maybe o ≡ some (padded 5 (cents_of v)))
                × (remembered o ≡ some (quantize_level v)))))

  pub encoded : (law : KeepsCents F) (o : Option F) → IsPriced o → Encoded o
  unfolding Encoded encode_maybe remembered IsPriced
  encoded law none k = inl (refl, refl)
  encoded law (some v) k =
      let pick : Bool → Option F = λ b. if b then none else some (quantize_level v) in
      elim (Bool-cases (is_wide v)) [
        | inl wide ↦ inl (encode_wide law v k wide, ap pick wide)
        | inr narrow ↦ inr (v, (narrow, (encode_narrow law v k narrow, ap pick narrow)))
      ]

  pub one_level :
      (law : KeepsCents F) (cid_prefix hex : Text) (o : Option F)
      → IsHex hex
      → IsPriced o
      → decode_level (stem cid_prefix hex ++ level_token (encode_maybe o)) ≡ remembered o
  unfolding decode_level level_token Encoded level_of_group
  one_level law cid_prefix hex o h k =
      let base = stem cid_prefix hex in
      let read : Option Text → Option F = λ e. decode_level (base ++ level_token e) in
      elim (encoded law o k) [
        | inl gone ↦
            ap read gone.0
            ∙ ap level_of_group (no_token (codes "-L") cid_prefix hex 5 h (omega arith))
            ∙ sym gone.1
        | inr (v, (narrow, (enc, kept))) ↦
            ap read enc
            ∙ ap (λ s. level_of_group (search_token (codes "-L") 5 s))
                (sym (append_assoc base (codes "-L") (padded 5 (cents_of v))))
            ∙ ap level_of_group (
                found (codes "-L") base (padded 5 (cents_of v)) 4 (padded-b36 5 (cents_of v))
                  (narrow_length v narrow))
            ∙ group_lem v narrow
            ∙ sym kept
      ]

  -- Both legs, or neither.
  unfoldable pub both_legs : Option F → Option F → Option F × Option F
  both_legs (some stop) (some limit) = (some stop, some limit)
  both_legs (some stop) none = (none, none)
  both_legs none limit = (none, none)

  pub legs_split :
      (v w : F)
      → is_wide v ≡ false
      → is_wide w ≡ false
      → legs_of_group (some (padded 5 (cents_of v) ++ padded 5 (cents_of w)))
        ≡ (some (quantize_level v), some (quantize_level w))
  unfolding legs_of_group
  legs_split v w hv hw =
      let a = padded 5 (cents_of v) in
      let b = padded 5 (cents_of w) in
      let long : 5 ≡ length a = sym (narrow_length v hv) in
      let first : take 5 (a ++ b) ≡ a = ap (λ n. take n (a ++ b)) long ∙ take-append a b in
      let second : drop 5 (a ++ b) ≡ b = ap (λ n. drop n (a ++ b)) long ∙ drop-append a b in
      ap (λ x. (level_of_group (some x), level_of_group (some (drop 5 (a ++ b))))) first
      ∙ ap (λ x. (level_of_group (some a), level_of_group (some x))) second
      ∙ ap (λ x. (x, level_of_group (some b))) (group_lem v hv)
      ∙ ap (λ x. (some (quantize_level v), x)) (group_lem w hw)
