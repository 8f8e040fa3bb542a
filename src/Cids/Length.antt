-- ===== src/Cids/Length.antt =====
-- Every id fits in the venues' field.
use deployquant.Prelude.{
  ℕ, ◌+◌, ◌%◌, ◌^◌, ◌≤◌, ◌≡◌, Bool, true, false, Option, none, some, ◌++◌, length, length-append,
  take, length-take, if◌then◌else◌, if-cases, ltb, arith,
}
use deployquant.Prelude.Eq.{◌==◌, eq_nat, eq_list}
use deployquant.Prelude.Text.{Text, codes}
use deployquant.Prelude.Float.{Float}
use deployquant.Cids.Base36.{length-padded}
use deployquant.Cids.Defs.{
  rule_token, exit_cid_code, entry_cid_code, exit_cid_prefix, entry_cid_prefix, level_token,
  legs_token, encode_maybe, encode_level, cents_of, quantize_level, percent, token_of,
  cid_with_level,
}

Short : ℕ → Text → Type 0
Short n s = length s ≤ n

exit_cid_code-Short : (kind : Text) → Short 3 (exit_cid_code kind)
unfolding exit_cid_code Short
exit_cid_code-Short kind = ground (arith, length-take 3 kind)

entry_cid_code-Short : (kind : Text) → Short 3 (entry_cid_code kind)
unfolding entry_cid_code Short
entry_cid_code-Short kind = ground (arith, length-take 3 kind)

rule_token-Short : (crc : Text → ℕ) (rule_id : Text) → Short 4 (rule_token crc rule_id)
unfolding rule_token Short
rule_token-Short crc rule_id = ground (arith, length-padded 2 (crc rule_id % 36 ^ 3))

append-Short : (n m : ℕ) (s t : Text) → Short n s → Short m t → Short (n + m) (s ++ t)
unfolding Short
append-Short n m s t h k = omega (arith, h, k, length-append s t)

take-Short : (n : ℕ) (s : Text) → Short n (take n s)
unfolding Short
take-Short n s = length-take n s

codes-Short : (s : Text) → Short (length s) s
unfolding Short
codes-Short s = omega arith

weaken : (n m : ℕ) (s : Text) → n ≤ m → Short n s → Short m s
unfolding Short
weaken n m s h k = omega (arith, h, k)

-- What the two families have in common after their codes.
rest_of : (Text → ℕ) → Text → Text → Text → Text → Text
rest_of crc family dep_id sym rule_id =
    family ++ codes "-" ++ take 5 sym ++ codes "-" ++ take 4 dep_id ++ rule_token crc rule_id

rest_of-Short :
    (crc : Text → ℕ) (family dep_id sym rule_id : Text)
    → Short 6 family
    → Short 21 (rest_of crc family dep_id sym rule_id)
unfolding rest_of
rest_of-Short crc family dep_id sym rule_id h =
    append-Short 17 4 _ _
      (append-Short 13 4 _ _
        (append-Short 12 1 _ _
          (append-Short 7 5 _ _ (append-Short 6 1 family _ h (codes-Short (codes "-")))
            (take-Short 5 sym))
          (codes-Short (codes "-")))
        (take-Short 4 dep_id))
      (rule_token-Short crc rule_id)

-- The longest prefix that leaves room for the rest of an id.
room : Bool → ℕ
room is_limit = if is_limit then 33 else 23

room-Short : (b : Bool) (x y : Text) → Short 33 x → Short 23 y → Short (room b) (if b then x else y)
unfolding room
room-Short true x y h k = h
room-Short false x y h k = k

exit_cid_prefix-Short :
    (crc : Text → ℕ) (dep_id kind sym rule_id : Text)
    → Short (room (kind == codes "limit")) (exit_cid_prefix crc dep_id kind sym rule_id)
unfolding exit_cid_prefix rest_of
exit_cid_prefix-Short crc dep_id kind sym rule_id =
    room-Short (kind == codes "limit") _ _
      (weaken 24 33 _ (omega arith)
        (append-Short 6 18 _ _ (codes-Short (codes "sl-tp-")) (take-Short 18 dep_id)))
      (weaken 21 23 _ (omega arith) (
        rest_of-Short crc (codes "sl-" ++ exit_cid_code kind) dep_id sym rule_id
          (append-Short 3 3 _ _ (codes-Short (codes "sl-")) (exit_cid_code-Short kind))))

entry_cid_prefix-Short :
    (crc : Text → ℕ) (dep_id kind sym rule_id : Text)
    → Short 21 (entry_cid_prefix crc dep_id kind sym rule_id)
unfolding entry_cid_prefix rest_of
entry_cid_prefix-Short crc dep_id kind sym rule_id =
    rest_of-Short crc (codes "en-" ++ entry_cid_code kind) dep_id sym rule_id
      (append-Short 3 3 _ _ (codes-Short (codes "en-")) (entry_cid_code-Short kind))

Short-room : (b : Bool) (s : Text) → Short 21 s → Short (room b) s
unfolding room
Short-room true s h = weaken 21 33 s (omega arith) h
Short-room false s h = weaken 21 23 s (omega arith) h

-- An answer that is an id of at most 40 characters.
unfoldable pub IsSendable : Option Text → Type 0
IsSendable none = ⊥
IsSendable (some cid) = length cid ≤ 40

fits_by :
    (b : Bool) (cid_prefix hex token : Text)
    → Short (room b) cid_prefix
    → Short 12 token
    → IsSendable (
        if b
        then some (cid_prefix ++ codes "-" ++ take 6 hex)
        else (if ltb 40 (length (cid_prefix ++ codes "-" ++ take 4 hex ++ token))
            then none
            else some (cid_prefix ++ codes "-" ++ take 4 hex ++ token)))
unfolding IsSendable room Short
fits_by true cid_prefix hex token h k =
    append-Short 34 6 _ _ (append-Short 33 1 cid_prefix _ h (codes-Short (codes "-")))
      (take-Short 6 hex)
fits_by false cid_prefix hex token h k = ground (
  arith,
  append-Short 28 12 (cid_prefix ++ codes "-" ++ take 4 hex) token
      (append-Short 24 4 (cid_prefix ++ codes "-") _
        (append-Short 23 1 cid_prefix _ h (codes-Short (codes "-"))) (take-Short 4 hex))
      k,
)

-- What an encoded level adds at most.
FiveDigits : Option Text → Type 0
FiveDigits none = Unit
FiveDigits (some enc) = length enc ≡ 5

level_token-Short : (e : Option Text) → FiveDigits e → Short 12 (level_token e)
unfolding level_token FiveDigits Short
level_token-Short none h = omega arith
level_token-Short (some enc) h = omega (arith, h)

legs_token-Short : (e d : Option Text) → FiveDigits e → FiveDigits d → Short 12 (legs_token e d)
unfolding legs_token FiveDigits Short
legs_token-Short none d h k = omega arith
legs_token-Short (some a) none h k = omega arith
legs_token-Short (some a) (some b) h k = omega (arith, h, k, length-append (codes "-B" ++ a) b)

module _ {ℓ} {F : Type ℓ} ⦃f : Float F⦄ where
  encode_maybe-FiveDigits : (o : Option F) → FiveDigits (encode_maybe o)
  unfolding encode_maybe encode_level FiveDigits
  encode_maybe-FiveDigits none = tt
  encode_maybe-FiveDigits (some v) = ground (arith, length-padded 4 (cents_of (quantize_level v)))

  token_of-Short :
      (kind : Text) (price stop_px trail : Option F) → Short 12 (token_of kind price stop_px trail)
  unfolding token_of
  token_of-Short kind price stop_px trail =
      if-cases (Short 12) (kind == codes "trailing_stop")
        (level_token-Short _ (encode_maybe-FiveDigits (percent trail)))
        (if-cases (Short 12) (kind == codes "stop_limit")
          (legs_token-Short _ _ (encode_maybe-FiveDigits stop_px) (encode_maybe-FiveDigits price))
          (level_token-Short _ (encode_maybe-FiveDigits stop_px)))

  cid_with_level-IsSendable :
      (hex cid_prefix kind : Text) (price stop_px trail : Option F)
      → Short (room (kind == codes "limit")) cid_prefix
      → IsSendable (cid_with_level hex cid_prefix kind price stop_px trail)
  unfolding cid_with_level
  cid_with_level-IsSendable hex cid_prefix kind price stop_px trail h =
      fits_by (kind == codes "limit") cid_prefix hex (token_of kind price stop_px trail) h
        (token_of-Short kind price stop_px trail)

  -- Every id that is made for an exit or an entry, of whatever kind, deployment, symbol and rule and
  -- at whatever levels, has at most 40 characters, so the guard on the length never raises.
  pub cid_with_level-exit_cid_prefix :
      (crc : Text → ℕ) (hex dep_id kind sym rule_id : Text) (price stop_px trail : Option F)
      → IsSendable (
          cid_with_level hex (exit_cid_prefix crc dep_id kind sym rule_id) kind price stop_px trail)
        × IsSendable (
            cid_with_level hex
              (entry_cid_prefix crc dep_id kind sym rule_id)
              kind
              price
              stop_px
              trail)
  cid_with_level-exit_cid_prefix crc hex dep_id kind sym rule_id price stop_px trail = (
    cid_with_level-IsSendable hex _ kind price stop_px trail
        (exit_cid_prefix-Short crc dep_id kind sym rule_id),
    cid_with_level-IsSendable hex _ kind price stop_px trail
        (Short-room (kind == codes "limit") _ (entry_cid_prefix-Short crc dep_id kind sym rule_id)),
  )
