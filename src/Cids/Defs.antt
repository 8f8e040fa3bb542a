-- ===== src/Cids/Defs.antt =====
-- dqengine/live/executor.py: prefixes, level tokens and whole ids. `none` is None, and for a whole id
-- it is the ValueError. `crc` is zlib.crc32, and `hex` a fresh uuid4's hex digits.
use deployquant.Prelude.{
  ℕ, ◌+◌, ◌-◌, ◌*◌, ◌%◌, ◌^◌, ◌&&◌, Option, none, some, [], ◌∷◌, ◌++◌, length, take, drop, leb, ltb,
  if◌then◌else◌,
}
use deployquant.Prelude.Eq.{◌==◌, eq_nat, eq_list}
use deployquant.Prelude.Int.{pos, pos_part}
use deployquant.Prelude.Text.{Text, codes, truthy_text, starts_with}
use deployquant.Prelude.Float.{Float}
use deployquant.Cids.Base36.{all_b36, b36encode, b36decode, rjust}

abbrev pub max_cid_len : ℕ
max_cid_len = 40

abbrev pub dep_id_slice_len : ℕ
dep_id_slice_len = 4

abbrev pub tp_dep_id_slice_len : ℕ
tp_dep_id_slice_len = 18

abbrev pub sym_slice_len : ℕ
sym_slice_len = 5

abbrev pub rule_token_len : ℕ
rule_token_len = 3

abbrev pub level_width : ℕ
level_width = 5

abbrev pub exit_rand_len : ℕ
exit_rand_len = 4

-- `_EXIT_CID_CODE.get(kind, kind[:3])`
unfoldable pub exit_cid_code : Text → Text
exit_cid_code kind =
    if kind == codes "limit"
    then codes "tp"
    else (if kind == codes "stop"
        then codes "stp"
        else (if kind == codes "stop_limit"
            then codes "stl"
            else (if kind == codes "trailing_stop" then codes "trl" else take 3 kind)))

-- `_ENTRY_CID_CODE.get(kind, kind[:3])`
unfoldable pub entry_cid_code : Text → Text
entry_cid_code kind =
    if kind == codes "limit"
    then codes "lmt"
    else (if kind == codes "stop"
        then codes "stp"
        else (if kind == codes "stop_limit" then codes "stl" else take 3 kind))

-- A missing rule_id is [].
unfoldable pub rule_token : (Text → ℕ) → Text → Text
rule_token crc rule_id =
    if truthy_text rule_id
    then codes "-" ++ rjust rule_token_len (b36encode (crc rule_id % 36 ^ rule_token_len))
    else []

unfoldable pub exit_cid_prefix : (Text → ℕ) → Text → Text → Text → Text → Text
exit_cid_prefix crc dep_id kind sym rule_id =
    if kind == codes "limit"
    then codes "sl-tp-" ++ take tp_dep_id_slice_len dep_id
    else codes "sl-"
      ++ exit_cid_code kind
      ++ codes "-"
      ++ take sym_slice_len sym
      ++ codes "-"
      ++ take dep_id_slice_len dep_id
      ++ rule_token crc rule_id

unfoldable pub entry_cid_prefix : (Text → ℕ) → Text → Text → Text → Text → Text
entry_cid_prefix crc dep_id kind sym rule_id =
    codes "en-"
    ++ entry_cid_code kind
    ++ codes "-"
    ++ take sym_slice_len sym
    ++ codes "-"
    ++ take dep_id_slice_len dep_id
    ++ rule_token crc rule_id

-- `$` also matches before a newline that ends the text.
unfoldable pub strip_newline : Text → Text
strip_newline [] = []
strip_newline (c ∷ []) = if c == 10 then [] else c ∷ []
strip_newline (c ∷ d ∷ s) = c ∷ strip_newline (d ∷ s)

-- The last n characters.
unfoldable pub last_part : ℕ → Text → Text
last_part n s = drop (length s - n) s

-- The group of `re.search(rf"{mark}([0-9a-z]{{{w}}})$", s)`, and the same without its newline
unfoldable pub token_at_end : Text → ℕ → Text → Option Text
token_at_end mark w line =
    let tail = last_part w line in
    if leb (length mark + w) (length line)
      && starts_with (last_part (length mark + w) line) mark
      && all_b36 tail
    then some tail
    else none

unfoldable pub search_token : Text → ℕ → Text → Option Text
search_token mark w s = token_at_end mark w (strip_newline s)

unfoldable pub level_token : Option Text → Text
level_token none = []
level_token (some enc) = codes "-L" ++ enc

unfoldable pub legs_token : Option Text → Option Text → Text
legs_token (some stop_enc) (some limit_enc) = codes "-B" ++ stop_enc ++ limit_enc
legs_token (some stop_enc) none = []
legs_token none limit_enc = []

module _ {ℓ} {F : Type ℓ} ⦃f : Float F⦄ where
  open f use {of_int, times, over, nearest}

  abbrev pub hundred : F
  hundred = of_int (pos 100)

  -- `n / 100.0`
  abbrev pub of_cents : ℕ → F
  of_cents n = over (of_int (pos n)) hundred

  -- `max(0, round(value * 100))`
  abbrev pub cents_of : F → ℕ
  cents_of value = pos_part (nearest (times value hundred))

  unfoldable pub quantize_level : F → F
  quantize_level value = of_cents (cents_of value)

  unfoldable pub encode_level : F → Option Text
  encode_level value =
      let cents = cents_of (quantize_level value) in
      if ltb (36 ^ level_width - 1) cents then none else some (rjust level_width (b36encode cents))

  unfoldable pub level_of_group : Option Text → Option F
  level_of_group none = none
  level_of_group (some raw) = elim (b36decode raw) [ none ↦ none | some n ↦ some (of_cents n) ]

  unfoldable pub decode_level : Text → Option F
  decode_level cid = level_of_group (search_token (codes "-L") level_width cid)

  unfoldable pub legs_of_group : Option Text → Option F × Option F
  legs_of_group none = (none, none)
  legs_of_group (some raw) =
      (level_of_group (some (take level_width raw)), level_of_group (some (drop level_width raw)))

  unfoldable pub decode_stop_limit_legs : Text → Option F × Option F
  decode_stop_limit_legs cid = legs_of_group (search_token (codes "-B") (2 * level_width) cid)

  -- `_encode_level(value) if value is not None else None`
  unfoldable pub encode_maybe : Option F → Option Text
  encode_maybe none = none
  encode_maybe (some value) = encode_level value

  unfoldable pub percent : Option F → Option F
  percent none = none
  percent (some trail) = some (times trail hundred)

  unfoldable pub token_of : Text → Option F → Option F → Option F → Text
  token_of kind price stop_px trail =
      if kind == codes "trailing_stop"
      then level_token (encode_maybe (percent trail))
      else (if kind == codes "stop_limit"
          then legs_token (encode_maybe stop_px) (encode_maybe price)
          else level_token (encode_maybe stop_px))

  unfoldable pub cid_with_level : Text → Text → Text → Option F → Option F → Option F → Option Text
  cid_with_level hex cid_prefix kind price stop_px trail =
      if kind == codes "limit"
      then some (cid_prefix ++ codes "-" ++ take 6 hex)
      else (let result =
            (cid_prefix ++ codes "-" ++ take exit_rand_len hex)
            ++ token_of kind price stop_px trail in
          if ltb max_cid_len (length result) then none else some result)
