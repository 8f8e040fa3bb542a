-- ===== src/Cids/RoundTrip.antt =====
-- What an id remembers of the levels that its order was placed at.
use deployquant.Prelude.{
  ◌≡◌, refl, sym, ap, ◌∙◌, false, Option, none, some, [], ◌++◌, append_assoc, length-append,
  if◌then◌else◌, inl, inr, arith,
}
use deployquant.Prelude.Eq.{◌==◌, eq_nat, eq_list}
use deployquant.Prelude.Text.{Text, codes}
use deployquant.Prelude.Float.{Float}
use deployquant.Cids.Base36.{padded, padded-b36}
use deployquant.Cids.Tokens.{found, all_b36-append}
use deployquant.Cids.Defs.{
  search_token, cents_of, quantize_level, decode_level, legs_of_group, decode_stop_limit_legs,
  encode_maybe, level_token, legs_token, percent, token_of, cid_with_level,
}
use deployquant.Cids.Remembers.{
  IsHex, stem, no_token, KeepsCents, IsPriced, is_wide, remembered, narrow_length, Encoded, encoded,
  one_level, both_legs, legs_split,
}

module _ {ℓ} {F : Type ℓ} ⦃f : Float F⦄ where
  -- Legs and what is read off them, before a token's fate is known.
  reads : Text → Option Text → Option Text → Option F × Option F
  reads base e d = decode_stop_limit_legs (base ++ legs_token e d)

  reads_eq :
      (base : Text) {e e' d d' : Option Text} → e ≡ e' → d ≡ d' → reads base e d ≡ reads base e' d'
  reads_eq base {e' = e'} {d = d} p q = ap (λ e. reads base e d) p ∙ ap (reads base e') q

  both_eq : {a a' b b' : Option F} → a ≡ a' → b ≡ b' → both_legs a b ≡ both_legs a' b'
  both_eq {a' = a'} {b = b} p q = ap (λ a. both_legs a b) p ∙ ap (both_legs a') q

  absent :
      (cid_prefix hex : Text)
      → IsHex hex
      → legs_of_group {F = F} (search_token (codes "-B") 10 (stem cid_prefix hex ++ []))
        ≡ (none, none)
  unfolding legs_of_group
  absent cid_prefix hex h =
      ap legs_of_group (no_token (codes "-B") cid_prefix hex 10 h (omega arith))

  legs_found :
      (base : Text) (v w : F)
      → is_wide v ≡ false
      → is_wide w ≡ false
      → reads base (some (padded 5 (cents_of v))) (some (padded 5 (cents_of w)))
        ≡ (some (quantize_level v), some (quantize_level w))
  unfolding reads decode_stop_limit_legs legs_token
  legs_found base v w hv hw =
      let a = padded 5 (cents_of v) in
      let b = padded 5 (cents_of w) in
      ap (λ s. legs_of_group (search_token (codes "-B") 10 s))
        (ap (λ s. base ++ s) (append_assoc (codes "-B") a b)
          ∙ sym (append_assoc base (codes "-B") (a ++ b)))
      ∙ ap legs_of_group (
          found (codes "-B") base (a ++ b) 9
            (all_b36-append a b (padded-b36 5 (cents_of v)) (padded-b36 5 (cents_of w)))
            (omega (arith, length-append a b, narrow_length v hv, narrow_length w hw)))
      ∙ legs_split v w hv hw

  two_legs :
      (law : KeepsCents F) (cid_prefix hex : Text) (stop limit : Option F)
      → IsHex hex
      → IsPriced stop
      → IsPriced limit
      → reads (stem cid_prefix hex) (encode_maybe stop) (encode_maybe limit)
        ≡ both_legs (remembered stop) (remembered limit)
  unfolding reads decode_stop_limit_legs legs_token both_legs Encoded
  two_legs law cid_prefix hex stop limit h ks kl =
      let base = stem cid_prefix hex in
      elim (encoded law stop ks) [
        | inl gone ↦ reads_eq base gone.0 refl ∙ absent cid_prefix hex h ∙ sym (both_eq gone.1 refl)
        | inr (v, (hv, (ev, rv))) ↦ elim (encoded law limit kl) [
          | inl gone ↦ reads_eq base ev gone.0 ∙ absent cid_prefix hex h ∙ sym (both_eq rv gone.1)
          | inr (w, (hw, (ew, kept))) ↦
              reads_eq base ev ew ∙ legs_found base v w hv hw ∙ sym (both_eq rv kept)
        ]
      ]

  -- An id that is returned is its stem and its token.
  cid_parts :
      (hex cid_prefix kind : Text) (price stop_px trail : Option F) (cid : Text)
      → (kind == codes "limit") ≡ false
      → cid_with_level hex cid_prefix kind price stop_px trail ≡ some cid
      → stem cid_prefix hex ++ token_of kind price stop_px trail ≡ cid
  unfolding cid_with_level
  cid_parts hex cid_prefix kind price stop_px trail cid h r = ground (arith, h, r)

  -- The level that an order rests at, as a percentage for a trailing stop.
  unfoldable pub resting_level : Text → Option F → Option F → Option F
  resting_level kind stop_px trail =
      if kind == codes "trailing_stop" then percent trail else stop_px

  token_lem :
      (kind : Text) (price stop_px trail : Option F)
      → (kind == codes "stop_limit") ≡ false
      → token_of kind price stop_px trail
        ≡ level_token (encode_maybe (resting_level kind stop_px trail))
  unfolding token_of resting_level
  token_lem kind price stop_px trail s = ground (arith, s)

  -- For every kind but a limit and a stop limit, the level that is read off the id of a resting order
  -- is the level that the order was placed at, to the cent, and "unknown" exactly where it had none
  -- or needs more than five digits. The random digits are hexadecimal, and an amount of cents
  -- survives being multiplied out.
  pub decode_level-cid_with_level :
      (law : KeepsCents F) (hex cid_prefix kind : Text) (price stop_px trail : Option F)
      (cid : Text)
      → IsHex hex
      → IsPriced (resting_level kind stop_px trail)
      → (kind == codes "limit") ≡ false
      → (kind == codes "stop_limit") ≡ false
      → cid_with_level hex cid_prefix kind price stop_px trail ≡ some cid
      → decode_level cid ≡ remembered (resting_level kind stop_px trail)
  unfolding token_of resting_level
  decode_level-cid_with_level law hex cid_prefix kind price stop_px trail cid h k l s r =
      ap decode_level (
        sym (cid_parts hex cid_prefix kind price stop_px trail cid l r)
        ∙ ap (λ t. stem cid_prefix hex ++ t) (token_lem kind price stop_px trail s))
      ∙ one_level law cid_prefix hex (resting_level kind stop_px trail) h k

  -- For a stop limit, both levels are read off the id of the resting order, to the cent, if both were
  -- given and fit in five digits, and otherwise both are "unknown": one leg is never read alone. The
  -- random digits are hexadecimal, and an amount of cents survives being multiplied out.
  pub decode_stop_limit_legs-cid_with_level :
      (law : KeepsCents F) (hex cid_prefix : Text) (price stop_px trail : Option F) (cid : Text)
      → IsHex hex
      → IsPriced stop_px
      → IsPriced price
      → cid_with_level hex cid_prefix (codes "stop_limit") price stop_px trail ≡ some cid
      → decode_stop_limit_legs cid ≡ both_legs (remembered stop_px) (remembered price)
  unfolding token_of reads
  decode_stop_limit_legs-cid_with_level law hex cid_prefix price stop_px trail cid h ks kl r =
      ap decode_stop_limit_legs
        (sym (cid_parts hex cid_prefix (codes "stop_limit") price stop_px trail cid refl r))
      ∙ two_legs law cid_prefix hex stop_px price h ks kl
