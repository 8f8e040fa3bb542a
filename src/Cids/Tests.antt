-- ===== src/Cids/Tests.antt =====
-- dqengine/live/executor.py: the ids of a stop and of a stop limit.
use deployquant.Prelude.{
  ℕ, ◌+◌, ◌*◌, ◌/◌, ◌≡◌, refl, ap, ◌∙◌, true, Option, none, some, [], ◌∷◌, ◌++◌, arith,
}
use deployquant.Prelude.Int.{pos, pos_part, ◌*ℤ◌, ◌+ℤ◌}
use deployquant.Prelude.Text.{Text, codes, starts_with}
use deployquant.Prelude.Float.{Fixed, fixed_float, quot}
use deployquant.Cids.Base36.{b36_char, is_b36, all_b36, b36_digits, b36encode, rjust}
use deployquant.Cids.Defs.{
  cents_of, of_cents, hundred, token_of, encode_maybe, encode_level, quantize_level, level_token,
  legs_token, decode_stop_limit_legs, exit_cid_code, rule_token, exit_cid_prefix, entry_cid_prefix,
  cid_with_level, decode_level,
}
use deployquant.Cids.Remembers.{IsHex, KeepsCents, IsPriced, remembered, both_legs}
use deployquant.Cids.RoundTrip.{
  resting_level, decode_level-cid_with_level, decode_stop_limit_legs-cid_with_level,
}
use deployquant.Cids.Length.{IsSendable, cid_with_level-exit_cid_prefix}
use deployquant.Cids.Prefix.{exit_stop, kind_text, exit_cid_prefix-kind}

times_pos : (a b : ℕ) → pos a *ℤ pos b ≡ pos (a * b)
unfolding ◌*ℤ◌
times_pos a b = ground arith

zero_over : (b : ℕ) → 0 / b ≡ 0
zero_over b = omega arith

quot_pos : (a b : ℕ) → quot (pos a) (pos b) ≡ pos (a / b)
unfolding quot
quot_pos a b = ground (arith, zero_over b)

in_cents : (n : ℕ) → (n * 10000 * 10000 / 1000000 * 1000000 / 10000 + 5000) / 10000 ≡ n
in_cents n = omega arith

nearest_pos : (m : ℕ) → fixed_float.nearest (pos m) ≡ pos ((m + 5000) / 10000)
unfolding ◌+ℤ◌
nearest_pos m = ground (arith, quot_pos (m + 5000) 10000)

of_cents_pos : (n : ℕ) → of_cents {F = Fixed} n ≡ pos (n * 10000 * 10000 / 1000000)
unfolding ◌*ℤ◌
of_cents_pos n =
    ap (λ (x : Fixed). quot (x *ℤ pos 10000) (pos 1000000)) (times_pos n 10000)
    ∙ ap (λ (x : Fixed). quot x (pos 1000000)) (times_pos (n * 10000) 10000)
    ∙ quot_pos (n * 10000 * 10000) 1000000

times_hundred : (q : ℕ) → fixed_float.times (pos q) hundred ≡ pos (q * 1000000 / 10000)
unfolding ◌*ℤ◌
times_hundred q =
    ap (λ (x : Fixed). quot x (pos 10000)) (times_pos q 1000000) ∙ quot_pos (q * 1000000) 10000

Fixed-KeepsCents : KeepsCents Fixed
unfolding KeepsCents
Fixed-KeepsCents n h =
    let q = n * 10000 * 10000 / 1000000 in
    ap (λ (x : Fixed). cents_of x) (of_cents_pos n)
    ∙ ap (λ (x : Fixed). pos_part (fixed_float.nearest x)) (times_hundred q)
    ∙ ap (λ (x : Fixed). pos_part x) (nearest_pos (q * 1000000 / 10000))
    ∙ in_cents n

-- The digits are those of `_B36_ALPHABET`, in its order.
alphabet : b36_char 0 ∷ b36_char 9 ∷ b36_char 10 ∷ b36_char 35 ∷ [] ≡ codes "09az"
unfolding b36_char
alphabet = refl

abbrev hash : Text → ℕ
hash rule = 46_657

abbrev hex : Text
hex = codes "0f3acc21"

stop_id :
    cid_with_level hex
      (exit_cid_prefix hash (codes "dep-17") (codes "stop") (codes "AAPL") (codes "r1"))
      (codes "stop")
      none
      (some (pos 12_345_000))
      none
    ≡ some (codes "sl-stp-AAPL-dep--001-0f3a-L02n96")
unfolding cid_with_level exit_cid_prefix exit_cid_code rule_token token_of encode_maybe encode_level
    quantize_level level_token rjust b36encode b36_digits b36_char quot ◌*ℤ◌ ◌+ℤ◌
stop_id = refl

stop_limit_id :
    cid_with_level hex
      (exit_cid_prefix hash (codes "dep-17") (codes "stop_limit") (codes "AAPL") [])
      (codes "stop_limit")
      (some (pos 2_030_000))
      (some (pos 12_345_000))
      none
    ≡ some (codes "sl-stl-AAPL-dep--0f3a-B02n9600fnw")
unfolding cid_with_level exit_cid_prefix exit_cid_code rule_token token_of encode_maybe encode_level
    quantize_level legs_token rjust b36encode b36_digits b36_char quot ◌*ℤ◌ ◌+ℤ◌
stop_limit_id = refl

hex-IsHex : IsHex hex
unfolding all_b36 is_b36
hex-IsHex = (refl, omega arith)

abbrev stop_at : Option Fixed
stop_at = some (pos 12_345_000)

abbrev limit_at : Option Fixed
limit_at = some (pos 2_030_000)

stop_at-IsPriced : IsPriced stop_at
unfolding IsPriced quot ◌*ℤ◌ ◌+ℤ◌
stop_at-IsPriced = omega arith

limit_at-IsPriced : IsPriced limit_at
unfolding IsPriced quot ◌*ℤ◌ ◌+ℤ◌
limit_at-IsPriced = omega arith

resting_at-IsPriced : IsPriced (resting_level (codes "stop") stop_at none)
unfolding resting_level
resting_at-IsPriced = stop_at-IsPriced

decode_level-cid_with_level_example :
    decode_level (codes "sl-stp-AAPL-dep--001-0f3a-L02n96")
    ≡ remembered (resting_level (codes "stop") stop_at none)
decode_level-cid_with_level_example =
    decode_level-cid_with_level Fixed-KeepsCents hex
      (exit_cid_prefix hash (codes "dep-17") (codes "stop") (codes "AAPL") (codes "r1"))
      (codes "stop") none stop_at none (codes "sl-stp-AAPL-dep--001-0f3a-L02n96") hex-IsHex
      resting_at-IsPriced refl refl stop_id

decode_stop_limit_legs-cid_with_level_example :
    decode_stop_limit_legs (codes "sl-stl-AAPL-dep--0f3a-B02n9600fnw")
    ≡ both_legs (remembered stop_at) (remembered limit_at)
decode_stop_limit_legs-cid_with_level_example =
    decode_stop_limit_legs-cid_with_level Fixed-KeepsCents hex
      (exit_cid_prefix hash (codes "dep-17") (codes "stop_limit") (codes "AAPL") []) limit_at
      stop_at none (codes "sl-stl-AAPL-dep--0f3a-B02n9600fnw") hex-IsHex stop_at-IsPriced
      limit_at-IsPriced stop_limit_id

cid_with_level-exit_cid_prefix_example :
    IsSendable (
      cid_with_level hex
        (exit_cid_prefix hash (codes "dep-17") (codes "stop_limit") (codes "BRK.B") (codes "r1"))
        (codes "stop_limit")
        limit_at
        stop_at
        none)
    × IsSendable (
        cid_with_level hex
          (entry_cid_prefix hash (codes "dep-17") (codes "stop_limit") (codes "BRK.B") (codes "r1"))
          (codes "stop_limit")
          limit_at
          stop_at
          none)
cid_with_level-exit_cid_prefix_example =
    cid_with_level-exit_cid_prefix hash hex (codes "dep-17") (codes "stop_limit") (codes "BRK.B")
      (codes "r1") limit_at stop_at none

same_prefix :
    starts_with
      (exit_cid_prefix hash (codes "dep-17") (kind_text exit_stop) (codes "AAPL") (codes "r1")
        ++ codes "-0f3a")
      (exit_cid_prefix hash (codes "dep-17") (kind_text exit_stop) (codes "AAPL") (codes "r1"))
    ≡ true
unfolding exit_cid_prefix exit_cid_code rule_token rjust b36encode b36_digits b36_char kind_text
same_prefix = refl

exit_cid_prefix-kind_example : exit_stop ≡ exit_stop
exit_cid_prefix-kind_example =
    exit_cid_prefix-kind hash exit_stop exit_stop (codes "dep-17") (codes "dep-17") (codes "AAPL")
      (codes "AAPL") (codes "r1") (codes "r1") (codes "-0f3a") same_prefix
