-- ===== src/Identity.antt =====
-- dqengine/runtime/identity.py: the identity of one resting order.
use deployquant.Prelude.{ℕ, zero, suc, ◌+◌, ◌/◌, ◌%◌, [], ◌∷◌, ◌++◌, ltb, if◌then◌else◌}
use deployquant.Prelude.Eq.{eq_nat}
use deployquant.Prelude.Int.{ℤ, pos, negsuc}
use deployquant.Prelude.Text.{Text, codes, upper, starts_with}

abbrev pub generated_tag_prefix : Text
generated_tag_prefix = codes "ir:"

-- `str(n)`, with fuel above n
unfoldable pub decimal_from : ℕ → ℕ → Text
decimal_from zero n = []
decimal_from (suc fuel) n =
    let more = decimal_from fuel (n / 10) in
    if ltb n 10 then (b'0' + n) ∷ [] else more ++ (b'0' + n % 10) ∷ []

unfoldable pub decimal : ℕ → Text
decimal n = decimal_from (suc n) n

-- `str(n)` for a signed number
unfoldable pub int_text : ℤ → Text
int_text (pos n) = decimal n
int_text (negsuc n) = codes "-" ++ decimal (suc n)

-- `t[len("ir:"):]`
unfoldable pub drop_prefix : Text → Text
drop_prefix (a ∷ b ∷ c ∷ rest) = rest
drop_prefix t = []

unfoldable pub intent_id : Text → ℕ → Text → Text
intent_id symbol order_id tag =
    if starts_with tag generated_tag_prefix
    then drop_prefix tag
    else codes "py:" ++ upper symbol ++ codes ":" ++ decimal order_id
