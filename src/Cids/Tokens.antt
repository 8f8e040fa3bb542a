-- ===== src/Cids/Tokens.antt =====
-- Searching an id for the token at its end.
use deployquant.Prelude.{
  ℕ, zero, suc, ◌+◌, ◌-◌, ◌≤◌, ◌<◌, ◌≡◌, refl, sym, ap, ◌∙◌, true, false, none, some, [], ◌∷◌, ◌++◌,
  append_assoc, length, length-append, take, drop, drop-append, arith,
}
use deployquant.Prelude.Eq.{eq_nat, eq_list, ==_refl}
use deployquant.Prelude.Text.{Text, codes, starts_with}
use deployquant.Cids.Base36.{is_b36, all_b36}
use deployquant.Cids.Defs.{strip_newline, last_part, token_at_end, search_token}

strip_plain : (p q : Text) → all_b36 q ≡ true → 0 < length q → strip_newline (p ++ q) ≡ p ++ q
unfolding strip_newline all_b36 is_b36
strip_plain [] [] h k = refl
strip_plain [] (c ∷ []) h k = ground arith
strip_plain [] (c ∷ d ∷ q) h k = ground (arith, strip_plain [] (d ∷ q))
strip_plain (c ∷ []) [] h k = ground arith
strip_plain (c ∷ []) (d ∷ q) h k = ap (λ s. c ∷ s) (strip_plain [] (d ∷ q) h k)
strip_plain (c ∷ d ∷ p) q h k = ap (λ s. c ∷ s) (strip_plain (d ∷ p) q h k)

last_part-append : (p q : Text) → last_part (length q) (p ++ q) ≡ q
unfolding last_part
last_part-append p q =
    ap (λ (n : ℕ). drop n (p ++ q)) (omega (arith, length-append p q)) ∙ drop-append p q

starts_with-append : (m q : Text) → starts_with (m ++ q) m ≡ true
starts_with-append [] q = refl
starts_with-append (c ∷ m) q = ground (arith, starts_with-append m q, ==_refl c)

token_at_end_lem :
    (mark line enc : Text) (w : ℕ)
    → all_b36 enc ≡ true
    → length mark + w ≤ length line
    → last_part w line ≡ enc
    → last_part (length mark + w) line ≡ mark ++ enc
    → token_at_end mark w line ≡ some enc
unfolding token_at_end
token_at_end_lem mark line enc w h fits tail whole = ground (
  arith,
  h,
  fits,
  tail,
  whole,
  starts_with-append mark enc,
  ap all_b36 tail,
  ap (λ s. starts_with s mark) whole,
)

-- A token at the end is found, and nothing of it is lost.
pub found :
    (mark p enc : Text) (w : ℕ)
    → all_b36 enc ≡ true
    → length enc ≡ suc w
    → search_token mark (suc w) (p ++ mark ++ enc) ≡ some enc
unfolding search_token
found mark p enc w h k =
    ap (token_at_end mark (suc w)) (strip_plain (p ++ mark) enc h (omega (arith, k)))
    ∙ token_at_end_lem mark (p ++ mark ++ enc) enc (suc w) h
        (omega (arith, k, length-append (p ++ mark) enc, length-append p mark))
        (ap (λ n. last_part n (p ++ mark ++ enc)) (sym k) ∙ last_part-append (p ++ mark) enc)
        (ap (last_part (length mark + suc w)) (append_assoc p mark enc)
          ∙ ap (λ n. last_part n (p ++ (mark ++ enc))) (omega (arith, k, length-append mark enc))
          ∙ last_part-append p (mark ++ enc))

-- A dash in the last characters is no part of a token.
dash_in : (j : ℕ) (p q : Text) → j ≤ length p → all_b36 (drop j (p ++ codes "-" ++ q)) ≡ false
unfolding all_b36 is_b36
dash_in zero [] q h = refl
dash_in zero (c ∷ p) q h = ground (arith, dash_in zero p q)
dash_in (suc j) [] q h = ground arith
dash_in (suc j) (c ∷ p) q h = dash_in j p q (omega (arith, h))

pub missing :
    (mark p q : Text) (w : ℕ)
    → all_b36 q ≡ true
    → 0 < length q
    → length q < w
    → search_token mark w (p ++ codes "-" ++ q) ≡ none
unfolding search_token token_at_end last_part
missing mark p q w h k long =
    ap (token_at_end mark w) (strip_plain (p ++ codes "-") q h k)
    ∙ ground (
      arith,
      length-append (p ++ codes "-") q,
      length-append p (codes "-"),
      dash_in (length (p ++ codes "-" ++ q) - w) p q,
    )

pub take_b36 : (n : ℕ) (s : Text) → all_b36 s ≡ true → all_b36 (take n s) ≡ true
unfolding all_b36
take_b36 zero s h = refl
take_b36 (suc n) [] h = refl
take_b36 (suc n) (c ∷ s) h = ground (arith, take_b36 n s)

pub all_b36-append : (s t : Text) → all_b36 s ≡ true → all_b36 t ≡ true → all_b36 (s ++ t) ≡ true
unfolding all_b36
all_b36-append [] t h k = k
all_b36-append (c ∷ s) t h k = ground (arith, all_b36-append s t)

pub length-take_long : (n : ℕ) (s : Text) → n ≤ length s → length (take n s) ≡ n
length-take_long zero s h = omega arith
length-take_long (suc n) [] h = omega (arith, h)
length-take_long (suc n) (c ∷ s) h = omega (arith, length-take_long n s (omega (arith, h)))
