-- ===== src/Indicators/Extremes.antt =====
-- The highest and the lowest close of a window.
use deployquant.Prelude.{
  ℕ, zero, suc, ◌-◌, ◌≤◌, ◌<◌, ◌≡◌, refl, sym, ap, ◌∙◌, Bool, false, Option, some, List, [], ◌∷◌,
  Among, here, there, length, drop, All, nat_eq, ltb, if◌then◌else◌, Bool-cases, inl, inr, le→ltb,
  if-cases, arith,
}
use deployquant.Prelude.Float.{Float, ◌≼◌, IsNumber, min_of, max_of, IsOrdered}
use deployquant.Prelude.FloatOrder.{max_of-above, min_of-below, max_of-IsNumber, min_of-IsNumber}
use deployquant.Exprs.{Value, number, not_ready}
use deployquant.Indicators.Series.{Maths, DailySeries, last_n}
use deployquant.Indicators.Plain.{highest, lowest, windowed, max_from, min_from, max_list, min_list}

module _ {ℓ} {F : Type ℓ} ⦃f : Float F⦄ where
  -- The largest and the smallest of a list.
  unfoldable pub IsMax : F → List F → Type ℓ
  IsMax x xs = All (λ y. y ≼ x) xs × Among x xs

  unfoldable pub IsMin : F → List F → Type ℓ
  IsMin x xs = All (λ y. x ≼ y) xs × Among x xs

module _ {ℓ} {F : Type ℓ} ⦃f : Float F⦄ (laws : IsOrdered F) where
  open f use {lt, le}

  All-drop {κ} : (P : F → Type κ) (n : ℕ) (xs : List F) → All P xs → All P (drop n xs)
  All-drop P zero xs h = h
  All-drop P (suc n) [] h = h
  All-drop P (suc n) (x ∷ xs) h = All-drop P n xs h.1

  length-drop : (n : ℕ) (xs : List F) → length (drop n xs) ≡ length xs - n
  length-drop zero xs = omega arith
  length-drop (suc n) [] = omega arith
  length-drop (suc n) (x ∷ xs) = omega (arith, length-drop n xs)

  -- The fold's result is above its start and every element.
  max_from-above :
      (best : F) (xs : List F)
      → IsNumber best
      → All IsNumber xs
      → (best ≼ max_from best xs) × All (λ x. x ≼ max_from best xs) xs
  unfolding max_from
  max_from-above best [] h k = (h, tt)
  max_from-above best (x ∷ xs) h k =
      let next = max_of-above laws best x h k.0 in
      let rest = max_from-above (max_of best x) xs (max_of-IsNumber best x h k.0) k.1 in
      (laws.le_trans _ _ _ next.0 rest.0, (laws.le_trans _ _ _ next.1 rest.0, rest.1))

  min_from-below :
      (best : F) (xs : List F)
      → IsNumber best
      → All IsNumber xs
      → (min_from best xs ≼ best) × All (λ x. min_from best xs ≼ x) xs
  unfolding min_from
  min_from-below best [] h k = (h, tt)
  min_from-below best (x ∷ xs) h k =
      let next = min_of-below laws best x h k.0 in
      let rest = min_from-below (min_of best x) xs (min_of-IsNumber best x h k.0) k.1 in
      (laws.le_trans _ _ _ rest.0 next.0, (laws.le_trans _ _ _ rest.0 next.1, rest.1))

  max_from-Among : (best : F) (xs : List F) → Among (max_from best xs) (best ∷ xs)
  unfolding max_from
  max_from-Among best [] = here best [] refl
  max_from-Among best (x ∷ xs) = elim (max_from-Among (max_of best x) xs) [
    | here _ _ p ↦ elim (Bool-cases (lt best x)) [
      | inl h ↦ there best (x ∷ xs) (here x xs (sym (ap (λ b. if b then x else best) h) ∙ p))
      | inr h ↦ here best (x ∷ xs) (sym (ap (λ b. if b then x else best) h) ∙ p)
    ]
    | there _ _ q ↦ there best (x ∷ xs) (there x xs q)
  ]

  min_from-Among : (best : F) (xs : List F) → Among (min_from best xs) (best ∷ xs)
  unfolding min_from
  min_from-Among best [] = here best [] refl
  min_from-Among best (x ∷ xs) = elim (min_from-Among (min_of best x) xs) [
    | here _ _ p ↦ elim (Bool-cases (lt x best)) [
      | inl h ↦ there best (x ∷ xs) (here x xs (sym (ap (λ b. if b then x else best) h) ∙ p))
      | inr h ↦ here best (x ∷ xs) (sym (ap (λ b. if b then x else best) h) ∙ p)
    ]
    | there _ _ q ↦ there best (x ∷ xs) (there x xs q)
  ]

  both_lists :
      (xs : List F)
      → 0 < length xs
      → All IsNumber xs
      → ((x : F) × ((max_list xs ≡ some (number x)) × IsMax x xs))
        × ((x : F) × ((min_list xs ≡ some (number x)) × IsMin x xs))
  unfolding max_list min_list IsMax IsMin
  both_lists [] h k = ground (arith, h)
  both_lists (x ∷ xs) h k =
      let above = max_from-above x xs k.0 k.1 in
      let below = min_from-below x xs k.0 k.1 in
      (
        (max_from x xs, (refl, ((above.0, above.1), max_from-Among x xs))),
        (min_from x xs, (refl, ((below.0, below.1), min_from-Among x xs))),
      )

  window_full : (w : ℕ) (xs : List F) → 0 < w → w ≤ length xs → 0 < length (last_n w xs)
  unfolding last_n
  window_full w xs h k = ground (arith, h, k, length-drop (length xs - w) xs)

  window_numbers : (w : ℕ) (xs : List F) → All IsNumber xs → All IsNumber (last_n w xs)
  unfolding last_n
  window_numbers w xs h =
      if-cases (All IsNumber) (nat_eq w 0) h (All-drop IsNumber (length xs - w) xs h)

  -- Over a window of w sessions, w at least one and at most the sessions there are, and closes that
  -- are not NaN, `highest` answers the largest of the last w closes and `lowest` the smallest, each a
  -- close of the window.
  pub highest-lowest :
      ⦃m : Maths F⦄ (wilder : Bool) (w : ℕ) (s : DailySeries F)
      → 0 < w
      → w ≤ length s.closes
      → All IsNumber s.closes
      → ((x : F) × ((windowed highest wilder w s ≡ some (number x)) × IsMax x (last_n w s.closes)))
        × ((x : F) × ((windowed lowest wilder w s ≡ some (number x)) × IsMin x (last_n w s.closes)))
  unfolding windowed
  highest-lowest wilder w s h k numbers =
      let window = last_n w s.closes in
      let both =
        both_lists window (window_full w s.closes h k) (window_numbers w s.closes numbers) in
      let late : ltb (length s.closes) w ≡ false = le→ltb (length s.closes) w k in
      let pick : Option (Value F) → Bool → Option (Value F) =
        λ v b. if b then some not_ready else v in
      (
        (both.0.0, (ap (pick (max_list window)) late ∙ both.0.1.0, both.0.1.1)),
        (both.1.0, (ap (pick (min_list window)) late ∙ both.1.1.0, both.1.1.1)),
      )
