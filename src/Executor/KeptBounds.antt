-- ===== src/Executor/KeptBounds.antt =====
-- How many of the owner's kept shares are taken out of a position.
use deployquant.Prelude.{
  refl, sym, ap, ◌∙◌, ◌⊎◌, not, [], ◌∷◌, All, All-map, Among, here, there, if◌then◌else◌, if-cases,
  Bool-cases, inl, inr,
}
use deployquant.Prelude.Eq.{eq_nat, eq_list}
use deployquant.Prelude.Text.{Text}
use deployquant.Prelude.Float.{Float, IsOrdered, IsNumber, ◌≼◌, nought, min_of, max_of, nonzero}
use deployquant.Prelude.Dict.{Dict}
use deployquant.Prelude.FloatOrder.{max_of-above, min_of-below, max_of-IsNumber, min_of-IsNumber}
use mathlib.Core.Path.{subst}
use deployquant.Executor.Kept.{Holding, held_of, kept_qty, kept_now}

module _ {ℓ} {F : Type ℓ} ⦃f : Float F⦄ where
  open f use {lt, le, minus}

  -- On the side of the kept shares, q is between none and all of them, and within what is spare.
  unfoldable pub IsSpare : F → F → F → Type 0
  IsSpare k spare q =
      ((nought ≼ q) × ((q ≼ k) × (q ≼ max_of spare nought)))
      ⊎ ((q ≼ nought) × ((k ≼ q) × (min_of spare nought ≼ q)))

  -- What is known of a symbol's entry: some row of the kept shares accounts for it.
  unfoldable pub Accounts : Dict Text F → Dict Text (Holding F) → Text × F → Type ℓ
  Accounts positions kept (sym, q) =
      (kb : Holding F) × (Among (sym, kb) kept
        × IsSpare kb.kept (minus (held_of sym positions) kb.booked) q)

  unfoldable pub Numbers : Dict Text F → Text × Holding F → Type 0
  Numbers positions (sym, kb) =
      IsNumber kb.kept × IsNumber (minus (held_of sym positions) kb.booked)

  module _ (laws : IsOrdered F) where
    kept_qty-IsSpare :
        (k spare : F)
        → IsNumber {F = F} nought
        → IsNumber k
        → IsNumber spare
        → IsSpare k spare (kept_qty k spare)
    unfolding kept_qty IsSpare
    kept_qty-IsSpare k spare z hk hs =
        let m = max_of spare nought in
        let n = min_of spare nought in
        let above = max_of-above laws spare nought hs z in
        let below = min_of-below laws spare nought hs z in
        let most = min_of-below laws k m hk (max_of-IsNumber spare nought hs z) in
        let least = max_of-above laws k n hk (min_of-IsNumber spare nought hs z) in
        elim (Bool-cases (lt nought k)) [
          | inl long ↦
              let p =
                ap (λ b. if b then min_of k m else (if lt k nought then max_of k n else nought))
                  long in
              inl (
                subst (λ (q : F). (nought ≼ q) × ((q ≼ k) × (q ≼ m))) (sym p)
                  (
                    if-cases (λ (q : F). nought ≼ q) (lt m k) above.1 (laws.lt_le nought k long),
                    most,
                  ))
          | inr no_long ↦
              let p =
                ap (λ b. if b then min_of k m else (if lt k nought then max_of k n else nought))
                  no_long in
              elim (Bool-cases (lt k nought)) [
                | inl short ↦
                    let s = p ∙ ap (λ b. if b then max_of k n else nought) short in
                    inr (
                      subst (λ (q : F). (q ≼ nought) × ((k ≼ q) × (n ≼ q))) (sym s)
                        (
                          if-cases (λ (q : F). q ≼ nought) (lt k n) below.1
                              (laws.lt_le k nought short),
                          least,
                        ))
                | inr flat ↦
                    let s = p ∙ ap (λ b. if b then max_of k n else nought) flat in
                    inl (
                      subst (λ (q : F). (nought ≼ q) × ((q ≼ k) × (q ≼ m))) (sym s)
                        (z, (laws.le-eq-not-lt nought k z hk ∙ ap not flat, above.1)))
              ]
        ]

    -- Where no amount is NaN, every entry of the shares taken out belongs to a row of the owner's
    -- kept shares, is on its side, between none and all of it, and within what the account holds on
    -- that side beyond the deployments' books.
    pub kept_now-Accounts :
        (positions : Dict Text F) (kept : Dict Text (Holding F))
        → IsNumber {F = F} nought
        → All (Numbers positions) kept
        → All (Accounts positions kept) (kept_now positions kept)
    unfolding kept_now Accounts Numbers
    kept_now-Accounts positions [] z h = tt
    kept_now-Accounts positions ((sym, kb) ∷ rest) z h =
        let q = kept_qty kb.kept (minus (held_of sym positions) kb.booked) in
        let more : (e : Text × F)
            → Accounts positions rest e
            → Accounts positions ((sym, kb) ∷ rest) e =
          λ e back. (back.0, (there (sym, kb) rest back.1.0, back.1.1)) in
        let tail =
          All-map (Accounts positions rest) (Accounts positions ((sym, kb) ∷ rest)) more
            (kept_now positions rest) (kept_now-Accounts positions rest z h.1) in
        if-cases (All (Accounts positions ((sym, kb) ∷ rest))) (nonzero q)
          ((kb, (here (sym, kb) rest refl, kept_qty-IsSpare kb.kept _ z h.0.0 h.0.1)), tail) tail
