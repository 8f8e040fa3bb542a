-- ===== src/Executor/Tif.antt =====
-- The time in force that is picked.
use deployquant.Prelude.{
  ◌≡◌, refl, ap, ◌∙◌, ◌⊎◌, Bool, true, false, Option, none, some, List, [], ◌∷◌, if◌then◌else◌,
  Bool-cases, inl, inr, arith,
}
use deployquant.Prelude.Eq.{eq_nat, eq_list, contains, ==_refl}
use deployquant.Prelude.Text.{Text, codes}
use deployquant.Executor.Prices.{text_lt, least_text, first_sorted, pick_tif}

rest_contains :
    (best t x : Text) {y : Text} (ts : List Text)
    → contains x (t ∷ ts) ≡ true
    → y ≡ x
    → contains y (best ∷ t ∷ ts) ≡ true
rest_contains best t x ts h p = ap (λ z. contains z (best ∷ t ∷ ts)) p ∙ ground (arith, h)

first_contains :
    (best t x : Text) {y : Text} (ts : List Text)
    → contains x (best ∷ ts) ≡ true
    → y ≡ x
    → contains y (best ∷ t ∷ ts) ≡ true
first_contains best t x ts h p = ap (λ z. contains z (best ∷ t ∷ ts)) p ∙ ground (arith, h)

least_text-contains :
    (best : Text) (ts : List Text) → contains (least_text best ts) (best ∷ ts) ≡ true
unfolding least_text
least_text-contains best [] = ground (arith, ==_refl best)
least_text-contains best (t ∷ ts) = elim (Bool-cases (text_lt t best)) [
  | inl h ↦
      rest_contains best t (least_text t ts) ts (least_text-contains t ts)
        (ap (λ b. least_text (if b then t else best) ts) h)
  | inr h ↦
      first_contains best t (least_text best ts) ts (least_text-contains best ts)
        (ap (λ b. least_text (if b then t else best) ts) h)
]

-- What is picked is allowed, and nothing that is preferred to it is; nothing is picked of nothing.
pub Picked : List Text → Text → Option Text → Type 0
Picked allowed preferred none = allowed ≡ []
Picked allowed preferred (some t) =
    (contains t allowed ≡ true)
    × ((t ≡ preferred)
        ⊎ ((contains preferred allowed ≡ false)
            × ((t ≡ codes "gtc")
                ⊎ ((contains (codes "gtc") allowed ≡ false)
                    × ((t ≡ codes "day") ⊎ (contains (codes "day") allowed ≡ false))))))

sorted_lem :
    (allowed : List Text) (preferred : Text)
    → contains preferred allowed ≡ false
    → contains (codes "gtc") allowed ≡ false
    → contains (codes "day") allowed ≡ false
    → Picked allowed preferred (first_sorted allowed)
unfolding first_sorted Picked
sorted_lem [] preferred p g d = refl
sorted_lem (t ∷ ts) preferred p g d = (least_text-contains t ts, inr (p, inr (g, inr d)))

choice_lem :
    (b c e : Bool) (allowed : List Text) (preferred : Text)
    → contains preferred allowed ≡ b
    → contains (codes "gtc") allowed ≡ c
    → contains (codes "day") allowed ≡ e
    → Picked allowed preferred (
        if b
        then some preferred
        else (if c
            then some (codes "gtc")
            else (if e then some (codes "day") else first_sorted allowed)))
unfolding Picked
choice_lem true c e allowed preferred p g d = (p, inl refl)
choice_lem false true e allowed preferred p g d = (g, inr (p, inl refl))
choice_lem false false true allowed preferred p g d = (d, inr (p, inr (g, inl refl)))
choice_lem false false false allowed preferred p g d = sorted_lem allowed preferred p g d

-- An order type with an allowed time in force gets one of those that are allowed: the preferred one
-- if it is among them, else GTC, else DAY. Only with none allowed is the answer the exception.
pub pick_tif-Picked :
    (allowed : List Text) (preferred : Text) → Picked allowed preferred (pick_tif allowed preferred)
unfolding pick_tif
pick_tif-Picked allowed preferred = choice_lem _ _ _ allowed preferred refl refl refl
