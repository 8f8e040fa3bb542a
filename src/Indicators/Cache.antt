-- ===== src/Indicators/Cache.antt =====
-- Every entry of the cache that is of its symbol's present version is worth what it says.
use deployquant.Prelude.{
  ℕ, suc, ◌≤◌, ◌≡◌, refl, sym, ap, ◌∙◌, ◌↔◌, Bool, true, false, Option, none, some, [], nat_eq,
  nat_eq_iff, if◌then◌else◌, Bool-cases, or_else, inl, inr, arith,
}
use deployquant.Prelude.Text.{Text}
use deployquant.Prelude.Float.{Float}
use deployquant.Prelude.Eq.{Eq, ◌==◌, eq_nat, eq_list, list_eq_iff}
use deployquant.Prelude.Dict.{Dict, lookup, get, insert, lookup-insert}
use deployquant.Exprs.{Value}
use deployquant.Indicators.Series.{Maths, DailySeries, new_series, on_session_close}
use deployquant.Indicators.History.{compute}
use deployquant.Indicators.Engine.{Key, Engine, series, close_session, fresh_hit}
use deployquant.Indicators.Frozen.{some_inj}

or_else_if {ℓ} :
    {V : Type ℓ} (b : Bool) (v : V) (o : Option V) (x : V)
    → or_else (if b then some v else o) x ≡ (if b then v else or_else o x)
or_else_if true v o x = refl
or_else_if false v o x = refl

get-insert {ℓ} :
    {V : Type ℓ} (k j : Text) (v : V) (d : Dict Text V) (x : V)
    → get j (insert k v d) x ≡ (if k == j then v else get j d x)
get-insert k j v d x =
    ap (λ o. or_else o x) (lookup-insert k j v d) ∙ or_else_if (k == j) v (lookup j d) x

text_iff : (s t : Text) → ((s == t) ≡ true) ↔ (s ≡ t)
text_iff s t = list_eq_iff s t

module _ {ℓ} {F : Type ℓ} ⦃f : Float F⦄ ⦃m : Maths F⦄ where
  -- What a key's node is worth on a series.
  abbrev pub worth : Key F → DailySeries F → Option (Value F)
  worth key s = compute key.0 [] key.1.0 key.1.1 s s

  module _ ⦃same : Eq (Key F)⦄ where
    -- An entry is of an earlier version of its symbol, or worth what it says.
    unfoldable pub Coherent : Engine F → Type ℓ
    Coherent e =
        (key : Key F) (v : ℕ) (x : Value F)
        → lookup key e.cache ≡ some (v, x)
        → (v ≤ get key.0 e.version 0)
          × (v ≡ get key.0 e.version 0 → worth key (series key.0 e) ≡ some x)

    pub empty-Coherent : (e : Engine F) → e.cache ≡ [] → Coherent e
    unfolding Coherent lookup
    empty-Coherent e p key v x h = absurd (cc (sym (ap (lookup key) p) ∙ h))

    pub close_session-Coherent :
        (symbol : Text) (close : F) (high low : Option F) (e : Engine F)
        → Coherent e
        → Coherent (close_session symbol close high low e)
    unfolding Coherent close_session
    close_session-Coherent symbol close high low e coherent key v x h =
        let old = coherent key v x h in
        let next = suc (get symbol e.version 0) in
        let s = on_session_close close high low (series symbol e) in
        let version = get-insert symbol key.0 next e.version 0 in
        let daily = get-insert symbol key.0 s e.daily new_series in
        elim (Bool-cases (symbol == key.0)) [
          | inl this ↦
              let p : symbol ≡ key.0 = (text_iff symbol key.0).0 this in
              let now = version ∙ ap (λ b. if b then next else get key.0 e.version 0) this in
              let grown = ap (λ t. get t e.version 0) p in
              (
                omega (arith, old.0, now, grown),
                λ at. absurd (omega (arith, old.0, now, grown, at)),
              )
          | inr that ↦
              let now = version ∙ ap (λ b. if b then next else get key.0 e.version 0) that in
              let kept = daily ∙ ap (λ b. if b then s else series key.0 e) that in
              (omega (arith, old.0, now), λ at. ap (worth key) kept ∙ old.1 (at ∙ now))
        ]

    pub remember-Coherent :
        (key : Key F) (ver : ℕ) (e : Engine F) (x : Value F)
        → Coherent e
        → ver ≡ get key.0 e.version 0
        → worth key (series key.0 e) ≡ some x
        → Coherent (record e { cache = insert key (ver, x) e.cache })
    unfolding Coherent
    remember-Coherent key ver e x coherent now fresh k v y h =
        let entry : ℕ × Value F = (ver, x) in
        let found = sym (lookup-insert key k entry e.cache) ∙ h in
        elim (Bool-cases (key == k)) [
          | inl this ↦
              let p : key ≡ k = (same.equal_iff key k).0 this in
              let entry_eq : entry ≡ (v, y) =
                some_inj
                  (sym (ap (λ b. if b then some entry else lookup k e.cache) this) ∙ found) in
              (
                omega (
                  arith,
                  now,
                  ap (λ (z : ℕ × Value F). z.0) entry_eq,
                  ap (λ (j : Key F). get j.0 e.version 0) p,
                ),
                λ at.
                    sym (ap (λ (j : Key F). worth j (series j.0 e)) p)
                    ∙ fresh
                    ∙ ap (λ (z : ℕ × Value F). some z.1) entry_eq,
              )
          | inr that ↦
              coherent k v y
                (sym (ap (λ b. if b then some entry else lookup k e.cache) that) ∙ found)
        ]

    pub hit_lem :
        (o : Option (ℕ × Value F)) (ver : ℕ) (x : Value F)
        → fresh_hit {F = F} o ver ≡ some x
        → (v : ℕ) × ((o ≡ some (v, x)) × (v ≡ ver))
    unfolding fresh_hit
    hit_lem none ver x h = absurd (cc h)
    hit_lem (some (v, y)) ver x h = elim (Bool-cases (nat_eq v ver)) [
      | inl now ↦ (
        v,
        (
          ap (λ z. some (v, z)) (some_inj (sym (ap (λ b. if b then some y else none) now) ∙ h)),
          (nat_eq_iff v ver).0 now,
        ),
      )
      | inr past ↦ absurd (cc (sym (ap (λ b. if b then some y else none) past) ∙ h))
    ]
