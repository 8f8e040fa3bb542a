-- ===== src/LiveBook/Gate.antt =====
-- dqengine/live/book.py: `fast_path_ok` and `intent_is_new`.
use deployquant.Prelude.{
  ℕ, ◌+◌, ◌-◌, ◌≤◌, ◌<◌, Bool, true, false, none, some, List, [], ◌∷◌, ◌≡◌, ◌↔◌, ◌⊎◌, inl, inr,
  refl, arith, leb, ltb, if◌then◌else◌, Bool-cases, Option-cases, All,
}
use deployquant.Prelude.Eq.{==_refl, eq_nat, eq_list}
use deployquant.Prelude.Text.{Text, truthy}
use deployquant.Prelude.Dict.{Dict, get, insert, lookup-insert}
use deployquant.LiveBook.Defs.{
  Book, Submission, Verdict, is_ok, is_frozen, is_unacked, is_stale, reconcile_fresh_ms,
  inflight_max_ms, text_of, first_unacked, unacked_message, check_unacked, fast_path_ok,
  intent_is_new,
}

-- Each number is above the one before it, and the first is above the bound.
abbrev pub IsRising : ℕ → List ℕ → Type 0
IsRising bound [] = Unit
IsRising bound (n ∷ ns) = (bound < n) × IsRising n ns

IsRising-at : {m n : ℕ} (ns : List ℕ) → m ≡ n → IsRising m ns → IsRising n ns
IsRising-at ns e h = rw⁻¹ e h

-- A refusal with a reason.
abbrev pub Refuses : Verdict → Text → Type 0
Refuses verdict why = (verdict ≡ is_frozen why) ⊎ (verdict ≡ is_unacked why)

module _ {ℓ} {F : Type ℓ} where
  -- The book may be trusted: it is not frozen, its audit is fresh, and no submission has been in
  -- flight for too long.
  pub record IsTrusted (now : ℕ) (b : Book F) : Type ℓ where
    pub thawed : truthy b.frozen ≡ false
    pub fresh : now ≤ b.reconciled_at + reconcile_fresh_ms
    pub acked : All (λ (e : Text × Submission F). now ≤ e.1.at + inflight_max_ms) b.inflight

  first_unacked-none :
      (now : ℕ) (es : Dict Text (Submission F))
      → first_unacked now es ≡ none
      → All (λ (e : Text × Submission F). now ≤ e.1.at + inflight_max_ms) es
  unfolding first_unacked
  first_unacked-none now [] h = tt
  first_unacked-none now ((cid, e) ∷ es) h = ground (arith, first_unacked-none now es)

  none-first_unacked :
      (now : ℕ) (es : Dict Text (Submission F))
      → All (λ (e : Text × Submission F). now ≤ e.1.at + inflight_max_ms) es
      → first_unacked now es ≡ none
  unfolding first_unacked
  none-first_unacked now [] h = refl
  none-first_unacked now ((cid, e) ∷ es) h = ground (arith, h.0, none-first_unacked now es h.1)

  -- The fast path is taken exactly when its switch is on and the book may be trusted: it is not
  -- frozen, its last audit is at most 90 seconds old, and no submission has been unacknowledged for
  -- more than 20 seconds. The book is then left as it was.
  pub fast_path_ok_iff :
      (fast_path : Bool) (now : ℕ) (b : Book F)
      → (fast_path_ok fast_path now b ≡ (is_ok, b)) ↔ ((fast_path ≡ true) × IsTrusted now b)
  unfolding fast_path_ok check_unacked
  fast_path_ok_iff fast_path now b = elim (Option-cases (first_unacked now b.inflight)) [
    | inl e ↦
        let acked = first_unacked-none now b.inflight e in
        (
          λ h.
              (ground arith, record { thawed = ground arith; fresh = ground arith; acked = acked }),
          λ (on, t). ground (arith, on, t.thawed, t.fresh),
        )
    | inr (cid, e) ↦ (
      λ h. absurd (ground arith),
      λ (on, t). absurd (ground (arith, none-first_unacked now b.inflight t.acked)),
    )
  ]

  frozen-refuses :
      (now : ℕ) (b : Book F)
      → truthy b.frozen ≡ true
      → fast_path_ok true now b ≡ (is_frozen (text_of b.frozen), b)
  unfolding fast_path_ok
  frozen-refuses now b h = rw h refl

  unfrozen-answers :
      (now : ℕ) (b : Book F)
      → truthy b.frozen ≡ false
      → ltb reconcile_fresh_ms (now - b.reconciled_at) ≡ false
      → fast_path_ok true now b ≡ check_unacked (first_unacked now b.inflight) b
  unfolding fast_path_ok
  unfrozen-answers now b h k = rw (h, k) refl

  stale-answers :
      (now : ℕ) (b : Book F)
      → truthy b.frozen ≡ false
      → ltb reconcile_fresh_ms (now - b.reconciled_at) ≡ true
      → fast_path_ok true now b ≡ (is_stale (now - b.reconciled_at), b)
  unfolding fast_path_ok
  stale-answers now b h k = rw (h, k) refl

  frozen_with : Text → Book F → Book F
  frozen_with cid b = record b { frozen = some (unacked_message cid) }

  unacked-refuses :
      (now : ℕ) (cid : Text) (b : Book F)
      → fast_path_ok true now (frozen_with cid b)
        ≡ (is_frozen (unacked_message cid), frozen_with cid b)
  unfolding fast_path_ok frozen_with unacked_message text_of
  unacked-refuses now cid b = refl

  unacked-freezes :
      (cid : Text) (b : Book F)
      → check_unacked (some cid) b ≡ (is_unacked (unacked_message cid), frozen_with cid b)
  unfolding check_unacked frozen_with
  unacked-freezes cid b = refl

  acked-passes : (b : Book F) → check_unacked none b ≡ (is_ok, b)
  unfolding check_unacked
  acked-passes b = refl

  -- With the fast path switched on, a refusal stays: a book that has once been found frozen, or with
  -- a submission that was unacknowledged for too long, and that nothing has written to since, answers
  -- at every later or earlier time that it is frozen, for the reason of the first refusal.
  pub refused-again :
      (now later : ℕ) (b b' : Book F) (verdict : Verdict) (why : Text)
      → fast_path_ok true now b ≡ (verdict, b')
      → Refuses verdict why
      → fast_path_ok true later b' ≡ (is_frozen why, b')
  refused-again now later b b' verdict why h r = elim (Bool-cases (truthy b.frozen)) [
    | inl cold ↦ elim r [
      | inl e ↦ cc (h, e, frozen-refuses now b cold, frozen-refuses later b cold)
      | inr e ↦ absurd (cc (h, e, frozen-refuses now b cold))
    ]
    | inr warm ↦ elim (Bool-cases (ltb reconcile_fresh_ms (now - b.reconciled_at))) [
      | inl old ↦ absurd (elim r [
        | inl e ↦ cc (h, e, stale-answers now b warm old)
        | inr e ↦ cc (h, e, stale-answers now b warm old)
      ])
      | inr fresh ↦ elim (Option-cases (first_unacked now b.inflight)) [
        | inl e ↦ absurd (elim r [
          | inl k ↦ cc (h, k, unfrozen-answers now b warm fresh, e, acked-passes b)
          | inr k ↦ cc (h, k, unfrozen-answers now b warm fresh, e, acked-passes b)
        ])
        | inr (cid, e) ↦
            let found = unfrozen-answers now b warm fresh in
            elim r [
              | inl k ↦ absurd (cc (h, k, found, e, unacked-freezes cid b))
              | inr k ↦ cc (h, k, found, e, unacked-freezes cid b, unacked-refuses later cid b)
            ]
      ]
    ]
  ]

  -- The sequence numbers that `intent_is_new` accepts, of those offered for one deployment.
  unfoldable pub accepted : Text → List ℕ → Book F → List ℕ
  accepted dep_id [] b = []
  accepted dep_id (n ∷ ns) b =
      let (fresh, b') = intent_is_new dep_id n b in
      let rest = accepted dep_id ns b' in if fresh then n ∷ rest else rest

  seen : (dep_id : Text) (n : ℕ) (b : Book F) → get dep_id (insert dep_id n b.seq) 0 ≡ n
  seen dep_id n b = rw (lookup-insert dep_id dep_id n b.seq, ==_refl dep_id) refl

  -- Whatever sequence numbers arrive for a deployment, repeated or out of order, the intents that
  -- are applied have strictly rising numbers, all above the last one applied before.
  pub accepted-IsRising :
      (dep_id : Text) (ns : List ℕ) (b : Book F)
      → IsRising (get dep_id b.seq 0) (accepted dep_id ns b)
  unfolding accepted intent_is_new
  accepted-IsRising dep_id [] b = tt
  accepted-IsRising dep_id (n ∷ ns) b = elim (Bool-cases (leb n (get dep_id b.seq 0))) [
    | inl old ↦ rw old (accepted-IsRising dep_id ns b)
    | inr fresh ↦ rw fresh (
      ground arith,
      IsRising-at _ (seen dep_id n b)
          (accepted-IsRising dep_id ns (record b { seq = insert dep_id n b.seq })),
    )
  ]
