-- ===== src/Executor/Retry.antt =====
-- When a refusal of the closed gateway is tried again.
use deployquant.Prelude.{
  ℕ, zero, suc, ◌+◌, ◌*◌, ◌≤◌, ◌<◌, ◌≡◌, refl, sym, ap, ◌∙◌, ◌⊎◌, Bool, true, false, Option, none,
  some, nat_eq, nat_eq_iff, ◌-◌, if◌then◌else◌, Bool-cases, inl, inr, arith,
}
use deployquant.Executor.Gateway.{
  Moment, is_before, open_s, pre_market_open_s, at_seconds, Calendar, is_session_day,
  next_session_day, next_pre_market, next_gateway_retry_time,
}

module _ (cal : Calendar) where
  -- The first session day from d on.
  pub record IsNextSession (d r : ℕ) : Type 0 where
    pub is_session : is_session_day cal r ≡ true
    pub is_later : d ≤ r
    pub is_next : (e : ℕ) → d ≤ e → e < r → is_session_day cal e ≡ false

  -- A day that is no session is not the one that is known to be.
  skip :
      (d k : ℕ) → is_session_day cal (d + k) ≡ true → is_session_day cal d ≡ false → k ≡ suc (k - 1)
  skip d zero s off =
      let here : d + 0 ≡ d = omega arith in absurd (cc (sym s ∙ ap (is_session_day cal) here ∙ off))
  skip d (suc k) s off = omega arith

  step_back : (d r : ℕ) → is_session_day cal d ≡ false → IsNextSession (suc d) r → IsNextSession d r
  step_back d r off h = record {
    is_session = h.is_session;
    is_later = omega (arith, h.is_later);
    is_next = λ e le lt. elim (Bool-cases (nat_eq e d)) [
      | inl this ↦ ap (is_session_day cal) ((nat_eq_iff e d).0 this) ∙ off
      | inr that ↦ h.is_next e (ground (arith, le, that)) lt
    ];
  }

  next_session_day_lem :
      (fuel d k : ℕ)
      → k < fuel
      → is_session_day cal (d + k) ≡ true
      → (r : ℕ) × ((next_session_day cal fuel d ≡ some r) × IsNextSession d r)
  unfolding next_session_day
  next_session_day_lem zero d k h s = ground (arith, h)
  next_session_day_lem (suc fuel) d k h s =
      let pick : Bool → Option ℕ = λ b. if b then some d else next_session_day cal fuel (suc d) in
      elim (Bool-cases (is_session_day cal d)) [
        | inl today ↦ (
          d,
          (
            ap pick today,
            record {
              is_session = today;
              is_later = omega arith;
              is_next = λ e le lt. absurd (omega (arith, le, lt));
            },
          ),
        )
        | inr off ↦
            let j = k - 1 in
            let moved : k ≡ suc j = skip d k s off in
            let at : suc d + j ≡ d + k = omega (arith, moved) in
            let rest =
              next_session_day_lem fuel (suc d) j (omega (arith, moved, h))
                (ap (is_session_day cal) at ∙ s) in
            (rest.0, (ap pick off ∙ rest.1.0, step_back d rest.0 off rest.1.1))
      ]

  -- A moment at which a gateway opens.
  pub record IsOpening (m : Moment) : Type 0 where
    pub is_session : is_session_day cal m.day ≡ true
    pub is_opening : (m.ms ≡ pre_market_open_s * 1000) ⊎ (m.ms ≡ open_s * 1000)

  pub record IsNextOpening (now r : Moment) : Type 0 where
    pub is_opening : IsOpening r
    pub is_later : is_before now r ≡ true
    pub is_next : (m : Moment) → IsOpening m → is_before now m ≡ true → is_before m r ≡ false

  pre_market_lem :
      (now : Moment)
      → is_session_day cal now.day ≡ true
      → is_before now (at_seconds now.day pre_market_open_s) ≡ true
      → IsNextOpening now (at_seconds now.day pre_market_open_s)
  unfolding is_before
  pre_market_lem now s h = record {
    is_opening = record { is_session = s; is_opening = inl refl };
    is_later = h;
    is_next = λ m opens after. ground (arith, opens.is_opening, after);
  }

  regular_lem :
      (now : Moment)
      → is_session_day cal now.day ≡ true
      → is_before now (at_seconds now.day pre_market_open_s) ≡ false
      → is_before now (at_seconds now.day open_s) ≡ true
      → IsNextOpening now (at_seconds now.day open_s)
  unfolding is_before
  regular_lem now s past h = record {
    is_opening = record { is_session = s; is_opening = inr refl };
    is_later = h;
    is_next = λ m opens after. ground (arith, opens.is_opening, after, past);
  }

  -- Today is no session, or its openings are past.
  IsOver : Moment → Type 0
  IsOver now = is_session_day cal now.day ≡ true → is_before now (at_seconds now.day open_s) ≡ false

  next_day_lem :
      (now : Moment) (d : ℕ)
      → IsOver now
      → IsNextSession (suc now.day) d
      → IsNextOpening now (at_seconds d pre_market_open_s)
  unfolding is_before IsOver
  next_day_lem now d over next = record {
    is_opening = record { is_session = next.is_session; is_opening = inl refl };
    is_later = ground (arith, next.is_later);
    is_next = λ m opens after. elim (Bool-cases (nat_eq m.day now.day)) [
      | inl same ↦
          let p = (nat_eq_iff m.day now.day).0 same in
          let past = over (sym (ap (is_session_day cal) p) ∙ opens.is_session) in
          ground (arith, p, past, after, opens.is_opening)
      | inr other ↦
          ground (arith, next.is_next m.day, opens.is_session, other, after, opens.is_opening)
    ];
  }

  -- If some day after today is a session, and there is fuel to reach it, the answer is the first
  -- opening of a gateway after now: of all the pre-market and regular openings of session days, it is
  -- after now, and no other that is after now is before it.
  pub next_gateway_retry_time-IsNextOpening :
      (fuel : ℕ) (now : Moment) (k : ℕ)
      → k < fuel
      → is_session_day cal (suc now.day + k) ≡ true
      → (r : Moment) × ((next_gateway_retry_time cal fuel now ≡ some r) × IsNextOpening now r)
  unfolding next_gateway_retry_time next_pre_market IsOver
  next_gateway_retry_time-IsNextOpening fuel now k h s =
      let d = now.day in
      let found = next_session_day_lem fuel (suc d) k h s in
      let first = is_before now (at_seconds d pre_market_open_s) in
      let second = is_before now (at_seconds d open_s) in
      let today = is_session_day cal d in
      let tomorrow : next_pre_market cal fuel d ≡ some (at_seconds found.0 pre_market_open_s) =
        ap (λ o. elim o [ none ↦ none | some n ↦ some (at_seconds n pre_market_open_s) ])
          found.1.0 in
      elim (Bool-cases today) [
        | inr off ↦ (
          at_seconds found.0 pre_market_open_s,
          (
            ground (arith, off, tomorrow),
            next_day_lem now found.0 (λ on. absurd (cc (sym on ∙ off))) found.1.1,
          ),
        )
        | inl on ↦ elim (Bool-cases first) [
          | inl early ↦ (
            at_seconds d pre_market_open_s,
            (ground (arith, on, early), pre_market_lem now on early),
          )
          | inr past ↦ elim (Bool-cases second) [
            | inl soon ↦ (
              at_seconds d open_s,
              (ground (arith, on, past, soon), regular_lem now on past soon),
            )
            | inr late ↦ (
              at_seconds found.0 pre_market_open_s,
              (
                ground (arith, on, past, late, tomorrow),
                next_day_lem now found.0 (λ same. late) found.1.1,
              ),
            )
          ]
        ]
      ]
