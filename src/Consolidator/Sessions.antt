-- ===== src/Consolidator/Sessions.antt =====
-- Sessions fed to a consolidator whose span is not 0 raise nothing, and emit the bars of their runs.
use deployquant.Prelude.{
  ◌≡◌, refl, sym, ap, ◌∙◌, false, Option, none, some, List, [], ◌∷◌, ◌++◌, map, append_assoc,
  append-nil, if-cases, arith,
}
use deployquant.Prelude.Int.{ℤ, pos}
use deployquant.Prelude.Float.{Float, nought}
use mathlib.Core.Path.{subst}
use deployquant.Consolidator.Defs.{
  TradeBar, Consolidator, Period, timedelta, resolution_second, resolution_minute, resolution_hour,
  resolution_daily, span_of, day_us, total_seconds, bucket_index, span_bucket, has_other_bucket,
  emit_bar, scan, scan_if, put_bar, update_bar, consolidator_of,
}
use deployquant.Consolidator.Grouping.{bar_of, runs_of, feed_known, idle, feed-idle}

module _ {ℓ} {F : Type ℓ} ⦃f : Float F⦄ where
  -- A session: its bars, and the scan at its end. `none` is an exception.
  unfoldable pub feed : List (TradeBar F) → Consolidator F → Option (Consolidator F)
  feed [] c = some (scan c)
  feed (bar ∷ bars) c = elim (update_bar bar c) [ none ↦ none | some d ↦ feed bars d ]

  unfoldable pub feed_sessions : List (List (TradeBar F)) → Consolidator F → Option (Consolidator F)
  feed_sessions [] c = some c
  feed_sessions (bars ∷ days) c = elim (feed bars c) [ none ↦ none | some d ↦ feed_sessions days d ]

  -- The bars that the sessions stand for.
  unfoldable pub session_bars : ℤ → List (List (TradeBar F)) → List (TradeBar F)
  session_bars span [] = []
  session_bars span (bars ∷ days) = map bar_of (runs_of span bars) ++ session_bars span days

  -- A span of a number of seconds that is not 0.
  abbrev pub IsTimed : Consolidator F → Type 0
  IsTimed c = f.eq (total_seconds c.span) nought ≡ false

  span_bucket-timed :
      (c : Consolidator F) (bar : TradeBar F)
      → IsTimed c
      → span_bucket c.span bar ≡ some (bucket_index c.span bar)
  unfolding span_bucket
  span_bucket-timed c bar h = ground (arith, h)

  span-emit_bar : (w : Option (TradeBar F)) (c : Consolidator F) → (emit_bar w c).span ≡ c.span
  unfolding emit_bar
  span-emit_bar none c = refl
  span-emit_bar (some w) c = refl

  span-put_bar : (b : ℤ) (bar : TradeBar F) (c : Consolidator F) → (put_bar b bar c).span ≡ c.span
  unfolding put_bar scan_if scan
  span-put_bar b bar c =
      if-cases (λ (d : Consolidator F). d.span ≡ c.span) (has_other_bucket c.bucket b)
        (span-emit_bar c.working_bar c) refl

  update-timed :
      (bar : TradeBar F) (c : Consolidator F)
      → IsTimed c
      → update_bar bar c ≡ some (put_bar (bucket_index c.span bar) bar c)
  unfolding update_bar
  update-timed bar c h =
      let placed : Option ℤ → Option (Consolidator F) =
        λ o. elim o [ none ↦ none | some b ↦ some (put_bar b bar c) ] in
      ap placed (span_bucket-timed c bar h)

  -- Where a step that may fail leads.
  abbrev FedBy :
      (Consolidator F → Option (Consolidator F)) → Consolidator F → Option (Consolidator F) → Type ℓ
  FedBy go end o = elim o [ none ↦ none | some d ↦ go d ] ≡ some end

  feed-timed :
      (bars : List (TradeBar F)) (c : Consolidator F)
      → IsTimed c
      → feed bars c ≡ some (feed_known bars c)
  unfolding feed feed_known
  feed-timed [] c h = refl
  feed-timed (bar ∷ bars) c h =
      let next = put_bar (bucket_index c.span bar) bar c in
      let still : IsTimed next =
        subst (λ span. f.eq (total_seconds span) nought ≡ false) (sym (span-put_bar _ bar c)) h in
      subst (FedBy (feed bars) (feed_known bars next)) (sym (update-timed bar c h))
        (feed-timed bars next still)

  -- What feeding sessions to an idle consolidator gives.
  sessions-idle :
      (span : ℤ) (days : List (List (TradeBar F))) (last : Option (TradeBar F))
      (out : List (TradeBar F))
      → IsTimed (idle span last out)
      → (end : Consolidator F) × (feed_sessions days (idle span last out) ≡ some end)
        × (end.emitted ≡ out ++ session_bars span days)
  unfolding feed_sessions session_bars idle
  sessions-idle span [] last out h = (idle span last out, refl, sym (append-nil out))
  sessions-idle span (bars ∷ days) last out h =
      let first = feed-idle span last out bars in
      let now = map bar_of (runs_of span bars) in
      let fed : feed bars (idle span last out) ≡ some (idle span first.0 (out ++ now)) =
        feed-timed bars (idle span last out) h ∙ ap some first.1 in
      let (end, e, emits) = sessions-idle span days first.0 (out ++ now) h in
      (
        end,
        subst (FedBy (feed_sessions days) end) (sym fed) e,
        emits ∙ append_assoc out now (session_bars span days),
      )

  new_idle :
      (period : Period) (c : Consolidator F)
      → consolidator_of period ≡ some c
      → (span : ℤ) × (idle span none [] ≡ c)
  unfolding consolidator_of span_of idle
  new_idle (timedelta us) c h = (us, cc h)
  new_idle resolution_second c h = (pos 1_000_000, cc h)
  new_idle resolution_minute c h = (pos 60_000_000, cc h)
  new_idle resolution_daily c h = (day_us, cc h)
  new_idle resolution_hour c h = absurd (cc h)

  -- A new consolidator, of any period that it takes whose seconds are not 0, that is fed the bars of
  -- any number of sessions and scanned at the end of each, raises nothing, and hands on exactly one
  -- bar for each longest run of bars of a session that end in one bucket: the first bar of the run
  -- merged with the others, in order.
  pub feed_sessions-session_bars :
      (period : Period) (c : Consolidator F) (days : List (List (TradeBar F)))
      → consolidator_of period ≡ some c
      → IsTimed c
      → (end : Consolidator F) × (feed_sessions days c ≡ some end)
        × (end.emitted ≡ session_bars c.span days)
  unfolding idle
  feed_sessions-session_bars period c days h timed =
      let new = new_idle period c h in
      subst
        (λ (d : Consolidator F).
          IsTimed d
          → (end : Consolidator F) × (feed_sessions days d ≡ some end)
            × (end.emitted ≡ session_bars d.span days))
        new.1 (sessions-idle new.0 days none []) timed
