-- ===== src/Seconds/Equivalence.antt =====
-- dqengine/live/secbars.py: the flushes of a stream of trades return the day's bars.
use deployquant.Prelude.{
  ℕ, ◌+◌, ◌≤◌, true, List, [], ◌∷◌, ◌++◌, ◌≡◌, inl, inr, refl, arith, leb, nat_eq, Bool-cases,
  Option-cases, if-cases, append_assoc, append-nil, All-append,
}
use deployquant.Prelude.Eq.{eq_nat, eq_list}
use deployquant.Prelude.Text.{Text}
use deployquant.Prelude.Float.{Float}
use deployquant.Prelude.Dict.{Dict, lookup}
use deployquant.Seconds.Defs.{
  Trade, SecondBar, SecondBucketConsolidator, bucket_of, is_used, new_consolidator, flush_before,
  aggregate_one, aggregate_from, aggregate_trades_to_seconds, add_to, add_trade,
}
use deployquant.Seconds.Streams.{
  Feed, trade, flush, trades_of, IsTimed, tagged_bars, stream, Agrees, later, begin_bar, carry_on,
  move_on, second_past, tagged_bars-append, keys_below,
}

module _ {ℓ} {F : Type ℓ} ⦃f : Float F⦄ where
  trade-Agrees :
      (sym : Text) (t : Trade F) (out : Dict ℕ (SecondBar F)) (c : SecondBucketConsolidator F)
      (emitted : List (Text × SecondBar F))
      → Agrees sym out c emitted t.ms
      → Agrees sym (aggregate_one c.close_ms t out) (add_trade sym t c) emitted t.ms
  trade-Agrees sym t out c emitted a = elim (Bool-cases (is_used c.close_ms t)) [
    | inl used ↦ elim a [
      | inl i ↦ inr (begin_bar sym t out c emitted used i)
      | inr b ↦ elim (Bool-cases (nat_eq b.bar.ms (bucket_of t.ms))) [
        | inl h ↦ inr (carry_on sym t out c emitted used b h)
        | inr h ↦ inr (move_on sym t out c emitted used b h)
      ]
    ]
    | inr unused ↦ unfold aggregate_one add_trade in rw unused a
  ]

  flush-Agrees :
      (sym : Text) (now : ℕ) (out : Dict ℕ (SecondBar F)) (c : SecondBucketConsolidator F)
      (emitted : List (Text × SecondBar F))
      → Agrees sym out c emitted now
      → Agrees sym out (flush_before now c).1 (emitted ++ (flush_before now c).0) now
  unfolding flush_before
  flush-Agrees sym now out c emitted (inl i) = rw i.nothing (
      inl record {
        nothing = refl;
        same = cc (append-nil c.done, append-nil (emitted ++ c.done), i.same);
        past = i.past;
      })
  flush-Agrees sym now out c emitted (inr b) = elim (Bool-cases (leb (b.bar.ms + 1000) now)) [
    | inl over ↦
        let passed = second_past b.bar.ms b.second now b.whole (ground arith) in
        rw (b.one, over)
          (inl record {
            nothing = refl;
            same = cc (
              append-nil (emitted ++ (c.done ++ (sym, b.bar) ∷ [])),
              append_assoc emitted c.done ((sym, b.bar) ∷ []),
              b.same,
              b.last,
              tagged_bars-append sym b.before b.bar.ms b.bar,
            );
            past = rw b.last (
                All-append _ b.before _
                  (keys_below (bucket_of now) b.bar.ms b.before (omega (arith, passed)) b.past)
                  (passed, tt));
          })
    | inr early ↦
        rw (b.one, early)
          (inr record {
            before = b.before;
            bar = b.bar;
            last = b.last;
            one = refl;
            same = cc (append-nil c.done, append-nil (emitted ++ c.done), b.same);
            past = b.past;
            second = b.second;
            whole = b.whole;
            begun = b.begun;
            within = b.within;
          })
  ]

  close_ms-add_trade :
      (sym : Text) (t : Trade F) (c : SecondBucketConsolidator F)
      → (add_trade sym t c).close_ms ≡ c.close_ms
  unfolding add_trade add_to
  close_ms-add_trade sym t c = elim (Option-cases (lookup sym c.in_progress)) [
    | inl e ↦ rw e (
        if-cases (λ (d : SecondBucketConsolidator F). d.close_ms ≡ c.close_ms)
          (is_used c.close_ms t) refl refl)
    | inr (bar, e) ↦ rw e (
        if-cases (λ (d : SecondBucketConsolidator F). d.close_ms ≡ c.close_ms)
          (is_used c.close_ms t)
          (if-cases (λ (d : SecondBucketConsolidator F). d.close_ms ≡ c.close_ms)
            (nat_eq bar.ms (bucket_of t.ms)) refl refl)
          refl)
  ]

  close_ms-flush_before :
      (now : ℕ) (c : SecondBucketConsolidator F) → (flush_before now c).1.close_ms ≡ c.close_ms
  unfolding flush_before
  close_ms-flush_before now c = refl

  -- A flush after the close leaves no bar in progress, and what it returns ends the day's bars.
  flush-closed :
      (sym : Text) (now since : ℕ) (out : Dict ℕ (SecondBar F)) (c : SecondBucketConsolidator F)
      (emitted : List (Text × SecondBar F))
      → c.close_ms + 1000 ≤ now
      → Agrees sym out c emitted since
      → emitted ++ (flush_before now c).0 ≡ tagged_bars sym out
  unfolding flush_before
  flush-closed sym now since out c emitted late (inl i) =
      rw i.nothing (cc (append-nil c.done, i.same))
  flush-closed sym now since out c emitted late (inr b) =
      let over : leb (b.bar.ms + 1000) now ≡ true = ground (arith, b.within) in
      rw (b.one, over)
        (cc (
          append_assoc emitted c.done ((sym, b.bar) ∷ []),
          b.same,
          b.last,
          tagged_bars-append sym b.before b.bar.ms b.bar,
        ))

  stream-from :
      (sym : Text) (close_ms now since : ℕ) (es : List (Feed F)) (out : Dict ℕ (SecondBar F))
      (c : SecondBucketConsolidator F) (emitted : List (Text × SecondBar F))
      → c.close_ms ≡ close_ms
      → close_ms + 1000 ≤ now
      → IsTimed since es
      → Agrees sym out c emitted since
      → (stream sym (es ++ flush now ∷ []) c emitted).1
        ≡ tagged_bars sym (aggregate_from close_ms out (trades_of es))
  unfolding stream aggregate_from trades_of
  stream-from sym close_ms now since [] out c emitted closes late timed a =
      flush-closed sym now since out c emitted (omega (arith, closes, late)) a
  stream-from sym close_ms now since (trade t ∷ es) out c emitted closes late (h, timed) a =
      stream-from sym close_ms now t.ms es (aggregate_one close_ms t out) (add_trade sym t c)
        emitted (cc (close_ms-add_trade sym t c, closes)) late timed
        (rw⁻¹ closes (trade-Agrees sym t out c emitted (later sym out c emitted since t.ms h a)))
  stream-from sym close_ms now since (flush at ∷ es) out c emitted closes late (h, timed) a =
      stream-from sym close_ms now at es out (flush_before at c).1
        (emitted ++ (flush_before at c).0) (cc (close_ms-flush_before at c, closes)) late timed
        (flush-Agrees sym at out c emitted (later sym out c emitted since at h a))

  -- For a symbol's trades in time order, flushed at any times in between and once after the
  -- close, the consolidator returns exactly the bars that the aggregation makes of the whole day,
  -- each once and in the same order.
  pub stream-eq-aggregate :
      (sym : Text) (close_ms now : ℕ) (es : List (Feed F))
      → IsTimed 0 es
      → close_ms + 1000 ≤ now
      → (stream sym (es ++ flush now ∷ []) (new_consolidator close_ms) []).1
        ≡ tagged_bars sym (aggregate_trades_to_seconds (trades_of es) close_ms)
  unfolding aggregate_trades_to_seconds new_consolidator
  stream-eq-aggregate sym close_ms now es timed late =
      stream-from sym close_ms now 0 es [] _ [] refl late timed
        (inl record { nothing = refl; same = unfold tagged_bars in refl; past = tt })
