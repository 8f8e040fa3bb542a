-- ===== src/Consolidator/Grouping.antt =====
-- What a session emits: one bar for each run of bars of one bucket.
use deployquant.Prelude.{
  ◌≡◌, refl, sym, ap, ◌∙◌, Bool, true, false, not, Option, none, some, List, [], ◌∷◌, ◌++◌, map,
  append_assoc, append-nil, if◌then◌else◌, Bool-cases, inl, inr, arith,
}
use deployquant.Prelude.Int.{ℤ}
use deployquant.Prelude.Float.{Float}
use deployquant.Consolidator.Defs.{
  TradeBar, Consolidator, same_bucket, bucket_index, merge, join, emit_bar, scan, scan_if, put_bar,
}

same_bucket-eq : (a b : ℤ) → same_bucket a b ≡ true → a ≡ b
unfolding same_bucket
same_bucket-eq a b h = ground arith

same_bucket_sym : (a b : ℤ) → same_bucket a b ≡ same_bucket b a
unfolding same_bucket
same_bucket_sym a b = ground arith

-- A run of bars: its first, and the others.
abbrev pub BarRun {ℓ} : Type ℓ → Type ℓ
BarRun F = TradeBar F × List (TradeBar F)

module _ {ℓ} {F : Type ℓ} ⦃f : Float F⦄ where
  -- A session whose bars' buckets are known, and the scan at its end.
  unfoldable pub feed_known : List (TradeBar F) → Consolidator F → Consolidator F
  feed_known [] c = scan c
  feed_known (bar ∷ bars) c = feed_known bars (put_bar (bucket_index c.span bar) bar c)

  -- A bar before the runs of the bars that follow it.
  unfoldable pub add_to_runs : ℤ → TradeBar F → List (BarRun F) → List (BarRun F)
  add_to_runs span bar [] = (bar, []) ∷ []
  add_to_runs span bar ((next, others) ∷ runs) =
      if same_bucket (bucket_index span bar) (bucket_index span next)
      then (bar, next ∷ others) ∷ runs
      else (bar, []) ∷ (next, others) ∷ runs

  unfoldable pub runs_of : ℤ → List (TradeBar F) → List (BarRun F)
  runs_of span [] = []
  runs_of span (bar ∷ bars) = add_to_runs span bar (runs_of span bars)

  unfoldable pub merge_all : TradeBar F → List (TradeBar F) → TradeBar F
  merge_all w [] = w
  merge_all w (bar ∷ bars) = merge_all (merge w bar) bars

  abbrev pub bar_of : BarRun F → TradeBar F
  bar_of run = merge_all run.0 run.1

  -- What is still to be emitted, when `w` is the working bar of bucket `k` and `runs` are to come.
  pending : ℤ → TradeBar F → ℤ → List (BarRun F) → List (TradeBar F)
  pending span w k [] = w ∷ []
  pending span w k ((next, others) ∷ runs) =
      if same_bucket (bucket_index span next) k
      then merge_all w (next ∷ others) ∷ map bar_of runs
      else w ∷ map bar_of ((next, others) ∷ runs)

  working : ℤ → Option (TradeBar F) → TradeBar F → ℤ → List (TradeBar F) → Consolidator F
  working span last w k emitted = record {
    span = span;
    consolidated = last;
    working_bar = some w;
    bucket = some k;
    emitted = emitted;
  }

  pending-add :
      (span : ℤ) (w : TradeBar F) (k : ℤ) (bar : TradeBar F) (runs : List (BarRun F))
      → pending span w k (add_to_runs span bar runs) ≡ (
          if same_bucket (bucket_index span bar) k
          then pending span (merge w bar) k runs
          else w ∷ pending span bar (bucket_index span bar) runs)
  unfolding pending add_to_runs merge_all
  pending-add span w k bar [] = ground arith
  pending-add span w k bar ((next, others) ∷ runs) =
      let b = bucket_index span bar in
      let n = bucket_index span next in
      elim (Bool-cases (same_bucket b n)) [
        | inl e ↦
            let p = same_bucket-eq b n e in
            let nb = same_bucket_sym n b ∙ e in
            let nk = ap (λ j. same_bucket j k) (sym p) in
            rw (e, nb, nk)
              (elim (Bool-cases (same_bucket b k)) [ inl h ↦ rw h refl | inr h ↦ rw h refl ])
        | inr e ↦
            let nb = same_bucket_sym n b ∙ e in
            rw (e, nb)
              (elim (Bool-cases (same_bucket b k)) [
                | inl h ↦
                    let nk = ap (same_bucket n) (sym (same_bucket-eq b k h)) ∙ nb in rw (h, nk) refl
                | inr h ↦ rw h refl
              ])
      ]

  -- One bar more: it stays in the bucket, or it closes it.
  update_same :
      (span k : ℤ) (last : Option (TradeBar F)) (w bar : TradeBar F) (out : List (TradeBar F))
      → same_bucket (bucket_index span bar) k ≡ true
      → put_bar (bucket_index span bar) bar (working span last w k out)
        ≡ working span last (merge w bar) k out
  unfolding put_bar working scan_if join
  update_same span k last w bar out h =
      let next : Bool → Consolidator F = λ same.
        let d = scan_if (not same) (working span last w k out) in
        record d {
          bucket = some (bucket_index span bar);
          working_bar = some (join d.working_bar bar);
        } in
      ap next h
      ∙ ap (λ j. record (working span last (merge w bar) k out) { bucket = some j })
          (same_bucket-eq (bucket_index span bar) k h)

  update_other :
      (span k : ℤ) (last : Option (TradeBar F)) (w bar : TradeBar F) (out : List (TradeBar F))
      → same_bucket (bucket_index span bar) k ≡ false
      → put_bar (bucket_index span bar) bar (working span last w k out)
        ≡ working span (some w) bar (bucket_index span bar) (out ++ w ∷ [])
  unfolding put_bar working scan_if join scan emit_bar
  update_other span k last w bar out h =
      let next : Bool → Consolidator F = λ same.
        let d = scan_if (not same) (working span last w k out) in
        record d {
          bucket = some (bucket_index span bar);
          working_bar = some (join d.working_bar bar);
        } in
      ap next h

  -- A consolidator between two sessions.
  unfoldable pub idle : ℤ → Option (TradeBar F) → List (TradeBar F) → Consolidator F
  idle span last out = record {
    span = span;
    consolidated = last;
    working_bar = none;
    bucket = none;
    emitted = out;
  }

  -- The rest of a session, from a working bar on.
  feed-working :
      (span k : ℤ) (last : Option (TradeBar F)) (w : TradeBar F) (out bars : List (TradeBar F))
      → (end : Option (TradeBar F)) × (feed_known bars (working span last w k out)
          ≡ idle span end (out ++ pending span w k (runs_of span bars)))
  unfolding feed_known runs_of pending scan emit_bar working idle
  feed-working span k last w out [] = (some w, refl)
  feed-working span k last w out (bar ∷ bars) =
      let b = bucket_index span bar in
      let split : Bool → List (TradeBar F) = λ same.
        if same
        then pending span (merge w bar) k (runs_of span bars)
        else w ∷ pending span bar b (runs_of span bars) in
      let added = pending-add span w k bar (runs_of span bars) in
      elim (Bool-cases (same_bucket b k)) [
        | inl h ↦
            let rest = feed-working span k last (merge w bar) out bars in
            (
              rest.0,
              ap (feed_known bars) (update_same span k last w bar out h)
                  ∙ rest.1
                  ∙ sym (ap (λ e. idle span rest.0 (out ++ e)) (added ∙ ap split h)),
            )
        | inr h ↦
            let rest = feed-working span b (some w) bar (out ++ w ∷ []) bars in
            (
              rest.0,
              ap (feed_known bars) (update_other span k last w bar out h)
                  ∙ rest.1
                  ∙ ap (idle span rest.0)
                      (append_assoc out (w ∷ []) (pending span bar b (runs_of span bars)))
                  ∙ sym (ap (λ e. idle span rest.0 (out ++ e)) (added ∙ ap split h)),
            )
      ]

  pending-runs :
      (span : ℤ) (bar : TradeBar F) (runs : List (BarRun F))
      → pending span bar (bucket_index span bar) runs ≡ map bar_of (add_to_runs span bar runs)
  unfolding pending add_to_runs merge_all
  pending-runs span bar [] = refl
  pending-runs span bar ((next, others) ∷ runs) =
      let flip = same_bucket_sym (bucket_index span next) (bucket_index span bar) in
      elim (Bool-cases (same_bucket (bucket_index span bar) (bucket_index span next))) [
        | inl e ↦ rw (flip, e) refl
        | inr e ↦ rw (flip, e) refl
      ]

  pub feed-idle :
      (span : ℤ) (last : Option (TradeBar F)) (out bars : List (TradeBar F))
      → (end : Option (TradeBar F)) × (feed_known bars (idle span last out)
          ≡ idle span end (out ++ map bar_of (runs_of span bars)))
  unfolding feed_known put_bar idle scan scan_if emit_bar join runs_of working
  feed-idle span last out [] = (last, ap (idle span last) (sym (append-nil out)))
  feed-idle span last out (bar ∷ bars) =
      let rest = feed-working span (bucket_index span bar) last bar out bars in
      (
        rest.0,
        rest.1 ∙ ap (λ e. idle span rest.0 (out ++ e)) (pending-runs span bar (runs_of span bars)),
      )
