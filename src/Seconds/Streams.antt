-- ===== src/Seconds/Streams.antt =====
-- dqengine/live/secbars.py: a stream of trades, flushed at any times, against the day's aggregation.
use deployquant.Prelude.{
  ℕ, ◌+◌, ◌*◌, ◌/◌, ◌≤◌, ◌<◌, true, false, none, some, List, [], ◌∷◌, ◌++◌, ◌≡◌, ◌⊎◌, inl, inr,
  refl, arith, nat_eq, map, append_assoc, All, All-append, All-map,
}
use deployquant.Prelude.Eq.{eq_nat, eq_list, ==_refl}
use deployquant.Prelude.Text.{Text}
use deployquant.Prelude.Float.{Float}
use deployquant.Prelude.Dict.{Dict, lookup, insert}
use deployquant.Seconds.Defs.{
  Trade, SecondBar, SecondBucketConsolidator, bucket_of, is_used, start_bar, extend_bar,
  flush_before, aggregate_one, add_to, add_trade,
}

-- What happens to the consolidator of one symbol: a trade, or a flush at a time.
pub data Feed {ℓ} (F : Type ℓ) : Type ℓ where
  trade : Trade F → Feed F
  flush : ℕ → Feed F

module _ {ℓ} {F : Type ℓ} where
  unfoldable pub trades_of : List (Feed F) → List (Trade F)
  trades_of [] = []
  trades_of (trade t ∷ es) = t ∷ trades_of es
  trades_of (flush now ∷ es) = trades_of es

  -- The events are in time order, from this time on.
  abbrev pub IsTimed : ℕ → List (Feed F) → Type 0
  IsTimed since [] = Unit
  IsTimed since (trade t ∷ es) = (since ≤ t.ms) × IsTimed t.ms es
  IsTimed since (flush now ∷ es) = (since ≤ now) × IsTimed now es

  unfoldable pub tagged_bars : Text → Dict ℕ (SecondBar F) → List (Text × SecondBar F)
  tagged_bars sym out = map (λ e. (sym, e.1)) out

module _ {ℓ} {F : Type ℓ} ⦃f : Float F⦄ where
  -- The consolidator after the events, and everything that its flushes returned.
  unfoldable pub stream :
      Text
      → List (Feed F)
      → SecondBucketConsolidator F
      → List (Text × SecondBar F)
      → SecondBucketConsolidator F × List (Text × SecondBar F)
  stream sym [] c emitted = (c, emitted)
  stream sym (trade t ∷ es) c emitted = stream sym es (add_trade sym t c) emitted
  stream sym (flush now ∷ es) c emitted =
      let (bars, c') = flush_before now c in stream sym es c' (emitted ++ bars)

bucket_of-le : (s t : ℕ) → s ≤ t → bucket_of s ≤ bucket_of t
unfolding bucket_of
bucket_of-le s t h = ground arith

pub bucket_of_le : (t : ℕ) → bucket_of t ≤ t
unfolding bucket_of
bucket_of_le t = ground arith

-- A second that has begun and is another one is over.
second_over : (m q t : ℕ) → m ≡ q * 1000 → m ≤ t → nat_eq m (bucket_of t) ≡ false → m < bucket_of t
unfolding bucket_of
second_over m q t whole begun other = ground arith

pub second_past : (m q t : ℕ) → m ≡ q * 1000 → m + 1000 ≤ t → m < bucket_of t
unfolding bucket_of
second_past m q t whole over = ground arith

module _ {ℓ} {V : Type ℓ} where
  abbrev pub KeysBelow : ℕ → Dict ℕ V → Type 0
  KeysBelow k = All λ (e : ℕ × V). e.0 < k

  insert_end : (k : ℕ) (v : V) (d : Dict ℕ V) → KeysBelow k d → insert k v d ≡ d ++ (k, v) ∷ []
  unfolding insert
  insert_end k v [] h = refl
  insert_end k v ((j, w) ∷ d) h = ground (arith, h.0, insert_end k v d h.1)

  insert_last :
      (k : ℕ) (v w : V) (d : Dict ℕ V)
      → KeysBelow k d
      → insert k v (d ++ (k, w) ∷ []) ≡ d ++ (k, v) ∷ []
  unfolding insert
  insert_last k v w [] h = ground arith
  insert_last k v w ((j, u) ∷ d) h = ground (arith, h.0, insert_last k v w d h.1)

  lookup_end : (k : ℕ) (d : Dict ℕ V) → KeysBelow k d → lookup k d ≡ none
  unfolding lookup
  lookup_end k [] h = refl
  lookup_end k ((j, w) ∷ d) h = ground (arith, h.0, lookup_end k d h.1)

  lookup_last :
      (k : ℕ) (w : V) (d : Dict ℕ V) → KeysBelow k d → lookup k (d ++ (k, w) ∷ []) ≡ some w
  unfolding lookup
  lookup_last k w [] h = ground arith
  lookup_last k w ((j, u) ∷ d) h = ground (arith, h.0, lookup_last k w d h.1)

  pub keys_below : (k since : ℕ) (d : Dict ℕ V) → since ≤ k → KeysBelow since d → KeysBelow k d
  keys_below k since d h = All-map _ _ (λ e below. omega (arith, below, h)) d

module _ {ℓ} {F : Type ℓ} ⦃f : Float F⦄ where
  pub tagged_bars-append :
      (sym : Text) (d : Dict ℕ (SecondBar F)) (k : ℕ) (bar : SecondBar F)
      → tagged_bars sym (d ++ (k, bar) ∷ []) ≡ tagged_bars sym d ++ (sym, bar) ∷ []
  unfolding tagged_bars
  tagged_bars-append sym [] k bar = refl
  tagged_bars-append sym (e ∷ d) k bar = rw (tagged_bars-append sym d k bar) refl

  -- No bar is in progress, and the emitted bars are the day's.
  pub record Idle (sym : Text) (out : Dict ℕ (SecondBar F)) (c : SecondBucketConsolidator F)
      (emitted : List (Text × SecondBar F)) (since : ℕ) : Type ℓ where
    pub nothing : c.in_progress ≡ []
    pub same : emitted ++ c.done ≡ tagged_bars sym out
    pub past : KeysBelow (bucket_of since) out

  -- The day's last bar is in progress, and the emitted bars are the others.
  pub record Busy (sym : Text) (out : Dict ℕ (SecondBar F)) (c : SecondBucketConsolidator F)
      (emitted : List (Text × SecondBar F)) (since : ℕ) : Type ℓ where
    pub before : Dict ℕ (SecondBar F)
    pub bar : SecondBar F
    pub last : out ≡ before ++ (bar.ms, bar) ∷ []
    pub one : c.in_progress ≡ (sym, bar) ∷ []
    pub same : emitted ++ c.done ≡ tagged_bars sym before
    pub past : KeysBelow bar.ms before
    pub second : ℕ
    pub whole : bar.ms ≡ second * 1000
    pub begun : bar.ms ≤ since
    pub within : bar.ms ≤ c.close_ms

  abbrev pub Agrees :
      Text
      → Dict ℕ (SecondBar F)
      → SecondBucketConsolidator F
      → List (Text × SecondBar F)
      → ℕ
      → Type ℓ
  Agrees sym out c emitted since = Idle sym out c emitted since ⊎ Busy sym out c emitted since

  pub later :
      (sym : Text) (out : Dict ℕ (SecondBar F)) (c : SecondBucketConsolidator F)
      (emitted : List (Text × SecondBar F)) (since now : ℕ)
      → since ≤ now
      → Agrees sym out c emitted since
      → Agrees sym out c emitted now
  later sym out c emitted since now h (inl i) = inl record {
    nothing = i.nothing;
    same = i.same;
    past = keys_below _ _ out (bucket_of-le since now h) i.past;
  }
  later sym out c emitted since now h (inr b) = inr record {
    before = b.before;
    bar = b.bar;
    last = b.last;
    one = b.one;
    same = b.same;
    past = b.past;
    second = b.second;
    whole = b.whole;
    begun = omega (arith, b.begun, h);
    within = b.within;
  }

  -- A trade that is used, and the bar in progress: none, one of the same second, one of another.
  module _ (sym : Text) (t : Trade F) (out : Dict ℕ (SecondBar F)) (c : SecondBucketConsolidator F)
      (emitted : List (Text × SecondBar F)) (used : is_used c.close_ms t ≡ true) where
    in_time : bucket_of t.ms ≤ c.close_ms
    unfolding is_used
    in_time = ground (arith, bucket_of_le t.ms)

    pub begin_bar :
        Idle sym out c emitted t.ms
        → Busy sym (aggregate_one c.close_ms t out) (add_trade sym t c) emitted t.ms
    unfolding aggregate_one add_trade add_to start_bar lookup insert
    begin_bar i =
        rw (used, i.nothing, lookup_end (bucket_of t.ms) out i.past)
          record {
            before = out;
            bar = start_bar t;
            last = insert_end (bucket_of t.ms) (start_bar t) out i.past;
            one = refl;
            same = i.same;
            past = i.past;
            second = t.ms / 1000;
            whole = unfold bucket_of in refl;
            begun = bucket_of_le t.ms;
            within = in_time;
          }

    module _ (b : Busy sym out c emitted t.ms) where
      found : lookup sym c.in_progress ≡ some b.bar
      unfolding lookup
      found = rw (b.one, ==_refl sym) refl

      replaced : (bar : SecondBar F) → insert sym bar c.in_progress ≡ (sym, bar) ∷ []
      unfolding insert
      replaced bar = rw (b.one, ==_refl sym) refl

      pub carry_on :
          nat_eq b.bar.ms (bucket_of t.ms) ≡ true
          → Busy sym (aggregate_one c.close_ms t out) (add_trade sym t c) emitted t.ms
      unfolding aggregate_one add_trade add_to extend_bar
      carry_on h =
          let e : bucket_of t.ms ≡ b.bar.ms = ground arith in
          rw
            (
              used,
              found,
              h,
              replaced (extend_bar t b.bar),
              e,
              b.last,
              lookup_last b.bar.ms b.bar b.before b.past,
            )
            record {
              before = b.before;
              bar = extend_bar t b.bar;
              last = insert_last b.bar.ms (extend_bar t b.bar) b.bar b.before b.past;
              one = refl;
              same = b.same;
              past = b.past;
              second = b.second;
              whole = b.whole;
              begun = b.begun;
              within = b.within;
            }

      all_past : nat_eq b.bar.ms (bucket_of t.ms) ≡ false → KeysBelow (bucket_of t.ms) out
      all_past h =
          let over = second_over b.bar.ms b.second t.ms b.whole b.begun h in
          rw b.last (
            All-append _ b.before _
              (keys_below (bucket_of t.ms) b.bar.ms b.before (omega (arith, over)) b.past)
              (over, tt))

      pub move_on :
          nat_eq b.bar.ms (bucket_of t.ms) ≡ false
          → Busy sym (aggregate_one c.close_ms t out) (add_trade sym t c) emitted t.ms
      unfolding aggregate_one add_trade add_to start_bar
      move_on h =
          rw (used, found, h, replaced (start_bar t), lookup_end (bucket_of t.ms) out (all_past h))
            record {
              before = out;
              bar = start_bar t;
              last = insert_end (bucket_of t.ms) (start_bar t) out (all_past h);
              one = refl;
              same = cc (
                append_assoc emitted c.done ((sym, b.bar) ∷ []),
                b.same,
                b.last,
                tagged_bars-append sym b.before b.bar.ms b.bar,
              );
              past = all_past h;
              second = t.ms / 1000;
              whole = unfold bucket_of in refl;
              begun = bucket_of_le t.ms;
              within = in_time;
            }
