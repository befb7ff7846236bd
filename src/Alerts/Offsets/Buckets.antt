-- ===== src/Alerts/Offsets/Buckets.antt =====
-- What one kind's offset in one demand bucket is made of: the terms that `derive_offsets` of
-- src/PcPulse.Service/src/quality.rs accumulates, read rating by rating.
use pc_pulse.Prelude.{
  ◌≡◌, refl, not, ◌&&◌, Option, none, some, List, [], ◌∷◌, if◌then◌else◌, arith, ◌∙◌, ap,
}
use pc_pulse.Prelude.Int.{ℤ, sub_i64}
use pc_pulse.Text.{Text, text_eq, text_eq_iff}
use pc_pulse.Table.{Table, lookup, insert, lookup-insert, text_Eq}
use pc_pulse.Float.{Float}
use pc_pulse.Alerts.Model.{
  DemandBucket, bucket_eq, bucket_eq_iff, bucket_Eq, RatingVerdict, good, acceptable, sluggish,
  Rating,
}
use pc_pulse.Alerts.Offsets.{
  PolicyOffsets, mentions, notifying_kinds, or_default, rating_offset_step, zero_offset, bounded,
  no_offsets, kind_in, kind_term, lookup_offset, decay_weight, raise_kind, raise_kinds,
  lower_bucket, apply_verdict, apply_rating, apply_ratings, derive_offsets,
}
use pc_pulse.Alerts.Offsets.Notifying.{
  is_sluggish, blames, misses, NoRepeat, mentions-notifying_kinds, notifying_kinds-NoRepeat, is_nil,
  notifying_kinds-is_nil,
}

module _ {F : Type 0} ⦃f : Float F⦄ where
  abbrev kind_value : PolicyOffsets F → Text → DemandBucket → F
  kind_value offsets kind bucket = or_default zero_offset (kind_term offsets kind bucket)

  abbrev bucket_value : PolicyOffsets F → DemandBucket → F
  bucket_value offsets bucket = or_default zero_offset (lookup bucket offsets.buckets)

  kind_in-or_default :
      (kind : Text) (kinds : Option (Table Text F))
      → kind_in kind kinds ≡ lookup kind (or_default [] kinds)
  unfolding lookup
  kind_in-or_default kind none = refl
  kind_in-or_default kind (some kinds) = refl

  kind_term-lookup :
      (o : PolicyOffsets F) (kind : Text) (bucket : DemandBucket)
      → kind_term o kind bucket ≡ lookup kind (or_default [] (lookup bucket o.kinds))
  unfolding kind_term
  kind_term-lookup o kind bucket = kind_in-or_default kind (lookup bucket o.kinds)

  kind_term-raise_kind :
      (b c : DemandBucket) (step : F) (k j : Text) (o : PolicyOffsets F)
      → kind_term (raise_kind b step k o) j c ≡ (
          if bucket_eq b c && text_eq k j
          then some (bounded (f.add (kind_value o k b) step))
          else kind_term o j c)
  unfolding raise_kind
  kind_term-raise_kind b c step k j o = ground (
    arith,
    kind_term-lookup o k b,
    kind_term-lookup o j c,
    kind_term-lookup (raise_kind b step k o) j c,
    bucket_eq_iff b c,
    lookup-insert b c
        (insert k
          (bounded
            (f.add (or_default zero_offset (lookup k (or_default [] (lookup b o.kinds)))) step))
          (or_default [] (lookup b o.kinds)))
        o.kinds,
    lookup-insert k j
        (bounded
          (f.add (or_default zero_offset (lookup k (or_default [] (lookup b o.kinds)))) step))
        (or_default [] (lookup b o.kinds)),
  )

  kind_value-raise_kind :
      (b c : DemandBucket) (step : F) (k j : Text) (o : PolicyOffsets F)
      → kind_value (raise_kind b step k o) j c ≡ (
          if bucket_eq b c && text_eq k j
          then bounded (f.add (kind_value o j c) step)
          else kind_value o j c)
  kind_value-raise_kind b c step k j o =
      ground (arith, bucket_eq_iff b c, text_eq_iff k j, kind_term-raise_kind b c step k j o)

  kind_value-raise_kinds :
      (b c : DemandBucket) (step : F) (ks : List Text) (j : Text) (o : PolicyOffsets F)
      → NoRepeat ks
      → kind_value (raise_kinds b step ks o) j c ≡ (
          if bucket_eq b c && mentions j ks
          then bounded (f.add (kind_value o j c) step)
          else kind_value o j c)
  unfolding raise_kinds mentions
  kind_value-raise_kinds b c step [] j o h = ground arith
  kind_value-raise_kinds b c step (k ∷ ks) j o h = ground (
    arith,
    text_eq_iff k j,
    kind_value-raise_kinds b c step ks j (raise_kind b step k o) h.1,
    kind_value-raise_kind b c step k j o,
  )

  buckets-raise_kinds :
      (b : DemandBucket) (step : F) (ks : List Text) (o : PolicyOffsets F)
      → (raise_kinds b step ks o).buckets ≡ o.buckets
  unfolding raise_kinds raise_kind
  buckets-raise_kinds b step [] o = refl
  buckets-raise_kinds b step (k ∷ ks) o = buckets-raise_kinds b step ks (raise_kind b step k o)

  abbrev pub step_of : ℤ → Rating → F
  step_of now_ms rating = f.mul rating_offset_step (decay_weight (sub_i64 now_ms rating.at_ms))

  -- What one rating makes of a kind's term, and of a bucket's.
  abbrev pub stricter : ℤ → Text → DemandBucket → Rating → F → F
  stricter now_ms kind bucket rating term =
      if blames rating kind bucket then bounded (f.add term (step_of now_ms rating)) else term

  abbrev pub looser : ℤ → DemandBucket → Rating → F → F
  looser now_ms bucket rating term =
      if misses rating bucket then bounded (f.sub term (step_of now_ms rating)) else term

  kind_value-apply_verdict :
      (v : RatingVerdict) (b c : DemandBucket) (step : F) (ks : List Text) (j : Text)
      (o : PolicyOffsets F)
      → NoRepeat ks
      → kind_value (apply_verdict v b step ks o) j c ≡ (
          if bucket_eq b c && (not (is_sluggish v) && mentions j ks)
          then bounded (f.add (kind_value o j c) step)
          else kind_value o j c)
  unfolding apply_verdict lower_bucket kind_term
  kind_value-apply_verdict good b c step ks j o h = kind_value-raise_kinds b c step ks j o h
  kind_value-apply_verdict acceptable b c step ks j o h = kind_value-raise_kinds b c step ks j o h
  kind_value-apply_verdict sluggish b c step [] j o h = ground arith
  kind_value-apply_verdict sluggish b c step (k ∷ ks) j o h = ground arith

  bucket_value-apply_verdict :
      (v : RatingVerdict) (b c : DemandBucket) (step : F) (ks : List Text) (o : PolicyOffsets F)
      → bucket_value (apply_verdict v b step ks o) c ≡ (
          if bucket_eq b c && (is_sluggish v && is_nil ks)
          then bounded (f.sub (bucket_value o c) step)
          else bucket_value o c)
  unfolding apply_verdict lower_bucket
  bucket_value-apply_verdict good b c step ks o = ground (arith, buckets-raise_kinds b step ks o)
  bucket_value-apply_verdict acceptable b c step ks o =
      ground (arith, buckets-raise_kinds b step ks o)
  bucket_value-apply_verdict sluggish b c step [] o = ground (
    arith,
    bucket_eq_iff b c,
    lookup-insert b c (bounded (f.sub (bucket_value o b) step)) o.buckets,
  )
  bucket_value-apply_verdict sluggish b c step (k ∷ ks) o = ground arith

  kind_value-apply_rating :
      (now_ms : ℤ) (r : Rating) (j : Text) (c : DemandBucket) (o : PolicyOffsets F)
      → kind_value (apply_rating now_ms r o) j c ≡ stricter now_ms j c r (kind_value o j c)
  unfolding apply_rating blames
  kind_value-apply_rating now_ms r j c o = ground (
    arith,
    mentions-notifying_kinds j r.open_incidents,
    kind_value-apply_verdict r.verdict r.demand c (step_of now_ms r)
        (notifying_kinds r.open_incidents) j o (notifying_kinds-NoRepeat r.open_incidents),
  )

  bucket_value-apply_rating :
      (now_ms : ℤ) (r : Rating) (c : DemandBucket) (o : PolicyOffsets F)
      → bucket_value (apply_rating now_ms r o) c ≡ looser now_ms c r (bucket_value o c)
  unfolding apply_rating misses
  bucket_value-apply_rating now_ms r c o = ground (
    arith,
    notifying_kinds-is_nil r.open_incidents,
    bucket_value-apply_verdict r.verdict r.demand c (step_of now_ms r)
        (notifying_kinds r.open_incidents) o,
  )

  -- The ratings' terms, oldest first in the list's order.
  unfoldable pub kind_history : ℤ → Text → DemandBucket → List Rating → F → F
  unfolding blames
  kind_history now_ms kind bucket [] term = term
  kind_history now_ms kind bucket (r ∷ rs) term =
      kind_history now_ms kind bucket rs (stricter now_ms kind bucket r term)

  unfoldable pub bucket_history : ℤ → DemandBucket → List Rating → F → F
  unfolding misses
  bucket_history now_ms bucket [] term = term
  bucket_history now_ms bucket (r ∷ rs) term =
      bucket_history now_ms bucket rs (looser now_ms bucket r term)

  kind_value-apply_ratings :
      (now_ms : ℤ) (rs : List Rating) (j : Text) (c : DemandBucket) (o : PolicyOffsets F)
      → kind_value (apply_ratings now_ms rs o) j c ≡ kind_history now_ms j c rs (kind_value o j c)
  unfolding apply_ratings kind_history
  kind_value-apply_ratings now_ms [] j c o = refl
  kind_value-apply_ratings now_ms (r ∷ rs) j c o =
      kind_value-apply_ratings now_ms rs j c (apply_rating now_ms r o)
      ∙ ap (kind_history now_ms j c rs) (kind_value-apply_rating now_ms r j c o)

  bucket_value-apply_ratings :
      (now_ms : ℤ) (rs : List Rating) (c : DemandBucket) (o : PolicyOffsets F)
      → bucket_value (apply_ratings now_ms rs o) c ≡ bucket_history now_ms c rs (bucket_value o c)
  unfolding apply_ratings bucket_history
  bucket_value-apply_ratings now_ms [] c o = refl
  bucket_value-apply_ratings now_ms (r ∷ rs) c o =
      bucket_value-apply_ratings now_ms rs c (apply_rating now_ms r o)
      ∙ ap (bucket_history now_ms c rs) (bucket_value-apply_rating now_ms r c o)

  -- The offset that a history of ratings gives a kind in a bucket is the bounded sum of two terms
  -- that each rating moves in turn: the kind's term goes up by the rating's decayed step, within the
  -- bound, if the rating is not sluggish and names the kind as notifying and unacknowledged; the
  -- bucket's term goes down by it if the rating is sluggish with nothing notifying. Ratings of
  -- another bucket and those given while learning move neither.
  pub lookup_offset-derive_offsets :
      (ratings : List Rating) (now_ms : ℤ) (kind : Text) (bucket : DemandBucket)
      → lookup_offset (derive_offsets ratings now_ms) kind bucket
        ≡ bounded (
            f.add
              (kind_history now_ms kind bucket ratings zero_offset)
              (bucket_history now_ms bucket ratings zero_offset))
  unfolding lookup_offset derive_offsets
  lookup_offset-derive_offsets ratings now_ms kind bucket = rw (
    kind_value-apply_ratings now_ms ratings kind bucket no_offsets,
    bucket_value-apply_ratings now_ms ratings bucket no_offsets,
  )
