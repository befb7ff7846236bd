-- ===== src/Alerts/Offsets/Isolation.antt =====
-- A rating speaks about its own demand bucket only (`derive_offsets` of
-- src/PcPulse.Service/src/quality.rs).
use pc_pulse.Prelude.{◌≡◌, refl, not, ◌&&◌, List, [], ◌∷◌, if◌then◌else◌, arith}
use pc_pulse.Prelude.Int.{ℤ}
use pc_pulse.Text.{Text}
use pc_pulse.Table.{text_Eq}
use pc_pulse.Float.{Float}
use pc_pulse.Alerts.Model.{DemandBucket, bucket_eq, bucket_Eq, Rating}
use pc_pulse.Alerts.Offsets.{zero_offset, lookup_offset, derive_offsets}
use pc_pulse.Alerts.Offsets.Notifying.{blames, misses}
use pc_pulse.Alerts.Offsets.Buckets.{
  stricter, looser, kind_history, bucket_history, lookup_offset-derive_offsets,
}

-- The ratings that speak about a bucket.
abbrev pub speaking : DemandBucket → List Rating → List Rating
speaking bucket [] = []
speaking bucket (r ∷ rs) =
    let rest = speaking bucket rs in
    if not r.during_learning && bucket_eq r.demand bucket then r ∷ rest else rest

module _ {F : Type 0} ⦃f : Float F⦄ where
  kind_history-speaking :
      (now_ms : ℤ) (kind : Text) (bucket : DemandBucket) (rs : List Rating) (term : F)
      → kind_history now_ms kind bucket (speaking bucket rs) term
        ≡ kind_history now_ms kind bucket rs term
  unfolding kind_history blames
  kind_history-speaking now_ms kind bucket [] term = refl
  kind_history-speaking now_ms kind bucket (r ∷ rs) term = ground (
    arith,
    kind_history-speaking now_ms kind bucket rs term,
    kind_history-speaking now_ms kind bucket rs (stricter now_ms kind bucket r term),
  )

  bucket_history-speaking :
      (now_ms : ℤ) (bucket : DemandBucket) (rs : List Rating) (term : F)
      → bucket_history now_ms bucket (speaking bucket rs) term
        ≡ bucket_history now_ms bucket rs term
  unfolding bucket_history misses
  bucket_history-speaking now_ms bucket [] term = refl
  bucket_history-speaking now_ms bucket (r ∷ rs) term = ground (
    arith,
    bucket_history-speaking now_ms bucket rs term,
    bucket_history-speaking now_ms bucket rs (looser now_ms bucket r term),
  )

  -- Ratings of other demand buckets, and those given while learning, have no say: leaving them out
  -- of the history changes no kind's offset in the bucket.
  pub derive_offsets-speaking :
      (ratings : List Rating) (now_ms : ℤ) (kind : Text) (bucket : DemandBucket)
      → lookup_offset {F = F} (derive_offsets (speaking bucket ratings) now_ms) kind bucket
        ≡ lookup_offset (derive_offsets ratings now_ms) kind bucket
  derive_offsets-speaking ratings now_ms kind bucket = rw (
    lookup_offset-derive_offsets (speaking bucket ratings) now_ms kind bucket,
    lookup_offset-derive_offsets ratings now_ms kind bucket,
    kind_history-speaking now_ms kind bucket ratings zero_offset,
    bucket_history-speaking now_ms bucket ratings zero_offset,
  )
