-- ===== src/Alerts/Offsets.antt =====
-- The user's ratings read into offsets of the notification floors: `PolicyOffsets`, `lookup`,
-- `is_empty`, `derive_offsets`, `decay_weight` of src/PcPulse.Service/src/quality.rs.
-- Maps are association lists (Table.antt); the set of notifying kinds is a list without repeats.
pub mod Bounds
pub mod Buckets
pub mod Isolation
pub mod Notifying
use pc_pulse.Prelude.{
  ℕ, ◌≡◌, Bool, true, false, not, ◌&&◌, ◌||◌, Option, none, some, List, [], ◌∷◌, ◌==◌,
  if◌then◌else◌, length,
}
use pc_pulse.Prelude.Int.{ℤ, pos, leb_ℤ, sub_i64}
use pc_pulse.Text.{Text, text_eq}
use pc_pulse.Table.{Eq, Table, lookup, insert, text_Eq}
use pc_pulse.Float.{Float, clamp}
use pc_pulse.Alerts.Model.{
  DemandBucket, bucket_Eq, RatingVerdict, good, acceptable, sluggish, OpenIncidentRef, Rating,
}
use pc_pulse.Alerts.Quality.{max_ℤ}

pub record PolicyOffsets (F : Type 0) : Type 0 where
  pub kinds : Table DemandBucket (Table Text F)
  pub buckets : Table DemandBucket F

abbrev pub is_notifying : OpenIncidentRef → Bool
is_notifying incident = incident.notify && not incident.acknowledged

-- `HashSet::contains`
unfoldable pub mentions : Text → List Text → Bool
mentions kind [] = false
mentions kind (k ∷ kinds) = text_eq k kind || mentions kind kinds

-- A `HashSet` of the kinds: each kind once.
unfoldable pub notifying_kinds : List OpenIncidentRef → List Text
unfolding mentions
notifying_kinds [] = []
notifying_kinds (incident ∷ rest) =
    let kinds = notifying_kinds rest in
    if is_notifying incident && not (mentions incident.kind kinds)
    then incident.kind ∷ kinds
    else kinds

abbrev pub or_default : {A : Type 0} → A → Option A → A
or_default d none = d
or_default d (some a) = a

module _ {F : Type 0} ⦃f : Float F⦄ where
  abbrev pub rating_offset_step : F
  rating_offset_step = f.literal 5 2

  abbrev pub rating_offset_bound : F
  rating_offset_bound = f.literal 15 2

  abbrev pub rating_offset_half_life_days : F
  rating_offset_half_life_days = f.literal 300 1

  abbrev pub ms_per_day : F
  ms_per_day = f.literal 864_000_000 1

  abbrev pub zero_offset : F
  zero_offset = f.literal 0 1

  -- `clamp(-RATING_OFFSET_BOUND, RATING_OFFSET_BOUND)`
  abbrev pub bounded : F → F
  bounded x = clamp x (f.neg rating_offset_bound) rating_offset_bound

  -- `PolicyOffsets::default()`
  abbrev pub no_offsets : PolicyOffsets F
  no_offsets = record { kinds = []; buckets = [] }

  unfoldable pub is_empty : PolicyOffsets F → Bool
  is_empty offsets = length offsets.kinds == 0 && length offsets.buckets == 0

  abbrev pub kind_in : Text → Option (Table Text F) → Option F
  kind_in kind none = none
  kind_in kind (some kinds) = lookup kind kinds

  -- The term of a kind in a bucket.
  unfoldable pub kind_term : PolicyOffsets F → Text → DemandBucket → Option F
  unfolding lookup
  kind_term offsets kind bucket = kind_in kind (lookup bucket offsets.kinds)

  unfoldable pub lookup_offset : PolicyOffsets F → Text → DemandBucket → F
  unfolding kind_term lookup
  lookup_offset offsets kind bucket = bounded (
      f.add (or_default zero_offset (kind_term offsets kind bucket))
        (or_default zero_offset (lookup bucket offsets.buckets)))

  unfoldable pub decay_weight : ℤ → F
  decay_weight age_ms =
      f.powf (f.literal 5 1)
        (f.div (f.div (f.of_i64 (max_ℤ age_ms (pos 0))) ms_per_day) rating_offset_half_life_days)

  -- One step stricter for a kind in a bucket.
  unfoldable pub raise_kind : DemandBucket → F → Text → PolicyOffsets F → PolicyOffsets F
  unfolding lookup insert
  raise_kind bucket step kind offsets =
      let kinds = or_default [] (lookup bucket offsets.kinds) in
      let term = or_default zero_offset (lookup kind kinds) in
      record {
        kinds = insert bucket (insert kind (bounded (f.add term step)) kinds) offsets.kinds;
        buckets = offsets.buckets;
      }

  unfoldable pub raise_kinds : DemandBucket → F → List Text → PolicyOffsets F → PolicyOffsets F
  unfolding raise_kind
  raise_kinds bucket step [] offsets = offsets
  raise_kinds bucket step (kind ∷ rest) offsets =
      raise_kinds bucket step rest (raise_kind bucket step kind offsets)

  -- One step more permissive for every kind in a bucket.
  unfoldable pub lower_bucket : DemandBucket → F → PolicyOffsets F → PolicyOffsets F
  unfolding lookup insert
  lower_bucket bucket step offsets =
      let term = or_default zero_offset (lookup bucket offsets.buckets) in
      record {
        kinds = offsets.kinds;
        buckets = insert bucket (bounded (f.sub term step)) offsets.buckets;
      }

  unfoldable pub apply_verdict :
      RatingVerdict → DemandBucket → F → List Text → PolicyOffsets F → PolicyOffsets F
  unfolding raise_kinds lower_bucket
  apply_verdict good bucket step notifying offsets = raise_kinds bucket step notifying offsets
  apply_verdict acceptable bucket step notifying offsets = raise_kinds bucket step notifying offsets
  apply_verdict sluggish bucket step [] offsets = lower_bucket bucket step offsets
  apply_verdict sluggish bucket step (kind ∷ rest) offsets = offsets

  unfoldable pub apply_rating : ℤ → Rating → PolicyOffsets F → PolicyOffsets F
  unfolding apply_verdict notifying_kinds decay_weight sub_i64
  apply_rating now_ms rating offsets =
      if rating.during_learning
      then offsets
      else apply_verdict rating.verdict rating.demand
          (f.mul rating_offset_step (decay_weight (sub_i64 now_ms rating.at_ms)))
          (notifying_kinds rating.open_incidents) offsets

  unfoldable pub apply_ratings : ℤ → List Rating → PolicyOffsets F → PolicyOffsets F
  unfolding apply_rating
  apply_ratings now_ms [] offsets = offsets
  apply_ratings now_ms (rating ∷ rest) offsets =
      apply_ratings now_ms rest (apply_rating now_ms rating offsets)

  unfoldable pub derive_offsets : List Rating → ℤ → PolicyOffsets F
  unfolding apply_ratings
  derive_offsets ratings now_ms = apply_ratings now_ms ratings no_offsets
