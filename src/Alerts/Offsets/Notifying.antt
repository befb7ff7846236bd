-- ===== src/Alerts/Offsets/Notifying.antt =====
-- What a rating says of a kind and of a demand bucket, and the set of kinds that notify while it is
-- given (`derive_offsets` of src/PcPulse.Service/src/quality.rs).
use pc_pulse.Prelude.{◌≡◌, refl, Bool, true, false, not, ◌&&◌, ◌||◌, List, [], ◌∷◌, arith}
use pc_pulse.Text.{Text, text_eq, text_eq_iff}
use pc_pulse.Table.{text_Eq}
use pc_pulse.Alerts.Model.{
  DemandBucket, bucket_eq, bucket_Eq, RatingVerdict, sluggish, OpenIncidentRef, Rating,
}
use pc_pulse.Alerts.Offsets.{is_notifying, mentions, notifying_kinds}

-- Some open incident of the kind notifies and is not acknowledged.
unfoldable pub names : Text → List OpenIncidentRef → Bool
names kind [] = false
names kind (i ∷ rest) = (is_notifying i && text_eq i.kind kind) || names kind rest

unfoldable pub is_quiet : List OpenIncidentRef → Bool
is_quiet [] = true
is_quiet (i ∷ rest) = not (is_notifying i) && is_quiet rest

abbrev pub is_sluggish : RatingVerdict → Bool
is_sluggish sluggish = true
is_sluggish _ = false

-- The rating calls the kind a false positive in the bucket.
unfoldable pub blames : Rating → Text → DemandBucket → Bool
unfolding names
blames rating kind bucket =
    not rating.during_learning
    && (bucket_eq rating.demand bucket
        && (not (is_sluggish rating.verdict) && names kind rating.open_incidents))

-- The rating says that something went unreported in the bucket.
unfoldable pub misses : Rating → DemandBucket → Bool
unfolding is_quiet
misses rating bucket =
    not rating.during_learning
    && (bucket_eq rating.demand bucket
        && (is_sluggish rating.verdict && is_quiet rating.open_incidents))

abbrev pub NoRepeat : List Text → Type 0
NoRepeat [] = Unit
NoRepeat (k ∷ ks) = (mentions k ks ≡ false) × NoRepeat ks

pub mentions-notifying_kinds :
    (kind : Text) (incidents : List OpenIncidentRef)
    → mentions kind (notifying_kinds incidents) ≡ names kind incidents
unfolding mentions notifying_kinds names
mentions-notifying_kinds kind [] = refl
mentions-notifying_kinds kind (i ∷ rest) =
    ground (arith, text_eq_iff i.kind kind, mentions-notifying_kinds kind rest)

pub notifying_kinds-NoRepeat :
    (incidents : List OpenIncidentRef) → NoRepeat (notifying_kinds incidents)
unfolding notifying_kinds
notifying_kinds-NoRepeat [] = tt
notifying_kinds-NoRepeat (i ∷ rest) = ground (arith, notifying_kinds-NoRepeat rest)

abbrev pub is_nil : List Text → Bool
is_nil [] = true
is_nil (k ∷ ks) = false

pub notifying_kinds-is_nil :
    (incidents : List OpenIncidentRef) → is_nil (notifying_kinds incidents) ≡ is_quiet incidents
unfolding notifying_kinds is_quiet mentions
notifying_kinds-is_nil [] = refl
notifying_kinds-is_nil (i ∷ rest) =
    ground (arith, mentions-notifying_kinds i.kind rest, notifying_kinds-is_nil rest)
