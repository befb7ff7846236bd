-- ===== src/Alerts/Model.antt =====
-- The wire types of incidents and ratings (src/PcPulse.Service/src/models.rs).
use pc_pulse.Prelude.{ℕ, ◌≡◌, ◌↔◌, Bool, true, false, Option, List, arith}
use pc_pulse.Prelude.Int.{ℤ}
use pc_pulse.Text.{Text}
use pc_pulse.Table.{Eq}
use pc_pulse.Float.{Float}

pub data Severity : Type 0 where
  info warning critical : Severity

pub data IncidentState : Type 0 where
  open_state reopened resolved : IncidentState

pub record Evidence : Type 0 where
  pub label : Text
  pub value : Text

pub record AlertQuality (F : Type 0) : Type 0 where
  pub confidence : F
  pub persistence : F
  pub corroboration : F
  pub user_impact : F
  pub novelty : F

-- `AlertQuality::default()`
module _ {F : Type 0} ⦃f : Float F⦄ where
  abbrev pub trusted : AlertQuality F
  trusted = record {
    confidence = f.literal 10 1;
    persistence = f.literal 10 1;
    corroboration = f.literal 10 1;
    user_impact = f.literal 10 1;
    novelty = f.literal 10 1;
  }

pub record Alert (F : Type 0) : Type 0 where
  pub id : Text
  pub kind : Text
  pub severity : Severity
  pub first_seen_ms : ℤ
  pub last_seen_ms : ℤ
  pub process_id : Option ℕ
  pub process_name : Option Text
  pub title : Text
  pub explanation : Text
  pub evidence : List Evidence
  pub recommendation : Text
  pub acknowledged : Bool
  pub occurrence_count : ℕ
  pub resolved_at_ms : Option ℤ
  pub archived : Bool
  pub fingerprint : Text
  pub state : IncidentState
  pub quality : AlertQuality F
  pub notify : Bool
  pub notify_generation : ℕ

pub data RatingVerdict : Type 0 where
  good acceptable sluggish : RatingVerdict

pub data DemandBucket : Type 0 where
  light moderate heavy : DemandBucket

abbrev pub bucket_eq : DemandBucket → DemandBucket → Bool
bucket_eq light light = true
bucket_eq moderate moderate = true
bucket_eq heavy heavy = true
bucket_eq _ _ = false

pub bucket_eq_iff : (a b : DemandBucket) → (bucket_eq a b ≡ true) ↔ (a ≡ b)
bucket_eq_iff light light = ground arith
bucket_eq_iff light moderate = ground arith
bucket_eq_iff light heavy = ground arith
bucket_eq_iff moderate light = ground arith
bucket_eq_iff moderate moderate = ground arith
bucket_eq_iff moderate heavy = ground arith
bucket_eq_iff heavy light = ground arith
bucket_eq_iff heavy moderate = ground arith
bucket_eq_iff heavy heavy = ground arith

instance abbrev pub bucket_Eq : Eq DemandBucket
bucket_Eq = record { beq = bucket_eq; beq_iff = bucket_eq_iff }

pub record OpenIncidentRef : Type 0 where
  pub fingerprint : Text
  pub kind : Text
  pub severity : Severity
  pub notify : Bool
  pub acknowledged : Bool

-- A rating, less its demand detail and its JSON digest, which the policy does not read.
pub record Rating : Type 0 where
  pub id : Text
  pub at_ms : ℤ
  pub verdict : RatingVerdict
  pub demand : DemandBucket
  pub open_incidents : List OpenIncidentRef
  pub during_learning : Bool
  pub unexplained : Bool
