-- ===== src/Alerts/Engine.antt =====
-- The incident engine of src/PcPulse.Service/src/alerting.rs: the part of `AlertEngine` that the life
-- of an incident rests on, with the operations that a caller makes between two samples. The
-- detectors' own state (process baselines, growth windows, the pool's statistics) is not in it: what
-- the detectors say reaches the engine as candidates, readings and window shapes.
pub mod Memory
pub mod Maps
pub mod Lifecycle
pub mod Passes
pub mod Closing
pub mod Refinement
pub mod Validity
pub mod Agreement
pub mod Reachability
pub mod Elsewhere
pub mod Hysteresis
pub mod Presence
pub mod Streaks
pub mod Reopening
pub mod Restart
pub mod Lapses
pub mod Endings
pub mod Candidates
pub mod Resolution
pub mod Scoring
pub mod Evaluation
use pc_pulse.Prelude.{
  ℕ, ◌+◌, ◌*◌, ◌^◌, ◌-◌, min, Bool, true, false, not, ◌&&◌, ◌||◌, Option, none, some, List, [], ◌∷◌,
  leb, ◌==◌, if◌then◌else◌, length,
}
use pc_pulse.Prelude.Int.{ℤ, pos, wrap, leb_ℤ, sub_i64}
use pc_pulse.Text.{Text, codes, text_eq}
use pc_pulse.Table.{Table, lookup, insert, modify, text_Eq}
use pc_pulse.Float.{Float}
use pc_pulse.Alerts.Model.{Severity, Evidence, Alert, DemandBucket}
use pc_pulse.Alerts.Offsets.{PolicyOffsets, no_offsets}

abbrev pub quiet_period_ms : ℤ
quiet_period_ms = pos (6 * 3_600_000)

abbrev pub dpc_key : Text
dpc_key = codes "dpcInterrupt"

abbrev pub sustained_p95_ms : ℕ
sustained_p95_ms = 15 * 60_000

abbrev pub p95_window_cap : ℕ
p95_window_cap = 2_048

-- `TrendShape` of stats.rs.
pub data TrendShape (F : Type 0) : Type 0 where
  monotonic : (total_growth : F) → TrendShape F
  plateau returning : TrendShape F
  partial_release : (remaining : F) → TrendShape F
  inconclusive : TrendShape F

pub data GrowthFate : Type 0 where
  auto_resolve stays_open undecided : GrowthFate

unfoldable pub growth_fate : {F : Type 0} → TrendShape F → GrowthFate
growth_fate plateau = auto_resolve
growth_fate returning = auto_resolve
growth_fate (monotonic total_growth) = stays_open
growth_fate (partial_release remaining) = stays_open
growth_fate inconclusive = undecided

-- `VerdictState` of metrics/interrupts.rs.
pub data VerdictState : Type 0 where
  no_capture single_capture : VerdictState
  repeatable : (driver_family : Text) → VerdictState
  changed_confidently : (from to : Text) → VerdictState

abbrev pub is_attributed : VerdictState → Bool
is_attributed (repeatable driver_family) = true
is_attributed (changed_confidently from to) = true
is_attributed _ = false

abbrev pub verdict_stable : VerdictState → Option Bool
verdict_stable no_capture = none
verdict_stable single_capture = some false
verdict_stable (repeatable driver_family) = some true
verdict_stable (changed_confidently from to) = some true

pub record CandidateQuality : Type 0 where
  pub attribution_stable : Option Bool
  pub corroborating_signals : ℕ
  pub user_impact_signals : ℕ
  pub notify : Bool

abbrev pub default_quality : CandidateQuality
default_quality = record {
  attribution_stable = none;
  corroborating_signals = 0;
  user_impact_signals = 0;
  notify = true;
}

pub record Candidate (F : Type 0) : Type 0 where
  pub key : Text
  pub kind : Text
  pub severity : Severity
  pub required_samples : ℕ
  pub pid : Option ℕ
  pub process_name : Option Text
  pub title : Text
  pub explanation : Text
  pub evidence : List Evidence
  pub recommendation : Text
  pub entry : Option F
  pub exit_ratio : F
  pub material_change : Bool
  pub quality : CandidateQuality

pub record InterruptContext (F : Type 0) : Type 0 where
  pub verdict : VerdictState
  pub corroborating_signals : ℕ
  pub dpc_p95 : Option F
  pub interrupt_p95 : Option F

pub record ExitGuard (F : Type 0) : Type 0 where
  pub exit_threshold : F
  pub hold_ms : ℤ

pub record IncidentCalibration : Type 0 where
  pub window_ms : Option ℤ
  pub breach_since_ms : Option ℤ
  pub material_change : Bool
  pub quality : CandidateQuality
  pub reopened_from_severity : Option Severity

abbrev pub default_calibration : IncidentCalibration
default_calibration = record {
  window_ms = none;
  breach_since_ms = none;
  material_change = false;
  quality = default_quality;
  reopened_from_severity = none;
}

pub record NotifyMemory : Type 0 where
  pub generation : ℕ
  pub at_ms : ℤ

pub record ResolvedIncident : Type 0 where
  pub id : Text
  pub resolved_at_ms : ℤ
  pub first_seen_ms : ℤ
  pub occurrence_count : ℕ
  pub notify_generation : ℕ
  pub severity : Severity

pub record AlertEngine (F : Type 0) : Type 0 where
  pub streaks : Table Text ℕ
  pub active : Table Text (Alert F)
  pub guards : Table Text (ExitGuard F)
  pub below_exit_since : Table Text ℤ
  pub resolved_memory : Table Text ResolvedIncident
  pub calibrations : Table Text IncidentCalibration
  pub notify_memory : Table Text NotifyMemory
  pub interrupts : InterruptContext F
  pub rating_offsets : PolicyOffsets F
  pub p95_window : List (ℤ × Bool)
  pub last_verdict_change : Option (Text × Text)
  pub pending_verdict_change : Bool

-- One sample as the engine meets it: the system's time stamp, the settings, the calibration, and
-- what the detectors read.
pub record Sample (F : Type 0) : Type 0 where
  pub timestamp_ms : ℤ
  pub sample_interval_ms : ℕ
  pub sustained_samples : ℕ
  pub learning : Bool
  pub baseline_maturity : F
  pub demand : DemandBucket
  pub dpc_rate : F
  pub interrupt_rate : F
  pub readings : Table Text F
  pub growth_shapes : Table Text (TrendShape F)

-- `saturating_add(1)` on a u32.
abbrev pub inc_u32 : ℕ → ℕ
inc_u32 n = min (n + 1) (2 ^ 32 - 1)

-- `i64::from(samples) * interval as i64`
abbrev pub window_of : ℕ → ℕ → ℤ
window_of samples interval_ms = wrap (pos (samples * interval_ms))

unfoldable pub within_quiet_period : ℤ → ℤ → Bool
unfolding sub_i64
within_quiet_period now_ms resolved_at_ms = leb_ℤ (sub_i64 now_ms resolved_at_ms) quiet_period_ms

abbrev pub contains : Text → List Text → Bool
contains key [] = false
contains key (k ∷ keys) = text_eq k key || contains key keys

module _ {V : Type 0} where
  -- `HashMap::retain`
  unfoldable pub retain : (Text → V → Bool) → Table Text V → Table Text V
  retain keep [] = []
  retain keep ((k, v) ∷ t) = let rest = retain keep t in if keep k v then (k, v) ∷ rest else rest

  abbrev pub contains_key : Text → Table Text V → Bool
  contains_key key [] = false
  contains_key key ((k, v) ∷ t) = text_eq k key || contains_key key t

  -- `entry(key).or_default()`, written through.
  unfoldable pub upsert : Text → V → (V → V) → Table Text V → Table Text V
  upsert key default f [] = (key, f default) ∷ []
  upsert key default f ((k, v) ∷ t) =
      if text_eq k key then (k, f v) ∷ t else (k, v) ∷ upsert key default f t

module _ {F : Type 0} ⦃f : Float F⦄ where
  abbrev pub exit_ratio : F
  exit_ratio = f.literal 85 2

  -- `AlertEngine::default()`
  abbrev pub default_engine : AlertEngine F
  default_engine = record {
    streaks = [];
    active = [];
    guards = [];
    below_exit_since = [];
    resolved_memory = [];
    calibrations = [];
    notify_memory = [];
    interrupts = record {
      verdict = no_capture;
      corroborating_signals = 0;
      dpc_p95 = none;
      interrupt_p95 = none;
    };
    rating_offsets = no_offsets;
    p95_window = [];
    last_verdict_change = none;
    pending_verdict_change = false;
  }
