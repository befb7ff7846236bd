-- ===== src/Alerts/Quality.antt =====
-- The score of an incident and the notification policy: `score`, `saturating_signal`, `novelty`,
-- `decide`, `rank` of src/PcPulse.Service/src/quality.rs.
pub mod Policy
use pc_pulse.Prelude.{
  ℕ, ◌+◌, ◌-◌, ◌*◌, ◌/◌, min, Bool, true, false, not, ◌&&◌, ◌||◌, Option, none, some, ltb, leb,
  if◌then◌else◌,
}
use pc_pulse.Prelude.Int.{ℤ, pos, negsuc, leb_ℤ, sub_i64, pos_part}
use pc_pulse.Text.{is_some}
use pc_pulse.Float.{Float, clamp}
use pc_pulse.Alerts.Model.{Severity, info, warning, critical, AlertQuality, Alert}

pub record QualityInputs (F : Type 0) : Type 0 where
  pub alert : Alert F
  pub sustained_window_ms : ℤ
  pub breach_duration_ms : ℤ
  pub baseline_maturity : F
  pub attribution_stable : Option Bool
  pub corroborating_signals : ℕ
  pub user_impact_signals : ℕ
  pub notified_before : Bool
  pub last_notified_ms : Option ℤ

pub record NotifyDecision : Type 0 where
  pub notify : Bool
  pub bump_generation : Bool

abbrev pub max_ℤ : ℤ → ℤ → ℤ
max_ℤ a b = if leb_ℤ a b then b else a

unfoldable pub rank : Severity → ℕ
rank info = 0
rank warning = 1
rank critical = 2

abbrev pub severity_ok : Severity → Bool → Bool
severity_ok info learning = false
severity_ok warning learning = not learning
severity_ok critical learning = true

module _ {F : Type 0} ⦃f : Float F⦄ where
  abbrev pub persistence_saturation_windows : F
  persistence_saturation_windows = f.literal 30 1

  abbrev pub sample_depth_saturation : F
  sample_depth_saturation = f.literal 100 1

  abbrev pub maturity_weight : F
  maturity_weight = f.literal 25 2

  abbrev pub sample_depth_weight : F
  sample_depth_weight = f.literal 35 2

  abbrev pub attribution_weight : F
  attribution_weight = f.literal 40 2

  abbrev pub neutral_attribution : F
  neutral_attribution = f.literal 5 1

  abbrev pub persistence_floor : F
  persistence_floor = f.literal 5 1

  abbrev pub confidence_floor_default : F
  confidence_floor_default = f.literal 5 1

  abbrev pub critical_confidence_floor : F
  critical_confidence_floor = f.literal 35 2

  abbrev pub learning_confidence_floor : F
  learning_confidence_floor = f.literal 6 1

  abbrev pub attribution : Option Bool → F
  attribution none = neutral_attribution
  attribution (some true) = f.literal 10 1
  attribution (some false) = f.literal 0 1

  abbrev pub unit_clamp : F → F
  unit_clamp x = clamp x (f.literal 0 1) (f.literal 10 1)

  unfoldable pub saturating_signal : ℕ → F
  saturating_signal signals = f.sub (f.literal 10 1) (f.powi (f.literal 5 1) (min signals 32))

  -- The occurrences since the last notification, in windows of elapsed time.
  unfoldable pub occurrences_since : QualityInputs F → Option ℤ → ℕ
  unfolding sub_i64
  occurrences_since inputs none = inputs.alert.occurrence_count
  occurrences_since inputs (some at_ms) =
      min
        (pos_part (max_ℤ (sub_i64 inputs.alert.last_seen_ms at_ms) (pos 0))
          / pos_part (max_ℤ inputs.sustained_window_ms (pos 1)))
        inputs.alert.occurrence_count

  unfoldable pub novelty : QualityInputs F → F
  unfolding occurrences_since
  novelty inputs =
      if not inputs.notified_before
      then f.literal 10 1
      else f.powi (f.literal 5 1) (min (occurrences_since inputs inputs.last_notified_ms) 32)

  unfoldable pub score : QualityInputs F → AlertQuality F
  unfolding saturating_signal novelty
  score inputs =
      let window_ms = f.of_i64 (max_ℤ inputs.sustained_window_ms (pos 1)) in
      let windows = f.div (f.of_i64 (max_ℤ inputs.breach_duration_ms (pos 0))) window_ms in
      let sample_depth =
        unit_clamp (f.div (f.of_i64 (pos inputs.alert.occurrence_count)) sample_depth_saturation) in
      record {
        confidence = unit_clamp (
            f.add
              (f.add (f.mul (unit_clamp inputs.baseline_maturity) maturity_weight)
                (f.mul sample_depth sample_depth_weight))
              (f.mul (attribution inputs.attribution_stable) attribution_weight));
        persistence =
            f.div (clamp windows (f.literal 0 1) persistence_saturation_windows)
              persistence_saturation_windows;
        corroboration = saturating_signal inputs.corroborating_signals;
        user_impact = saturating_signal inputs.user_impact_signals;
        novelty = novelty inputs;
      }

  abbrev pub confidence_floor : Severity → Bool → F
  confidence_floor critical true = learning_confidence_floor
  confidence_floor critical false = critical_confidence_floor
  confidence_floor info learning = confidence_floor_default
  confidence_floor warning learning = confidence_floor_default

  abbrev pub was_notifying : Option (Alert F) → Bool
  was_notifying none = false
  was_notifying (some previous) = previous.notify

  abbrev pub has_escalated : Alert F → Option (Alert F) → Bool
  has_escalated alert none = false
  has_escalated alert (some previous) = ltb (rank previous.severity) (rank alert.severity)

  unfoldable pub decide :
      Alert F → AlertQuality F → Bool → Option (Alert F) → Bool → F → NotifyDecision
  unfolding rank
  decide alert quality learning previous material_change offset =
      let notify =
        severity_ok alert.severity learning
        && (f.le (f.add persistence_floor offset) quality.persistence
            && f.le (f.add (confidence_floor alert.severity learning) offset) quality.confidence) in
      record {
        notify = notify;
        bump_generation =
            notify && (was_notifying previous && (has_escalated alert previous || material_change));
      }
