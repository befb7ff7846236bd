-- ===== src/Alerts/Growth/Runs.antt =====
-- How long a handle or thread count has climbed (`monotonic_since` of `AlertEngine` in
-- src/PcPulse.Service/src/alerting.rs): what `evaluate` does to it, and the severity of the findings
-- `handleGrowth` and `threadGrowth` that rest on it.
use pc_pulse.Prelude.{
  ℕ, Bool, true, false, ◌&&◌, Option, none, some, List, [], ◌∷◌, leb, if◌then◌else◌,
}
use pc_pulse.Prelude.Int.{ℤ}
use pc_pulse.Text.{Text}
use pc_pulse.Table.{Table, lookup, insert, remove, text_Eq}
use pc_pulse.Alerts.Model.{Severity}
use pc_pulse.Alerts.Engine.{TrendShape, monotonic}
use pc_pulse.Alerts.Growth.{growth_severity}

-- `entry(key).or_insert(at)`, given what stands under the key.
abbrev pub or_insert : Text → ℤ → Table Text ℤ → Option ℤ → Table Text ℤ
or_insert key at_ms since none = insert key at_ms since
or_insert key at_ms since (some t) = since

-- `retain(|key, _| ..)`
unfoldable pub retain_watched : (Text → Bool) → Table Text ℤ → Table Text ℤ
retain_watched is_watched [] = []
retain_watched is_watched ((key, t) ∷ since) =
    let rest = retain_watched is_watched since in if is_watched key then (key, t) ∷ rest else rest

-- What `evaluate` does to the table: it records a shape, or forgets the keys that are not watched.
pub data RunStep (F : Type 0) : Type 0 where
  recorded : (key : Text) (shape : Option (TrendShape F)) (at_ms : ℤ) → RunStep F
  pruned : (is_watched : Text → Bool) → RunStep F

module _ {F : Type 0} where
  -- The match on `Some(TrendShape::Monotonic { .. })`.
  abbrev pub is_monotonic : Option (TrendShape F) → Bool
  is_monotonic (some (monotonic total_growth)) = true
  is_monotonic _ = false

  unfoldable pub record_run : Text → Option (TrendShape F) → ℤ → Table Text ℤ → Table Text ℤ
  unfolding lookup insert remove
  record_run key shape at_ms since =
      if is_monotonic shape then or_insert key at_ms since (lookup key since) else remove key since

  -- The finding of one of the two detectors: its growth, its threshold, its shape, whether the
  -- baseline of the name admits it, and how long it has climbed.
  unfoldable pub growth_finding : ℕ → ℕ → Option (TrendShape F) → Bool → ℤ → Option Severity
  unfolding growth_severity
  growth_finding growth threshold shape admits climbed_ms =
      if leb threshold growth && is_monotonic shape && admits
      then some (growth_severity climbed_ms)
      else none

  -- The table after some steps, the newest first.
  unfoldable pub monotonic_since : List (RunStep F) → Table Text ℤ
  unfolding record_run retain_watched
  monotonic_since [] = []
  monotonic_since (recorded key shape at_ms ∷ earlier) =
      record_run key shape at_ms (monotonic_since earlier)
  monotonic_since (pruned is_watched ∷ earlier) =
      retain_watched is_watched (monotonic_since earlier)
