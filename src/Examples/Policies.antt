-- ===== src/Examples/Policies.antt =====
-- The notification policy, the offsets of ratings and the settings at concrete values.
use pc_pulse.Prelude.{◌≡◌, Option, ◌≤◌, arith, ◌↔◌, refl, true, false, none, some, List, [], ◌∷◌}
use pc_pulse.Prelude.Int.{ℤ, pos, ◌+ℤ◌, ◌≤ℤ◌, sub_i64, wrap, ◌-ℤ◌}
use pc_pulse.Text.{Text, text_eq, codes}
use pc_pulse.Table.{lookup, insert, text_Eq}
use pc_pulse.Float.Fixed.{fixed_float, fixed_float-IsOrdered}
use pc_pulse.Alerts.Model.{warning, critical, Alert, light, heavy, Rating, good, sluggish, trusted}
use pc_pulse.Alerts.Quality.{decide}
use pc_pulse.Alerts.Quality.Policy.{Deserves, Renews, decide-notify, decide-bump_generation}
use pc_pulse.Alerts.Offsets.{PolicyOffsets, no_offsets, bounded, lookup_offset, derive_offsets}
use pc_pulse.Alerts.Offsets.Buckets.{kind_history, bucket_history, lookup_offset-derive_offsets}
use pc_pulse.Alerts.Offsets.Bounds.{decide-lookup_offset-suffices}
use pc_pulse.Alerts.Engine.{TrendShape, monotonic}
use pc_pulse.Alerts.Growth.{monotonic_run_ms, growth_severity}
use pc_pulse.Alerts.Growth.Runs.{
  RunStep, recorded, pruned, record_run, retain_watched, monotonic_since, growth_finding,
}
use pc_pulse.Alerts.Growth.Duration.{ClimbsSince, decide-growth_finding}
use pc_pulse.Config.{Settings, bad_retention, bail, default_settings, validate}
use pc_pulse.Config.Validation.{IsFirst, validate-bail}
use pc_pulse.Examples.Incidents.{disk_key, latency}

decide-notify_example :
    ((decide latency trusted false none false (pos 50_000)).notify ≡ true)
    ↔ Deserves warning false trusted (pos 50_000)
decide-notify_example = decide-notify latency trusted false none false (pos 50_000)

abbrev escalated : Alert ℤ
escalated = record latency { severity = critical }

decide-bump_generation_example :
    ((decide escalated trusted false (some latency) false (pos 0)).bump_generation ≡ true)
    ↔ (Deserves critical false trusted (pos 0) × Renews escalated (some latency) false)
decide-bump_generation_example =
    decide-bump_generation escalated trusted false (some latency) false (pos 0)

abbrev complaint : Rating
complaint = record {
  id = [];
  at_ms = pos 1_000;
  verdict = sluggish;
  demand = heavy;
  open_incidents = [];
  during_learning = false;
  unexplained = true;
}

abbrev praise : Rating
praise = record complaint {
  verdict = good;
  demand = light;
  open_incidents =
      record {
        fingerprint = disk_key;
        kind = disk_key;
        severity = warning;
        notify = true;
        acknowledged = false;
      }
      ∷ [];
}

abbrev ratings : List Rating
ratings = complaint ∷ praise ∷ []

lookup_offset-derive_offsets_example :
    lookup_offset {F = ℤ} (derive_offsets ratings (pos 5_000)) disk_key light
    ≡ bounded (
        kind_history (pos 5_000) disk_key light ratings (pos 0)
        +ℤ bucket_history (pos 5_000) light ratings (pos 0))
lookup_offset-derive_offsets_example =
    lookup_offset-derive_offsets ratings (pos 5_000) disk_key light

-- A tenth stricter for disk latency under light load.
abbrev strict : PolicyOffsets ℤ
strict = record no_offsets { kinds = (light, (disk_key, pos 100_000) ∷ []) ∷ [] }

decide-lookup_offset-suffices_example :
    (decide latency trusted false none false (lookup_offset strict disk_key light)).notify ≡ true
unfolding lookup_offset lookup ◌+ℤ◌ text_eq
decide-lookup_offset-suffices_example =
    decide-lookup_offset-suffices fixed_float-IsOrdered latency trusted false none false strict
      disk_key light refl (refl, refl)

-- A climb of half an hour, during which another key was dropped.
abbrev handles : Text
handles = codes "handleGrowth:7"

abbrev climbs : Option (TrendShape ℤ)
climbs = some (monotonic (pos 300_000_000))

abbrev half_an_hour : List (RunStep ℤ)
half_an_hour =
    pruned (λ key. text_eq key handles)
    ∷ recorded handles climbs (pos 900_000)
    ∷ recorded (codes "threadGrowth:7") climbs (pos 1_000)
    ∷ recorded handles climbs (pos 1_000)
    ∷ []

decide-growth_finding_example :
    (t : ℤ) × ClimbsSince handles t (recorded handles climbs (pos 1_801_000) ∷ half_an_hour)
    × ((t +ℤ pos 1_800_000) ≤ℤ pos 1_801_000)
    × (200 ≤ 250)
    × (false ≡ false)
unfolding monotonic_since record_run retain_watched growth_finding growth_severity monotonic_run_ms
    lookup insert text_eq sub_i64 wrap ◌-ℤ◌ decide ◌+ℤ◌
decide-growth_finding_example =
    decide-growth_finding half_an_hour handles 250 200 climbs true (pos 1_801_000) latency trusted
      false none false (pos 0) (omega arith) (omega arith) refl refl

-- A retention of no days, and a CPU threshold of none.
abbrev careless : Settings ℤ
careless = record default_settings { retention_days = 0; cpu_percent = pos 0 }

validate-bail_example : (validate careless ≡ bail bad_retention) ↔ IsFirst bad_retention careless
validate-bail_example = validate-bail careless bad_retention
