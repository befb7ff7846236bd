-- ===== src/Examples/Incidents.antt =====
-- The theorems on incidents at one disk-latency incident, with fixed-point arithmetic.
use pc_pulse.Prelude.{◌≤◌, ◌≡◌, refl, inr, true, false, none, some, List, [], ◌∷◌, arith}
use pc_pulse.Prelude.Int.{ℤ, pos, ◌+ℤ◌, ◌-ℤ◌, ◌≤ℤ◌}
use pc_pulse.Text.{Text, codes, text_eq}
use pc_pulse.Table.{lookup, text_Eq}
use pc_pulse.Float.Fixed.{fixed_float}
use pc_pulse.Alerts.Model.{warning, open_state, Alert, light, trusted}
use mathlib.Core.List.{Mem}
use pc_pulse.Alerts.Offsets.{or_default}
use pc_pulse.Alerts.Engine.{
  within_quiet_period, ResolvedIncident, AlertEngine, growth_fate, Candidate, Sample,
  default_engine, default_quality, exit_ratio,
}
use pc_pulse.Alerts.Engine.Memory.{new, resolved_incident}
use pc_pulse.Alerts.Engine.Candidates.{open_alert}
use pc_pulse.Alerts.Engine.Resolution.{condition_cleared, close_incident}
use pc_pulse.Alerts.Engine.Evaluation.{evaluate}
use pc_pulse.Alerts.Engine.Lifecycle.{Steps, phase_at, open_phase}
use pc_pulse.Alerts.Engine.Validity.{IsValid}
use pc_pulse.Alerts.Engine.Reachability.{
  Reachable, started, evaluated, Reachable-IsValid, evaluate-refines,
}
use pc_pulse.Alerts.Engine.Hysteresis.{Continues, evaluate-held}
use pc_pulse.Alerts.Engine.Presence.{evaluate-present}
use pc_pulse.Alerts.Engine.Endings.{evaluate-Ended}
use pc_pulse.Alerts.Engine.Lapses.{Ended}
use pc_pulse.Alerts.Engine.Reopening.{Resumes, evaluate-Resumes}
use pc_pulse.Alerts.Engine.Restart.{remains, new-Covers}
use pc_pulse.Alerts.Growth.{
  TrendPoint, segment_mean, add_i64, first_ms, span_ms, first_mean, middle_mean, last_mean,
  classify_trend,
}
use pc_pulse.Alerts.Growth.Fates.{Recovered, classify_trend-auto_resolve}
use pc_pulse.Alerts.Growth.Climbing.{evaluate-climbing}

abbrev pub disk_key : Text
disk_key = codes "diskLatency"

abbrev disk : Candidate ℤ
disk = record {
  key = disk_key;
  kind = disk_key;
  severity = warning;
  required_samples = 1;
  pid = none;
  process_name = none;
  title = [];
  explanation = [];
  evidence = [];
  recommendation = [];
  entry = some (pos 25_000_000);
  exit_ratio = exit_ratio;
  material_change = false;
  quality = default_quality;
}

abbrev sample : Sample ℤ
sample = record {
  timestamp_ms = pos 10_000;
  sample_interval_ms = 2_000;
  sustained_samples = 3;
  learning = false;
  baseline_maturity = pos 1_000_000;
  demand = light;
  dpc_rate = pos 0;
  interrupt_rate = pos 0;
  readings = (disk_key, pos 24_000_000) ∷ [];
  growth_shapes = [];
}

abbrev fresh : Text → Text
fresh key = codes "id-1"

abbrev pub latency : Alert ℤ
latency = record {
  id = codes "id-0";
  kind = disk_key;
  severity = warning;
  first_seen_ms = pos 4_000;
  last_seen_ms = pos 8_000;
  process_id = none;
  process_name = none;
  title = [];
  explanation = [];
  evidence = [];
  recommendation = [];
  acknowledged = false;
  occurrence_count = 2;
  resolved_at_ms = none;
  archived = false;
  fingerprint = disk_key;
  state = open_state;
  quality = trusted;
  notify = true;
  notify_generation = 0;
}

-- An engine with the incident open, which closes below 21.25 ms.
abbrev busy : AlertEngine ℤ
busy = record default_engine {
  active = (disk_key, latency) ∷ [];
  guards = (disk_key, record { exit_threshold = pos 21_250_000; hold_ms = pos 2_000 }) ∷ [];
}

abbrev after_one : AlertEngine ℤ
after_one = (evaluate sample fresh (disk ∷ []) (new [])).0

after_one_reachable : Reachable after_one
after_one_reachable = evaluated sample fresh (disk ∷ []) (new []) (started [])

evaluate-refines_example :
    Steps
      (pos 10_000)
      (fresh disk_key)
      (phase_at disk_key after_one)
      (phase_at disk_key (evaluate sample fresh [] after_one).0)
evaluate-refines_example = evaluate-refines sample fresh [] disk_key after_one after_one_reachable

Reachable-IsValid_example : IsValid after_one
Reachable-IsValid_example = Reachable-IsValid after_one after_one_reachable

evaluate-held_example : Continues latency (lookup disk_key (evaluate sample fresh [] busy).0.active)
unfolding lookup text_eq
evaluate-held_example = evaluate-held sample fresh [] disk_key busy latency refl refl (
    inr (
      (λ h. cc),
      (
        record { exit_threshold = pos 21_250_000; hold_ms = pos 2_000 },
        (pos 24_000_000, (refl, (refl, refl))),
      ),
    ))

evaluate-present_example :
    Continues latency (lookup disk_key (evaluate sample fresh (disk ∷ []) busy).0.active)
unfolding lookup text_eq
evaluate-present_example =
    evaluate-present sample fresh (disk ∷ []) disk_key busy latency refl refl (omega arith)

abbrev unread : Sample ℤ
unread = record sample { readings = [] }

-- The incident was resolved at 9 s, and its condition is back at 10 s.
abbrev restarted : AlertEngine ℤ
restarted = new (record latency { resolved_at_ms = some (pos 9_000) } ∷ [])

abbrev remembered_latency : ResolvedIncident
remembered_latency = resolved_incident (pos 9_000) latency

evaluate-Resumes_example :
    Resumes remembered_latency
      (lookup disk_key (evaluate sample fresh (disk ∷ []) restarted).0.active)
unfolding lookup text_eq new within_quiet_period
evaluate-Resumes_example =
    evaluate-Resumes sample fresh [] [] disk restarted remembered_latency
      (started (record latency { resolved_at_ms = some (pos 9_000) } ∷ [])) refl (omega arith) refl
      refl refl

evaluate-Ended_example : Ended (pos 10_000) disk_key latency (evaluate unread fresh [] busy).0
unfolding lookup text_eq
evaluate-Ended_example =
    evaluate-Ended unread fresh [] disk_key busy latency refl refl (inr ((λ h. cc), inr refl))

abbrev before_restart : Alert ℤ
before_restart = record latency { resolved_at_ms = some (pos 9_000) }

new-Covers_example :
    (b : Alert ℤ) × Mem b (latency ∷ before_restart ∷ [])
    × (b.fingerprint ≡ disk_key)
    × (lookup disk_key (new (latency ∷ before_restart ∷ [])).resolved_memory ≡ some (remains b))
    × (pos 9_000 ≤ℤ or_default b.last_seen_ms b.resolved_at_ms)
new-Covers_example = new-Covers (latency ∷ []) [] before_restart (omega arith)

-- A climb of three steps of a hundred over five minutes.
abbrev climb : List (TrendPoint ℤ)
climb =
    record { at_ms = pos 0; value = pos 0 }
    ∷ record { at_ms = pos 60_000; value = pos 0 }
    ∷ record { at_ms = pos 120_000; value = pos 100_000_000 }
    ∷ record { at_ms = pos 180_000; value = pos 100_000_000 }
    ∷ record { at_ms = pos 240_000; value = pos 200_000_000 }
    ∷ record { at_ms = pos 300_000; value = pos 200_000_000 }
    ∷ []

-- The same, but it stays where it was after two thirds.
abbrev level : List (TrendPoint ℤ)
level =
    record { at_ms = pos 0; value = pos 0 }
    ∷ record { at_ms = pos 60_000; value = pos 0 }
    ∷ record { at_ms = pos 120_000; value = pos 100_000_000 }
    ∷ record { at_ms = pos 180_000; value = pos 100_000_000 }
    ∷ record { at_ms = pos 240_000; value = pos 100_000_000 }
    ∷ record { at_ms = pos 300_000; value = pos 100_000_000 }
    ∷ []

abbrev climbing : Sample ℤ
climbing = record unread {
  growth_shapes = (disk_key, classify_trend climb (pos 300_000) (pos 50_000_000)) ∷ [];
}

evaluate-climbing_example :
    Continues latency (lookup disk_key (evaluate climbing fresh [] busy).0.active)
unfolding lookup text_eq ◌-ℤ◌ segment_mean add_i64 first_ms span_ms
evaluate-climbing_example =
    evaluate-climbing climbing fresh [] disk_key busy latency climb (pos 300_000) (pos 50_000_000)
      refl refl refl (omega arith) (omega arith) refl refl

classify_trend-auto_resolve_example :
    (6 ≤ 6)
    × ((pos 300_000 ≤ℤ span_ms level)
        × Recovered (first_mean level) (middle_mean level) (last_mean level) (pos 50_000_000))
unfolding classify_trend growth_fate
classify_trend-auto_resolve_example =
    classify_trend-auto_resolve level (pos 300_000) (pos 50_000_000) refl

-- A run: the incident opens, closes when the reading is gone, and comes back a minute later as itself.
abbrev later : Sample ℤ
later = record unread { timestamp_ms = pos 70_000 }

abbrev comes_back : AlertEngine ℤ
comes_back =
    (evaluate later (λ key. codes "id-2") (disk ∷ [])
      (evaluate unread fresh [] (record after_one { guards = [] })).0).0

comes_back_run :
    phase_at disk_key comes_back
    ≡ open_phase (record {
      id = codes "id-1";
      first_seen_ms = pos 10_000;
      occurrence_count = 2;
      notify_generation = 0;
    })
unfolding lookup evaluate new text_eq condition_cleared close_incident open_alert ◌+ℤ◌
comes_back_run = refl
