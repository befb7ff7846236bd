-- ===== src/Alerts/Engine/Candidates.antt =====
-- The first pass of `AlertEngine::evaluate` (src/PcPulse.Service/src/alerting.rs): every candidate of
-- the sample feeds its streak, and opens, reopens or updates its incident once the streak is long
-- enough.
use pc_pulse.Prelude.{
  ℕ, Bool, false, not, Option, none, some, List, [], ◌∷◌, ltb, ◌==◌, if◌then◌else◌,
}
use pc_pulse.Prelude.Int.{ℤ}
use pc_pulse.Text.{Text, is_some}
use pc_pulse.Table.{Table, lookup, insert, remove, modify, text_Eq}
use pc_pulse.Float.{Float}
use pc_pulse.Alerts.Model.{IncidentState, open_state, reopened, trusted, Alert}
use pc_pulse.Alerts.Offsets.{or_default}
use pc_pulse.Alerts.Engine.{
  AlertEngine, Candidate, ExitGuard, IncidentCalibration, default_calibration, ResolvedIncident,
  Sample, inc_u32, window_of, within_quiet_period, upsert,
}

-- What a pass carries: the engine, and the keys whose alert it created or updated.
abbrev pub Touched : Type 0
Touched = List Text

abbrev pub filter_recent : ℤ → Option ResolvedIncident → Option ResolvedIncident
filter_recent now_ms none = none
filter_recent now_ms (some prior) =
    if within_quiet_period now_ms prior.resolved_at_ms then some prior else none

abbrev pub reopened_id : Text → Option ResolvedIncident → Text
reopened_id fresh none = fresh
reopened_id fresh (some prior) = prior.id

abbrev pub reopened_first_seen : ℤ → Option ResolvedIncident → ℤ
reopened_first_seen now_ms none = now_ms
reopened_first_seen now_ms (some prior) = prior.first_seen_ms

abbrev pub reopened_occurrences : Option ResolvedIncident → ℕ
reopened_occurrences none = 1
reopened_occurrences (some prior) = inc_u32 prior.occurrence_count

abbrev pub reopened_state : Option ResolvedIncident → IncidentState
reopened_state none = open_state
reopened_state (some prior) = reopened

abbrev pub reopened_generation : Option ResolvedIncident → ℕ
reopened_generation none = 0
reopened_generation (some prior) = prior.notify_generation

abbrev pub reopen_terms : Option ResolvedIncident → IncidentCalibration → IncidentCalibration
reopen_terms none terms = terms
reopen_terms (some prior) terms = record terms { reopened_from_severity = some prior.severity }

module _ {F : Type 0} ⦃f : Float F⦄ where
  -- The terms of the detector that fires.
  unfoldable pub renew_terms :
      Sample F → Candidate F → ℕ → IncidentCalibration → IncidentCalibration
  renew_terms sample c streak terms = record terms {
    breach_since_ms = if streak == 1 then some sample.timestamp_ms else terms.breach_since_ms;
    window_ms = some (window_of c.required_samples sample.sample_interval_ms);
    material_change = c.material_change;
    quality = c.quality;
  }

  -- The streak goes up, and the exit clock stops.
  unfoldable pub observe_candidate : Sample F → Candidate F → AlertEngine F → AlertEngine F
  unfolding lookup insert remove upsert renew_terms
  observe_candidate sample c e =
      let streak = inc_u32 (or_default 0 (lookup c.key e.streaks)) in
      record e {
        below_exit_since = remove c.key e.below_exit_since;
        streaks = insert c.key streak e.streaks;
        calibrations =
            upsert c.key default_calibration (renew_terms sample c streak) e.calibrations;
      }

  abbrev pub guard_of : Sample F → Candidate F → F → ExitGuard F
  guard_of sample c entry = record {
    exit_threshold = f.mul entry c.exit_ratio;
    hold_ms = window_of c.required_samples sample.sample_interval_ms;
  }

  abbrev pub guard_entry :
      Sample F → Candidate F → Option F → Table Text (ExitGuard F) → Table Text (ExitGuard F)
  guard_entry sample c none guards = remove c.key guards
  guard_entry sample c (some entry) guards = insert c.key (guard_of sample c entry) guards

  unfoldable pub refresh_alert : Sample F → Candidate F → Alert F → Alert F
  refresh_alert sample c alert = record alert {
    last_seen_ms = sample.timestamp_ms;
    occurrence_count = inc_u32 alert.occurrence_count;
    evidence = c.evidence;
    severity = c.severity;
  }

  unfoldable pub open_alert : Sample F → Candidate F → Text → Option ResolvedIncident → Alert F
  open_alert sample c fresh prior = record {
    id = reopened_id fresh prior;
    kind = c.kind;
    severity = c.severity;
    first_seen_ms = reopened_first_seen sample.timestamp_ms prior;
    last_seen_ms = sample.timestamp_ms;
    process_id = c.pid;
    process_name = c.process_name;
    title = c.title;
    explanation = c.explanation;
    evidence = c.evidence;
    recommendation = c.recommendation;
    acknowledged = false;
    occurrence_count = reopened_occurrences prior;
    resolved_at_ms = none;
    archived = false;
    fingerprint = c.key;
    state = reopened_state prior;
    quality = trusted;
    notify = false;
    notify_generation = reopened_generation prior;
  }

  abbrev pub open_incident :
      Sample F → Candidate F → Text → Option ResolvedIncident → AlertEngine F → AlertEngine F
  open_incident sample c fresh prior e = record e {
    active = insert c.key (open_alert sample c fresh prior) e.active;
    resolved_memory = remove c.key e.resolved_memory;
    calibrations =
        if is_some prior
        then upsert c.key default_calibration (reopen_terms prior) e.calibrations
        else e.calibrations;
  }

  -- The incident of a candidate whose streak is long enough.
  unfoldable pub raise_incident : Sample F → Candidate F → Text → AlertEngine F → AlertEngine F
  unfolding lookup modify refresh_alert
  raise_incident sample c fresh e =
      let e = record e { guards = guard_entry sample c c.entry e.guards } in
      if is_some (lookup c.key e.active)
      then record e { active = modify c.key (refresh_alert sample c) e.active }
      else open_incident sample c fresh
          (filter_recent sample.timestamp_ms (lookup c.key e.resolved_memory)) e

  unfoldable pub fires : Candidate F → AlertEngine F → Bool
  unfolding lookup
  fires c e = not (ltb (or_default 0 (lookup c.key e.streaks)) c.required_samples)

  -- `fresh` gives the id that a new incident of a key would get.
  unfoldable pub meet_candidate :
      Sample F → (Text → Text) → Candidate F → AlertEngine F × Touched → AlertEngine F × Touched
  unfolding observe_candidate raise_incident fires
  meet_candidate sample fresh c (e, touched) =
      let e = observe_candidate sample c e in
      if fires c e then (raise_incident sample c (fresh c.key) e, c.key ∷ touched) else (e, touched)

  unfoldable pub meet_candidates :
      Sample F
      → (Text → Text)
      → List (Candidate F)
      → AlertEngine F × Touched
      → AlertEngine F × Touched
  unfolding meet_candidate
  meet_candidates sample fresh [] state = state
  meet_candidates sample fresh (c ∷ rest) state =
      meet_candidates sample fresh rest (meet_candidate sample fresh c state)
