-- ===== src/Alerts/Engine/Scoring.antt =====
-- The third pass of `AlertEngine::evaluate` (src/PcPulse.Service/src/alerting.rs): every open incident
-- is scored and the notification policy is applied to it.
use pc_pulse.Prelude.{
  ℕ, Bool, true, false, not, ◌&&◌, ◌||◌, Option, none, some, List, [], ◌∷◌, ◌==◌, if◌then◌else◌,
}
use pc_pulse.Prelude.Int.{ℤ, pos, sub_i64}
use pc_pulse.Text.{Text, text_eq, is_some}
use pc_pulse.Table.{Table, map_some, lookup, insert, modify, text_Eq}
use pc_pulse.Float.{Float}
use pc_pulse.Alerts.Model.{Severity, resolved, trusted, Alert, AlertQuality}
use pc_pulse.Alerts.Quality.{QualityInputs, NotifyDecision, score, decide}
use pc_pulse.Alerts.Offsets.{or_default, lookup_offset}
use pc_pulse.Alerts.Engine.{
  AlertEngine, IncidentCalibration, default_calibration, NotifyMemory, Sample, inc_u32, window_of,
  contains, dpc_key,
}

abbrev pub memory_time : NotifyMemory → ℤ
memory_time memory = memory.at_ms

-- `notified.is_none_or(|memory| memory.generation != generation)`
abbrev pub is_unrecorded : Option NotifyMemory → ℕ → Bool
is_unrecorded none generation = true
is_unrecorded (some memory) generation = not (memory.generation == generation)

abbrev pub forget_severity : IncidentCalibration → IncidentCalibration
forget_severity terms = record terms { reopened_from_severity = none }

abbrev pub settle_terms : IncidentCalibration → IncidentCalibration
settle_terms terms = record terms { material_change = false }

abbrev pub veto : Bool → NotifyDecision → NotifyDecision
veto allowed decision =
    if allowed then decision else record { notify = false; bump_generation = false }

abbrev pub same_flag : Bool → Bool → Bool
same_flag true b = b
same_flag false b = not b

module _ {V : Type 0} where
  -- `values_mut`
  unfoldable pub map_values : (V → V) → Table Text V → Table Text V
  map_values g [] = []
  map_values g ((k, v) ∷ t) = (k, g v) ∷ map_values g t

module _ {F : Type 0} ⦃f : Float F⦄ where
  unfoldable pub remembered_previous : Severity → Bool → Alert F
  remembered_previous severity notified = record {
    id = [];
    kind = [];
    severity = severity;
    first_seen_ms = pos 0;
    last_seen_ms = pos 0;
    process_id = none;
    process_name = none;
    title = [];
    explanation = [];
    evidence = [];
    recommendation = [];
    acknowledged = false;
    occurrence_count = 0;
    resolved_at_ms = none;
    archived = false;
    fingerprint = [];
    state = resolved;
    quality = trusted;
    notify = notified;
    notify_generation = 0;
  }

  abbrev pub remembered_or : Option Severity → Bool → Option (Alert F) → Option (Alert F)
  remembered_or none notified previous = previous
  remembered_or (some severity) notified previous = some (remembered_previous severity notified)

  -- What one incident is scored with.
  unfoldable pub inputs_of :
      Sample F → Alert F → IncidentCalibration → Option NotifyMemory → QualityInputs F
  unfolding sub_i64
  inputs_of sample alert terms notified = record {
    alert = alert;
    sustained_window_ms =
        or_default (window_of sample.sustained_samples sample.sample_interval_ms) terms.window_ms;
    breach_duration_ms =
        sub_i64 sample.timestamp_ms (or_default alert.first_seen_ms terms.breach_since_ms);
    baseline_maturity = sample.baseline_maturity;
    attribution_stable = terms.quality.attribution_stable;
    corroborating_signals = terms.quality.corroborating_signals;
    user_impact_signals = terms.quality.user_impact_signals;
    notified_before = is_some notified;
    last_notified_ms = map_some memory_time notified;
  }

  -- The policy's verdict on one incident, after the detector's own bar.
  unfoldable pub decide_incident :
      Sample F
      → AlertEngine F
      → Table Text (Alert F)
      → Text
      → Alert F
      → IncidentCalibration
      → Option NotifyMemory
      → AlertQuality F
      → NotifyDecision
  unfolding lookup lookup_offset decide
  decide_incident sample e previous key alert terms notified quality = veto terms.quality.notify (
      decide alert quality sample.learning
        (remembered_or terms.reopened_from_severity (is_some notified) (lookup key previous))
        (terms.material_change || (text_eq key dpc_key && e.pending_verdict_change))
        (lookup_offset e.rating_offsets alert.kind sample.demand))

  unfoldable pub apply_decision : AlertQuality F → NotifyDecision → Alert F → Alert F
  apply_decision quality decision alert = record alert {
    quality = quality;
    notify = decision.notify;
    notify_generation =
        if decision.bump_generation
        then inc_u32 alert.notify_generation
        else alert.notify_generation;
  }

  abbrev pub record_notification :
      Sample F
      → Text
      → Alert F
      → Option NotifyMemory
      → Table Text NotifyMemory
      → Table Text NotifyMemory
  record_notification sample key alert notified memory =
      if alert.notify && is_unrecorded notified alert.notify_generation
      then insert key (record { generation = alert.notify_generation; at_ms = sample.timestamp_ms })
          memory
      else memory

  -- What the decision on one incident leaves in the engine, but for the incident itself.
  abbrev pub deliver : Sample F → Text → Alert F → NotifyDecision → AlertEngine F → AlertEngine F
  deliver sample key alert decision e = record e {
    pending_verdict_change =
        e.pending_verdict_change && not (text_eq key dpc_key && decision.bump_generation);
    calibrations =
        if decision.notify then modify key forget_severity e.calibrations else e.calibrations;
    notify_memory =
        record_notification sample key alert (lookup key e.notify_memory) e.notify_memory;
  }

  -- `alert.quality != before`: two qualities differ in a component.
  abbrev pub same_quality : AlertQuality F → AlertQuality F → Bool
  same_quality a b =
      f.eq a.confidence b.confidence
      && (f.eq a.persistence b.persistence
          && (f.eq a.corroboration b.corroboration
              && (f.eq a.user_impact b.user_impact && f.eq a.novelty b.novelty)))

  abbrev pub is_unchanged : Alert F → Alert F → Bool
  is_unchanged a b =
      same_quality a.quality b.quality
      && (same_flag a.notify b.notify && a.notify_generation == b.notify_generation)

  abbrev pub terms_at : Text → AlertEngine F → IncidentCalibration
  terms_at key e = or_default default_calibration (lookup key e.calibrations)

  unfoldable pub score_at : Sample F → Text → Alert F → AlertEngine F → AlertQuality F
  unfolding lookup inputs_of score
  score_at sample key alert e =
      score (inputs_of sample alert (terms_at key e) (lookup key e.notify_memory))

  unfoldable pub decision_at :
      Sample F → Table Text (Alert F) → Text → Alert F → AlertEngine F → NotifyDecision
  unfolding lookup score_at decide_incident
  decision_at sample previous key alert e =
      decide_incident sample e previous key alert (terms_at key e) (lookup key e.notify_memory)
        (score_at sample key alert e)

  -- One incident: its alert, and the rest of the engine.
  unfoldable pub score_incident :
      Sample F → Table Text (Alert F) → Text → Alert F → AlertEngine F → Alert F × AlertEngine F
  unfolding score_at decision_at apply_decision lookup insert modify
  score_incident sample previous key alert e =
      let decision = decision_at sample previous key alert e in
      let scored = apply_decision (score_at sample key alert e) decision alert in
      (scored, deliver sample key scored decision e)

  -- `(rows, engine, changed)` over the open incidents.
  unfoldable pub score_incidents :
      Sample F
      → Table Text (Alert F)
      → List Text
      → Table Text (Alert F)
      → AlertEngine F
      → Table Text (Alert F) × (AlertEngine F × List (Alert F))
  unfolding score_incident
  score_incidents sample previous touched [] e = ([], (e, []))
  score_incidents sample previous touched ((key, alert) ∷ rest) e =
      let (scored, e) = score_incident sample previous key alert e in
      let (rows, (e, changed)) = score_incidents sample previous touched rest e in
      (
        (key, scored) ∷ rows,
        (
          e,
          if contains key touched || not (is_unchanged alert scored)
              then scored ∷ changed
              else changed,
        ),
      )
