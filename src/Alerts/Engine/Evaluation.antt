-- ===== src/Alerts/Engine/Evaluation.antt =====
-- `AlertEngine::evaluate` of src/PcPulse.Service/src/alerting.rs from its passes. The candidates that
-- the detectors raise, the readings and the window shapes come with the sample.
use pc_pulse.Prelude.{
  ◌-◌, Bool, false, ◌||◌, Option, none, some, List, [], ◌∷◌, ◌++◌, map, length, drop, if◌then◌else◌,
}
use pc_pulse.Prelude.Int.{ℤ, pos, ltb_ℤ, sub_i64}
use pc_pulse.Text.{Text}
use pc_pulse.Table.{Table}
use pc_pulse.Float.{Float}
use pc_pulse.Alerts.Model.{Alert}
use pc_pulse.Alerts.Engine.{
  AlertEngine, Candidate, InterruptContext, Sample, sustained_p95_ms, p95_window_cap,
}
use pc_pulse.Alerts.Engine.Memory.{dpc_quality}
use pc_pulse.Alerts.Engine.Candidates.{Touched, meet_candidates}
use pc_pulse.Alerts.Engine.Resolution.{absent_keys, resolve_keys, prune, forget_resolved}
use pc_pulse.Alerts.Engine.Scoring.{score_incidents, map_values, settle_terms}

-- `while front().is_some_and(|(at_ms, _)| at_ms < cutoff) { pop_front() }`
unfoldable pub drop_before : ℤ → List (ℤ × Bool) → List (ℤ × Bool)
drop_before cutoff [] = []
drop_before cutoff ((at_ms, above) ∷ rest) =
    let kept = drop_before cutoff rest in if ltb_ℤ at_ms cutoff then kept else (at_ms, above) ∷ rest

-- `while len() > P95_WINDOW_CAP { pop_front() }`
unfoldable pub trim_window : List (ℤ × Bool) → List (ℤ × Bool)
trim_window window = drop (length window - p95_window_cap) window

pub record Evaluation (F : Type 0) : Type 0 where
  pub active : List (Alert F)
  pub changed : List (Alert F)

module _ {F : Type 0} ⦃f : Float F⦄ where
  abbrev pub is_above : Option F → F → Bool
  is_above none rate = false
  is_above (some p95) rate = f.le p95 rate

  abbrev pub above_p95 : Sample F → InterruptContext F → Bool
  above_p95 sample context =
      is_above context.dpc_p95 sample.dpc_rate
      || is_above context.interrupt_p95 sample.interrupt_rate

  unfoldable pub observe_rates : Sample F → AlertEngine F → AlertEngine F
  unfolding trim_window drop_before sub_i64
  observe_rates sample e = record e {
    p95_window = trim_window (
        drop_before (sub_i64 sample.timestamp_ms (pos sustained_p95_ms))
          (e.p95_window ++ (sample.timestamp_ms, above_p95 sample e.interrupts) ∷ []));
  }

  -- `sort_by_key(Reverse(first_seen_ms))`, which is stable.
  unfoldable pub insert_newest : Alert F → List (Alert F) → List (Alert F)
  insert_newest alert [] = alert ∷ []
  insert_newest alert (a ∷ rest) =
      let later = insert_newest alert rest in
      if ltb_ℤ alert.first_seen_ms a.first_seen_ms then a ∷ later else alert ∷ a ∷ rest

  unfoldable pub newest_first : Table Text (Alert F) → List (Alert F)
  unfolding insert_newest
  newest_first [] = []
  newest_first ((key, alert) ∷ rest) = insert_newest alert (newest_first rest)

  abbrev pub candidate_key : Candidate F → Text
  candidate_key c = c.key

  -- Candidates, then resolutions: the engine, the touched keys and the resolved alerts.
  unfoldable pub reconcile :
      Sample F
      → (Text → Text)
      → List (Candidate F)
      → AlertEngine F
      → AlertEngine F × (Touched × List (Alert F))
  unfolding meet_candidates resolve_keys prune absent_keys dpc_quality
  reconcile sample fresh candidates e =
      let quality = dpc_quality e sample.timestamp_ms sample.sample_interval_ms in
      let present = map candidate_key candidates in
      let (e, touched) = meet_candidates sample fresh candidates (e, []) in
      let (e, alerts) = resolve_keys sample (absent_keys present e.active) (e, []) in
      (prune sample present quality e, (touched, alerts))

  unfoldable pub score_all :
      Sample F → Table Text (Alert F) → Touched → AlertEngine F → AlertEngine F × List (Alert F)
  unfolding score_incidents map_values
  score_all sample previous touched e =
      let (rows, (e, changed)) = score_incidents sample previous touched e.active e in
      (record e { active = rows; calibrations = map_values settle_terms e.calibrations }, changed)

  unfoldable pub evaluate :
      Sample F → (Text → Text) → List (Candidate F) → AlertEngine F → AlertEngine F × Evaluation F
  unfolding forget_resolved observe_rates reconcile score_all newest_first
  evaluate sample fresh candidates e =
      let previous = e.active in
      let e = observe_rates sample (forget_resolved sample e) in
      let (e, (touched, alerts)) = reconcile sample fresh candidates e in
      let (e, changed) = score_all sample previous touched e in
      (e, record { active = newest_first e.active; changed = changed ++ alerts })
