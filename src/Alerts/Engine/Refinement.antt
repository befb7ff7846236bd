-- ===== src/Alerts/Engine/Refinement.antt =====
-- `AlertEngine::evaluate` of src/PcPulse.Service/src/alerting.rs refines the life of an incident: each
-- evaluation moves every fingerprint by the steps of Lifecycle, whatever the other incidents do.
use pc_pulse.Prelude.{List, [], map}
use pc_pulse.Text.{Text}
use pc_pulse.Table.{text_Eq, Distinct}
use pc_pulse.Float.{Float}
use pc_pulse.Alerts.Engine.{AlertEngine, Candidate, Sample}
use pc_pulse.Alerts.Engine.Candidates.{meet_candidates}
use pc_pulse.Alerts.Engine.Resolution.{absent_keys, prune, forget_resolved}
use pc_pulse.Alerts.Engine.Evaluation.{observe_rates, candidate_key, reconcile, evaluate}
use pc_pulse.Alerts.Engine.Lifecycle.{Steps, Steps-append, phase_at}
use pc_pulse.Alerts.Engine.Passes.{forget_resolved-phase_at, meet_candidates-Steps}
use pc_pulse.Alerts.Engine.Closing.{resolve_keys-Steps, score_all-Steps}

module _ {F : Type 0} ⦃f : Float F⦄ where
  reconcile-Steps :
      (sample : Sample F) (fresh : Text → Text) (candidates : List (Candidate F)) (key : Text)
      (e : AlertEngine F)
      → Steps sample.timestamp_ms
          (fresh key)
          (phase_at key e)
          (phase_at key (reconcile sample fresh candidates e).0)
  unfolding reconcile prune
  reconcile-Steps sample fresh candidates key e =
      Steps-append _ _ _ (meet_candidates-Steps sample fresh candidates key (e, [])) (
        resolve_keys-Steps sample (fresh key)
          (absent_keys (map candidate_key candidates)
            (meet_candidates sample fresh candidates (e, [])).0.active)
          key ((meet_candidates sample fresh candidates (e, [])).0, []))

  -- One evaluation moves every fingerprint by steps of the incident's life, taken at the sample's
  -- time: it opens with a new id, occurs again, is bumped, closes into memory, comes back from
  -- memory inside the quiet period with its id and its history, or is forgotten after it. The
  -- engine's memory of resolved incidents has no key twice.
  pub evaluate-Steps :
      (sample : Sample F) (fresh : Text → Text) (candidates : List (Candidate F)) (key : Text)
      (e : AlertEngine F)
      → Distinct e.resolved_memory
      → Steps sample.timestamp_ms
          (fresh key)
          (phase_at key e)
          (phase_at key (evaluate sample fresh candidates e).0)
  unfolding evaluate observe_rates
  evaluate-Steps sample fresh candidates key e d =
      Steps-append _ _ _ (forget_resolved-phase_at sample (fresh key) key e d) (
        Steps-append _ _ _
          (reconcile-Steps sample fresh candidates key
            (observe_rates sample (forget_resolved sample e)))
          (score_all-Steps sample e.active
            (reconcile sample fresh candidates
              (observe_rates sample (forget_resolved sample e))).1.0
            (fresh key) key
            (reconcile sample fresh candidates
              (observe_rates sample (forget_resolved sample e))).0))
