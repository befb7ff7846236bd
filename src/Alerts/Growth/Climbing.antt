-- ===== src/Alerts/Growth/Climbing.antt =====
-- A growth incident over a whole `AlertEngine::evaluate` while its window is still climbing
-- (src/PcPulse.Service/src/alerting.rs with `classify_trend` of stats.rs).
use pc_pulse.Prelude.{◌≡◌, ◌≤◌, ◌∙◌, ap, inl, true, false, some, List, length, map}
use pc_pulse.Prelude.Int.{ℤ, ◌≤ℤ◌}
use pc_pulse.Text.{Text}
use pc_pulse.Table.{lookup, text_Eq}
use pc_pulse.Float.{Float}
use pc_pulse.Alerts.Model.{Alert}
use pc_pulse.Alerts.Engine.{AlertEngine, Candidate, Sample, contains}
use pc_pulse.Alerts.Engine.Resolution.{fate_of}
use pc_pulse.Alerts.Engine.Evaluation.{candidate_key, evaluate}
use pc_pulse.Alerts.Engine.Hysteresis.{Continues, evaluate-held}
use pc_pulse.Alerts.Growth.{TrendPoint, span_ms, first_mean, middle_mean, last_mean, classify_trend}
use pc_pulse.Alerts.Growth.Fates.{classify_trend-climbing}

module _ {F : Type 0} ⦃f : Float F⦄ where
  -- A growth incident is not closed while its window climbs: if the window holds six points or more
  -- over the shortest span or longer, and the mean of each third is above the one before by the step,
  -- then the open incident stays the same open incident through an evaluation without its candidate.
  pub evaluate-climbing :
      (sample : Sample F) (fresh : Text → Text) (candidates : List (Candidate F)) (key : Text)
      (e : AlertEngine F) (a : Alert F) (points : List (TrendPoint F)) (min_span_ms : ℤ) (step : F)
      → lookup key e.active ≡ some a
      → contains key (map candidate_key candidates) ≡ false
      → lookup key sample.growth_shapes ≡ some (classify_trend points min_span_ms step)
      → 6 ≤ length points
      → min_span_ms ≤ℤ span_ms points
      → f.le step (f.sub (middle_mean points) (first_mean points)) ≡ true
      → f.le step (f.sub (last_mean points) (middle_mean points)) ≡ true
      → Continues a (lookup key (evaluate sample fresh candidates e).0.active)
  evaluate-climbing sample fresh candidates key e a points min_span_ms step found p shape n s x y =
      evaluate-held sample fresh candidates key e a found p
        (inl (ap fate_of shape ∙ ap some (classify_trend-climbing points min_span_ms step n s x y)))
