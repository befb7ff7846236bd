-- ===== src/Alerts/Growth/Fates.antt =====
-- What a growth window's shape does to its incident (`growth_fate` and `growth_severity` of
-- src/PcPulse.Service/src/alerting.rs on `classify_trend` of stats.rs).
use pc_pulse.Prelude.{◌≡◌, ◌⊎◌, ◌≤◌, true, List, length, arith}
use pc_pulse.Prelude.Int.{ℤ, ◌≤ℤ◌}
use pc_pulse.Float.{Float, max_f}
use pc_pulse.Alerts.Engine.{auto_resolve, stays_open, growth_fate}
use pc_pulse.Alerts.Growth.{
  TrendPoint, span_ms, returning_tolerance_fraction, classify_means, first_mean, middle_mean,
  last_mean, classify_trend,
}

module _ {F : Type 0} ⦃f : Float F⦄ where
  -- It grew by the step, and then levelled off or gave back nearly all of it.
  abbrev pub Recovered : F → F → F → F → Type 0
  Recovered first middle last step =
      (f.le step (f.sub middle first) ≡ true)
      × ((f.le (f.abs (f.sub last middle)) step ≡ true)
          ⊎ (f.le (f.abs (f.sub last first))
                (max_f step (f.mul returning_tolerance_fraction (f.sub middle first)))
              ≡ true))

  Recovered-means :
      (first middle last step : F)
      → growth_fate (classify_means first middle last step) ≡ auto_resolve
      → Recovered first middle last step
  unfolding growth_fate
  Recovered-means first middle last step h = ground arith

  -- A window resolves its incident only if it holds six points or more over the shortest span or
  -- longer, grew by the step from its first third to its second, and then levelled off within the step
  -- or came back to where it began, within the step or a quarter of what it had grown.
  pub classify_trend-auto_resolve :
      (points : List (TrendPoint F)) (min_span_ms : ℤ) (step : F)
      → growth_fate (classify_trend points min_span_ms step) ≡ auto_resolve
      → (6 ≤ length points)
        × ((min_span_ms ≤ℤ span_ms points)
            × Recovered (first_mean points) (middle_mean points) (last_mean points) step)
  unfolding classify_trend growth_fate
  classify_trend-auto_resolve points min_span_ms step h =
      ground
        (arith, Recovered-means (first_mean points) (middle_mean points) (last_mean points) step)

  pub classify_trend-climbing :
      (points : List (TrendPoint F)) (min_span_ms : ℤ) (step : F)
      → 6 ≤ length points
      → min_span_ms ≤ℤ span_ms points
      → f.le step (f.sub (middle_mean points) (first_mean points)) ≡ true
      → f.le step (f.sub (last_mean points) (middle_mean points)) ≡ true
      → growth_fate (classify_trend points min_span_ms step) ≡ stays_open
  unfolding classify_trend growth_fate
  classify_trend-climbing points min_span_ms step n s a b = ground arith
