-- ===== src/Alerts/Growth.antt =====
-- The shape of a growth window (`classify_trend`, `segment_mean` of src/PcPulse.Service/src/stats.rs) and
-- what the growth detectors read from it (`growth_step`, `monotonic_run_ms`, `growth_severity`,
-- `threshold_fraction`, `ratio`, `collector_budget_severity` of
-- src/PcPulse.Service/src/alerting.rs).
pub mod Fates
pub mod Climbing
pub mod Runs
pub mod Duration
use pc_pulse.Prelude.{
  ℕ, suc, ◌+◌, ◌*◌, ◌/◌, Bool, true, false, ◌&&◌, ◌||◌, not, Option, none, some, List, [], ◌∷◌,
  length, leb, ltb, if◌then◌else◌,
}
use pc_pulse.Prelude.Int.{ℤ, pos, negsuc, sub_ℕ, ◌+ℤ◌, wrap, sub_i64, saturating_sub, leb_ℤ, ltb_ℤ}
use pc_pulse.Float.{Float, max_f}
use pc_pulse.Alerts.Model.{Severity, info, warning, critical}
use pc_pulse.Alerts.Quality.{max_ℤ}
use pc_pulse.Alerts.Engine.{
  TrendShape, monotonic, plateau, returning, partial_release, inconclusive,
}

pub record TrendPoint (F : Type 0) : Type 0 where
  pub at_ms : ℤ
  pub value : F

abbrev pub growth_persistence_ms : ℤ
growth_persistence_ms = pos (30 * 60_000)

abbrev pub collector_budget_continuous_warning_ms : ℤ
collector_budget_continuous_warning_ms = pos (10 * 60_000)

-- `/ 3` on an i64, which rounds to zero.
abbrev pub third_of : ℤ → ℤ
third_of (pos n) = pos (n / 3)
third_of (negsuc n) = sub_ℕ 0 (suc n / 3)

-- `+` on two i64.
unfoldable pub add_i64 : ℤ → ℤ → ℤ
unfolding wrap ◌+ℤ◌
add_i64 a b = wrap (a +ℤ b)

abbrev pub min_ℤ : ℤ → ℤ → ℤ
min_ℤ a b = if leb_ℤ a b then a else b

abbrev pub is_after : Option ℤ → ℤ → Bool
is_after none at_ms = true
is_after (some from) at_ms = ltb_ℤ from at_ms

unfoldable pub monotonic_run_ms : Option ℤ → ℤ → ℤ
unfolding sub_i64
monotonic_run_ms none now_ms = pos 0
monotonic_run_ms (some since) now_ms = max_ℤ (sub_i64 now_ms since) (pos 0)

unfoldable pub growth_severity : ℤ → Severity
growth_severity run_ms = if leb_ℤ growth_persistence_ms run_ms then warning else info

module _ {F : Type 0} where
  unfoldable pub earliest : ℤ → List (TrendPoint F) → ℤ
  earliest at_ms [] = at_ms
  earliest at_ms (p ∷ points) = earliest (min_ℤ at_ms p.at_ms) points

  unfoldable pub latest : ℤ → List (TrendPoint F) → ℤ
  latest at_ms [] = at_ms
  latest at_ms (p ∷ points) = latest (max_ℤ at_ms p.at_ms) points

  -- `min().unwrap_or(0)` and `max().unwrap_or(0)`
  unfoldable pub first_ms : List (TrendPoint F) → ℤ
  unfolding earliest
  first_ms [] = pos 0
  first_ms (p ∷ points) = earliest p.at_ms points

  unfoldable pub last_ms : List (TrendPoint F) → ℤ
  unfolding latest
  last_ms [] = pos 0
  last_ms (p ∷ points) = latest p.at_ms points

  unfoldable pub span_ms : List (TrendPoint F) → ℤ
  unfolding first_ms last_ms saturating_sub
  span_ms points = saturating_sub (last_ms points) (first_ms points)

module _ {F : Type 0} ⦃f : Float F⦄ where
  abbrev pub returning_tolerance_fraction : F
  returning_tolerance_fraction = f.literal 25 2

  abbrev pub growth_step_fraction : F
  growth_step_fraction = f.literal 1 1

  abbrev pub in_segment : Option ℤ → ℤ → TrendPoint F → Bool
  in_segment from to p = is_after from p.at_ms && leb_ℤ p.at_ms to

  -- The sum and the count of a segment.
  unfoldable pub segment_sum : Option ℤ → ℤ → List (TrendPoint F) → F → ℕ → F × ℕ
  segment_sum from to [] sum count = (sum, count)
  segment_sum from to (p ∷ points) sum count =
      if in_segment from to p
      then segment_sum from to points (f.add sum p.value) (count + 1)
      else segment_sum from to points sum count

  abbrev pub mean_of : F × ℕ → F
  mean_of (sum, count) = if leb count 0 then f.literal 0 1 else f.div sum (f.of_i64 (pos count))

  unfoldable pub segment_mean : List (TrendPoint F) → Option ℤ → ℤ → F
  unfolding segment_sum
  segment_mean points from to = mean_of (segment_sum from to points (f.literal 0 1) 0)

  -- From the means of the three thirds.
  abbrev pub classify_means : F → F → F → F → TrendShape F
  classify_means first_mean middle_mean last_mean min_step =
      let first_step = f.sub middle_mean first_mean in
      let second_step = f.sub last_mean middle_mean in
      let remaining = f.sub last_mean first_mean in
      if f.le min_step first_step && f.le min_step second_step
      then monotonic remaining
      else if f.le min_step first_step && f.le (f.abs second_step) min_step
      then plateau
      else if f.le min_step first_step && f.le second_step (f.neg min_step)
      then (if f.le (f.abs remaining)
            (max_f min_step (f.mul returning_tolerance_fraction first_step))
          then returning
          else partial_release remaining)
      else inconclusive

  abbrev pub first_end : List (TrendPoint F) → ℤ
  first_end points = add_i64 (first_ms points) (third_of (span_ms points))

  abbrev pub middle_end : List (TrendPoint F) → ℤ
  middle_end points =
      add_i64 (first_ms points) (add_i64 (third_of (span_ms points)) (third_of (span_ms points)))

  abbrev pub first_mean : List (TrendPoint F) → F
  first_mean points = segment_mean points none (first_end points)

  abbrev pub middle_mean : List (TrendPoint F) → F
  middle_mean points = segment_mean points (some (first_end points)) (middle_end points)

  abbrev pub last_mean : List (TrendPoint F) → F
  last_mean points = segment_mean points (some (middle_end points)) (last_ms points)

  unfoldable pub classify_trend : List (TrendPoint F) → ℤ → F → TrendShape F
  unfolding first_ms last_ms span_ms add_i64 segment_mean
  classify_trend points min_span_ms min_step =
      if ltb (length points) 6
      then inconclusive
      else if ltb_ℤ (span_ms points) min_span_ms
      then inconclusive
      else classify_means (first_mean points) (middle_mean points) (last_mean points) min_step

  unfoldable pub growth_step : ℕ → F
  growth_step threshold =
      max_f (f.mul (f.of_i64 (pos threshold)) growth_step_fraction) (f.literal 10 1)

  unfoldable pub threshold_fraction : ℕ → ℕ → F
  threshold_fraction growth threshold =
      if ltb 0 threshold
      then f.div (f.of_i64 (pos growth)) (f.of_i64 (pos threshold))
      else if ltb 0 growth
      then f.infinity
      else f.literal 0 1

  unfoldable pub ratio : F → F → F
  ratio value threshold =
      if f.lt (f.literal 0 1) threshold
      then f.div value threshold
      else if f.lt (f.literal 0 1) value
      then f.infinity
      else f.literal 0 1

  unfoldable pub collector_budget_severity : F → ℤ → Severity
  collector_budget_severity worst_ratio continuous_breach_ms =
      if f.le (f.literal 20 1) worst_ratio
      then critical
      else if f.le (f.literal 115 2) worst_ratio
          || leb_ℤ collector_budget_continuous_warning_ms continuous_breach_ms
      then warning
      else info
