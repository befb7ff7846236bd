-- ===== src/Config/Validation.antt =====
-- What `Settings::validate` (src/PcPulse.Service/src/config.rs) accepts and which setting it blames.
use pc_pulse.Prelude.{ℕ, ◌≡◌, ◌↔◌, ◌≤◌, ◌<◌, true, false, List, [], ◌∷◌, arith, length, All, any}
use pc_pulse.Text.{Text, byte_len}
use pc_pulse.Float.{Float}
use pc_pulse.Config.{
  Settings, SettingsError, bad_sample_interval, bad_retention, bad_sustained_samples,
  bad_baseline_sigma, bad_cpu_percent, bad_collector_cpu, bad_command_line_retention,
  bad_agent_patterns, ok, bail, is_overlong, validate,
}

abbrev pub Between : ℕ → ℕ → ℕ → Type 0
Between lo hi x = (lo ≤ x) × (x ≤ hi)

abbrev pub Short : Text → Type 0
Short pattern = byte_len pattern ≤ 64

-- The order of the tests.
abbrev pub position : SettingsError → ℕ
position bad_sample_interval = 0
position bad_retention = 1
position bad_sustained_samples = 2
position bad_baseline_sigma = 3
position bad_cpu_percent = 4
position bad_collector_cpu = 5
position bad_command_line_retention = 6
position bad_agent_patterns = 7

any_overlong : (patterns : List Text) → (any is_overlong patterns ≡ false) ↔ All Short patterns
any_overlong [] = ground arith
any_overlong (p ∷ ps) = ground (arith, any_overlong ps)

module _ {F : Type 0} ⦃f : Float F⦄ where
  abbrev pub BetweenF : F → F → F → Type 0
  BetweenF lo hi x = (f.le lo x ≡ true) × (f.le x hi ≡ true)

  -- What each complaint is about.
  abbrev pub Meets : SettingsError → Settings F → Type 0
  Meets bad_sample_interval s = Between 1_000 60_000 s.sample_interval_ms
  Meets bad_retention s = Between 1 365 s.retention_days
  Meets bad_sustained_samples s = Between 2 120 s.sustained_samples
  Meets bad_baseline_sigma s = BetweenF (f.literal 10 1) (f.literal 100 1) s.baseline_sigma
  Meets bad_cpu_percent s = BetweenF (f.literal 10 1) (f.literal 1_000 1) s.cpu_percent
  Meets bad_collector_cpu s = BetweenF (f.literal 5 2) (f.literal 100 1) s.collector_cpu_percent
  Meets bad_command_line_retention s = Between 1 168 s.command_line_retention_hours
  Meets bad_agent_patterns s =
      (length s.agent_process_patterns ≤ 32) × All Short s.agent_process_patterns

  ok-Meets : (s : Settings F) (e : SettingsError) → validate s ≡ ok → Meets e s
  unfolding validate
  ok-Meets s bad_sample_interval h = ground (arith, any_overlong s.agent_process_patterns)
  ok-Meets s bad_retention h = ground (arith, any_overlong s.agent_process_patterns)
  ok-Meets s bad_sustained_samples h = ground (arith, any_overlong s.agent_process_patterns)
  ok-Meets s bad_baseline_sigma h = ground (arith, any_overlong s.agent_process_patterns)
  ok-Meets s bad_cpu_percent h = ground (arith, any_overlong s.agent_process_patterns)
  ok-Meets s bad_collector_cpu h = ground (arith, any_overlong s.agent_process_patterns)
  ok-Meets s bad_command_line_retention h = ground (arith, any_overlong s.agent_process_patterns)
  ok-Meets s bad_agent_patterns h = ground (arith, any_overlong s.agent_process_patterns)

  -- Settings are accepted exactly when every setting is in its range: all eight at once, a NaN being
  -- in no range.
  pub validate-ok : (s : Settings F) → (validate s ≡ ok) ↔ ((e : SettingsError) → Meets e s)
  unfolding validate
  validate-ok s = (
    (λ h e. ok-Meets s e h),
    (λ h. ground (
      arith,
      any_overlong s.agent_process_patterns,
      h bad_sample_interval,
      h bad_retention,
      h bad_sustained_samples,
      h bad_baseline_sigma,
      h bad_cpu_percent,
      h bad_collector_cpu,
      h bad_command_line_retention,
      h bad_agent_patterns,
    )),
  )

  -- The first test that fails.
  abbrev pub IsFirst : SettingsError → Settings F → Type 0
  IsFirst e s = ¬ (Meets e s) × ((d : SettingsError) → position d < position e → Meets d s)

  bail-fails : (s : Settings F) (e : SettingsError) → validate s ≡ bail e → ¬ (Meets e s)
  unfolding validate
  bail-fails s bad_sample_interval h m = ground (arith, any_overlong s.agent_process_patterns)
  bail-fails s bad_retention h m = ground (arith, any_overlong s.agent_process_patterns)
  bail-fails s bad_sustained_samples h m = ground (arith, any_overlong s.agent_process_patterns)
  bail-fails s bad_baseline_sigma h m = ground (arith, any_overlong s.agent_process_patterns)
  bail-fails s bad_cpu_percent h m = ground (arith, any_overlong s.agent_process_patterns)
  bail-fails s bad_collector_cpu h m = ground (arith, any_overlong s.agent_process_patterns)
  bail-fails s bad_command_line_retention h m =
      ground (arith, any_overlong s.agent_process_patterns)
  bail-fails s bad_agent_patterns h m = ground (arith, any_overlong s.agent_process_patterns)

  bail-earlier :
      (s : Settings F) (e d : SettingsError)
      → validate s ≡ bail e
      → position d < position e
      → Meets d s
  unfolding validate
  bail-earlier s e bad_sample_interval h o = ground (arith, any_overlong s.agent_process_patterns)
  bail-earlier s e bad_retention h o = ground (arith, any_overlong s.agent_process_patterns)
  bail-earlier s e bad_sustained_samples h o = ground (arith, any_overlong s.agent_process_patterns)
  bail-earlier s e bad_baseline_sigma h o = ground (arith, any_overlong s.agent_process_patterns)
  bail-earlier s e bad_cpu_percent h o = ground (arith, any_overlong s.agent_process_patterns)
  bail-earlier s e bad_collector_cpu h o = ground (arith, any_overlong s.agent_process_patterns)
  bail-earlier s e bad_command_line_retention h o =
      ground (arith, any_overlong s.agent_process_patterns)
  bail-earlier s e bad_agent_patterns h o = ground (arith, any_overlong s.agent_process_patterns)

  first_bails : (s : Settings F) (e : SettingsError) → IsFirst e s → validate s ≡ bail e
  unfolding validate
  first_bails s bad_sample_interval (m, before) =
      ground (arith, any_overlong s.agent_process_patterns)
  first_bails s bad_retention (m, before) =
      ground
        (arith, any_overlong s.agent_process_patterns, before bad_sample_interval (omega arith))
  first_bails s bad_sustained_samples (m, before) = ground (
    arith,
    any_overlong s.agent_process_patterns,
    before bad_sample_interval (omega arith),
    before bad_retention (omega arith),
  )
  first_bails s bad_baseline_sigma (m, before) = ground (
    arith,
    any_overlong s.agent_process_patterns,
    before bad_sample_interval (omega arith),
    before bad_retention (omega arith),
    before bad_sustained_samples (omega arith),
  )
  first_bails s bad_cpu_percent (m, before) = ground (
    arith,
    any_overlong s.agent_process_patterns,
    before bad_sample_interval (omega arith),
    before bad_retention (omega arith),
    before bad_sustained_samples (omega arith),
    before bad_baseline_sigma (omega arith),
  )
  first_bails s bad_collector_cpu (m, before) = ground (
    arith,
    any_overlong s.agent_process_patterns,
    before bad_sample_interval (omega arith),
    before bad_retention (omega arith),
    before bad_sustained_samples (omega arith),
    before bad_baseline_sigma (omega arith),
    before bad_cpu_percent (omega arith),
  )
  first_bails s bad_command_line_retention (m, before) = ground (
    arith,
    any_overlong s.agent_process_patterns,
    before bad_sample_interval (omega arith),
    before bad_retention (omega arith),
    before bad_sustained_samples (omega arith),
    before bad_baseline_sigma (omega arith),
    before bad_cpu_percent (omega arith),
    before bad_collector_cpu (omega arith),
  )
  first_bails s bad_agent_patterns (m, before) = ground (
    arith,
    any_overlong s.agent_process_patterns,
    before bad_sample_interval (omega arith),
    before bad_retention (omega arith),
    before bad_sustained_samples (omega arith),
    before bad_baseline_sigma (omega arith),
    before bad_cpu_percent (omega arith),
    before bad_collector_cpu (omega arith),
    before bad_command_line_retention (omega arith),
  )

  -- Validation bails with an error exactly when that error's setting is out of its range and every
  -- setting that is tested before it is in its own.
  pub validate-bail : (s : Settings F) (e : SettingsError) → (validate s ≡ bail e) ↔ IsFirst e s
  validate-bail s e = ((λ h. (bail-fails s e h, λ d. bail-earlier s e d h)), first_bails s e)
