-- ===== src/Config.antt =====
-- The settings and their validation: `Settings`, its default and `validate` of
-- src/PcPulse.Service/src/config.rs.
pub mod Validation
use pc_pulse.Prelude.{
  ℕ, ◌≡◌, Bool, true, false, not, ◌&&◌, ◌||◌, List, [], ◌∷◌, leb, ltb, if◌then◌else◌, length, any,
}
use pc_pulse.Text.{Text, codes, byte_len}
use pc_pulse.Float.{Float}

pub record Settings (F : Type 0) : Type 0 where
  pub sample_interval_ms : ℕ
  pub retention_days : ℕ
  pub sustained_samples : ℕ
  pub baseline_sigma : F
  pub cpu_percent : F
  pub memory_growth_mb : F
  pub handle_growth : ℕ
  pub thread_growth : ℕ
  pub disk_latency_ms : F
  pub io_mb_per_sec : F
  pub kernel_pool_growth_mb : F
  pub dpc_rate : F
  pub interrupt_rate : F
  pub unresponsive_seconds : ℕ
  pub slow_launch_ms : ℕ
  pub abandoned_agent_minutes : ℕ
  pub notifications_enabled : Bool
  pub collector_cpu_percent : F
  pub agent_process_patterns : List Text
  pub capture_command_lines : Bool
  pub command_line_retention_hours : ℕ

-- What `validate` bails with.
pub data SettingsError : Type 0 where
  bad_sample_interval bad_retention bad_sustained_samples bad_baseline_sigma : SettingsError
  bad_cpu_percent bad_collector_cpu bad_command_line_retention bad_agent_patterns : SettingsError

abbrev pub message : SettingsError → Text
message bad_sample_interval = codes "sampleIntervalMs must be between 1000 and 60000"
message bad_retention = codes "retentionDays must be between 1 and 365"
message bad_sustained_samples = codes "sustainedSamples must be between 2 and 120"
message bad_baseline_sigma = codes "baselineSigma must be between 1 and 10"
message bad_cpu_percent = codes "cpuPercent must be between 1 and 100"
message bad_collector_cpu = codes "collectorCpuPercent must be between 0.05 and 10"
message bad_command_line_retention = codes "commandLineRetentionHours must be between 1 and 168"
message bad_agent_patterns = codes "agentProcessPatterns contains too many or overly long entries"

-- `Result<()>`
pub data Validated : Type 0 where
  ok : Validated
  bail : SettingsError → Validated

-- `(lo..=hi).contains(&x)`
abbrev pub within : ℕ → ℕ → ℕ → Bool
within lo hi x = leb lo x && leb x hi

abbrev pub is_overlong : Text → Bool
is_overlong pattern = ltb 64 (byte_len pattern)

abbrev pub default_command_line_retention_hours : ℕ
default_command_line_retention_hours = 24

module _ {F : Type 0} ⦃f : Float F⦄ where
  abbrev pub default_collector_cpu_percent : F
  default_collector_cpu_percent = f.literal 2 1

  -- `Settings::default()`
  unfoldable pub default_settings : Settings F
  default_settings = record {
    sample_interval_ms = 2_000;
    retention_days = 14;
    sustained_samples = 5;
    baseline_sigma = f.literal 30 1;
    cpu_percent = f.literal 800 1;
    memory_growth_mb = f.literal 2_560 1;
    handle_growth = 500;
    thread_growth = 50;
    disk_latency_ms = f.literal 300 1;
    io_mb_per_sec = f.literal 1_000 1;
    kernel_pool_growth_mb = f.literal 1_280 1;
    dpc_rate = f.literal 10_000 1;
    interrupt_rate = f.literal 200_000 1;
    unresponsive_seconds = 10;
    slow_launch_ms = 8_000;
    abandoned_agent_minutes = 30;
    notifications_enabled = true;
    collector_cpu_percent = default_collector_cpu_percent;
    agent_process_patterns = codes "codex" ∷ codes "claude" ∷ codes "agent" ∷ codes "mcp" ∷ [];
    capture_command_lines = false;
    command_line_retention_hours = default_command_line_retention_hours;
  }

  abbrev pub within_f : F → F → F → Bool
  within_f lo hi x = f.le lo x && f.le x hi

  unfoldable pub validate : Settings F → Validated
  unfolding byte_len
  validate s =
      if not (within 1_000 60_000 s.sample_interval_ms)
      then bail bad_sample_interval
      else if not (within 1 365 s.retention_days)
      then bail bad_retention
      else if not (within 2 120 s.sustained_samples)
      then bail bad_sustained_samples
      else if not (within_f (f.literal 10 1) (f.literal 100 1) s.baseline_sigma)
      then bail bad_baseline_sigma
      else if not (within_f (f.literal 10 1) (f.literal 1_000 1) s.cpu_percent)
      then bail bad_cpu_percent
      else if not (within_f (f.literal 5 2) (f.literal 100 1) s.collector_cpu_percent)
      then bail bad_collector_cpu
      else if not (within 1 168 s.command_line_retention_hours)
      then bail bad_command_line_retention
      else if ltb 32 (length s.agent_process_patterns) || any is_overlong s.agent_process_patterns
      then bail bad_agent_patterns
      else ok
