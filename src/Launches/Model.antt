-- ===== src/Launches/Model.antt =====
-- The records of launch history (launches.rs, and the wire types of models.rs).
use pc_pulse.Prelude.{ℕ, Bool, Option, none, List}
use pc_pulse.Prelude.Int.{ℤ}
use pc_pulse.Text.{Text}

pub data WindowState : Type 0 where
  windowed never_windowed unobserved running : WindowState

pub record LineageEntry : Type 0 where
  pub pid : ℕ
  pub name : Text
  pub path : Option Text

pub record LaunchEvent : Type 0 where
  pub pid : ℕ
  pub start_time_ms : ℤ
  pub stop_time_ms : Option ℤ
  pub exit_code : Option ℕ
  pub exe_name : Text
  pub exe_path : Text
  pub raw_image_path : Option Text
  pub session_id : ℕ
  pub parent_pid : ℕ
  pub lineage : List LineageEntry
  pub window_state : WindowState
  pub console_host : Bool
  pub command_line : Option Text

pub record ProcessStartProps : Type 0 where
  pub pid : ℕ
  pub parent_pid : ℕ
  pub session_id : ℕ
  pub create_time_ms : ℤ
  pub image_name : Text

pub record ProcessStopProps : Type 0 where
  pub pid : ℕ
  pub exit_code : ℕ
  pub stop_time_ms : ℤ

pub record LiveProcessInfo : Type 0 where
  pub name : Text
  pub path : Option Text
  pub parent_pid : ℕ

pub record RecentLaunch : Type 0 where
  pub pid : ℕ
  pub parent_pid : ℕ
  pub start_ms : ℤ
  pub name : Text
  pub path : Text

pub record PendingLaunch : Type 0 where
  pub start_time_ms : ℤ
  pub stop_time_ms : Option ℤ
  pub exit_code : Option ℕ
  pub exe_name : Text
  pub exe_path : Text
  pub raw_image_path : Option Text
  pub session_id : ℕ
  pub parent_pid : ℕ
  pub lineage : List LineageEntry
  pub console_host : Bool
  pub sampled : Bool
  pub visible : Bool
  pub window_state : WindowState
  pub emitted_running : Bool

unfoldable pub to_event : PendingLaunch → ℕ → LaunchEvent
to_event launch pid = record {
  pid = pid;
  start_time_ms = launch.start_time_ms;
  stop_time_ms = launch.stop_time_ms;
  exit_code = launch.exit_code;
  exe_name = launch.exe_name;
  exe_path = launch.exe_path;
  raw_image_path = launch.raw_image_path;
  session_id = launch.session_id;
  parent_pid = launch.parent_pid;
  lineage = launch.lineage;
  window_state = launch.window_state;
  console_host = launch.console_host;
  command_line = none;
}

unfoldable pub to_running_event : PendingLaunch → ℕ → LaunchEvent
to_running_event launch pid = record {
  pid = pid;
  start_time_ms = launch.start_time_ms;
  stop_time_ms = none;
  exit_code = none;
  exe_name = launch.exe_name;
  exe_path = launch.exe_path;
  raw_image_path = launch.raw_image_path;
  session_id = launch.session_id;
  parent_pid = launch.parent_pid;
  lineage = launch.lineage;
  window_state = running;
  console_host = launch.console_host;
  command_line = none;
}
