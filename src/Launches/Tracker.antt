-- ===== src/Launches/Tracker.antt =====
-- `LaunchTracker` of launches.rs: the state, lineage and `on_start`; `Flow` has the other methods.
-- A method returns the new tracker.
pub mod Flow
pub mod Lineage
pub mod Invariant
pub mod Rows
pub mod Stops
pub mod Drain
pub mod Counters
pub mod Lifecycle
pub mod Runs
use pc_pulse.Prelude.{
  ℕ, zero, suc, ◌+◌, ◌-◌, ◌*◌, ◌%◌, ◌^◌, Bool, true, false, not, ◌&&◌, ◌||◌, Option, none, some,
  List, [], ◌∷◌, ◌++◌, leb, ltb, ◌==◌, if◌then◌else◌, length, drop,
}
use pc_pulse.Prelude.Int.{ℤ, pos, leb_ℤ, eqb_ℤ, sub_i64, inc_u64}
use pc_pulse.Text.{Text, codes, Unicode, is_some}
use pc_pulse.Table.{Key, key_Eq, nat_eq, Table, lookup, insert, remove, modify}
use pc_pulse.Launches.Paths.{
  DeviceMap, QueryDosDevice, normalize_image_path, exe_name_from_path, is_console_host,
  build_device_map,
}
use pc_pulse.Launches.Model.{
  WindowState, windowed, never_windowed, unobserved, LineageEntry, LaunchEvent, ProcessStartProps,
  ProcessStopProps, LiveProcessInfo, RecentLaunch, PendingLaunch, to_event, to_running_event,
}

abbrev pub recent_cap : ℕ
recent_cap = 4096

abbrev pub lineage_max_depth : ℕ
lineage_max_depth = 5

abbrev pub running_flush_threshold_ms : ℤ
running_flush_threshold_ms = pos 60_000

abbrev pub stale_pending_threshold_ms : ℤ
stale_pending_threshold_ms = pos 86_400_000

abbrev pub device_map_rebuild_cooldown_ms : ℤ
device_map_rebuild_cooldown_ms = pos 60_000

-- `fn() -> Vec<(String, String)>`: what a builder returns depends on the drives at the call.
abbrev pub DeviceMapBuilder : Type 0
DeviceMapBuilder = Unicode → QueryDosDevice → DeviceMap

abbrev pub LiveLookup : Type 0
LiveLookup = ℕ → Option LiveProcessInfo

pub record LaunchTracker : Type 0 where
  pub pending : Table Key PendingLaunch
  pub pid_index : Table ℕ ℤ
  pub recent : List RecentLaunch
  pub device_map : DeviceMap
  pub device_map_builder : Option DeviceMapBuilder
  pub last_rebuild_ms : Option ℤ
  pub starts_seen : ℕ
  pub stops_seen : ℕ
  pub persisted : ℕ
  pub orphan_stops : ℕ
  pub stale_pending_evicted : ℕ

unfoldable pub new : Unicode → QueryDosDevice → LaunchTracker
new u query = record {
  pending = [];
  pid_index = [];
  recent = [];
  device_map = build_device_map u query;
  device_map_builder = some build_device_map;
  last_rebuild_ms = none;
  starts_seen = 0;
  stops_seen = 0;
  persisted = 0;
  orphan_stops = 0;
  stale_pending_evicted = 0;
}

-- `max_by_key(start_ms)` over the entries that pass the filter; of equal keys the last stays.
abbrev pub newer : Option RecentLaunch → RecentLaunch → Option RecentLaunch
newer none e = some e
newer (some best) e = if leb_ℤ best.start_ms e.start_ms then some e else some best

unfoldable pub newest_of :
    (RecentLaunch → Bool) → List RecentLaunch → Option RecentLaunch → Option RecentLaunch
newest_of keep [] best = best
newest_of keep (e ∷ recent) best = newest_of keep recent (if keep e then newer best e else best)

abbrev pub or_else {ℓ} : {A : Type ℓ} → Option A → Option A → Option A
or_else none b = b
or_else (some a) b = some a

unfoldable pub recent_lookup : List RecentLaunch → ℕ → ℤ → Option RecentLaunch
recent_lookup recent pid at_ms =
    or_else (newest_of (λ e. e.pid == pid && leb_ℤ e.start_ms at_ms) recent none)
      (newest_of (λ e. e.pid == pid) recent none)

unfoldable pub unknown_entry : ℕ → LineageEntry
unknown_entry pid = record { pid = pid; name = codes "unknown"; path = none }

-- One ancestor, and its parent if the walk goes on: the live process first, then a recent launch.
abbrev pub from_recent : ℕ → Option RecentLaunch → LineageEntry × Option ℕ
unfolding unknown_entry
from_recent pid (some entry) =
    (record { pid = pid; name = entry.name; path = some entry.path }, some entry.parent_pid)
from_recent pid none = (unknown_entry pid, none)

abbrev pub from_live : ℕ → Option LiveProcessInfo → Option RecentLaunch → LineageEntry × Option ℕ
from_live pid (some info) found =
    (record { pid = pid; name = info.name; path = info.path }, some info.parent_pid)
from_live pid none found = from_recent pid found

unfoldable pub ancestor : List RecentLaunch → ℤ → LiveLookup → ℕ → LineageEntry × Option ℕ
unfolding unknown_entry
ancestor recent at_start_ms live_lookup pid =
    from_live pid (live_lookup pid) (recent_lookup recent pid at_start_ms)

-- The rounds of the walk that are left.
unfoldable pub walk_lineage : ℕ → List RecentLaunch → ℤ → LiveLookup → ℕ → List LineageEntry
walk_lineage zero recent at_start_ms live_lookup current_pid = []
walk_lineage (suc n) recent at_start_ms live_lookup current_pid =
    let (entry, parent) = ancestor recent at_start_ms live_lookup current_pid in
    entry ∷ elim parent [ some pid ↦ walk_lineage n recent at_start_ms live_lookup pid | none ↦ [] ]

unfoldable pub build_lineage : LaunchTracker → ℕ → ℤ → LiveLookup → List LineageEntry
build_lineage t start_pid at_start_ms live_lookup =
    walk_lineage lineage_max_depth t.recent at_start_ms live_lookup start_pid

-- `recent.push_back` and the bound on the ring.
unfoldable pub remember_launch : RecentLaunch → List RecentLaunch → List RecentLaunch
remember_launch e recent =
    let pushed = recent ++ e ∷ [] in
    if ltb recent_cap (length pushed) then drop 1 pushed else pushed

abbrev pub cooled_down : Option ℤ → ℤ → Bool
cooled_down none now = true
cooled_down (some last) now = leb_ℤ device_map_rebuild_cooldown_ms (sub_i64 now last)

-- The rebuild of the device map when an image path did not map: the tracker and the path.
abbrev pub rebuild :
    Unicode
    → QueryDosDevice
    → ProcessStartProps
    → Option DeviceMapBuilder
    → LaunchTracker
    → Text × Bool
    → LaunchTracker × (Text × Bool)
rebuild u query p none t path = (t, path)
rebuild u query p (some builder) t path =
    let device_map = builder u query in
    (
      record t { device_map = device_map; last_rebuild_ms = some p.create_time_ms },
      normalize_image_path u p.image_name device_map,
    )

unfoldable pub resolve_path :
    Unicode → QueryDosDevice → ProcessStartProps → LaunchTracker → LaunchTracker × (Text × Bool)
resolve_path u query p t =
    let path = normalize_image_path u p.image_name t.device_map in
    if not path.1
      && (is_some t.device_map_builder && cooled_down t.last_rebuild_ms p.create_time_ms)
    then rebuild u query p t.device_map_builder t path
    else (t, path)

-- The row that `on_start` inserts.
unfoldable pub start_row :
    Unicode → ProcessStartProps → LiveLookup → LaunchTracker → Text × Bool → PendingLaunch
start_row u p live_lookup t (exe_path, mapped) = record {
  start_time_ms = p.create_time_ms;
  stop_time_ms = none;
  exit_code = none;
  exe_name = exe_name_from_path exe_path;
  exe_path = exe_path;
  raw_image_path = if mapped then none else some p.image_name;
  session_id = p.session_id;
  parent_pid = p.parent_pid;
  lineage = build_lineage t p.parent_pid p.create_time_ms live_lookup;
  console_host = is_console_host u (exe_name_from_path exe_path);
  sampled = false;
  visible = false;
  window_state = unobserved;
  emitted_running = false;
}

unfoldable pub track_start :
    Unicode → ProcessStartProps → LiveLookup → LaunchTracker × (Text × Bool) → LaunchTracker
track_start u p live_lookup (t, path) =
    let row = start_row u p live_lookup t path in
    record t {
      recent =
          remember_launch
            (record {
              pid = p.pid;
              parent_pid = p.parent_pid;
              start_ms = p.create_time_ms;
              name = row.exe_name;
              path = row.exe_path;
            })
            t.recent;
      pending = insert (p.pid, p.create_time_ms) row t.pending;
      pid_index = insert p.pid p.create_time_ms t.pid_index;
    }

unfoldable pub on_start :
    Unicode → QueryDosDevice → ProcessStartProps → LiveLookup → LaunchTracker → LaunchTracker
on_start u query p live_lookup t =
    let t = record t { starts_seen = inc_u64 t.starts_seen } in
    if is_some (lookup (p.pid, p.create_time_ms) t.pending)
    then t
    else track_start u p live_lookup (resolve_path u query p t)
