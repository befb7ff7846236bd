-- ===== src/Launches/Tracker/Flow.antt =====
-- `on_stop`, `observe_window`, `drain_flushable` and `status` of `LaunchTracker` (launches.rs).
use pc_pulse.Prelude.{
  ℕ, Bool, true, false, not, ◌&&◌, ◌||◌, Option, none, some, List, [], ◌∷◌, if◌then◌else◌,
}
use pc_pulse.Prelude.Int.{ℤ, leb_ℤ, eqb_ℤ, sub_i64, inc_u64}
use pc_pulse.Text.{is_some}
use pc_pulse.Table.{Key, key_Eq, nat_eq, Table, lookup, remove, modify}
use pc_pulse.Launches.Model.{
  WindowState, windowed, never_windowed, unobserved, LaunchEvent, ProcessStopProps, PendingLaunch,
  to_event, to_running_event,
}
use pc_pulse.Launches.Tracker.{
  LaunchTracker, running_flush_threshold_ms, stale_pending_threshold_ms,
}

-- The start of the row that an event of this pid is routed to, if that row is still pending.
abbrev pub routed : Table Key PendingLaunch → ℕ → Option ℤ → Option ℤ
routed pending pid none = none
routed pending pid (some start_ms) =
    if is_some (lookup (pid, start_ms) pending) then some start_ms else none

unfoldable pub matched : LaunchTracker → ℕ → Option ℤ
matched t pid = routed t.pending pid (lookup pid t.pid_index)

abbrev pub final_window_state : PendingLaunch → WindowState
final_window_state launch =
    if launch.visible then windowed else if launch.sampled then never_windowed else unobserved

unfoldable pub close_row : ProcessStopProps → PendingLaunch → PendingLaunch
close_row p launch = record launch {
  stop_time_ms = some p.stop_time_ms;
  exit_code = some p.exit_code;
  window_state = final_window_state launch;
}

abbrev pub points_at : Option ℤ → ℤ → Bool
points_at none start_ms = false
points_at (some s) start_ms = eqb_ℤ s start_ms

-- `if pid_index.get(&pid) == Some(&start) { pid_index.remove(&pid) }`
unfoldable pub unroute : ℕ → ℤ → Table ℕ ℤ → Table ℕ ℤ
unroute pid start_ms pid_index =
    if points_at (lookup pid pid_index) start_ms then remove pid pid_index else pid_index

unfoldable pub close_matched : ProcessStopProps → LaunchTracker → Option ℤ → LaunchTracker
close_matched p t none = record t { orphan_stops = inc_u64 t.orphan_stops }
close_matched p t (some start_ms) = record t {
  pending = modify (p.pid, start_ms) (close_row p) t.pending;
  pid_index = unroute p.pid start_ms t.pid_index;
}

unfoldable pub on_stop : ProcessStopProps → LaunchTracker → LaunchTracker
unfolding matched close_matched
on_stop p t =
    let t = record t { stops_seen = inc_u64 t.stops_seen } in close_matched p t (matched t p.pid)

unfoldable pub sample_row : Bool → PendingLaunch → PendingLaunch
sample_row visible launch = record launch { sampled = true; visible = launch.visible || visible }

abbrev pub sample_matched : ℕ → Bool → LaunchTracker → Option ℤ → LaunchTracker
sample_matched pid visible t none = t
sample_matched pid visible t (some start_ms) = record t {
  pending = modify (pid, start_ms) (sample_row visible) t.pending;
}

unfoldable pub observe_window : ℕ → Bool → LaunchTracker → LaunchTracker
unfolding matched
observe_window pid visible t = sample_matched pid visible t (matched t pid)

-- What one round of the first loop of `drain_flushable` does with a row.
pub data Fate : Type 0 where
  finished stale flush_running keep : Fate

unfoldable pub fate : ℤ → PendingLaunch → Fate
fate now_ms launch =
    if is_some launch.stop_time_ms
    then finished
    else if leb_ℤ stale_pending_threshold_ms (sub_i64 now_ms launch.start_time_ms)
    then stale
    else if not launch.emitted_running
        && leb_ℤ running_flush_threshold_ms (sub_i64 now_ms launch.start_time_ms)
    then flush_running
    else keep

-- The locals of `drain_flushable`, and `pending` as the loop leaves it.
pub record Scan : Type 0 where
  pub out : List LaunchEvent
  pub finished_keys : List Key
  pub stale_keys : List Key
  pub rows : Table Key PendingLaunch

unfoldable pub mark_running : PendingLaunch → PendingLaunch
mark_running launch = record launch { emitted_running = true }

unfoldable pub scan_row : Fate → Key → PendingLaunch → Scan → Scan
scan_row finished key launch s = record s {
  out = to_event launch key.0 ∷ s.out;
  finished_keys = key ∷ s.finished_keys;
  rows = (key, launch) ∷ s.rows;
}
scan_row stale key launch s = record s {
  stale_keys = key ∷ s.stale_keys;
  rows = (key, launch) ∷ s.rows;
}
scan_row flush_running key launch s = record s {
  out = to_running_event launch key.0 ∷ s.out;
  rows = (key, mark_running launch) ∷ s.rows;
}
scan_row keep key launch s = record s { rows = (key, launch) ∷ s.rows }

unfoldable pub scan : ℤ → Table Key PendingLaunch → Scan
scan now_ms [] = record { out = []; finished_keys = []; stale_keys = []; rows = [] }
scan now_ms ((key, launch) ∷ pending) =
    scan_row (fate now_ms launch) key launch (scan now_ms pending)

unfoldable pub drop_finished : List Key → LaunchTracker → LaunchTracker
drop_finished [] t = t
drop_finished (key ∷ keys) t =
    drop_finished keys
      (record t { pending = remove key t.pending; persisted = inc_u64 t.persisted })

unfoldable pub drop_stale : List Key → LaunchTracker → LaunchTracker
unfolding unroute
drop_stale [] t = t
drop_stale ((pid, start_ms) ∷ keys) t = drop_stale keys (record t {
  pending = remove (pid, start_ms) t.pending;
  pid_index = unroute pid start_ms t.pid_index;
  stale_pending_evicted = inc_u64 t.stale_pending_evicted;
})

unfoldable pub drain_flushable : ℤ → LaunchTracker → LaunchTracker × List LaunchEvent
drain_flushable now_ms t =
    let s = scan now_ms t.pending in
    let t = drop_finished s.finished_keys (record t { pending = s.rows }) in
    (drop_stale s.stale_keys t, s.out)

-- The tracker's part of `LaunchCaptureStatus`; the other fields are left at their defaults.
pub record LaunchCaptureStatus : Type 0 where
  pub starts_seen : ℕ
  pub stops_seen : ℕ
  pub persisted : ℕ
  pub orphan_stops : ℕ
  pub stale_pending_evicted : ℕ

unfoldable pub status : LaunchTracker → LaunchCaptureStatus
status t = record {
  starts_seen = t.starts_seen;
  stops_seen = t.stops_seen;
  persisted = t.persisted;
  orphan_stops = t.orphan_stops;
  stale_pending_evicted = t.stale_pending_evicted;
}
