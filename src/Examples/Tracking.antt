-- ===== src/Examples/Tracking.antt =====
-- The tracker's theorems at one console host that is started, sampled, stopped and drained.
use pc_pulse.Prelude.{
  ℕ, ◌+◌, ◌≤◌, ◌≡◌, ◌≢◌, ◌⊎◌, refl, true, false, none, some, List, [], ◌∷◌, arith, length, All,
}
use pc_pulse.Prelude.Int.{pos, ◌≤ℤ◌, sub_i64}
use pc_pulse.Text.{codes}
use pc_pulse.Examples.{ascii, no_drives, idle}
use pc_pulse.Table.{Key, lookup, insert, nat_eq, key_Eq}
use pc_pulse.Launches.Model.{
  windowed, LaunchEvent, ProcessStartProps, ProcessStopProps, PendingLaunch, RecentLaunch,
  to_running_event,
}
use pc_pulse.Launches.Tracker.{
  LaunchTracker, new, on_start, track_start, resolve_path, start_row, build_lineage, recent_lookup,
  unknown_entry,
}
use pc_pulse.Launches.Tracker.Flow.{
  on_stop, drain_flushable, scan, scan_row, fate, drop_stale, drop_finished,
}
use pc_pulse.Launches.Paths.{
  normalize_image_path, longest_match, build_device_map, map_letters, first_multi_sz_target,
}
use pc_pulse.Launches.Tracker.Invariant.{IsValid, new-IsValid, on_start-IsValid}
use pc_pulse.Launches.Tracker.Stops.{on_stop-closes}
use pc_pulse.Launches.Tracker.Lineage.{
  build_lineage_bounds, recent_lookup-reuse_proof, started_by, AtMost, first_pid, IsUnresolved,
  last?,
}
use pc_pulse.Launches.Tracker.Lifecycle.{lifecycle_emits_once, on_start-fresh, samples}
use pc_pulse.Launches.Tracker.Drain.{drain_flushable_running_once, events_at}
use pc_pulse.Launches.Tracker.Counters.{accounted, drain-accounted}
use pc_pulse.Launches.Tracker.Runs.{Call, start, stop, drain, run, step, run-IsValid, run-accounted}

abbrev shell : ProcessStartProps
shell = record {
  pid = 40;
  parent_pid = 4;
  session_id = 1;
  create_time_ms = pos 1000;
  image_name = codes "c:/cmd.exe";
}

abbrev shell_stop : ProcessStopProps
shell_stop = record { pid = 40; exit_code = 0; stop_time_ms = pos 1500 }

abbrev fresh : LaunchTracker
fresh = new ascii no_drives

abbrev started : List Call
started = start shell idle no_drives ∷ []

abbrev tracked : LaunchTracker
tracked = run ascii fresh started

lifecycle_emits_once_example :
    let r = drain_flushable (pos 1600) (
      on_stop shell_stop
        (samples 40 (false ∷ true ∷ []) (on_start ascii no_drives shell idle fresh))) in
    (lookup (40, pos 1000) r.0.pending ≡ none)
    × (e : LaunchEvent) × (events_at (40, pos 1000) r.1 ≡ e ∷ [])
    × (e.pid ≡ 40)
    × (e.start_time_ms ≡ pos 1000)
    × (e.stop_time_ms ≡ some (pos 1500))
    × (e.exit_code ≡ some 0)
    × (e.window_state ≡ windowed)
unfolding new lookup
lifecycle_emits_once_example =
    lifecycle_emits_once ascii no_drives shell idle fresh (false ∷ true ∷ []) shell_stop (pos 1600)
      (new-IsValid ascii no_drives) refl refl

run-IsValid_example : IsValid (
    run ascii
      (new ascii no_drives)
      (start shell idle no_drives ∷ stop shell_stop ∷ drain (pos 1600) ∷ []))
run-IsValid_example =
    run-IsValid ascii no_drives
      (start shell idle no_drives ∷ stop shell_stop ∷ drain (pos 1600) ∷ [])

run-accounted_example :
    (tracked.starts_seen ≡ 1)
    × (length tracked.pending + tracked.persisted + tracked.stale_pending_evicted ≤ 1)
run-accounted_example = run-accounted ascii no_drives started (omega arith)

-- Started, and stopped.
abbrev closing : List Call
closing = start shell idle no_drives ∷ stop shell_stop ∷ []

on_start-fresh_example :
    let r = on_start ascii no_drives shell idle fresh in
    ((a : PendingLaunch) × (lookup (40, pos 1000) r.pending ≡ some a)
      × (a.stop_time_ms ≡ none)
      × (a.start_time_ms ≡ pos 1000)
      × (a.sampled ≡ false)
      × (a.visible ≡ false)
      × (a.emitted_running ≡ false))
    × ((k : Key) → k ≢ (40, pos 1000) → lookup k r.pending ≡ lookup k fresh.pending)
    × (lookup 40 r.pid_index ≡ some (pos 1000))
    × ((q : ℕ) → q ≢ 40 → lookup q r.pid_index ≡ lookup q fresh.pid_index)
unfolding new lookup
on_start-fresh_example = on_start-fresh ascii no_drives shell idle fresh refl

abbrev two_rows : LaunchTracker
two_rows = on_start ascii no_drives shell idle fresh

on_stop-closes_example :
    let r = on_stop shell_stop two_rows in
    ((a b : PendingLaunch) × (lookup (40, pos 1000) two_rows.pending ≡ some a)
      × (lookup (40, pos 1000) r.pending ≡ some b)
      × (a.stop_time_ms ≡ none)
      × (b.stop_time_ms ≡ some (pos 1500))
      × (b.exit_code ≡ some 0)
      × (b.start_time_ms ≡ pos 1000))
    × ((k : Key) → k ≢ (40, pos 1000) → lookup k r.pending ≡ lookup k two_rows.pending)
    × (lookup 40 r.pid_index ≡ none)
    × ((q : ℕ) → q ≢ 40 → lookup q r.pid_index ≡ lookup q two_rows.pid_index)
    × (r.orphan_stops ≡ two_rows.orphan_stops)
unfolding new lookup
on_stop-closes_example =
    on_stop-closes shell_stop two_rows (pos 1000)
      (on_start-IsValid ascii no_drives shell idle fresh (new-IsValid ascii no_drives))
      (on_start-fresh ascii no_drives shell idle fresh refl).2

drain-accounted_example :
    (accounted (drain_flushable (pos 1600) tracked).0 ≡ accounted tracked)
    × ((drain_flushable (pos 1600) tracked).0.starts_seen ≡ tracked.starts_seen)
drain-accounted_example =
    let r = run-accounted ascii no_drives started (omega arith) in
    drain-accounted (pos 1600) tracked (run-IsValid ascii no_drives started) (omega arith)

-- A launch that ran before, with the same pid.
abbrev earlier : RecentLaunch
earlier = record {
  pid = 4;
  parent_pid = 0;
  start_ms = pos 10;
  name = codes "a.exe";
  path = codes "a.exe";
}

abbrev later : RecentLaunch
later = record {
  pid = 4;
  parent_pid = 0;
  start_ms = pos 90;
  name = codes "b.exe";
  path = codes "b.exe";
}

recent_lookup-reuse_proof_example :
    (r : RecentLaunch) × (recent_lookup (earlier ∷ later ∷ []) 4 (pos 50) ≡ some r)
    × (r.pid ≡ 4)
    × (r.start_ms ≤ℤ pos 50)
    × All (AtMost (started_by 4 (pos 50)) r) (earlier ∷ later ∷ [])
recent_lookup-reuse_proof_example = recent_lookup-reuse_proof (earlier ∷ later ∷ []) 4 (pos 50) refl

build_lineage_bounds_example :
    let lineage = build_lineage fresh 4 (pos 1000) idle in
    (1 ≤ length lineage)
    × (length lineage ≤ 5)
    × (first_pid lineage ≡ some 4)
    × ((length lineage ≡ 5)
        ⊎ ((q : ℕ) × IsUnresolved fresh.recent (pos 1000) idle q
            × (last? lineage ≡ some (unknown_entry q))))
build_lineage_bounds_example = build_lineage_bounds fresh 4 (pos 1000) idle

drain_flushable_running_once_example :
    events_at
      (40, pos 1000)
      (drain_flushable (pos 90_000) (drain_flushable (pos 70_000) tracked).0).1
    ≡ []
unfolding run step on_start drain_flushable lookup new events_at scan track_start insert
    resolve_path normalize_image_path longest_match build_device_map map_letters
    first_multi_sz_target scan_row fate start_row sub_i64 to_running_event drop_stale drop_finished
drain_flushable_running_once_example =
    drain_flushable_running_once (pos 70_000) (pos 90_000) tracked 40 (pos 1000) _ _
      (run-IsValid ascii no_drives started) refl refl
