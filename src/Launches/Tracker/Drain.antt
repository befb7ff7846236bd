-- ===== src/Launches/Tracker/Drain.antt =====
-- `drain_flushable` on a well-formed tracker: what it keeps, what it emits, and the counters.
use pc_pulse.Prelude.{
  ℕ, ◌≡◌, inl, inr, refl, Option, none, some, List, [], ◌∷◌, arith, if◌then◌else◌, Option-cases,
}
use pc_pulse.Prelude.Int.{ℤ, eqb_ℤ_iff}
use pc_pulse.Table.{Key, key_Eq, key_eq, key_eq_iff, nat_eq, Table, lookup, Distinct}
use pc_pulse.Launches.Model.{LaunchEvent, PendingLaunch, to_event, to_running_event}
use pc_pulse.Launches.Tracker.{LaunchTracker}
use pc_pulse.Launches.Tracker.Flow.{
  finished, stale, flush_running, keep, fate, mark_running, scan, scan_row, drop_finished,
  drain_flushable,
}
use pc_pulse.Launches.Tracker.Invariant.{IsOpen, StartsAt, IsValid}
use pc_pulse.Launches.Tracker.Rows.{
  is_stale, scan-rows, scan-finished, scan-stale, scan-Distinct, lookup-drop_finished,
  drop_finished-keeps, drop_finished-Distinct, lookup-drop_stale, route-drop_stale,
  drop_stale-Distinct, drop_stale-recent,
}

-- What is left of a row: nothing of a finished or stale one, and an open one at the age of a
-- minute is marked as emitted.
abbrev pub survive : ℤ → Option PendingLaunch → Option PendingLaunch
survive now_ms none = none
survive now_ms (some launch) = elim (fate now_ms launch) [
  | finished ↦ none
  | stale ↦ none
  | flush_running ↦ some (mark_running launch)
  | keep ↦ some launch
]

abbrev pub route_after : ℤ → Table Key PendingLaunch → ℕ → Option ℤ → Option ℤ
route_after now_ms pending pid none = none
route_after now_ms pending pid (some start_ms) =
    if is_stale now_ms (lookup (pid, start_ms) pending) then none else some start_ms

module _ (now_ms : ℤ) (t : LaunchTracker) (v : IsValid t) where
  -- Draining drops the finished and the stale rows, and keeps every other one.
  pub drain-rows :
      (k : Key)
      → lookup k (drain_flushable now_ms t).0.pending ≡ survive now_ms (lookup k t.pending)
  unfolding drain_flushable
  drain-rows k =
      let s = scan now_ms t.pending in
      let r = record t { pending = s.rows } in
      ground (
        arith,
        lookup-drop_stale k s.stale_keys (drop_finished s.finished_keys r),
        lookup-drop_finished k s.finished_keys r,
        scan-rows now_ms k t.pending,
        scan-finished now_ms k t.pending v.rows,
        scan-stale now_ms k t.pending v.rows,
      )

  -- Draining removes the route of a stale row, and no other.
  pub drain-routes :
      (pid : ℕ)
      → lookup pid (drain_flushable now_ms t).0.pid_index
        ≡ route_after now_ms t.pending pid (lookup pid t.pid_index)
  unfolding drain_flushable
  drain-routes pid = elim (Option-cases (lookup pid t.pid_index)) [
    | inl e ↦ rw route-drop_stale (rw ((drop_finished-keeps _ _).0, e) refl)
    | inr (s, e) ↦
        rw route-drop_stale
          (rw ((drop_finished-keeps _ _).0, e, scan-stale now_ms (pid, s) t.pending v.rows) refl)
  ]

  drain-IsOpen :
      (pid : ℕ) (start_ms : ℤ)
      → lookup pid (drain_flushable now_ms t).0.pid_index ≡ some start_ms
      → IsOpen (lookup (pid, start_ms) (drain_flushable now_ms t).0.pending)
  unfolding fate mark_running
  drain-IsOpen pid s h = ground (arith, drain-rows (pid, s), drain-routes pid, v.open_routes pid s)

  drain-starts :
      (pid : ℕ) (start_ms : ℤ)
      → StartsAt start_ms (lookup (pid, start_ms) (drain_flushable now_ms t).0.pending)
  unfolding fate mark_running
  drain-starts pid s = ground (arith, drain-rows (pid, s), v.starts pid s)

-- Draining keeps the tracker well formed.
pub drain-IsValid :
    (now_ms : ℤ) (t : LaunchTracker) → IsValid t → IsValid (drain_flushable now_ms t).0
drain-IsValid now_ms t v =
    let s = scan now_ms t.pending in
    let r = record t { pending = s.rows } in
    let f = drop_finished s.finished_keys r in
    let d =
      drop_stale-Distinct s.stale_keys f
        (drop_finished-Distinct s.finished_keys r (scan-Distinct now_ms t.pending v.rows))
        (rw ((drop_finished-keeps s.finished_keys r).0) v.routes) in
    record {
      rows = unfold drain_flushable in d.0;
      routes = unfold drain_flushable in d.1;
      starts = drain-starts now_ms t v;
      open_routes = drain-IsOpen now_ms t v;
      ring =
          unfold drain_flushable in
          rw (drop_stale-recent s.stale_keys f, (drop_finished-keeps s.finished_keys r).1) v.ring;
    }

-- The events that carry a row's key.
unfoldable pub events_at : Key → List LaunchEvent → List LaunchEvent
events_at k [] = []
events_at k (e ∷ out) =
    let rest = events_at k out in if key_eq (e.pid, e.start_time_ms) k then e ∷ rest else rest

abbrev pub emitted : ℤ → ℕ → Option PendingLaunch → List LaunchEvent
emitted now_ms pid none = []
emitted now_ms pid (some launch) = elim (fate now_ms launch) [
  | finished ↦ to_event launch pid ∷ []
  | stale ↦ []
  | flush_running ↦ to_running_event launch pid ∷ []
  | keep ↦ []
]

module _ (now_ms : ℤ) where
  scan-events :
      (pid : ℕ) (start_ms : ℤ) (pending : Table Key PendingLaunch)
      → Distinct pending
      → ((p : ℕ) (s : ℤ) → StartsAt s (lookup (p, s) pending))
      → events_at (pid, start_ms) (scan now_ms pending).out
        ≡ emitted now_ms pid (lookup (pid, start_ms) pending)
  unfolding events_at scan scan_row lookup to_event to_running_event
  scan-events pid start_ms [] d st = refl
  scan-events pid start_ms ((((p, s)), launch) ∷ pending) d st = ground (
    arith,
    st p s,
    key_eq_iff (p, s) (p, s),
    key_eq_iff (p, s) (pid, start_ms),
    eqb_ℤ_iff s s,
    eqb_ℤ_iff s start_ms,
    scan-events pid start_ms pending d.1
        (λ q b. ground (arith, st q b, d.0, key_eq_iff (p, s) (q, b))),
  )

pub drain_flushable_exact :
    (now_ms : ℤ) (t : LaunchTracker) (pid : ℕ) (start_ms : ℤ)
    → IsValid t
    → (lookup (pid, start_ms) (drain_flushable now_ms t).0.pending
        ≡ survive now_ms (lookup (pid, start_ms) t.pending))
      × (events_at (pid, start_ms) (drain_flushable now_ms t).1
          ≡ emitted now_ms pid (lookup (pid, start_ms) t.pending))
drain_flushable_exact now_ms t pid start_ms v = (
  drain-rows now_ms t v (pid, start_ms),
  unfold drain_flushable in scan-events now_ms pid start_ms t.pending v.rows v.starts,
)

-- In a well-formed tracker a row that a drain emits and keeps is not emitted by the next drain, whenever that comes.
pub drain_flushable_running_once :
    (now_ms later_ms : ℤ) (t : LaunchTracker) (pid : ℕ) (start_ms : ℤ) (e : LaunchEvent)
    (kept : PendingLaunch)
    → IsValid t
    → events_at (pid, start_ms) (drain_flushable now_ms t).1 ≡ e ∷ []
    → lookup (pid, start_ms) (drain_flushable now_ms t).0.pending ≡ some kept
    → events_at (pid, start_ms) (drain_flushable later_ms (drain_flushable now_ms t).0).1 ≡ []
unfolding fate mark_running
drain_flushable_running_once now_ms later_ms t pid start_ms e kept v sent stays =
    let first = drain_flushable_exact now_ms t pid start_ms v in
    let second =
      drain_flushable_exact later_ms (drain_flushable now_ms t).0 pid start_ms
        (drain-IsValid now_ms t v) in
    ground (arith, first.0, first.1, second.1)
