-- ===== src/Launches/Tracker/Invariant.antt =====
-- The well-formedness of a tracker, kept by every method, and what it says of stop events.
use pc_pulse.Prelude.{
  ℕ, ◌≤◌, ◌≡◌, inl, inr, refl, Bool, ◌&&◌, Option, none, some, arith, ◌==◌, if◌then◌else◌, length,
  Option-cases, Bool-cases,
}
use pc_pulse.Prelude.Int.{ℤ, eqb_ℤ_iff, inc_u64}
use pc_pulse.Text.{Text, Unicode, is_some}
use pc_pulse.Table.{
  key_Eq, nat_eq, Table, lookup, Distinct, lookup-insert, lookup-remove, insert-Distinct,
  remove-Distinct,
}
use pc_pulse.Launches.Paths.{QueryDosDevice}
use pc_pulse.Launches.Model.{ProcessStartProps, PendingLaunch}
use pc_pulse.Launches.Tracker.{
  LaunchTracker, LiveLookup, recent_cap, resolve_path, start_row, track_start, on_start, new,
}
use pc_pulse.Launches.Tracker.Flow.{matched, unroute, points_at}
use pc_pulse.Launches.Tracker.Lineage.{remember_launch-cap}

-- A row that an index entry of its pid points at is there and still open.
abbrev pub IsOpen : Option PendingLaunch → Type 0
IsOpen none = ⊥
IsOpen (some launch) = launch.stop_time_ms ≡ none

abbrev pub StartsAt : ℤ → Option PendingLaunch → Type 0
StartsAt start_ms none = Unit
StartsAt start_ms (some launch) = launch.start_time_ms ≡ start_ms

pub record IsValid (t : LaunchTracker) : Type 0 where
  pub rows : Distinct t.pending
  pub routes : Distinct t.pid_index
  pub starts : (pid : ℕ) (start_ms : ℤ) → StartsAt start_ms (lookup (pid, start_ms) t.pending)
  pub open_routes :
      (pid : ℕ) (start_ms : ℤ)
      → lookup pid t.pid_index ≡ some start_ms
      → IsOpen (lookup (pid, start_ms) t.pending)
  pub ring : length t.recent ≤ recent_cap

-- A new tracker is well formed.
pub new-IsValid : (u : Unicode) (query : QueryDosDevice) → IsValid (new u query)
unfolding new lookup
new-IsValid u query = record {
  rows = tt;
  routes = tt;
  starts = λ pid start_ms. tt;
  open_routes = λ pid start_ms h. cc;
  ring = omega arith;
}

module _ (u : Unicode) (query : QueryDosDevice) (p : ProcessStartProps) where
  -- Resolving a path touches only the device map and its clock.
  pub resolve_path-keeps :
      (t : LaunchTracker)
      → let r = (resolve_path u query p t).0 in
        (r.pending ≡ t.pending)
        × (r.pid_index ≡ t.pid_index)
        × (r.recent ≡ t.recent)
        × (r.persisted ≡ t.persisted)
        × (r.starts_seen ≡ t.starts_seen)
        × (r.stale_pending_evicted ≡ t.stale_pending_evicted)
  unfolding resolve_path
  resolve_path-keeps t = ground arith

module _ (u : Unicode) (p : ProcessStartProps) (live : LiveLookup) where
  track_start-IsOpen :
      (t : LaunchTracker) (path : Text × Bool)
      → IsValid t
      → (pid : ℕ) (start_ms : ℤ)
      → lookup pid (track_start u p live (t, path)).pid_index ≡ some start_ms
      → IsOpen (lookup (pid, start_ms) (track_start u p live (t, path)).pending)
  unfolding track_start start_row
  track_start-IsOpen t path v pid start_ms h = ground (
    arith,
    lookup-insert p.pid pid p.create_time_ms t.pid_index,
    lookup-insert (p.pid, p.create_time_ms) (pid, start_ms) (start_row u p live t path) t.pending,
    eqb_ℤ_iff p.create_time_ms start_ms,
    v.open_routes pid start_ms,
  )

  track_start-starts :
      (t : LaunchTracker) (path : Text × Bool)
      → IsValid t
      → (pid : ℕ) (start_ms : ℤ)
      → StartsAt start_ms (lookup (pid, start_ms) (track_start u p live (t, path)).pending)
  unfolding track_start start_row
  track_start-starts t path v pid start_ms = ground (
    arith,
    lookup-insert (p.pid, p.create_time_ms) (pid, start_ms) (start_row u p live t path) t.pending,
    eqb_ℤ_iff p.create_time_ms start_ms,
    v.starts pid start_ms,
  )

  track_start-IsValid :
      (t : LaunchTracker) (path : Text × Bool)
      → IsValid t
      → IsValid (track_start u p live (t, path))
  track_start-IsValid t path v = record {
    rows = unfold track_start in insert-Distinct _ _ t.pending v.rows;
    routes = unfold track_start in insert-Distinct _ _ t.pid_index v.routes;
    starts = track_start-starts t path v;
    open_routes = track_start-IsOpen t path v;
    ring = unfold track_start in remember_launch-cap _ t.recent v.ring;
  }

-- The counters and the device map do not matter.
pub IsValid-same :
    {t r : LaunchTracker}
    → r.pending ≡ t.pending
    → r.pid_index ≡ t.pid_index
    → r.recent ≡ t.recent
    → IsValid t
    → IsValid r
IsValid-same ep ei er v = record {
  rows = rw ep v.rows;
  routes = rw ei v.routes;
  starts = λ pid start_ms. rw ep (v.starts pid start_ms);
  open_routes = λ pid start_ms h. rw ep (v.open_routes pid start_ms (rw ei at h));
  ring = rw er v.ring;
}

resolve_path-IsValid :
    (u : Unicode) (query : QueryDosDevice) (p : ProcessStartProps) (t : LaunchTracker)
    → IsValid t
    → IsValid (resolve_path u query p t).0
resolve_path-IsValid u query p t v =
    let k = resolve_path-keeps u query p t in IsValid-same k.0 k.1 k.2 v

-- A start event, duplicate or not, keeps the tracker well formed.
pub on_start-IsValid :
    (u : Unicode) (query : QueryDosDevice) (p : ProcessStartProps) (live : LiveLookup)
    (t : LaunchTracker)
    → IsValid t
    → IsValid (on_start u query p live t)
unfolding on_start
on_start-IsValid u query p live t v =
    let counted = record t { starts_seen = inc_u64 t.starts_seen } in
    let v' : IsValid counted = IsValid-same refl refl refl v in
    let r = resolve_path u query p counted in
    elim (Bool-cases (is_some (lookup (p.pid, p.create_time_ms) t.pending))) [
      | inl old ↦ rw old v'
      | inr fresh ↦
          rw fresh
            (track_start-IsValid u p live r.0 r.1 (resolve_path-IsValid u query p counted v'))
    ]

-- In a well-formed tracker every route leads to a pending row.
pub matched_of_IsValid :
    (t : LaunchTracker) (pid : ℕ) → IsValid t → matched t pid ≡ lookup pid t.pid_index
unfolding matched
matched_of_IsValid t pid v = elim (Option-cases (lookup pid t.pid_index)) [
  | inl e ↦ rw e
  | inr (s, e) ↦ rw e (ground (arith, v.open_routes pid s e))
]

pub lookup-unroute :
    (pid q : ℕ) (start_ms : ℤ) (pid_index : Table ℕ ℤ)
    → lookup q (unroute pid start_ms pid_index)
      ≡ (if pid == q && points_at (lookup pid pid_index) start_ms then none else lookup q pid_index)
unfolding unroute
lookup-unroute pid q start_ms pid_index = ground (arith, lookup-remove pid q pid_index)

pub unroute-Distinct :
    (pid : ℕ) (start_ms : ℤ) (pid_index : Table ℕ ℤ)
    → Distinct pid_index
    → Distinct (unroute pid start_ms pid_index)
unfolding unroute
unroute-Distinct pid start_ms pid_index d = ground (arith, remove-Distinct pid pid_index d)
