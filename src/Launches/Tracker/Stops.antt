-- ===== src/Launches/Tracker/Stops.antt =====
-- What a stop event and a window sample do to a well-formed tracker.
use pc_pulse.Prelude.{ℕ, ◌≡◌, ◌≢◌, inl, inr, refl, ◌∙◌, Bool, none, some, arith, Option-cases}
use pc_pulse.Prelude.Int.{ℤ, eqb_ℤ_iff, inc_u64}
use pc_pulse.Table.{Key, key_Eq, key_eq_iff, nat_eq, lookup, modify, lookup-modify, modify-Distinct}
use pc_pulse.Launches.Model.{ProcessStopProps, PendingLaunch}
use pc_pulse.Launches.Tracker.{LaunchTracker}
use pc_pulse.Launches.Tracker.Flow.{
  on_stop, observe_window, close_matched, close_row, sample_row, unroute,
}
use pc_pulse.Launches.Tracker.Invariant.{
  IsOpen, StartsAt, IsValid, IsValid-same, matched_of_IsValid, lookup-unroute, unroute-Distinct,
}

module _ (p : ProcessStopProps) (t : LaunchTracker) (v : IsValid t) (start_ms : ℤ)
    (route : lookup p.pid t.pid_index ≡ some start_ms) where
  abbrev closed : LaunchTracker
  closed = close_matched p t (some start_ms)

  close-starts : (q : ℕ) (s : ℤ) → StartsAt s (lookup (q, s) closed.pending)
  unfolding close_matched close_row
  close-starts q s =
      ground (arith, lookup-modify (p.pid, start_ms) (q, s) (close_row p) t.pending, v.starts q s)

  close-IsOpen :
      (q : ℕ) (s : ℤ) → lookup q closed.pid_index ≡ some s → IsOpen (lookup (q, s) closed.pending)
  unfolding close_matched close_row
  close-IsOpen q s h = ground (
    arith,
    lookup-modify (p.pid, start_ms) (q, s) (close_row p) t.pending,
    lookup-unroute p.pid q start_ms t.pid_index,
    eqb_ℤ_iff start_ms start_ms,
    v.open_routes q s,
  )

  close-IsValid : IsValid closed
  close-IsValid = record {
    rows = unfold close_matched in modify-Distinct _ _ t.pending v.rows;
    routes = unfold close_matched in unroute-Distinct p.pid start_ms t.pid_index v.routes;
    starts = close-starts;
    open_routes = close-IsOpen;
    ring = unfold close_matched in v.ring;
  }

-- A stop event keeps the tracker well formed, whether it is matched or an orphan.
pub on_stop-IsValid : (p : ProcessStopProps) (t : LaunchTracker) → IsValid t → IsValid (on_stop p t)
unfolding on_stop
on_stop-IsValid p t v =
    let counted = record t { stops_seen = inc_u64 t.stops_seen } in
    let v' : IsValid counted = IsValid-same refl refl refl v in
    elim (Option-cases (lookup p.pid t.pid_index)) [
      | inl e ↦
          rw (matched_of_IsValid counted p.pid v' ∙ e, close_matched)
            (IsValid-same refl refl refl v)
      | inr (s, e) ↦ rw (matched_of_IsValid counted p.pid v' ∙ e) (close-IsValid p counted v' s e)
    ]

pub on_stop-eq :
    (p : ProcessStopProps) (t : LaunchTracker) (start_ms : ℤ)
    → IsValid t
    → lookup p.pid t.pid_index ≡ some start_ms
    → on_stop p t ≡ record t {
      pending = modify (p.pid, start_ms) (close_row p) t.pending;
      pid_index = unroute p.pid start_ms t.pid_index;
      stops_seen = inc_u64 t.stops_seen;
    }
unfolding on_stop
on_stop-eq p t s v e =
    let counted = record t { stops_seen = inc_u64 t.stops_seen } in
    rw (matched_of_IsValid counted p.pid (IsValid-same refl refl refl v) ∙ e) refl

pub routed_row :
    (t : LaunchTracker) (pid : ℕ) (start_ms : ℤ)
    → IsValid t
    → lookup pid t.pid_index ≡ some start_ms
    → (a : PendingLaunch) × (lookup (pid, start_ms) t.pending ≡ some a)
      × (a.stop_time_ms ≡ none)
      × (a.start_time_ms ≡ start_ms)
routed_row t pid start_ms v e = elim (Option-cases (lookup (pid, start_ms) t.pending)) [
  | inl absent ↦ absurd (rw absent at (v.open_routes pid start_ms e))
  | inr (a, found) ↦
      (a, found, rw found at (v.open_routes pid start_ms e), rw found at (v.starts pid start_ms))
]

-- In a well-formed tracker a stop event whose pid is routed closes exactly the routed row: it gets the event's own time and
-- exit code and keeps its start, every other row and every other pid's route stay as they are, the
-- pid is routed no more, and no orphan is counted.
pub on_stop-closes :
    (p : ProcessStopProps) (t : LaunchTracker) (start_ms : ℤ)
    → IsValid t
    → lookup p.pid t.pid_index ≡ some start_ms
    → let r = on_stop p t in
      ((a b : PendingLaunch) × (lookup (p.pid, start_ms) t.pending ≡ some a)
        × (lookup (p.pid, start_ms) r.pending ≡ some b)
        × (a.stop_time_ms ≡ none)
        × (b.stop_time_ms ≡ some p.stop_time_ms)
        × (b.exit_code ≡ some p.exit_code)
        × (b.start_time_ms ≡ start_ms))
      × ((k : Key) → k ≢ (p.pid, start_ms) → lookup k r.pending ≡ lookup k t.pending)
      × (lookup p.pid r.pid_index ≡ none)
      × ((q : ℕ) → q ≢ p.pid → lookup q r.pid_index ≡ lookup q t.pid_index)
      × (r.orphan_stops ≡ t.orphan_stops)
unfolding close_row
on_stop-closes p t start_ms v route =
    let (a, found, still, begun) = routed_row t p.pid start_ms v route in
    rw (on_stop-eq p t start_ms v route) (
      (
        a,
        close_row p a,
        found,
        ground (
          arith,
          lookup-modify (p.pid, start_ms) (p.pid, start_ms) (close_row p) t.pending,
          eqb_ℤ_iff start_ms start_ms,
        ),
        still,
        refl,
        refl,
        begun,
      ),
      (λ k ne. ground (
        arith,
        lookup-modify (p.pid, start_ms) k (close_row p) t.pending,
        key_eq_iff (p.pid, start_ms) k,
      )),
      ground (arith, lookup-unroute p.pid p.pid start_ms t.pid_index, eqb_ℤ_iff start_ms start_ms),
      (λ q ne. ground (arith, lookup-unroute p.pid q start_ms t.pid_index)),
      refl,
    )

-- A stop event whose pid is not routed changes the two counters of stops, and nothing else.
pub on_stop-orphan :
    (p : ProcessStopProps) (t : LaunchTracker)
    → lookup p.pid t.pid_index ≡ none
    → on_stop p t
      ≡ record t { stops_seen = inc_u64 t.stops_seen; orphan_stops = inc_u64 t.orphan_stops }
unfolding on_stop
on_stop-orphan p t e = rw e

-- A window sample keeps the tracker well formed.
pub observe_window-IsValid :
    (pid : ℕ) (visible : Bool) (t : LaunchTracker)
    → IsValid t
    → IsValid (observe_window pid visible t)
unfolding observe_window sample_row
observe_window-IsValid pid visible t v = elim (Option-cases (lookup pid t.pid_index)) [
  | inl e ↦ rw (matched_of_IsValid t pid v ∙ e) v
  | inr (s, e) ↦ rw (matched_of_IsValid t pid v ∙ e) (record {
    rows = modify-Distinct _ _ t.pending v.rows;
    routes = v.routes;
    starts = λ q b.
        ground (arith, lookup-modify (pid, s) (q, b) (sample_row visible) t.pending, v.starts q b);
    open_routes = λ q b h.
        ground
          (arith, lookup-modify (pid, s) (q, b) (sample_row visible) t.pending, v.open_routes q b);
    ring = v.ring;
  })
]
