-- ===== src/Launches/Tracker/Runs.antt =====
-- Any sequence of calls on a new tracker, as the service's loop makes them (runtime.rs).
use pc_pulse.Prelude.{
  ℕ, suc, ◌+◌, ◌^◌, ◌≤◌, ◌<◌, ◌≡◌, inl, inr, refl, Bool, Option, none, some, List, [], ◌∷◌, arith,
  length, Bool-cases,
}
use pc_pulse.Prelude.Int.{ℤ, inc_u64}
use pc_pulse.Text.{Unicode, is_some}
use pc_pulse.Table.{Key, key_Eq, nat_eq, lookup, length-insert, length-modify}
use pc_pulse.Launches.Paths.{QueryDosDevice}
use pc_pulse.Launches.Model.{ProcessStartProps, ProcessStopProps}
use pc_pulse.Launches.Tracker.{
  LaunchTracker, LiveLookup, new, on_start, track_start, start_row, resolve_path,
}
use pc_pulse.Launches.Tracker.Flow.{
  drain_flushable, on_stop, observe_window, matched, close_matched, close_row, sample_matched,
  sample_row,
}
use pc_pulse.Launches.Tracker.Invariant.{IsValid, new-IsValid, on_start-IsValid, resolve_path-keeps}
use pc_pulse.Launches.Tracker.Stops.{on_stop-IsValid, observe_window-IsValid}
use pc_pulse.Launches.Tracker.Drain.{drain-IsValid}
use pc_pulse.Launches.Tracker.Counters.{accounted, drain-accounted}

-- A start comes with the process table and the drives as they are at that moment.
pub data Call : Type 0 where
  start : ProcessStartProps → LiveLookup → QueryDosDevice → Call
  stop : ProcessStopProps → Call
  sample : ℕ → Bool → Call
  drain : ℤ → Call

unfoldable pub step : Unicode → LaunchTracker → Call → LaunchTracker
step u t (start p live query) = on_start u query p live t
step u t (stop p) = on_stop p t
step u t (sample pid visible) = observe_window pid visible t
step u t (drain now_ms) = (drain_flushable now_ms t).0

unfoldable pub run : Unicode → LaunchTracker → List Call → LaunchTracker
run u t [] = t
run u t (c ∷ calls) = run u (step u t c) calls

step-IsValid : (u : Unicode) (t : LaunchTracker) (c : Call) → IsValid t → IsValid (step u t c)
unfolding step
step-IsValid u t (start p live query) v = on_start-IsValid u query p live t v
step-IsValid u t (stop p) v = on_stop-IsValid p t v
step-IsValid u t (sample pid visible) v = observe_window-IsValid pid visible t v
step-IsValid u t (drain now_ms) v = drain-IsValid now_ms t v

run_from-IsValid :
    (u : Unicode) (t : LaunchTracker) (calls : List Call) → IsValid t → IsValid (run u t calls)
unfolding run
run_from-IsValid u t [] v = v
run_from-IsValid u t (c ∷ calls) v = run_from-IsValid u (step u t c) calls (step-IsValid u t c v)

-- After any calls at all, the tracker is well formed: no key or route stands twice, every row is
-- filed under its own start time, every routed pid has an open pending row, and the ring of recent
-- launches is within its cap.
pub run-IsValid :
    (u : Unicode) (query : QueryDosDevice) (calls : List Call) → IsValid (run u (new u query) calls)
run-IsValid u query calls = run_from-IsValid u (new u query) calls (new-IsValid u query)

abbrev pub starts : List Call → ℕ
starts [] = 0
starts (start p live query ∷ calls) = suc (starts calls)
starts (stop p ∷ calls) = starts calls
starts (sample pid visible ∷ calls) = starts calls
starts (drain now_ms ∷ calls) = starts calls

starts-cons : (c : Call) (calls : List Call) → starts (c ∷ calls) ≡ starts (c ∷ []) + starts calls
starts-cons (start p live query) calls = omega arith
starts-cons (stop p) calls = omega arith
starts-cons (sample pid visible) calls = omega arith
starts-cons (drain now_ms) calls = omega arith

on_start-accounted :
    (u : Unicode) (query : QueryDosDevice) (p : ProcessStartProps) (live : LiveLookup)
    (t : LaunchTracker)
    → t.starts_seen + 1 < 2 ^ 64
    → (accounted (on_start u query p live t) ≤ accounted t + 1)
      × ((on_start u query p live t).starts_seen ≡ t.starts_seen + 1)
unfolding on_start track_start
on_start-accounted u query p live t h =
    let counted = record t { starts_seen = inc_u64 t.starts_seen } in
    let k = resolve_path-keeps u query p counted in
    let r = resolve_path u query p counted in
    let key : Key = (p.pid, p.create_time_ms) in
    let row = start_row u p live r.0 r.1 in
    elim (Bool-cases (is_some (lookup key t.pending))) [
      | inl old ↦ rw old (omega arith, omega arith)
      | inr fresh ↦
          rw fresh
            (ground (arith, k.0, k.3, k.5, length-insert key row t.pending), ground (arith, k.4))
    ]

close_matched-accounted :
    (p : ProcessStopProps) (t : LaunchTracker) (m : Option ℤ)
    → (accounted (close_matched p t m) ≡ accounted t)
      × ((close_matched p t m).starts_seen ≡ t.starts_seen)
unfolding close_matched
close_matched-accounted p t none = (refl, refl)
close_matched-accounted p t (some s) =
    (omega (arith, length-modify (p.pid, s) (close_row p) t.pending), refl)

sample_matched-accounted :
    (pid : ℕ) (visible : Bool) (t : LaunchTracker) (m : Option ℤ)
    → (accounted (sample_matched pid visible t m) ≡ accounted t)
      × ((sample_matched pid visible t m).starts_seen ≡ t.starts_seen)
sample_matched-accounted pid visible t none = (refl, refl)
sample_matched-accounted pid visible t (some s) =
    (omega (arith, length-modify (pid, s) (sample_row visible) t.pending), refl)

on_stop-accounted :
    (p : ProcessStopProps) (t : LaunchTracker)
    → (accounted (on_stop p t) ≡ accounted t) × ((on_stop p t).starts_seen ≡ t.starts_seen)
unfolding on_stop
on_stop-accounted p t =
    let counted = record t { stops_seen = inc_u64 t.stops_seen } in
    close_matched-accounted p counted (matched counted p.pid)

observe_window-accounted :
    (pid : ℕ) (visible : Bool) (t : LaunchTracker)
    → (accounted (observe_window pid visible t) ≡ accounted t)
      × ((observe_window pid visible t).starts_seen ≡ t.starts_seen)
unfolding observe_window
observe_window-accounted pid visible t = sample_matched-accounted pid visible t (matched t pid)

-- The tracker saw every start so far, and accounts for no more launches than it saw.
abbrev IsCounted : ℕ → LaunchTracker → Type 0
IsCounted n t = (t.starts_seen ≡ n) × (accounted t ≤ t.starts_seen)

step-IsCounted :
    (u : Unicode) (t : LaunchTracker) (c : Call) (n : ℕ)
    → IsValid t
    → n + starts (c ∷ []) < 2 ^ 64
    → IsCounted n t
    → IsCounted (n + starts (c ∷ [])) (step u t c)
unfolding step
step-IsCounted u t (start p live query) n v h k =
    let r = on_start-accounted u query p live t (omega arith) in (omega arith, omega arith)
step-IsCounted u t (stop p) n v h k = let r = on_stop-accounted p t in (omega arith, omega arith)
step-IsCounted u t (sample pid visible) n v h k =
    let r = observe_window-accounted pid visible t in (omega arith, omega arith)
step-IsCounted u t (drain now_ms) n v h k =
    let r = drain-accounted now_ms t v (omega arith) in (omega arith, omega arith)

run_from-IsCounted :
    (u : Unicode) (t : LaunchTracker) (calls : List Call) (n : ℕ)
    → IsValid t
    → n + starts calls < 2 ^ 64
    → IsCounted n t
    → IsCounted (n + starts calls) (run u t calls)
unfolding run
run_from-IsCounted u t [] n v h k = (omega arith, k.1)
run_from-IsCounted u t (c ∷ calls) n v h k =
    let split = starts-cons c calls in
    let first = step-IsCounted u t c n v (omega arith) k in
    let rest =
      run_from-IsCounted u (step u t c) calls (n + starts (c ∷ [])) (step-IsValid u t c v)
        (omega arith) first in
    (omega arith, rest.1)

-- After any calls with fewer than 2 ^ 64 starts, `starts_seen` is the number of starts, and the
-- pending, the persisted and the evicted launches together are at most that many: no launch is
-- invented or counted twice.
pub run-accounted :
    (u : Unicode) (query : QueryDosDevice) (calls : List Call)
    → starts calls < 2 ^ 64
    → let t = run u (new u query) calls in
      (t.starts_seen ≡ starts calls)
      × (length t.pending + t.persisted + t.stale_pending_evicted ≤ starts calls)
run-accounted u query calls h =
    let r =
      run_from-IsCounted u (new u query) calls 0 (new-IsValid u query) (omega arith)
        (unfold new in (refl, omega arith)) in
    (omega arith, omega arith)
