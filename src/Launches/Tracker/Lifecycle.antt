-- ===== src/Launches/Tracker/Lifecycle.antt =====
-- The whole life of one launch: start, window samples, stop, drain.
use pc_pulse.Prelude.{
  ℕ, ◌≡◌, ◌≢◌, refl, ◌∙◌, Bool, true, false, ◌||◌, none, some, List, [], ◌∷◌, arith, if◌then◌else◌,
  any,
}
use pc_pulse.Prelude.Int.{ℤ, inc_u64}
use pc_pulse.Text.{Unicode}
use pc_pulse.Table.{Key, key_Eq, key_eq_iff, nat_eq, lookup, lookup-insert, lookup-modify}
use pc_pulse.Launches.Paths.{QueryDosDevice}
use pc_pulse.Launches.Model.{
  WindowState, windowed, never_windowed, unobserved, LaunchEvent, ProcessStartProps,
  ProcessStopProps, PendingLaunch, to_event,
}
use pc_pulse.Launches.Tracker.{
  LaunchTracker, LiveLookup, on_start, track_start, start_row, resolve_path,
}
use pc_pulse.Launches.Tracker.Flow.{
  drain_flushable, on_stop, observe_window, close_row, sample_row, fate,
}
use pc_pulse.Launches.Tracker.Invariant.{
  IsValid, on_start-IsValid, resolve_path-keeps, matched_of_IsValid,
}
use pc_pulse.Launches.Tracker.Stops.{on_stop-IsValid, on_stop-eq, observe_window-IsValid}
use pc_pulse.Launches.Tracker.Drain.{drain_flushable_exact, events_at}

module _ (u : Unicode) (query : QueryDosDevice) (p : ProcessStartProps) (live : LiveLookup)
    (t : LaunchTracker) where
  abbrev key : Key
  key = (p.pid, p.create_time_ms)

  -- A start that is not a duplicate adds one open, unsampled row and routes its pid to it. Every
  -- other row, an older launch of the same pid among them, and every other route stay as they are.
  pub on_start-fresh :
      lookup (p.pid, p.create_time_ms) t.pending ≡ none
      → let r = on_start u query p live t in
        ((a : PendingLaunch) × (lookup (p.pid, p.create_time_ms) r.pending ≡ some a)
          × (a.stop_time_ms ≡ none)
          × (a.start_time_ms ≡ p.create_time_ms)
          × (a.sampled ≡ false)
          × (a.visible ≡ false)
          × (a.emitted_running ≡ false))
        × ((k : Key) → k ≢ (p.pid, p.create_time_ms) → lookup k r.pending ≡ lookup k t.pending)
        × (lookup p.pid r.pid_index ≡ some p.create_time_ms)
        × ((q : ℕ) → q ≢ p.pid → lookup q r.pid_index ≡ lookup q t.pid_index)
  unfolding on_start track_start start_row
  on_start-fresh h =
      let counted = record t { starts_seen = inc_u64 t.starts_seen } in
      let kept = resolve_path-keeps u query p counted in
      let r = resolve_path u query p counted in
      let row = start_row u p live r.0 r.1 in
      rw (h, kept.0, kept.1)
        (
          (
            row,
            ground (arith, lookup-insert key key row t.pending, key_eq_iff key key),
            refl,
            refl,
            refl,
            refl,
            refl,
          ),
          (λ k ne. ground (arith, lookup-insert key k row t.pending, key_eq_iff key k)),
          ground (arith, lookup-insert p.pid p.pid p.create_time_ms t.pid_index),
          (λ q ne. ground (arith, lookup-insert p.pid q p.create_time_ms t.pid_index)),
        )

  -- A start of a key that is pending already changes the count of starts, and nothing else.
  pub on_start-duplicate :
      (a : PendingLaunch)
      → lookup (p.pid, p.create_time_ms) t.pending ≡ some a
      → on_start u query p live t ≡ record t { starts_seen = inc_u64 t.starts_seen }
  unfolding on_start
  on_start-duplicate a h = rw h

-- The window samples of one pid, in order.
abbrev pub samples : ℕ → List Bool → LaunchTracker → LaunchTracker
samples pid [] t = t
samples pid (b ∷ bs) t = samples pid bs (observe_window pid b t)

-- What the samples of a launch say of its windows.
abbrev pub verdict : List Bool → WindowState
verdict [] = unobserved
verdict (b ∷ bs) = if any (λ s. s) (b ∷ bs) then windowed else never_windowed

-- A row that is routed, with its samples so far.
record IsSampled (t : LaunchTracker) (pid : ℕ) (start_ms : ℤ) (sampled visible : Bool)
    : Type 0 where
  valid : IsValid t
  route : lookup pid t.pid_index ≡ some start_ms
  row : PendingLaunch
  found : lookup (pid, start_ms) t.pending ≡ some row
  was_sampled : row.sampled ≡ sampled
  was_visible : row.visible ≡ visible
  begun : row.start_time_ms ≡ start_ms

observe_window-IsSampled :
    (t : LaunchTracker) (pid : ℕ) (start_ms : ℤ) (sampled visible b : Bool)
    → IsSampled t pid start_ms sampled visible
    → IsSampled (observe_window pid b t) pid start_ms true (visible || b)
unfolding observe_window sample_row
observe_window-IsSampled t pid s sampled visible b i = record {
  valid = unfold observe_window sample_row in observe_window-IsValid pid b t i.valid;
  route = rw (matched_of_IsValid t pid i.valid ∙ i.route) i.route;
  row = sample_row b i.row;
  found = rw (matched_of_IsValid t pid i.valid ∙ i.route) (
      ground (
        arith,
        lookup-modify (pid, s) (pid, s) (sample_row b) t.pending,
        key_eq_iff (pid, s) (pid, s),
        i.found,
      ));
  was_sampled = refl;
  was_visible = rw i.was_visible;
  begun = i.begun;
}

or_end : (b : Bool) → (b || false) ≡ b
or_end b = ground arith

or_any : (b c : Bool) → (b || (true || c)) ≡ (true || c)
or_any b c = ground arith

or_assoc : (a b c : Bool) → (a || (b || c)) ≡ ((a || b) || c)
or_assoc a b c = ground arith

samples-IsSampled :
    (bs : List Bool) (t : LaunchTracker) (pid : ℕ) (start_ms : ℤ) (sampled visible : Bool)
    → IsSampled t pid start_ms sampled visible
    → IsSampled
        (samples pid bs t)
        pid
        start_ms
        (sampled || any (λ _. true) bs)
        (visible || any (λ b. b) bs)
samples-IsSampled [] t pid s sampled visible i = rw (or_end sampled, or_end visible) i
samples-IsSampled (b ∷ bs) t pid s sampled visible i =
    let next = observe_window-IsSampled t pid s sampled visible b i in
    rw (or_any sampled (any (λ _. true) bs), or_assoc visible b (any (λ b. b) bs))
      (samples-IsSampled bs (observe_window pid b t) pid s true (visible || b) next)

abbrev EmittedOnce : LaunchTracker → ProcessStopProps → ℤ → ℕ → ℤ → WindowState → Type 0
EmittedOnce t q now_ms pid start_ms state =
    let r = drain_flushable now_ms (on_stop q t) in
    (lookup (pid, start_ms) r.0.pending ≡ none)
    × (e : LaunchEvent) × (events_at (pid, start_ms) r.1 ≡ e ∷ [])
    × (e.pid ≡ pid)
    × (e.start_time_ms ≡ start_ms)
    × (e.stop_time_ms ≡ some q.stop_time_ms)
    × (e.exit_code ≡ some q.exit_code)
    × (e.window_state ≡ state)

abbrev state_of : Bool → Bool → WindowState
state_of sampled visible =
    if visible then windowed else if sampled then never_windowed else unobserved

stop_drain_emits :
    (q : ProcessStopProps) (now_ms : ℤ) (t : LaunchTracker) (start_ms : ℤ) (sampled visible : Bool)
    → IsSampled t q.pid start_ms sampled visible
    → EmittedOnce t q now_ms q.pid start_ms (state_of sampled visible)
unfolding fate close_row to_event
stop_drain_emits q now_ms t s sampled visible i =
    let there : lookup (q.pid, s) (on_stop q t).pending ≡ some (close_row q i.row) =
      rw (on_stop-eq q t s i.valid i.route) (
        ground (
          arith,
          lookup-modify (q.pid, s) (q.pid, s) (close_row q) t.pending,
          key_eq_iff (q.pid, s) (q.pid, s),
          i.found,
        )) in
    let exact = drain_flushable_exact now_ms (on_stop q t) q.pid s (on_stop-IsValid q t i.valid) in
    (
      exact.0 ∙ rw there refl,
      to_event (close_row q i.row) q.pid,
      exact.1 ∙ rw there refl,
      refl,
      i.begun,
      refl,
      refl,
      rw (i.was_visible, i.was_sampled) refl,
    )

stop_drain_emits_at :
    (q : ProcessStopProps) (now_ms : ℤ) (t : LaunchTracker) (start_ms : ℤ) (sampled visible : Bool)
    (pid : ℕ)
    → q.pid ≡ pid
    → IsSampled t pid start_ms sampled visible
    → EmittedOnce t q now_ms pid start_ms (state_of sampled visible)
stop_drain_emits_at q now_ms t s sampled visible pid same =
    rw (← same) (stop_drain_emits q now_ms t s sampled visible)

any_sampled : (bs : List Bool) → state_of (any (λ _. true) bs) (any (λ b. b) bs) ≡ verdict bs
any_sampled [] = refl
any_sampled (b ∷ bs) = refl

-- In a well-formed tracker a launch that starts on a key that is not pending, is sampled any number of times, and stops before the next drain is
-- emitted by that drain exactly once, whatever the clock says: with its own start, the stop
-- event's time and exit code, and the window state that its samples show. It is pending no more.
pub lifecycle_emits_once :
    (u : Unicode) (query : QueryDosDevice) (p : ProcessStartProps) (live : LiveLookup)
    (t : LaunchTracker) (bs : List Bool) (q : ProcessStopProps) (now_ms : ℤ)
    → IsValid t
    → lookup (p.pid, p.create_time_ms) t.pending ≡ none
    → q.pid ≡ p.pid
    → let r = drain_flushable now_ms (on_stop q (samples p.pid bs (on_start u query p live t))) in
      (lookup (p.pid, p.create_time_ms) r.0.pending ≡ none)
      × (e : LaunchEvent) × (events_at (p.pid, p.create_time_ms) r.1 ≡ e ∷ [])
      × (e.pid ≡ p.pid)
      × (e.start_time_ms ≡ p.create_time_ms)
      × (e.stop_time_ms ≡ some q.stop_time_ms)
      × (e.exit_code ≡ some q.exit_code)
      × (e.window_state ≡ verdict bs)
lifecycle_emits_once u query p live t bs q now_ms v h same =
    let f = on_start-fresh u query p live t h in
    let begun : IsSampled (on_start u query p live t) p.pid p.create_time_ms false false = record {
      valid = on_start-IsValid u query p live t v;
      route = f.2;
      row = f.0.0;
      found = f.0.1;
      was_sampled = f.0.4;
      was_visible = f.0.5;
      begun = f.0.3;
    } in
    let i =
      samples-IsSampled bs (on_start u query p live t) p.pid p.create_time_ms false false begun in
    rw (← any_sampled bs) (
      stop_drain_emits_at q now_ms (samples p.pid bs (on_start u query p live t)) p.create_time_ms
        (any (λ _. true) bs) (any (λ b. b) bs) p.pid same i)
