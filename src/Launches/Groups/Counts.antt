-- ===== src/Launches/Groups/Counts.antt =====
-- The figures of one group: the states partition the occurrences, and the first and last start times
-- bound them.
use pc_pulse.Prelude.{ℕ, ◌+◌, ◌≡◌, ap, ◌∙◌, List, [], ◌∷◌, map, arith, if◌then◌else◌, length, All}
use pc_pulse.Prelude.Int.{ℤ, pos, negsuc, ◌≤ℤ◌, i64_max}
use pc_pulse.Text.{Unicode}
use pc_pulse.Launches.Model.{
  WindowState, windowed, never_windowed, unobserved, running, LaunchEvent,
}
use pc_pulse.Launches.Groups.{is_state, count_state, build_group, fold_left, min_ℤ, max_ℤ}

one_state :
    (s : WindowState) (a b c d : ℕ)
    → (if is_state windowed s then a + 1 else a)
        + (if is_state never_windowed s then b + 1 else b)
        + (if is_state unobserved s then c + 1 else c)
        + (if is_state running s then d + 1 else d)
      ≡ a + b + c + d + 1
one_state windowed a b c d = omega arith
one_state never_windowed a b c d = omega arith
one_state unobserved a b c d = omega arith
one_state running a b c d = omega arith

states-count :
    (events : List LaunchEvent)
    → count_state windowed events
        + count_state never_windowed events
        + count_state unobserved events
        + count_state running events
      ≡ length events
unfolding count_state
states-count [] = omega arith
states-count (ev ∷ events) =
    one_state ev.window_state (count_state windowed events) (count_state never_windowed events)
      (count_state unobserved events) (count_state running events)
    ∙ ap (λ n. n + 1) (states-count events)
    ∙ omega arith

min_ℤ-lower : (a b : ℤ) → min_ℤ a b ≤ℤ a × min_ℤ a b ≤ℤ b
min_ℤ-lower a b = ground arith

max_ℤ-upper : (a b : ℤ) → a ≤ℤ max_ℤ a b × b ≤ℤ max_ℤ a b
max_ℤ-upper a b = ground arith

min-fold :
    (acc : ℤ) (xs : List ℤ)
    → fold_left min_ℤ acc xs ≤ℤ acc × All (λ x. fold_left min_ℤ acc xs ≤ℤ x) xs
unfolding fold_left
min-fold acc [] = (omega arith, tt)
min-fold acc (x ∷ xs) =
    let (low, rest) = min-fold (min_ℤ acc x) xs in
    let (l, r) = min_ℤ-lower acc x in (omega arith, (omega arith, rest))

max-fold :
    (acc : ℤ) (xs : List ℤ)
    → acc ≤ℤ fold_left max_ℤ acc xs × All (λ x. x ≤ℤ fold_left max_ℤ acc xs) xs
unfolding fold_left
max-fold acc [] = (omega arith, tt)
max-fold acc (x ∷ xs) =
    let (high, rest) = max-fold (max_ℤ acc x) xs in
    let (l, r) = max_ℤ-upper acc x in (omega arith, (omega arith, rest))

All-map :
    (P : ℤ → Type 0) (events : List LaunchEvent)
    → All P (map (λ (ev : LaunchEvent). ev.start_time_ms) events)
    → All (λ (ev : LaunchEvent). P ev.start_time_ms) events
All-map P [] h = tt
All-map P (ev ∷ events) h = (h.0, All-map P events h.1)

abbrev pub IsBetween : ℤ → ℤ → LaunchEvent → Type 0
IsBetween first last ev = first ≤ℤ ev.start_time_ms × ev.start_time_ms ≤ℤ last

All-both :
    (first last : ℤ) (events : List LaunchEvent)
    → All (λ (ev : LaunchEvent). first ≤ℤ ev.start_time_ms) events
    → All (λ (ev : LaunchEvent). ev.start_time_ms ≤ℤ last) events
    → All (IsBetween first last) events
All-both first last [] h k = tt
All-both first last (ev ∷ events) h k = ((h.0, k.0), All-both first last events h.1 k.1)

-- In the group that `build_group` makes of some occurrences, the four state counts add up to the
-- number of occurrences, and every occurrence starts between `first_ms` and `last_ms`.
pub build_group-partition :
    (u : Unicode) (ev : LaunchEvent) (events : List LaunchEvent)
    → let g = build_group u ev events in
      (g.windowed + g.never_windowed + g.unobserved + g.running ≡ g.count)
      × All (IsBetween g.first_ms g.last_ms) (ev ∷ events)
unfolding build_group
build_group-partition u ev events =
    let starts : List ℤ = map (λ (e : LaunchEvent). e.start_time_ms) (ev ∷ events) in
    let low = fold_left min_ℤ (pos i64_max) starts in
    let high = fold_left max_ℤ (negsuc i64_max) starts in
    (
      states-count (ev ∷ events),
      All-both low high (ev ∷ events)
          (All-map (λ x. low ≤ℤ x) (ev ∷ events) (min-fold (pos i64_max) starts).1)
          (All-map (λ x. x ≤ℤ high) (ev ∷ events) (max-fold (negsuc i64_max) starts).1),
    )
