-- ===== src/Launches/Tracker/Lineage.antt =====
-- The walk up the parent chain is bounded and honest, and the ring of recent launches is bounded.
use pc_pulse.Prelude.{
  ltb, ltb→lt, ltb_false→le, Bool-cases, ◌⊎◌, ℕ, zero, suc, ◌≤◌, ◌<◌, ◌≡◌, ap, ◌⊎◌, inl, inr, refl,
  Bool, true, ◌&&◌, Option, none, some, List, [], ◌∷◌, ◌++◌, arith, ltb, ◌==◌, length, any,
  length-append, length-drop, All, Option-cases, Bool-cases,
}
use pc_pulse.Prelude.Int.{ℤ, leb_ℤ, ◌≤ℤ◌}
use pc_pulse.Launches.Model.{LineageEntry, RecentLaunch}
use pc_pulse.Launches.Tracker.{
  LaunchTracker, LiveLookup, recent_cap, newest_of, or_else, recent_lookup, unknown_entry,
  walk_lineage, ancestor, build_lineage, remember_launch,
}

abbrev pub last? {ℓ} : {A : Type ℓ} → List A → Option A
last? [] = none
last? (x ∷ []) = some x
last? (x ∷ y ∷ xs) = last? (y ∷ xs)

abbrev pub first_pid : List LineageEntry → Option ℕ
first_pid [] = none
first_pid (e ∷ es) = some e.pid

module _ (recent : List RecentLaunch) (at_ms : ℤ) (live : LiveLookup) where
  walk_lineage-length : (n : ℕ) (pid : ℕ) → length (walk_lineage n recent at_ms live pid) ≤ n
  unfolding walk_lineage
  walk_lineage-length zero pid = omega arith
  walk_lineage-length (suc n) pid = elim (Option-cases (ancestor recent at_ms live pid).1) [
    | inr (parent, e) ↦ rw (e, length) (omega (arith, walk_lineage-length n parent))
    | inl e ↦ rw (e, length) (omega arith)
  ]

  ancestor-pid : (pid : ℕ) → (ancestor recent at_ms live pid).0.pid ≡ pid
  unfolding ancestor
  ancestor-pid pid = ground arith

  -- Neither the process table nor the ring knows this pid.
  abbrev pub IsUnresolved : ℕ → Type 0
  IsUnresolved pid = (live pid ≡ none) × (recent_lookup recent pid at_ms ≡ none)

  ancestor_end :
      (pid : ℕ)
      → (ancestor recent at_ms live pid).1 ≡ none
      → IsUnresolved pid × ((ancestor recent at_ms live pid).0 ≡ unknown_entry pid)
  unfolding ancestor
  ancestor_end pid h = ground arith

  walk_lineage-end :
      (n : ℕ) (pid : ℕ)
      → length (walk_lineage (suc n) recent at_ms live pid) < suc n
      → (q : ℕ) × IsUnresolved q
        × (last? (walk_lineage (suc n) recent at_ms live pid) ≡ some (unknown_entry q))
  unfolding walk_lineage
  walk_lineage-end zero pid h = elim (Option-cases (ancestor recent at_ms live pid).1) [
    | inr (parent, e) ↦ let k = rw (e, length) at h in absurd (omega (arith, k))
    | inl e ↦ (pid, (ancestor_end pid e).0, rw (e, ap some (ancestor_end pid e).1))
  ]
  walk_lineage-end (suc n) pid h = elim (Option-cases (ancestor recent at_ms live pid).1) [
    | inr (parent, e) ↦
        rw (e, last?) (walk_lineage-end n parent (let k = rw (e, length) at h in omega (arith, k)))
    | inl e ↦ (pid, (ancestor_end pid e).0, rw e (ap some (ancestor_end pid e).1))
  ]

-- A launch's lineage names one to five ancestors and begins with the parent. Either it names five, or
-- its last entry is "unknown" and stands for a pid that neither the process table nor the ring of
-- recent launches resolves.
pub build_lineage_bounds :
    (t : LaunchTracker) (pid : ℕ) (at_ms : ℤ) (live : LiveLookup)
    → let lineage = build_lineage t pid at_ms live in
      (1 ≤ length lineage)
      × (length lineage ≤ 5)
      × (first_pid lineage ≡ some pid)
      × ((length lineage ≡ 5)
          ⊎ ((q : ℕ) × IsUnresolved t.recent at_ms live q
              × (last? lineage ≡ some (unknown_entry q))))
unfolding build_lineage walk_lineage
build_lineage_bounds t pid at_ms live =
    let most = walk_lineage-length t.recent at_ms live 5 pid in
    (
      omega arith,
      most,
      ap some (ancestor-pid t.recent at_ms live pid),
      elim (Bool-cases (ltb (length (build_lineage t pid at_ms live)) 5)) [
        | inl short ↦ inr (
            walk_lineage-end t.recent at_ms live 4 pid
              (ltb→lt (length (build_lineage t pid at_ms live)) 5 short))
        | inr full ↦
            let le = ltb_false→le (length (build_lineage t pid at_ms live)) 5 full in
            inl (omega arith)
      ],
    )

-- Whether `e` passes `keep`, and starts no later than `best`.
abbrev pub AtMost : (RecentLaunch → Bool) → RecentLaunch → RecentLaunch → Type 0
AtMost keep best e = keep e ≡ true → e.start_ms ≤ℤ best.start_ms

AtMost-mono :
    (keep : RecentLaunch → Bool) (a b : RecentLaunch) (es : List RecentLaunch)
    → a.start_ms ≤ℤ b.start_ms
    → All (AtMost keep a) es
    → All (AtMost keep b) es
AtMost-mono keep a b [] h all = tt
AtMost-mono keep a b (e ∷ es) h all =
    ((λ k. let p = all.0 k in omega arith), AtMost-mono keep a b es h all.1)

module _ (keep : RecentLaunch → Bool) where
  -- The best of a run of `newest_of` is kept and at least as new as all that pass the filter.
  newest_of-from :
      (es : List RecentLaunch) (best : RecentLaunch)
      → keep best ≡ true
      → (r : RecentLaunch) × (newest_of keep es (some best) ≡ some r)
        × (keep r ≡ true)
        × (best.start_ms ≤ℤ r.start_ms)
        × All (AtMost keep r) es
  unfolding newest_of
  newest_of-from [] best k = (best, refl, k, omega arith, tt)
  newest_of-from (e ∷ es) best k = elim (Bool-cases (keep e)) [
    | inl ke ↦ elim (Bool-cases (leb_ℤ best.start_ms e.start_ms)) [
      | inl le ↦
          let (r, eq, kr, lr, all) = newest_of-from es e ke in
          (r, ground (arith, eq), kr, ground arith, ((λ _. lr), all))
      | inr gt ↦
          let (r, eq, kr, lr, all) = newest_of-from es best k in
          (r, ground (arith, eq), kr, lr, (((λ _. ground arith), all)))
    ]
    | inr ne ↦
        let (r, eq, kr, lr, all) = newest_of-from es best k in
        (r, rw ne eq, kr, lr, ((λ ke. cc), all))
  ]

  newest_of-max :
      (es : List RecentLaunch)
      → any keep es ≡ true
      → (r : RecentLaunch) × (newest_of keep es none ≡ some r)
        × (keep r ≡ true)
        × All (AtMost keep r) es
  unfolding newest_of
  newest_of-max [] h = cc
  newest_of-max (e ∷ es) h = elim (Bool-cases (keep e)) [
    | inl ke ↦
        let (r, eq, kr, lr, all) = newest_of-from es e ke in (r, rw ke eq, kr, ((λ _. lr), all))
    | inr ne ↦
        let (r, eq, kr, all) = newest_of-max es (ground arith) in
        (r, rw ne eq, kr, ((λ ke. cc), all))
  ]

abbrev pub started_by : ℕ → ℤ → RecentLaunch → Bool
started_by pid at_ms e = e.pid == pid && leb_ℤ e.start_ms at_ms

-- If the ring has a launch of the pid that started by `at_ms`, the lookup returns one: the
-- newest of those, and never a later launch that reused the pid.
pub recent_lookup-reuse_proof :
    (recent : List RecentLaunch) (pid : ℕ) (at_ms : ℤ)
    → any (started_by pid at_ms) recent ≡ true
    → (r : RecentLaunch) × (recent_lookup recent pid at_ms ≡ some r)
      × (r.pid ≡ pid)
      × (r.start_ms ≤ℤ at_ms)
      × All (AtMost (started_by pid at_ms) r) recent
unfolding recent_lookup
recent_lookup-reuse_proof recent pid at_ms h =
    let (r, eq, kr, all) = newest_of-max (started_by pid at_ms) recent h in
    (r, rw (eq, or_else), ground arith, ground arith, all)

-- The ring of recent launches never passes its cap.
pub remember_launch-cap :
    (e : RecentLaunch) (recent : List RecentLaunch)
    → length recent ≤ recent_cap
    → length (remember_launch e recent) ≤ recent_cap
unfolding remember_launch
remember_launch-cap e recent h =
    ground (arith, length-append recent (e ∷ []), length-drop 1 (recent ++ e ∷ []))
