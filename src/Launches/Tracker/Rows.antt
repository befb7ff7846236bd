-- ===== src/Launches/Tracker/Rows.antt =====
-- What the loops of `drain_flushable` leave of each row, and what they emit for it.
use pc_pulse.Prelude.{
  ℕ, ◌≡◌, refl, Bool, true, false, Option, none, some, List, [], ◌∷◌, arith, if◌then◌else◌, any,
}
use pc_pulse.Prelude.Int.{ℤ, eqb_ℤ_iff, inc_u64}
use pc_pulse.Table.{
  Key, key_Eq, key_eq, key_eq_iff, nat_eq, Table, lookup, remove, map_some, Distinct, lookup-remove,
  remove-Distinct,
}
use pc_pulse.Launches.Tracker.Invariant.{lookup-unroute, unroute-Distinct}
use pc_pulse.Launches.Model.{PendingLaunch}
use pc_pulse.Launches.Tracker.{LaunchTracker}
use pc_pulse.Launches.Tracker.Flow.{
  finished, stale, flush_running, fate, mark_running, scan, scan_row, drop_finished, drop_stale,
  unroute,
}

abbrev pub has : Key → List Key → Bool
has k keys = any (λ j. key_eq j k) keys

-- What the first loop makes of a row that stays in the table.
abbrev pub advance : ℤ → PendingLaunch → PendingLaunch
advance now_ms launch = elim (fate now_ms launch) [
  | flush_running ↦ mark_running launch
  | _ ↦ launch
]

abbrev pub is_finished : ℤ → Option PendingLaunch → Bool
is_finished now_ms none = false
is_finished now_ms (some launch) = elim (fate now_ms launch) [ finished ↦ true | _ ↦ false ]

abbrev pub is_stale : ℤ → Option PendingLaunch → Bool
is_stale now_ms none = false
is_stale now_ms (some launch) = elim (fate now_ms launch) [ stale ↦ true | _ ↦ false ]

module _ (now_ms : ℤ) where
  pub scan-rows :
      (k : Key) (pending : Table Key PendingLaunch)
      → lookup k (scan now_ms pending).rows ≡ map_some (advance now_ms) (lookup k pending)
  unfolding scan scan_row lookup
  scan-rows k [] = refl
  scan-rows k ((j, launch) ∷ pending) = ground (arith, scan-rows k pending)

  pub scan-finished :
      (k : Key) (pending : Table Key PendingLaunch)
      → Distinct pending
      → has k (scan now_ms pending).finished_keys ≡ is_finished now_ms (lookup k pending)
  unfolding scan scan_row lookup
  scan-finished k [] d = refl
  scan-finished k ((j, launch) ∷ pending) d =
      ground (arith, scan-finished k pending d.1, key_eq_iff j k)

  pub scan-stale :
      (k : Key) (pending : Table Key PendingLaunch)
      → Distinct pending
      → has k (scan now_ms pending).stale_keys ≡ is_stale now_ms (lookup k pending)
  unfolding scan scan_row lookup
  scan-stale k [] d = refl
  scan-stale k ((j, launch) ∷ pending) d = ground (arith, scan-stale k pending d.1, key_eq_iff j k)

  pub scan-Distinct :
      (pending : Table Key PendingLaunch) → Distinct pending → Distinct (scan now_ms pending).rows
  unfolding scan scan_row
  scan-Distinct [] d = tt
  scan-Distinct ((j, launch) ∷ pending) d =
      ground (arith, scan-rows j pending, scan-Distinct pending d.1)

pub lookup-drop_finished :
    (k : Key) (keys : List Key) (t : LaunchTracker)
    → lookup k (drop_finished keys t).pending ≡ (if has k keys then none else lookup k t.pending)
unfolding drop_finished
lookup-drop_finished k [] t = refl
lookup-drop_finished k (j ∷ keys) t = ground (
  arith,
  lookup-remove j k t.pending,
  lookup-drop_finished k keys
      (record t { pending = remove j t.pending; persisted = inc_u64 t.persisted }),
)

pub drop_finished-keeps :
    (keys : List Key) (t : LaunchTracker)
    → ((drop_finished keys t).pid_index ≡ t.pid_index) × ((drop_finished keys t).recent ≡ t.recent)
unfolding drop_finished
drop_finished-keeps [] t = (refl, refl)
drop_finished-keeps (j ∷ keys) t =
    drop_finished-keeps keys
      (record t { pending = remove j t.pending; persisted = inc_u64 t.persisted })

pub drop_finished-Distinct :
    (keys : List Key) (t : LaunchTracker)
    → Distinct t.pending
    → Distinct (drop_finished keys t).pending
unfolding drop_finished
drop_finished-Distinct [] t d = d
drop_finished-Distinct (j ∷ keys) t d =
    drop_finished-Distinct keys
      (record t { pending = remove j t.pending; persisted = inc_u64 t.persisted })
      (remove-Distinct j t.pending d)

-- A route that the stale rows' loop removes is one to a stale key.
abbrev pub unless_stale : ℕ → List Key → Option ℤ → Option ℤ
unless_stale pid keys none = none
unless_stale pid keys (some start_ms) = if has (pid, start_ms) keys then none else some start_ms

abbrev pub without_stale : Key → LaunchTracker → LaunchTracker
without_stale key t = record t {
  pending = remove key t.pending;
  pid_index = unroute key.0 key.1 t.pid_index;
  stale_pending_evicted = inc_u64 t.stale_pending_evicted;
}

pub lookup-drop_stale :
    (k : Key) (keys : List Key) (t : LaunchTracker)
    → lookup k (drop_stale keys t).pending ≡ (if has k keys then none else lookup k t.pending)
unfolding drop_stale
lookup-drop_stale k [] t = refl
lookup-drop_stale k ((pid, s) ∷ keys) t =
    ground (
      arith,
      lookup-remove (pid, s) k t.pending,
      lookup-drop_stale k keys (without_stale (pid, s) t),
    )

pub route-drop_stale :
    (q : ℕ) (keys : List Key) (t : LaunchTracker)
    → lookup q (drop_stale keys t).pid_index ≡ unless_stale q keys (lookup q t.pid_index)
unfolding drop_stale
route-drop_stale q [] t = ground arith
route-drop_stale q ((pid, s) ∷ keys) t = ground (
  arith,
  lookup-unroute pid q s t.pid_index,
  route-drop_stale q keys (without_stale (pid, s) t),
  eqb_ℤ_iff s s,
)

pub drop_stale-Distinct :
    (keys : List Key) (t : LaunchTracker)
    → Distinct t.pending
    → Distinct t.pid_index
    → Distinct (drop_stale keys t).pending × Distinct (drop_stale keys t).pid_index
unfolding drop_stale
drop_stale-Distinct [] t d e = (d, e)
drop_stale-Distinct ((pid, s) ∷ keys) t d e =
    drop_stale-Distinct keys (without_stale (pid, s) t) (remove-Distinct (pid, s) t.pending d)
      (unroute-Distinct pid s t.pid_index e)

pub drop_stale-recent :
    (keys : List Key) (t : LaunchTracker) → (drop_stale keys t).recent ≡ t.recent
unfolding drop_stale
drop_stale-recent [] t = refl
drop_stale-recent ((pid, s) ∷ keys) t = drop_stale-recent keys (without_stale (pid, s) t)
