-- ===== src/Launches/Tracker/Counters.antt =====
-- The tracker's counters: a start is pending, persisted or evicted, once, or was a duplicate.
use pc_pulse.Prelude.{
  ℕ, ◌+◌, ◌^◌, ◌<◌, ◌≡◌, inl, inr, refl, ◌∙◌, true, false, List, [], ◌∷◌, arith, length,
  Option-cases,
}
use pc_pulse.Prelude.Int.{ℤ, inc_u64}
use pc_pulse.Text.{is_some}
use pc_pulse.Table.{
  Key, key_Eq, key_eq_iff, nat_eq, Table, lookup, remove, Distinct, lookup-remove, remove-Distinct,
  length-remove,
}
use pc_pulse.Launches.Model.{PendingLaunch}
use pc_pulse.Launches.Tracker.{LaunchTracker}
use pc_pulse.Launches.Tracker.Flow.{scan, scan_row, drop_finished, drop_stale, drain_flushable}
use pc_pulse.Launches.Tracker.Invariant.{IsValid}
use pc_pulse.Launches.Tracker.Rows.{
  has, without_stale, scan-rows, scan-finished, scan-stale, scan-Distinct, lookup-drop_finished,
  drop_finished-Distinct,
}

-- Keys that stand once each, all of rows of the table.
abbrev AllRows : Table Key PendingLaunch → List Key → Type 0
AllRows pending [] = Unit
AllRows pending (k ∷ keys) =
    (is_some (lookup k pending) ≡ true) × (has k keys ≡ false) × AllRows pending keys

AllRows-remove :
    (k : Key) (pending : Table Key PendingLaunch) (keys : List Key)
    → has k keys ≡ false
    → AllRows pending keys
    → AllRows (remove k pending) keys
AllRows-remove k pending [] n a = tt
AllRows-remove k pending (j ∷ keys) n a = ground (
  arith,
  lookup-remove k j pending,
  key_eq_iff k j,
  key_eq_iff j k,
  AllRows-remove k pending keys,
)

length-drop_finished :
    (keys : List Key) (t : LaunchTracker)
    → Distinct t.pending
    → AllRows t.pending keys
    → length (drop_finished keys t).pending + length keys ≡ length t.pending
unfolding drop_finished
length-drop_finished [] t d a = omega arith
length-drop_finished (k ∷ keys) t d a = elim (Option-cases (lookup k t.pending)) [
  | inl e ↦ absurd (ground arith)
  | inr (launch, e) ↦ omega (
    arith,
    length-remove k launch t.pending d e,
    length-drop_finished keys
        (record t { pending = remove k t.pending; persisted = inc_u64 t.persisted })
        (remove-Distinct k t.pending d) (AllRows-remove k t.pending keys a.1 a.2),
  )
]

length-drop_stale :
    (keys : List Key) (t : LaunchTracker)
    → Distinct t.pending
    → AllRows t.pending keys
    → length (drop_stale keys t).pending + length keys ≡ length t.pending
unfolding drop_stale
length-drop_stale [] t d a = omega arith
length-drop_stale (k ∷ keys) t d a = elim (Option-cases (lookup k t.pending)) [
  | inl e ↦ absurd (ground arith)
  | inr (launch, e) ↦ omega (
    arith,
    length-remove k launch t.pending d e,
    length-drop_stale keys (without_stale k t) (remove-Distinct k t.pending d)
        (AllRows-remove k t.pending keys a.1 a.2),
  )
]

-- The counts of the two loops, while they stay below 2 ^ 64.
count-drop_finished :
    (keys : List Key) (t : LaunchTracker)
    → t.persisted + length keys < 2 ^ 64
    → ((drop_finished keys t).persisted ≡ t.persisted + length keys)
      × ((drop_finished keys t).stale_pending_evicted ≡ t.stale_pending_evicted)
      × ((drop_finished keys t).starts_seen ≡ t.starts_seen)
unfolding drop_finished
count-drop_finished [] t h = (omega arith, refl, refl)
count-drop_finished (k ∷ keys) t h = ground (
  arith,
  count-drop_finished keys
      (record t { pending = remove k t.pending; persisted = inc_u64 t.persisted }),
)

count-drop_stale :
    (keys : List Key) (t : LaunchTracker)
    → t.stale_pending_evicted + length keys < 2 ^ 64
    → ((drop_stale keys t).stale_pending_evicted ≡ t.stale_pending_evicted + length keys)
      × ((drop_stale keys t).persisted ≡ t.persisted)
      × ((drop_stale keys t).starts_seen ≡ t.starts_seen)
unfolding drop_stale
count-drop_stale [] t h = (omega arith, refl, refl)
count-drop_stale (k ∷ keys) t h = ground (arith, count-drop_stale keys (without_stale k t))

abbrev NoRepeat : List Key → Type 0
NoRepeat [] = Unit
NoRepeat (k ∷ keys) = (has k keys ≡ false) × NoRepeat keys

AllRows-of :
    (pending : Table Key PendingLaunch) (keys : List Key)
    → NoRepeat keys
    → ((k : Key) → has k keys ≡ true → is_some (lookup k pending) ≡ true)
    → AllRows pending keys
AllRows-of pending [] n h = tt
AllRows-of pending (j ∷ keys) n h = (
  h j (ground (arith, key_eq_iff j j)),
  n.0,
  AllRows-of pending keys n.1 (λ k m. h k (ground (arith, key_eq_iff j k))),
)

module _ (now_ms : ℤ) where
  scan-NoRepeat :
      (pending : Table Key PendingLaunch)
      → Distinct pending
      → NoRepeat (scan now_ms pending).finished_keys × NoRepeat (scan now_ms pending).stale_keys
  unfolding scan scan_row
  scan-NoRepeat [] d = (tt, tt)
  scan-NoRepeat ((j, launch) ∷ pending) d = ground (
    arith,
    scan-finished now_ms j pending d.1,
    scan-stale now_ms j pending d.1,
    scan-NoRepeat pending d.1,
  )

  scan-length :
      (pending : Table Key PendingLaunch) → length (scan now_ms pending).rows ≡ length pending
  unfolding scan scan_row
  scan-length [] = refl
  scan-length ((j, launch) ∷ pending) = ground (arith, scan-length pending)

  module _ (t : LaunchTracker) (d : Distinct t.pending) where
    abbrev scanned : LaunchTracker
    scanned = record t { pending = (scan now_ms t.pending).rows }

    finished-AllRows : AllRows scanned.pending (scan now_ms t.pending).finished_keys
    finished-AllRows =
        AllRows-of _ _ (scan-NoRepeat t.pending d).0
          (λ k m. ground (arith, scan-finished now_ms k t.pending d, scan-rows now_ms k t.pending))

    stale-AllRows :
        AllRows
          (drop_finished (scan now_ms t.pending).finished_keys scanned).pending
          (scan now_ms t.pending).stale_keys
    stale-AllRows = AllRows-of _ _ (scan-NoRepeat t.pending d).1 (λ k m. ground (
      arith,
      scan-finished now_ms k t.pending d,
      scan-stale now_ms k t.pending d,
      scan-rows now_ms k t.pending,
      lookup-drop_finished k (scan now_ms t.pending).finished_keys scanned,
    ))

-- The launches that the tracker has accounted for.
abbrev pub accounted : LaunchTracker → ℕ
accounted t = length t.pending + t.persisted + t.stale_pending_evicted

-- In a well-formed tracker that has accounted for fewer than 2 ^ 64 launches, a drain loses none and
-- does not touch `starts_seen`: what leaves the pending rows is counted as persisted or as evicted.
pub drain-accounted :
    (now_ms : ℤ) (t : LaunchTracker)
    → IsValid t
    → accounted t < 2 ^ 64
    → (accounted (drain_flushable now_ms t).0 ≡ accounted t)
      × ((drain_flushable now_ms t).0.starts_seen ≡ t.starts_seen)
unfolding drain_flushable
drain-accounted now_ms t v h =
    let s = scan now_ms t.pending in
    let r = scanned now_ms t v.rows in
    let f = drop_finished s.finished_keys r in
    let rows = scan-length now_ms t.pending in
    let first =
      length-drop_finished s.finished_keys r (scan-Distinct now_ms t.pending v.rows)
        (finished-AllRows now_ms t v.rows) in
    let second =
      length-drop_stale s.stale_keys f
        (drop_finished-Distinct s.finished_keys r (scan-Distinct now_ms t.pending v.rows))
        (stale-AllRows now_ms t v.rows) in
    let counted = count-drop_finished s.finished_keys r (omega arith) in
    let evicted = count-drop_stale s.stale_keys f (omega arith) in
    (omega arith, evicted.2 ∙ counted.2)
