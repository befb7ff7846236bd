-- ===== src/Alerts/Growth/Duration.antt =====
-- What the duration of a climb says of the samples (`monotonic_since` of `AlertEngine` and the findings
-- `handleGrowth` and `threadGrowth` in src/PcPulse.Service/src/alerting.rs).
use pc_pulse.Prelude.{
  ℕ, ◌≡◌, ◌≢◌, ◌⊎◌, ◌≤◌, inl, inr, refl, sym, ap, subst, ◌∙◌, Bool, true, false, Bool-cases, Option,
  none, some, List, [], ◌∷◌, arith, if◌then◌else◌, true≢false,
}
use pc_pulse.Prelude.Int.{ℤ, pos, ◌+ℤ◌, ◌-ℤ◌, ◌≤ℤ◌, leb_ℤ, i64_max, sub_i64-exact}
use pc_pulse.Text.{Text, text_eq, text_eq_iff}
use pc_pulse.Table.{Table, lookup, text_Eq, lookup-insert, lookup-remove}
use pc_pulse.Float.{Float}
use pc_pulse.Alerts.Model.{Alert, AlertQuality, Severity, info, warning}
use pc_pulse.Alerts.Quality.{decide}
use pc_pulse.Alerts.Quality.Policy.{Deserves, decide-notify}
use pc_pulse.Alerts.Engine.{TrendShape}
use pc_pulse.Alerts.Growth.{growth_persistence_ms, monotonic_run_ms, growth_severity}
use pc_pulse.Alerts.Growth.Runs.{
  or_insert, retain_watched, RunStep, recorded, pruned, is_monotonic, record_run, growth_finding,
  monotonic_since,
}

lookup-retain_watched :
    (is_watched : Text → Bool) (key : Text) (since : Table Text ℤ) (t : ℤ)
    → lookup key (retain_watched is_watched since) ≡ some t
    → (is_watched key ≡ true) × (lookup key since ≡ some t)
unfolding lookup retain_watched
lookup-retain_watched is_watched key [] t h = cc
lookup-retain_watched is_watched key ((k, u) ∷ since) t h = elim (Bool-cases (text_eq k key)) [
  | inl e ↦
      let same : is_watched k ≡ is_watched key = ap is_watched ((text_eq_iff k key).0 e) in
      ground (arith, same, e, lookup-retain_watched is_watched key since t)
  | inr e ↦ ground (arith, e, lookup-retain_watched is_watched key since t)
]

some_inj : {A : Type 0} {a b : A} → some a ≡ some b → a ≡ b
some_inj h = cc

none≢some : {A : Type 0} {a : A} → none ≡ some a → ⊥
none≢some h = cc

-- Another key is left alone, and the key itself has its time or the new one.
lookup-or_insert :
    (k key : Text) (at_ms : ℤ) (since : Table Text ℤ) (o : Option ℤ) (t : ℤ)
    → lookup key (or_insert k at_ms since o) ≡ some t
    → ((text_eq k key ≡ true) × (at_ms ≡ t)) ⊎ (lookup key since ≡ some t)
lookup-or_insert k key at_ms since none t h = elim (Bool-cases (text_eq k key)) [
  | inl e ↦ inl (e, some_inj (rw (lookup-insert k key at_ms since, e) at h))
  | inr e ↦ inr (rw (lookup-insert k key at_ms since, e) at h)
]
lookup-or_insert k key at_ms since (some u) t h = inr h

differs : (k key : Text) → text_eq k key ≡ false → k ≢ key
differs k key e s = true≢false (sym ((text_eq_iff k key).1 s) ∙ e)

-- A time of the clock: not negative, and within an i64.
abbrev pub IsTime : ℤ → Type 0
IsTime t = (pos 0 ≤ℤ t) × (t ≤ℤ pos i64_max)

lasted :
    (t now_ms : ℤ)
    → IsTime t
    → IsTime now_ms
    → growth_persistence_ms ≤ℤ monotonic_run_ms (some t) now_ms
    → (t +ℤ pos 1_800_000) ≤ℤ now_ms
unfolding monotonic_run_ms ◌+ℤ◌ ◌-ℤ◌
lasted t now_ms a b h = ground (arith, sub_i64-exact now_ms t)

never : (now_ms : ℤ) → growth_persistence_ms ≤ℤ monotonic_run_ms none now_ms → ⊥
unfolding monotonic_run_ms
never now_ms h = ground arith

module _ {F : Type 0} where
  -- The key was recorded as monotonic at that time, and ever since: it was always watched.
  abbrev pub ClimbsSince : Text → ℤ → List (RunStep F) → Type 0
  ClimbsSince key t [] = ⊥
  ClimbsSince key t (recorded k shape at_ms ∷ earlier) =
      ((k ≡ key) × (is_monotonic shape ≡ true) × ((at_ms ≡ t) ⊎ ClimbsSince key t earlier))
      ⊎ ((k ≢ key) × ClimbsSince key t earlier)
  ClimbsSince key t (pruned is_watched ∷ earlier) =
      (is_watched key ≡ true) × ClimbsSince key t earlier

  lookup-record_run :
      (k key : Text) (shape : Option (TrendShape F)) (at_ms : ℤ) (since : Table Text ℤ) (t : ℤ)
      → lookup key (record_run k shape at_ms since) ≡ some t
      → ((k ≡ key) × (is_monotonic shape ≡ true) × ((at_ms ≡ t) ⊎ (lookup key since ≡ some t)))
        ⊎ ((k ≢ key) × (lookup key since ≡ some t))
  unfolding record_run
  lookup-record_run k key shape at_ms since t h = elim (Bool-cases (is_monotonic shape)) [
    | inl m ↦
        let kept = lookup-or_insert k key at_ms since (lookup k since) t (rw m at h) in
        elim (Bool-cases (text_eq k key)) [
          | inl e ↦ inl ((text_eq_iff k key).0 e, m, elim kept [ inl p ↦ inl p.1 | inr q ↦ inr q ])
          | inr e ↦
              inr (
                differs k key e,
                elim kept [ inl p ↦ absurd (true≢false (sym p.0 ∙ e)) | inr q ↦ q ],
              )
        ]
    | inr m ↦
        let left = rw (m, lookup-remove k key since) at h in
        elim (Bool-cases (text_eq k key)) [
          | inl e ↦ absurd (none≢some (rw e at left))
          | inr e ↦ inr (differs k key e, rw e at left)
        ]
  ]

  -- The time under a key is that of the first sample of an unbroken run.
  lookup-monotonic_since :
      (steps : List (RunStep F)) (key : Text) (t : ℤ)
      → lookup key (monotonic_since steps) ≡ some t
      → ClimbsSince key t steps
  unfolding monotonic_since
  lookup-monotonic_since [] key t h = none≢some h
  lookup-monotonic_since (recorded k shape at_ms ∷ earlier) key t h =
      elim (lookup-record_run k key shape at_ms (monotonic_since earlier) t h) [
        | inl (same, m, inl e) ↦ inl (same, m, inl e)
        | inl (same, m, inr e) ↦ inl (same, m, inr (lookup-monotonic_since earlier key t e))
        | inr (other, e) ↦ inr (other, lookup-monotonic_since earlier key t e)
      ]
  lookup-monotonic_since (pruned is_watched ∷ earlier) key t h =
      let (watched, e) = lookup-retain_watched is_watched key (monotonic_since earlier) t h in
      (watched, lookup-monotonic_since earlier key t e)

  -- Every shape was recorded at a time of the clock.
  abbrev pub AreTimes : List (RunStep F) → Type 0
  AreTimes [] = Unit
  AreTimes (recorded key shape at_ms ∷ earlier) = IsTime at_ms × AreTimes earlier
  AreTimes (pruned is_watched ∷ earlier) = AreTimes earlier

  ClimbsSince-IsTime :
      (key : Text) (t : ℤ) (steps : List (RunStep F))
      → AreTimes steps
      → ClimbsSince key t steps
      → IsTime t
  ClimbsSince-IsTime key t [] a c = absurd c
  ClimbsSince-IsTime key t (recorded k shape at_ms ∷ earlier) a (inl (same, m, inl e)) =
      subst IsTime e a.0
  ClimbsSince-IsTime key t (recorded k shape at_ms ∷ earlier) a (inl (same, m, inr c)) =
      ClimbsSince-IsTime key t earlier a.1 c
  ClimbsSince-IsTime key t (recorded k shape at_ms ∷ earlier) a (inr (other, c)) =
      ClimbsSince-IsTime key t earlier a.1 c
  ClimbsSince-IsTime key t (pruned is_watched ∷ earlier) a (watched, c) =
      ClimbsSince-IsTime key t earlier a c

  growth_finding-severity :
      (growth threshold : ℕ) (shape : Option (TrendShape F)) (admits : Bool) (climbed_ms : ℤ)
      (severity : Severity)
      → growth_finding growth threshold shape admits climbed_ms ≡ some severity
      → (threshold ≤ growth) × (growth_severity climbed_ms ≡ severity)
  unfolding growth_finding
  growth_finding-severity growth threshold shape admits climbed_ms severity h = ground arith

  -- A climb that has lasted half an hour has a first sample that long ago.
  lookup-monotonic_since-lasted :
      (steps : List (RunStep F)) (key : Text) (now_ms : ℤ) (o : Option ℤ)
      → lookup key (monotonic_since steps) ≡ o
      → AreTimes steps
      → IsTime now_ms
      → growth_persistence_ms ≤ℤ monotonic_run_ms o now_ms
      → (t : ℤ) × ClimbsSince key t steps × ((t +ℤ pos 1_800_000) ≤ℤ now_ms)
  lookup-monotonic_since-lasted steps key now_ms none e a n h = absurd (never now_ms h)
  lookup-monotonic_since-lasted steps key now_ms (some t) e a n h =
      let climbs = lookup-monotonic_since steps key t e in
      (t, climbs, lasted t now_ms (ClimbsSince-IsTime key t steps a climbs) n h)

module _ {F : Type 0} ⦃f : Float F⦄ where
  waits :
      (learning : Bool) (q : AlertQuality F) (offset : F)
      → Deserves warning learning q offset
      → learning ≡ false
  waits true q offset d = absurd d
  waits false q offset d = refl

  Deserves-growth_severity :
      (run_ms : ℤ) (learning : Bool) (q : AlertQuality F) (offset : F)
      → Deserves (growth_severity run_ms) learning q offset
      → (growth_persistence_ms ≤ℤ run_ms) × (learning ≡ false)
  unfolding growth_severity
  Deserves-growth_severity run_ms learning q offset d =
      elim (Bool-cases (leb_ℤ growth_persistence_ms run_ms)) [
        | inl h ↦ (
          ground arith,
          waits learning q offset
              (subst (λ b. Deserves (if b then warning else info) learning q offset) h d),
        )
        | inr h ↦ absurd (subst (λ b. Deserves (if b then warning else info) learning q offset) h d)
      ]

  -- An incident whose severity is that of a finding of `handleGrowth` or `threadGrowth` notifies only
  -- outside the learning period, and only if the growth reached its threshold and its key has been
  -- recorded as monotonic at every sample since one at least thirty minutes ago, and was never
  -- dropped from the watch list in between. `steps` is what came before the sample of the finding,
  -- from an empty table on, the newest first; times are those of a clock that fits an i64.
  pub decide-growth_finding :
      (steps : List (RunStep F)) (key : Text) (growth threshold : ℕ) (shape : Option (TrendShape F))
      (admits : Bool) (now_ms : ℤ) (alert : Alert F) (q : AlertQuality F) (learning : Bool)
      (previous : Option (Alert F)) (material_change : Bool) (offset : F)
      → AreTimes steps
      → IsTime now_ms
      → growth_finding growth threshold shape admits (
          monotonic_run_ms
            (lookup key (monotonic_since (recorded key shape now_ms ∷ steps)))
            now_ms)
        ≡ some alert.severity
      → (decide alert q learning previous material_change offset).notify ≡ true
      → (t : ℤ) × ClimbsSince key t (recorded key shape now_ms ∷ steps)
        × ((t +ℤ pos 1_800_000) ≤ℤ now_ms)
        × (threshold ≤ growth)
        × (learning ≡ false)
  decide-growth_finding steps key growth threshold shape admits now_ms alert q learning previous
        material_change offset a n e h =
      let since = lookup key (monotonic_since (recorded key shape now_ms ∷ steps)) in
      let run_ms = monotonic_run_ms since now_ms in
      let (reached, severity) =
        growth_finding-severity growth threshold shape admits run_ms alert.severity e in
      let (long, awake) = Deserves-growth_severity run_ms learning q offset (
        subst (λ v. Deserves v learning q offset) (sym severity)
          ((decide-notify alert q learning previous material_change offset).0 h)) in
      let (t, climbs, ago) =
        lookup-monotonic_since-lasted (recorded key shape now_ms ∷ steps) key now_ms since refl
          (n, a) n long in
      (t, climbs, ago, reached, awake)
