-- ===== src/Alerts/Engine/Restart.antt =====
-- What a restarted engine remembers (`AlertEngine::new` of src/PcPulse.Service/src/alerting.rs).
use pc_pulse.Prelude.{
  ◌≡◌, ◌<◌, refl, sym, subst, inl, inr, true, false, Bool-cases, Option, none, some, List, [], ◌∷◌,
  ◌++◌, arith, length, ◌==◌, true≢false, leb→le, All, ap,
}
use pc_pulse.Prelude.Int.{ℤ, leb_ℤ, leb_ℤ_refl, leb_ℤ_trans, ◌≤ℤ◌}
use pc_pulse.Text.{Text, text_eq, text_eq_iff}
use pc_pulse.Table.{Table, lookup, insert, text_Eq, lookup-insert}
use pc_pulse.Float.{Float}
use pc_pulse.Alerts.Model.{Alert}
use pc_pulse.Alerts.Offsets.{or_default}
use mathlib.Core.List.{Mem, mem-cons_self, mem-cons_of_mem}
use pc_pulse.Alerts.Engine.{ResolvedIncident}
use pc_pulse.Alerts.Engine.Memory.{
  resolved_incident, resolution_time, no_later, seed, seed_all, new,
}

-- Something resolved at that time or later is remembered.
abbrev pub Covers : ℤ → Option ResolvedIncident → Type 0
Covers at_ms none = ⊥
Covers at_ms (some r) = leb_ℤ at_ms r.resolved_at_ms ≡ true

still_covered :
    (at_ms t : ℤ) (o : Option ResolvedIncident)
    → Covers at_ms o
    → no_later o t ≡ true
    → leb_ℤ at_ms t ≡ true
still_covered at_ms t none h k = absurd h
still_covered at_ms t (some r) h k = leb_ℤ_trans at_ms r.resolved_at_ms t h k

already_later : (t : ℤ) (o : Option ResolvedIncident) → no_later o t ≡ false → Covers t o
already_later t none h = true≢false h
already_later t (some r) h = ground arith

All-Mem {ℓ} :
    {A : Type ℓ} (xs ys : List A) → ((x : A) → Mem x xs → Mem x ys) → All (λ x. Mem x ys) xs
All-Mem [] ys h = tt
All-Mem (x ∷ xs) ys h = (h x mem-cons_self, All-Mem xs ys (λ y m. h y (mem-cons_of_mem x m)))

module _ {F : Type 0} where
  -- What stands under the key after an alert is written to its own.
  written :
      (at_ms : ℤ) (key : Text) (b : Alert F) (memory : Table Text ResolvedIncident)
      → Covers at_ms (lookup key memory)
      → no_later (lookup b.fingerprint memory) (resolution_time b) ≡ true
      → Covers at_ms
          (lookup key (insert b.fingerprint (resolved_incident (resolution_time b) b) memory))
  written at_ms key b memory h y =
      rw (lookup-insert b.fingerprint key (resolved_incident (resolution_time b) b) memory)
        (elim (Bool-cases (text_eq b.fingerprint key)) [
          | inl k ↦ rw k (
              still_covered at_ms (resolution_time b) (lookup b.fingerprint memory)
                (subst (λ j. Covers at_ms (lookup j memory))
                  (sym ((text_eq_iff b.fingerprint key).0 k)) h)
                y)
          | inr k ↦ rw k h
        ])

  seed-covered :
      (at_ms : ℤ) (key : Text) (b : Alert F) (memory : Table Text ResolvedIncident)
      → Covers at_ms (lookup key memory)
      → Covers at_ms (lookup key (seed b memory))
  unfolding seed
  seed-covered at_ms key b memory h = elim (Bool-cases (length b.fingerprint == 0)) [
    | inl x ↦ rw x h
    | inr x ↦ elim (Bool-cases (no_later (lookup b.fingerprint memory) (resolution_time b))) [
      | inl y ↦ rw (x, y) (written at_ms key b memory h y)
      | inr y ↦ rw (x, y) h
    ]
  ]

  seed-Covers :
      (a : Alert F) (memory : Table Text ResolvedIncident)
      → 0 < length a.fingerprint
      → Covers (resolution_time a) (lookup a.fingerprint (seed a memory))
  unfolding seed
  seed-Covers a memory n =
      let x : (length a.fingerprint == 0) ≡ false = ground arith in
      elim (Bool-cases (no_later (lookup a.fingerprint memory) (resolution_time a))) [
        | inl y ↦
            rw
              (
                x,
                y,
                lookup-insert a.fingerprint a.fingerprint (resolved_incident (resolution_time a) a)
                    memory,
                (text_eq_iff a.fingerprint a.fingerprint).1 refl,
              )
              (leb_ℤ_refl (resolution_time a))
        | inr y ↦ rw (x, y) (already_later (resolution_time a) (lookup a.fingerprint memory) y)
      ]

  seed_all-covered :
      (at_ms : ℤ) (key : Text) (alerts : List (Alert F)) (memory : Table Text ResolvedIncident)
      → Covers at_ms (lookup key memory)
      → Covers at_ms (lookup key (seed_all alerts memory))
  unfolding seed_all
  seed_all-covered at_ms key [] memory h = h
  seed_all-covered at_ms key (b ∷ rest) memory h =
      seed_all-covered at_ms key rest (seed b memory) (seed-covered at_ms key b memory h)

  seed_all-Covers :
      (before after : List (Alert F)) (a : Alert F) (memory : Table Text ResolvedIncident)
      → 0 < length a.fingerprint
      → Covers (resolution_time a) (lookup a.fingerprint (seed_all (before ++ a ∷ after) memory))
  unfolding seed_all
  seed_all-Covers [] after a memory n =
      seed_all-covered (resolution_time a) a.fingerprint after (seed a memory)
        (seed-Covers a memory n)
  seed_all-Covers (b ∷ before) after a memory n = seed_all-Covers before after a (seed b memory) n

  -- What an incident leaves behind when it resolves.
  abbrev pub remains : Alert F → ResolvedIncident
  remains b = record {
    id = b.id;
    resolved_at_ms = or_default b.last_seen_ms b.resolved_at_ms;
    first_seen_ms = b.first_seen_ms;
    occurrence_count = b.occurrence_count;
    notify_generation = b.notify_generation;
    severity = b.severity;
  }

  -- The memory under a key, if there is one, comes from an alert of that fingerprint for which P holds.
  abbrev pub Origin {κ} : (Alert F → Type κ) → Text → Option ResolvedIncident → Type κ
  Origin P key none = Unit
  Origin P key (some r) = (b : Alert F) × P b × (b.fingerprint ≡ key) × (r ≡ remains b)

  seed-Origin {κ} :
      (P : Alert F → Type κ) (key : Text) (b : Alert F) (memory : Table Text ResolvedIncident)
      → P b
      → Origin P key (lookup key memory)
      → Origin P key (lookup key (seed b memory))
  unfolding seed
  seed-Origin P key b memory p h = elim (Bool-cases (length b.fingerprint == 0)) [
    | inl x ↦ rw x h
    | inr x ↦ elim (Bool-cases (no_later (lookup b.fingerprint memory) (resolution_time b))) [
      | inl y ↦
          rw
            (x, y, lookup-insert b.fingerprint key (resolved_incident (resolution_time b) b) memory)
            (elim (Bool-cases (text_eq b.fingerprint key)) [
              | inl k ↦ rw k (b, p, (text_eq_iff b.fingerprint key).0 k, refl)
              | inr k ↦ rw k h
            ])
      | inr y ↦ rw (x, y) h
    ]
  ]

  seed_all-Origin {κ} :
      (P : Alert F → Type κ) (key : Text) (alerts : List (Alert F))
      (memory : Table Text ResolvedIncident)
      → All P alerts
      → Origin P key (lookup key memory)
      → Origin P key (lookup key (seed_all alerts memory))
  unfolding seed_all
  seed_all-Origin P key [] memory p h = h
  seed_all-Origin P key (b ∷ rest) memory p h =
      seed_all-Origin P key rest (seed b memory) p.1 (seed-Origin P key b memory p.0 h)

  latest :
      (P : Alert F → Type 0) (at_ms : ℤ) (key : Text) (o : Option ResolvedIncident)
      → Covers at_ms o
      → Origin P key o
      → (b : Alert F) × P b
        × (b.fingerprint ≡ key)
        × (o ≡ some (remains b))
        × (at_ms ≤ℤ (remains b).resolved_at_ms)
  latest P at_ms key none c h = absurd c
  latest P at_ms key (some r) c (b, p, k, e) =
      (b, p, k, ap some e, leb→le _ _ (subst (Covers at_ms) (ap some e) c))

module _ {F : Type 0} ⦃f : Float F⦄ where
  -- A restarted engine remembers every alert `a` of its seed that has a fingerprint: what stands
  -- under the fingerprint is made of an alert `b` of the seed with the same fingerprint, its id, start,
  -- occurrences, generation and severity, resolved when `b` was resolved, or last seen where it has no
  -- resolution time; and that time is that of `a` or later.
  pub new-Covers :
      (before after : List (Alert F)) (a : Alert F)
      → 0 < length a.fingerprint
      → (b : Alert F) × Mem b (before ++ a ∷ after)
        × (b.fingerprint ≡ a.fingerprint)
        × (lookup a.fingerprint (new (before ++ a ∷ after)).resolved_memory ≡ some (remains b))
        × (or_default a.last_seen_ms a.resolved_at_ms ≤ℤ or_default b.last_seen_ms b.resolved_at_ms)
  unfolding new
  new-Covers before after a n =
      let alerts : List (Alert F) = before ++ a ∷ after in
      latest (λ b. Mem b alerts) (resolution_time a) a.fingerprint
        (lookup a.fingerprint (seed_all alerts [])) (seed_all-Covers before after a [] n)
        (seed_all-Origin (λ b. Mem b alerts) a.fingerprint alerts []
          (All-Mem alerts alerts (λ b m. m)) tt)
