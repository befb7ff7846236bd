-- ===== src/Ratings/Trimming.antt =====
-- The loops of `build_digest` (src/PcPulse.Service/src/ratings.rs) end, and what they leave.
use pc_pulse.Prelude.{
  ℕ, ap, ◌∙◌, zero, suc, ◌≡◌, ◌≤◌, ◌-◌, ◌⊎◌, refl, inl, inr, Bool, true, false, not, ◌&&◌,
  Bool-cases, Option, List, [], ◌∷◌, map, take, length, arith, leb, ltb, ◌==◌,
}
use pc_pulse.Text.{Text}
use pc_pulse.Alerts.Model.{Alert}
use pc_pulse.Ratings.{
  digest_max_bytes, digest_max_processes, string_truncation_ladder, Digest, digest_incident,
  shorten_incident, pop, is_over, drop_processes, drop_incidents, shorten_strings, trim_digest,
  build_digest, truncate_str,
}

length-pop : {A : Type 0} (xs : List A) → length (pop xs) ≡ length xs - 1
unfolding pop
length-pop [] = omega arith
length-pop (x ∷ []) = omega arith
length-pop (x ∷ (y ∷ rest)) = omega (arith, length-pop (y ∷ rest))

-- The condition of both loops does not hold.
exit :
    (size left : ℕ)
    → (ltb digest_max_bytes size && not (left == 0)) ≡ false
    → (size ≤ digest_max_bytes) ⊎ (left ≡ 0)
exit size left h = ground arith

module _ {F R P : Type 0} (serialized_len : Digest F R P → ℕ) where
  -- The loop has come to its exit: the digest fits, or the list is used up.
  abbrev Settled : Digest F R P → ℕ → Type 0
  Settled d left = (serialized_len d ≤ digest_max_bytes) ⊎ (left ≡ 0)

  drop_incidents-Settled :
      (rounds : ℕ) (d : Digest F R P)
      → length d.incidents ≤ rounds
      → Settled
          (drop_incidents serialized_len rounds d)
          (length (drop_incidents serialized_len rounds d).incidents)
  unfolding drop_incidents
  drop_incidents-Settled zero d h = inr (omega arith)
  drop_incidents-Settled (suc rounds) d h =
      elim (Bool-cases (is_over serialized_len d && not (length d.incidents == 0))) [
        | inl c ↦ rw c (
            drop_incidents-Settled rounds (record d { incidents = pop d.incidents })
              (omega (arith, length-pop d.incidents)))
        | inr c ↦ rw c (exit (serialized_len d) (length d.incidents) c)
      ]

  drop_processes-Settled :
      (rounds : ℕ) (d : Digest F R P)
      → length d.processes ≤ rounds
      → Settled
          (drop_processes serialized_len rounds d)
          (length (drop_processes serialized_len rounds d).processes)
  unfolding drop_processes
  drop_processes-Settled zero d h = inr (omega arith)
  drop_processes-Settled (suc rounds) d h =
      elim (Bool-cases (is_over serialized_len d && not (length d.processes == 0))) [
        | inl c ↦ rw c (
            drop_processes-Settled rounds (record d { processes = pop d.processes })
              (omega (arith, length-pop d.processes)))
        | inr c ↦ rw c (exit (serialized_len d) (length d.processes) c)
      ]

  drop_incidents-fits :
      (rounds : ℕ) (d : Digest F R P)
      → is_over serialized_len d ≡ false
      → drop_incidents serialized_len rounds d ≡ d
  unfolding drop_incidents
  drop_incidents-fits zero d h = refl
  drop_incidents-fits (suc rounds) d h = rw h

  processes-drop_incidents :
      (rounds : ℕ) (d : Digest F R P)
      → (drop_incidents serialized_len rounds d).processes ≡ d.processes
  unfolding drop_incidents
  processes-drop_incidents zero d = refl
  processes-drop_incidents (suc rounds) d =
      elim (Bool-cases (is_over serialized_len d && not (length d.incidents == 0))) [
        | inl c ↦ rw c (processes-drop_incidents rounds (record d { incidents = pop d.incidents }))
        | inr c ↦ rw c refl
      ]

  processes-shorten_strings :
      (ladder : List ℕ) (d : Digest F R P)
      → (shorten_strings serialized_len ladder d).processes ≡ d.processes
  unfolding shorten_strings
  processes-shorten_strings [] d = refl
  processes-shorten_strings (m ∷ ladder) d =
      let shorter : Digest F R P = record d {
        collector_health = truncate_str d.collector_health m;
        incidents = map (shorten_incident m) d.incidents;
      } in
      elim (Bool-cases (leb (serialized_len shorter) digest_max_bytes)) [
        | inl c ↦ rw c refl
        | inr c ↦ rw c (processes-shorten_strings ladder shorter)
      ]

  -- The digest fits, or has nothing left to drop.
  abbrev pub IsTrimmed : Digest F R P → Type 0
  IsTrimmed d =
      (serialized_len d ≤ digest_max_bytes) ⊎ ((length d.processes ≡ 0) × (length d.incidents ≡ 0))

  length-processes-drop_incidents :
      (rounds : ℕ) (d : Digest F R P)
      → length (drop_incidents serialized_len rounds d).processes ≡ length d.processes
  length-processes-drop_incidents rounds d = ap length (processes-drop_incidents rounds d)

  drop_incidents-IsTrimmed :
      (d : Digest F R P)
      → length d.processes ≡ 0
      → IsTrimmed (drop_incidents serialized_len (length d.incidents) d)
  drop_incidents-IsTrimmed d h =
      elim (drop_incidents-Settled (length d.incidents) d (omega arith)) [
        | inl fits ↦ inl fits
        | inr left ↦ inr (length-processes-drop_incidents (length d.incidents) d ∙ h, left)
      ]

  shorten_strings-IsTrimmed :
      (d : Digest F R P)
      → is_over serialized_len d ≡ true
      → Settled d (length d.processes)
      → IsTrimmed (
          let shorter = shorten_strings serialized_len string_truncation_ladder d in
          drop_incidents serialized_len (length shorter.incidents) shorter)
  shorten_strings-IsTrimmed d over settled =
      drop_incidents-IsTrimmed (shorten_strings serialized_len string_truncation_ladder d) (
        ap length (processes-shorten_strings string_truncation_ladder d)
        ∙ (elim settled [ inl fits ↦ ground (arith, over) | inr left ↦ left ]))

  trim_digest-IsTrimmed : (d : Digest F R P) → IsTrimmed (trim_digest serialized_len d)
  unfolding trim_digest
  trim_digest-IsTrimmed d =
      let dropped = drop_processes serialized_len (length d.processes) d in
      elim (Bool-cases (is_over serialized_len dropped)) [
        | inl over ↦ rw over (
            shorten_strings-IsTrimmed dropped over
              (drop_processes-Settled (length d.processes) d (omega arith)))
        | inr fits ↦
            rw (fits, drop_incidents-fits (length dropped.incidents) dropped fits)
              (inl (ground (arith, fits)))
      ]

  -- The loops of `build_digest` come to their own exit: the digest serializes to at most 32 KiB, or it
  -- has no process and no incident left to drop, whatever the length of a digest's JSON form is.
  pub build_digest-IsTrimmed :
      (rollup : R) (processes : List P) (alerts : List (Alert F)) (learning : Bool)
      (learning_percent : Option ℕ) (collector_health : Text)
      → IsTrimmed (
          build_digest serialized_len rollup processes alerts learning learning_percent
            collector_health)
  unfolding build_digest
  build_digest-IsTrimmed rollup processes alerts learning learning_percent collector_health =
      trim_digest-IsTrimmed (record {
        rollup = rollup;
        processes = take digest_max_processes processes;
        incidents = map digest_incident alerts;
        learning = learning;
        learning_percent = learning_percent;
        collector_health = collector_health;
      })
