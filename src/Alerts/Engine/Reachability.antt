-- ===== src/Alerts/Engine/Reachability.antt =====
-- Every engine that the operations of `AlertEngine` (src/PcPulse.Service/src/alerting.rs) can lead to.
use pc_pulse.Prelude.{
  subst, inl, inr, Bool, Bool-cases, Option, none, some, List, [], ◌∷◌, if◌then◌else◌, length, ◌==◌,
}
use pc_pulse.Text.{Text, text_eq}
use pc_pulse.Table.{Table, lookup, text_Eq, Distinct, insert-Distinct}
use pc_pulse.Float.{Float}
use pc_pulse.Alerts.Model.{Alert}
use pc_pulse.Alerts.Offsets.{PolicyOffsets}
use pc_pulse.Alerts.Engine.{
  AlertEngine, Candidate, Sample, InterruptContext, ResolvedIncident, VerdictState, no_capture,
  single_capture, repeatable, changed_confidently,
}
use pc_pulse.Alerts.Engine.Memory.{
  resolved_incident, resolution_time, no_later, seed, seed_all, new, update_by_id,
  acknowledged_alert, archived_alert, acknowledge, set_archived, observe_interrupts,
  observe_rating_offsets, is_new_change, latch, latch_verdict,
}
use pc_pulse.Alerts.Engine.Evaluation.{evaluate}
use pc_pulse.Alerts.Engine.Lifecycle.{Steps, phase_at}
use pc_pulse.Alerts.Engine.Refinement.{evaluate-Steps}
use pc_pulse.Alerts.Engine.Validity.{Agrees, IsValid}
use pc_pulse.Alerts.Engine.Agreement.{evaluate-IsValid}

-- A write that keeps what the maps agree on.
abbrev Keeps : (F : Type 0) → (Alert F → Alert F) → Type 0
Keeps F g =
    (a : Alert F) (key : Text) (r : Option ResolvedIncident)
    → Agrees key (some a) r
    → Agrees key (some (g a)) r

acknowledged_alert-Keeps : (F : Type 0) → Keeps F acknowledged_alert
acknowledged_alert-Keeps F a key none h = h
acknowledged_alert-Keeps F a key (some r) h = absurd h

archived_alert-Keeps : (F : Type 0) (archived : Bool) → Keeps F (archived_alert archived)
archived_alert-Keeps F archived a key none h = h
archived_alert-Keeps F archived a key (some r) h = absurd h

module _ {F : Type 0} ⦃f : Float F⦄ where
  pub data Reachable : AlertEngine F → Type 0 where
    started : (reopen_seed : List (Alert F)) → Reachable (new reopen_seed)
    evaluated :
        (sample : Sample F) (fresh : Text → Text) (candidates : List (Candidate F))
        (e : AlertEngine F)
        → Reachable e
        → Reachable (evaluate sample fresh candidates e).0
    was_acknowledged :
        (id : Text) (e : AlertEngine F) → Reachable e → Reachable (acknowledge id e).1
    was_archived :
        (id : Text) (archived : Bool) (e : AlertEngine F)
        → Reachable e
        → Reachable (set_archived id archived e).1
    interrupts_observed :
        (context : InterruptContext F) (e : AlertEngine F)
        → Reachable e
        → Reachable (observe_interrupts context e)
    offsets_observed :
        (offsets : PolicyOffsets F) (e : AlertEngine F)
        → Reachable e
        → Reachable (observe_rating_offsets offsets e)

  seed-Distinct :
      (alert : Alert F) (memory : Table Text ResolvedIncident)
      → Distinct memory
      → Distinct (seed alert memory)
  unfolding seed
  seed-Distinct alert memory h = elim (Bool-cases (length alert.fingerprint == 0)) [
    | inl a ↦ rw a h
    | inr a ↦
        elim (Bool-cases (no_later (lookup alert.fingerprint memory) (resolution_time alert))) [
          | inl b ↦
              rw (a, b)
                (insert-Distinct alert.fingerprint (resolved_incident (resolution_time alert) alert)
                  memory h)
          | inr b ↦ rw (a, b) h
        ]
  ]

  seed_all-Distinct :
      (alerts : List (Alert F)) (memory : Table Text ResolvedIncident)
      → Distinct memory
      → Distinct (seed_all alerts memory)
  unfolding seed_all
  seed_all-Distinct [] memory h = h
  seed_all-Distinct (alert ∷ rest) memory h =
      seed_all-Distinct rest (seed alert memory) (seed-Distinct alert memory h)

  new-IsValid : (reopen_seed : List (Alert F)) → IsValid (new reopen_seed)
  unfolding new lookup
  new-IsValid reopen_seed = record {
    distinct = seed_all-Distinct reopen_seed [] tt;
    agrees = (λ key. tt);
  }

  update_by_id-Agrees :
      (id key : Text) (g : Alert F → Alert F) (t : Table Text (Alert F))
      (r : Option ResolvedIncident)
      → Keeps F g
      → Agrees key (lookup key t) r
      → Agrees key (lookup key (update_by_id id g t)) r
  unfolding update_by_id lookup
  update_by_id-Agrees id key g [] r keeps h = tt
  update_by_id-Agrees id key g ((k, a) ∷ t) r keeps h = elim (Bool-cases (text_eq a.id id)) [
    | inl i ↦ elim (Bool-cases (text_eq k key)) [
      | inl n ↦
          rw (i, n)
            (keeps a key r (subst (λ b. Agrees key (if b then some a else lookup key t) r) n h))
      | inr n ↦ rw (i, n) (subst (λ b. Agrees key (if b then some a else lookup key t) r) n h)
    ]
    | inr i ↦ elim (Bool-cases (text_eq k key)) [
      | inl n ↦ rw (i, n) (subst (λ b. Agrees key (if b then some a else lookup key t) r) n h)
      | inr n ↦
          rw (i, n)
            (update_by_id-Agrees id key g t r keeps
              (subst (λ b. Agrees key (if b then some a else lookup key t) r) n h))
    ]
  ]

  latch-IsValid : (e : AlertEngine F) (from to : Text) → IsValid e → IsValid (latch e from to)
  latch-IsValid e from to h = elim (Bool-cases (is_new_change e.last_verdict_change from to)) [
    | inl n ↦ rw n (record { distinct = h.distinct; agrees = h.agrees })
    | inr n ↦ rw n h
  ]

  latch_verdict-IsValid :
      (v : VerdictState) (e : AlertEngine F) → IsValid e → IsValid (latch_verdict v e)
  latch_verdict-IsValid no_capture e h = h
  latch_verdict-IsValid single_capture e h = h
  latch_verdict-IsValid (repeatable family) e h = h
  latch_verdict-IsValid (changed_confidently from to) e h = latch-IsValid e from to h

  observe_interrupts-IsValid :
      (context : InterruptContext F) (e : AlertEngine F)
      → IsValid e
      → IsValid (observe_interrupts context e)
  unfolding observe_interrupts
  observe_interrupts-IsValid context e h =
      let latched = latch_verdict-IsValid context.verdict e h in
      record { distinct = latched.distinct; agrees = latched.agrees }

  -- Every engine that can be reached is valid.
  pub Reachable-IsValid : (e : AlertEngine F) → Reachable e → IsValid e
  unfolding acknowledge set_archived observe_rating_offsets
  Reachable-IsValid _ (started reopen_seed) = new-IsValid reopen_seed
  Reachable-IsValid _ (evaluated sample fresh candidates e r) =
      evaluate-IsValid sample fresh candidates e (Reachable-IsValid e r)
  Reachable-IsValid _ (was_acknowledged id e r) =
      let h = Reachable-IsValid e r in
      record {
        distinct = h.distinct;
        agrees = (λ key.
            update_by_id-Agrees id key acknowledged_alert e.active (lookup key e.resolved_memory)
              (acknowledged_alert-Keeps F) (h.agrees key));
      }
  Reachable-IsValid _ (was_archived id archived e r) =
      let h = Reachable-IsValid e r in
      record {
        distinct = h.distinct;
        agrees = (λ key.
            update_by_id-Agrees id key (archived_alert archived) e.active
              (lookup key e.resolved_memory) (archived_alert-Keeps F archived) (h.agrees key));
      }
  Reachable-IsValid _ (interrupts_observed context e r) =
      observe_interrupts-IsValid context e (Reachable-IsValid e r)
  Reachable-IsValid _ (offsets_observed offsets e r) =
      let h = Reachable-IsValid e r in record { distinct = h.distinct; agrees = h.agrees }

  -- From any engine that can be reached, an evaluation moves every fingerprint by steps of the
  -- incident's life, taken at the sample's time: it opens with a new id, occurs again, is bumped,
  -- closes into memory, comes back from memory inside the quiet period with its id and its history,
  -- or is forgotten after it.
  pub evaluate-refines :
      (sample : Sample F) (fresh : Text → Text) (candidates : List (Candidate F)) (key : Text)
      (e : AlertEngine F)
      → Reachable e
      → Steps sample.timestamp_ms
          (fresh key)
          (phase_at key e)
          (phase_at key (evaluate sample fresh candidates e).0)
  evaluate-refines sample fresh candidates key e r =
      evaluate-Steps sample fresh candidates key e (Reachable-IsValid e r).distinct
