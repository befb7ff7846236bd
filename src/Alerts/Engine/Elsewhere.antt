-- ===== src/Alerts/Engine/Elsewhere.antt =====
-- What an evaluation does not touch: the passes of `AlertEngine::evaluate`
-- (src/PcPulse.Service/src/alerting.rs) on the incident of a key that they do not name.
use pc_pulse.Prelude.{
  ◌≡◌, refl, ◌∙◌, inl, inr, Bool, true, false, Bool-cases, Option-cases, Option, none, some, List,
  [], ◌∷◌, map, arith,
}
use pc_pulse.Text.{Text, text_eq, text_eq_iff}
use pc_pulse.Table.{Table, lookup, text_Eq, lookup-insert, lookup-remove}
use pc_pulse.Float.{Float}
use pc_pulse.Alerts.Model.{Alert}
use pc_pulse.Alerts.Engine.{
  AlertEngine, Candidate, Sample, ExitGuard, GrowthFate, auto_resolve, stays_open, undecided,
  contains,
}
use pc_pulse.Alerts.Engine.Candidates.{
  Touched, guard_entry, observe_candidate, raise_incident, fires, meet_candidate, meet_candidates,
}
use pc_pulse.Alerts.Engine.Resolution.{
  condition_cleared, close_incident, close_if_cleared, resolve_by_fate, fate_of, resolve_key,
  resolve_keys, absent_keys,
}
use pc_pulse.Alerts.Engine.Evaluation.{candidate_key}
use pc_pulse.Alerts.Engine.Closing.{remember-other}
use pc_pulse.Alerts.Engine.Validity.{active-raise_incident, memory-raise_incident}

module _ {F : Type 0} where
  -- What stands under a key in the maps that say whether its incident is open.
  pub record Alike (key : Text) (e d : AlertEngine F) : Type 0 where
    pub active : lookup key e.active ≡ lookup key d.active
    pub guards : lookup key e.guards ≡ lookup key d.guards
    pub memory : lookup key e.resolved_memory ≡ lookup key d.resolved_memory

  pub Alike-refl : (key : Text) (e : AlertEngine F) → Alike key e e
  Alike-refl key e = record { active = refl; guards = refl; memory = refl }

  pub Alike-trans :
      (key : Text) (c d e : AlertEngine F) → Alike key c d → Alike key d e → Alike key c e
  Alike-trans key c d e h k = record {
    active = h.active ∙ k.active;
    guards = h.guards ∙ k.guards;
    memory = h.memory ∙ k.memory;
  }

module _ {F : Type 0} ⦃f : Float F⦄ where
  guards-guard_entry :
      (sample : Sample F) (c : Candidate F) (key : Text) (entry : Option F)
      (guards : Table Text (ExitGuard F))
      → text_eq c.key key ≡ false
      → lookup key (guard_entry sample c entry guards) ≡ lookup key guards
  guards-guard_entry sample c key none guards h = rw (lookup-remove c.key key guards, h)
  guards-guard_entry sample c key (some entry) guards h = rw (lookup-insert c.key key _ guards, h)

  guards-raise_incident :
      (sample : Sample F) (c : Candidate F) (fresh : Text) (e : AlertEngine F)
      → (raise_incident sample c fresh e).guards ≡ guard_entry sample c c.entry e.guards
  unfolding raise_incident
  guards-raise_incident sample c fresh e = elim (Option-cases (lookup c.key e.active)) [
    | inl n ↦ rw n
    | inr (a, n) ↦ rw n
  ]

  raise_incident-Alike :
      (sample : Sample F) (c : Candidate F) (fresh key : Text) (e : AlertEngine F)
      → text_eq c.key key ≡ false
      → Alike key (raise_incident sample c fresh e) e
  raise_incident-Alike sample c fresh key e h = record {
    active = rw (active-raise_incident sample c fresh key e, h);
    guards = rw (
      guards-raise_incident sample c fresh e,
      guards-guard_entry sample c key c.entry e.guards h,
    );
    memory = rw (memory-raise_incident sample c fresh key e, h);
  }

  observe_candidate-Alike :
      (sample : Sample F) (c : Candidate F) (key : Text) (e : AlertEngine F)
      → Alike key (observe_candidate sample c e) e
  unfolding observe_candidate
  observe_candidate-Alike sample c key e = record { active = refl; guards = refl; memory = refl }

  meet_candidate-Alike :
      (sample : Sample F) (fresh : Text → Text) (c : Candidate F) (key : Text)
      (state : AlertEngine F × Touched)
      → text_eq c.key key ≡ false
      → Alike key (meet_candidate sample fresh c state).0 state.0
  unfolding meet_candidate
  meet_candidate-Alike sample fresh c key (e, touched) h =
      elim (Bool-cases (fires c (observe_candidate sample c e))) [
        | inl k ↦ rw k (
            Alike-trans key _ _ _
              (raise_incident-Alike sample c (fresh c.key) key (observe_candidate sample c e) h)
              (observe_candidate-Alike sample c key e))
        | inr k ↦ rw k (observe_candidate-Alike sample c key e)
      ]

  -- A key that no candidate names.
  pub meet_candidates-Alike :
      (sample : Sample F) (fresh : Text → Text) (cs : List (Candidate F)) (key : Text)
      (state : AlertEngine F × Touched)
      → contains key (map candidate_key cs) ≡ false
      → Alike key (meet_candidates sample fresh cs state).0 state.0
  unfolding meet_candidates
  meet_candidates-Alike sample fresh [] key state h = Alike-refl key state.0
  meet_candidates-Alike sample fresh (c ∷ cs) key state h =
      Alike-trans key _ _ _
        (meet_candidates-Alike sample fresh cs key (meet_candidate sample fresh c state)
          (ground arith))
        (meet_candidate-Alike sample fresh c key state (ground arith))

  close_incident-Alike :
      (sample : Sample F) (key k : Text) (silent : Bool) (state : AlertEngine F × List (Alert F))
      → text_eq key k ≡ false
      → Alike k (close_incident sample key silent state).0 state.0
  unfolding close_incident
  close_incident-Alike sample key k silent (e, alerts) h = record {
    active = rw (lookup-remove key k e.active, h);
    guards = rw (lookup-remove key k e.guards, h);
    memory = remember-other sample.timestamp_ms key k (lookup key e.active) e.resolved_memory h;
  }

  close_if_cleared-Alike :
      (sample : Sample F) (key k : Text) (state : AlertEngine F × List (Alert F))
      → text_eq key k ≡ false
      → Alike k (close_if_cleared sample key state).0 state.0
  close_if_cleared-Alike sample key k (e, alerts) h =
      elim (Bool-cases (condition_cleared sample key e).0) [
        | inl n ↦ rw n (
            Alike-trans k _ (record e { below_exit_since = (condition_cleared sample key e).1 }) _
              (close_incident-Alike sample key k false
                (record e { below_exit_since = (condition_cleared sample key e).1 }, alerts) h)
              (record { active = refl; guards = refl; memory = refl }))
        | inr n ↦ rw n (record { active = refl; guards = refl; memory = refl })
      ]

  pub resolve_by_fate-Alike :
      (sample : Sample F) (key k : Text) (fate : Option GrowthFate)
      (state : AlertEngine F × List (Alert F))
      → text_eq key k ≡ false
      → Alike k (resolve_by_fate sample key fate state).0 state.0
  resolve_by_fate-Alike sample key k none state h = close_if_cleared-Alike sample key k state h
  resolve_by_fate-Alike sample key k (some auto_resolve) state h =
      close_incident-Alike sample key k true state h
  resolve_by_fate-Alike sample key k (some stays_open) (e, alerts) h = record {
    active = refl;
    guards = refl;
    memory = refl;
  }
  resolve_by_fate-Alike sample key k (some undecided) state h =
      close_if_cleared-Alike sample key k state h

  -- A key that is not among those that may close.
  pub resolve_keys-Alike :
      (sample : Sample F) (keys : List Text) (k : Text) (state : AlertEngine F × List (Alert F))
      → contains k keys ≡ false
      → Alike k (resolve_keys sample keys state).0 state.0
  unfolding resolve_keys resolve_key
  resolve_keys-Alike sample [] k state h = Alike-refl k state.0
  resolve_keys-Alike sample (key ∷ keys) k state h =
      Alike-trans k _ _ _
        (resolve_keys-Alike sample keys k (resolve_key sample key state) (ground arith))
        (resolve_by_fate-Alike sample key k (fate_of (lookup key sample.growth_shapes)) state
          (ground arith))

  -- A candidate's key never closes.
  pub absent_keys-present :
      (present : List Text) (k : Text) (t : Table Text (Alert F))
      → contains k present ≡ true
      → contains k (absent_keys present t) ≡ false
  unfolding absent_keys
  absent_keys-present present k [] h = refl
  absent_keys-present present k ((key, a) ∷ t) h =
      ground (arith, text_eq_iff key k, absent_keys-present present k t h)
