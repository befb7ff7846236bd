-- ===== src/Alerts/Engine/Passes.antt =====
-- What each pass of `AlertEngine::evaluate` (src/PcPulse.Service/src/alerting.rs) makes of the phase of
-- a fingerprint.
use pc_pulse.Prelude.{
  ◌≡◌, refl, sym, subst, inl, inr, Bool-cases, Option-cases, Option, none, some, List, [], ◌∷◌,
  arith, if◌then◌else◌,
}
use pc_pulse.Prelude.Int.{ℤ}
use pc_pulse.Text.{Text, text_eq, text_eq_iff}
use pc_pulse.Table.{lookup, text_Eq, Distinct, lookup-insert, lookup-remove, lookup-modify}
use pc_pulse.Float.{Float}
use pc_pulse.Alerts.Model.{Alert}
use pc_pulse.Alerts.Engine.{AlertEngine, Candidate, Sample, ResolvedIncident, within_quiet_period}
use pc_pulse.Alerts.Engine.Candidates.{
  Touched, filter_recent, observe_candidate, refresh_alert, open_alert, raise_incident, fires,
  meet_candidate, meet_candidates,
}
use pc_pulse.Alerts.Engine.Maps.{kept, lookup-retain}
use pc_pulse.Alerts.Engine.Resolution.{forget_resolved}
use pc_pulse.Alerts.Engine.Lifecycle.{
  Phase, opened, forgotten, came_back, occurred, Steps, rest, then_step, one, Steps-append,
  incident_of_memory, incident_of, phase_of, phase_at,
}

module _ {F : Type 0} ⦃f : Float F⦄ where
  -- Old memory goes.
  forget-phase :
      (now_ms : ℤ) (fresh : Text) (a : Option (Alert F)) (r : Option ResolvedIncident)
      → Steps now_ms fresh
          (phase_of a r)
          (phase_of a (kept (λ prior. within_quiet_period now_ms prior.resolved_at_ms) r))
  forget-phase now_ms fresh (some a) r = rest _
  forget-phase now_ms fresh none none = rest _
  forget-phase now_ms fresh none (some r) =
      elim (Bool-cases (within_quiet_period now_ms r.resolved_at_ms)) [
        | inl e ↦ rw e (rest _)
        | inr e ↦ rw e (one _ _ (forgotten (incident_of_memory r) r.resolved_at_ms e))
      ]

  pub forget_resolved-phase_at :
      (sample : Sample F) (fresh key : Text) (e : AlertEngine F)
      → Distinct e.resolved_memory
      → Steps sample.timestamp_ms fresh (phase_at key e) (phase_at key (forget_resolved sample e))
  unfolding forget_resolved
  forget_resolved-phase_at sample fresh key e d =
      rw
        (lookup-retain (λ k prior. within_quiet_period sample.timestamp_ms prior.resolved_at_ms) key
          e.resolved_memory d)
        (forget-phase sample.timestamp_ms fresh (lookup key e.active)
          (lookup key e.resolved_memory))

  -- What a firing candidate makes of its own fingerprint.
  raise-phase :
      (sample : Sample F) (c : Candidate F) (fresh : Text) (r : Option ResolvedIncident)
      → Steps sample.timestamp_ms fresh
          (phase_of {F = F} none r)
          (phase_of (some (open_alert sample c fresh (filter_recent sample.timestamp_ms r))) none)
  unfolding open_alert
  raise-phase sample c fresh none = one _ _ opened
  raise-phase sample c fresh (some r) =
      elim (Bool-cases (within_quiet_period sample.timestamp_ms r.resolved_at_ms)) [
        | inl e ↦ rw e (one _ _ (came_back (incident_of_memory r) r.resolved_at_ms e))
        | inr e ↦
            rw e (
              then_step _ _ _ (forgotten (incident_of_memory r) r.resolved_at_ms e)
                (one _ _ opened))
      ]

  -- What a candidate makes of a fingerprint, from what stands under it.
  abbrev after_raise :
      Sample F → Candidate F → Text → Option (Alert F) → Option ResolvedIncident → Phase
  after_raise sample c fresh (some a) r = phase_of (some (refresh_alert sample c a)) r
  after_raise sample c fresh none r =
      phase_of (some (open_alert sample c fresh (filter_recent sample.timestamp_ms r))) none

  raise_incident-phase_at :
      (sample : Sample F) (c : Candidate F) (fresh key : Text) (e : AlertEngine F)
      → phase_at key (raise_incident sample c fresh e) ≡ (
          if text_eq c.key key
          then after_raise sample c fresh (lookup c.key e.active) (lookup c.key e.resolved_memory)
          else phase_at key e)
  unfolding raise_incident
  raise_incident-phase_at sample c fresh key e = elim (Option-cases (lookup c.key e.active)) [
    | inl n ↦ ground (
      arith,
      text_eq_iff c.key key,
      lookup-insert c.key key
          (open_alert sample c fresh
            (filter_recent sample.timestamp_ms (lookup c.key e.resolved_memory)))
          e.active,
      lookup-remove c.key key e.resolved_memory,
    )
    | inr (a, n) ↦
        ground
          (arith, text_eq_iff c.key key, lookup-modify c.key key (refresh_alert sample c) e.active)
  ]

  observe_candidate-phase_at :
      (sample : Sample F) (c : Candidate F) (key : Text) (e : AlertEngine F)
      → phase_at key (observe_candidate sample c e) ≡ phase_at key e
  unfolding observe_candidate
  observe_candidate-phase_at sample c key e = refl

  raised-Steps :
      (sample : Sample F) (c : Candidate F) (fresh : Text) (a : Option (Alert F))
      (r : Option ResolvedIncident)
      → Steps sample.timestamp_ms fresh (phase_of a r) (after_raise sample c fresh a r)
  unfolding refresh_alert
  raised-Steps sample c fresh (some a) r = one _ _ (occurred (incident_of a))
  raised-Steps sample c fresh none r = raise-phase sample c fresh r

  raise_incident-Steps :
      (sample : Sample F) (c : Candidate F) (fresh : Text → Text) (key : Text) (e : AlertEngine F)
      → Steps sample.timestamp_ms
          (fresh key)
          (phase_at key e)
          (phase_at key (raise_incident sample c (fresh c.key) e))
  raise_incident-Steps sample c fresh key e =
      rw (raise_incident-phase_at sample c (fresh c.key) key e)
        (elim (Bool-cases (text_eq c.key key)) [
          | inl h ↦
              rw (h, sym ((text_eq_iff c.key key).0 h))
                (raised-Steps sample c (fresh c.key) (lookup c.key e.active)
                  (lookup c.key e.resolved_memory))
          | inr h ↦ rw h (rest _)
        ])

  pub meet_candidate-Steps :
      (sample : Sample F) (fresh : Text → Text) (c : Candidate F) (key : Text)
      (state : AlertEngine F × Touched)
      → Steps sample.timestamp_ms
          (fresh key)
          (phase_at key state.0)
          (phase_at key (meet_candidate sample fresh c state).0)
  unfolding meet_candidate
  meet_candidate-Steps sample fresh c key (e, touched) =
      elim (Bool-cases (fires c (observe_candidate sample c e))) [
        | inl h ↦ rw h (
            subst
              (λ p. Steps sample.timestamp_ms (fresh key) p (
                phase_at key
                  (raise_incident sample c (fresh c.key) (observe_candidate sample c e))))
              (observe_candidate-phase_at sample c key e)
              (raise_incident-Steps sample c fresh key (observe_candidate sample c e)))
        | inr h ↦ rw (h, observe_candidate-phase_at sample c key e) (rest _)
      ]

  pub meet_candidates-Steps :
      (sample : Sample F) (fresh : Text → Text) (cs : List (Candidate F)) (key : Text)
      (state : AlertEngine F × Touched)
      → Steps sample.timestamp_ms
          (fresh key)
          (phase_at key state.0)
          (phase_at key (meet_candidates sample fresh cs state).0)
  unfolding meet_candidates
  meet_candidates-Steps sample fresh [] key state = rest _
  meet_candidates-Steps sample fresh (c ∷ cs) key state =
      Steps-append _ _ _ (meet_candidate-Steps sample fresh c key state)
        (meet_candidates-Steps sample fresh cs key (meet_candidate sample fresh c state))
