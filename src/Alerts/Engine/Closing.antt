-- ===== src/Alerts/Engine/Closing.antt =====
-- The second and the third pass of `AlertEngine::evaluate` (src/PcPulse.Service/src/alerting.rs) on the
-- phase of a fingerprint: an incident closes into memory, and scoring only ever bumps a generation.
use pc_pulse.Prelude.{
  ◌≡◌, refl, sym, subst, inl, inr, Bool, true, false, Bool-cases, Option, none, some, List, [], ◌∷◌,
  if◌then◌else◌,
}
use pc_pulse.Prelude.Int.{ℤ}
use pc_pulse.Text.{Text, text_eq, text_eq_iff}
use pc_pulse.Table.{Table, lookup, text_Eq, lookup-insert, lookup-remove}
use pc_pulse.Float.{Float}
use pc_pulse.Alerts.Model.{Alert, AlertQuality}
use pc_pulse.Alerts.Quality.{NotifyDecision}
use pc_pulse.Alerts.Engine.{
  AlertEngine, GrowthFate, auto_resolve, stays_open, undecided, Sample, ResolvedIncident,
}
use pc_pulse.Alerts.Engine.Resolution.{
  condition_cleared, close_incident, close_if_cleared, resolve_by_fate, fate_of, resolve_key,
  resolve_keys, remember,
}
use pc_pulse.Alerts.Engine.Scoring.{
  apply_decision, score_at, decision_at, score_incident, score_incidents,
}
use pc_pulse.Alerts.Engine.Evaluation.{score_all}
use pc_pulse.Alerts.Engine.Memory.{resolved_incident}
use pc_pulse.Alerts.Engine.Lifecycle.{
  open_phase, renotified, closed, Steps, rest, one, Steps-append, incident_of, phase_of, phase_at,
}

module _ {F : Type 0} ⦃f : Float F⦄ where
  close-phase :
      (now_ms : ℤ) (fresh : Text) (key : Text) (a : Option (Alert F))
      (memory : Table Text ResolvedIncident)
      → Steps now_ms fresh
          (phase_of a (lookup key memory))
          (phase_of {F = F} none (lookup key (remember key now_ms a memory)))
  close-phase now_ms fresh key none memory = rest _
  close-phase now_ms fresh key (some a) memory =
      rw (lookup-insert key key (resolved_incident now_ms a) memory, (text_eq_iff key key).1 refl)
        (one _ _ (closed (incident_of a)))

  pub remember-other :
      (now_ms : ℤ) (key k : Text) (a : Option (Alert F)) (memory : Table Text ResolvedIncident)
      → text_eq key k ≡ false
      → lookup k (remember key now_ms a memory) ≡ lookup k memory
  remember-other now_ms key k none memory h = refl
  remember-other now_ms key k (some a) memory h =
      rw (lookup-insert key k (resolved_incident now_ms a) memory, h)

  close_incident-Steps :
      (sample : Sample F) (fresh key k : Text) (silent : Bool)
      (state : AlertEngine F × List (Alert F))
      → Steps sample.timestamp_ms fresh
          (phase_at k state.0)
          (phase_at k (close_incident sample key silent state).0)
  unfolding close_incident
  close_incident-Steps sample fresh key k silent (e, alerts) = elim (Bool-cases (text_eq key k)) [
    | inl h ↦
        rw (lookup-remove key k e.active, h, sym ((text_eq_iff key k).0 h))
          (close-phase sample.timestamp_ms fresh key (lookup key e.active) e.resolved_memory)
    | inr h ↦
        rw
          (
            lookup-remove key k e.active,
            h,
            remember-other sample.timestamp_ms key k (lookup key e.active) e.resolved_memory h,
          )
          (rest _)
  ]

  close_if_cleared-Steps :
      (sample : Sample F) (fresh key k : Text) (state : AlertEngine F × List (Alert F))
      → Steps sample.timestamp_ms fresh
          (phase_at k state.0)
          (phase_at k (close_if_cleared sample key state).0)
  close_if_cleared-Steps sample fresh key k (e, alerts) =
      elim (Bool-cases (condition_cleared sample key e).0) [
        | inl h ↦ rw h (
            close_incident-Steps sample fresh key k false
              (record e { below_exit_since = (condition_cleared sample key e).1 }, alerts))
        | inr h ↦ rw h (rest _)
      ]

  resolve_by_fate-Steps :
      (sample : Sample F) (fresh key k : Text) (fate : Option GrowthFate)
      (state : AlertEngine F × List (Alert F))
      → Steps sample.timestamp_ms fresh
          (phase_at k state.0)
          (phase_at k (resolve_by_fate sample key fate state).0)
  resolve_by_fate-Steps sample fresh key k none state =
      close_if_cleared-Steps sample fresh key k state
  resolve_by_fate-Steps sample fresh key k (some auto_resolve) state =
      close_incident-Steps sample fresh key k true state
  resolve_by_fate-Steps sample fresh key k (some stays_open) (e, alerts) = rest _
  resolve_by_fate-Steps sample fresh key k (some undecided) state =
      close_if_cleared-Steps sample fresh key k state

  pub resolve_keys-Steps :
      (sample : Sample F) (fresh : Text) (keys : List Text) (k : Text)
      (state : AlertEngine F × List (Alert F))
      → Steps sample.timestamp_ms fresh
          (phase_at k state.0)
          (phase_at k (resolve_keys sample keys state).0)
  unfolding resolve_keys resolve_key
  resolve_keys-Steps sample fresh [] k state = rest _
  resolve_keys-Steps sample fresh (key ∷ keys) k state =
      Steps-append _ _ _
        (resolve_by_fate-Steps sample fresh key k (fate_of (lookup key sample.growth_shapes)) state)
        (resolve_keys-Steps sample fresh keys k (resolve_key sample key state))

  -- Scoring leaves an incident as it is or bumps its generation, and the memory as it is.
  apply_decision-Steps :
      (now_ms : ℤ) (fresh : Text) (quality : AlertQuality F) (d : NotifyDecision) (a : Alert F)
      → Steps now_ms fresh
          (open_phase (incident_of a))
          (open_phase (incident_of (apply_decision quality d a)))
  unfolding apply_decision
  apply_decision-Steps now_ms fresh quality d a = elim (Bool-cases d.bump_generation) [
    | inl h ↦ rw h (one _ _ (renotified (incident_of a)))
    | inr h ↦ rw h (rest _)
  ]

  score_incident-Steps :
      (sample : Sample F) (previous : Table Text (Alert F)) (fresh key : Text) (a : Alert F)
      (e : AlertEngine F) (r : Option ResolvedIncident)
      → Steps sample.timestamp_ms fresh
          (phase_of (some a) r)
          (phase_of (some (score_incident sample previous key a e).0) r)
  unfolding score_incident
  score_incident-Steps sample previous fresh key a e r =
      apply_decision-Steps sample.timestamp_ms fresh (score_at sample key a e)
        (decision_at sample previous key a e) a

  later_or_here :
      (now_ms : ℤ) (fresh : Text) (here : Bool) (a b : Alert F) (x y : Option (Alert F))
      (r : Option ResolvedIncident)
      → Steps now_ms fresh (phase_of (some a) r) (phase_of (some b) r)
      → Steps now_ms fresh (phase_of x r) (phase_of y r)
      → Steps now_ms fresh
          (phase_of (if here then some a else x) r)
          (phase_of (if here then some b else y) r)
  later_or_here now_ms fresh true a b x y r s t = s
  later_or_here now_ms fresh false a b x y r s t = t

  score_incidents-Steps :
      (sample : Sample F) (previous : Table Text (Alert F)) (touched : List Text) (fresh k : Text)
      (t : Table Text (Alert F)) (e : AlertEngine F) (r : Option ResolvedIncident)
      → Steps sample.timestamp_ms fresh
          (phase_of (lookup k t) r)
          (phase_of (lookup k (score_incidents sample previous touched t e).0) r)
  unfolding score_incidents lookup
  score_incidents-Steps sample previous touched fresh k [] e r = rest _
  score_incidents-Steps sample previous touched fresh k ((key, a) ∷ t) e r =
      later_or_here sample.timestamp_ms fresh (text_eq key k) _ _ _ _ r
        (score_incident-Steps sample previous fresh key a e r)
        (score_incidents-Steps sample previous touched fresh k t
          (score_incident sample previous key a e).1 r)

  pub score_incidents-memory :
      (sample : Sample F) (previous : Table Text (Alert F)) (touched : List Text)
      (t : Table Text (Alert F)) (e : AlertEngine F)
      → (score_incidents sample previous touched t e).1.0.resolved_memory ≡ e.resolved_memory
  unfolding score_incidents score_incident
  score_incidents-memory sample previous touched [] e = refl
  score_incidents-memory sample previous touched ((key, a) ∷ t) e =
      score_incidents-memory sample previous touched t (score_incident sample previous key a e).1

  pub score_all-Steps :
      (sample : Sample F) (previous : Table Text (Alert F)) (touched : List Text) (fresh k : Text)
      (e : AlertEngine F)
      → Steps sample.timestamp_ms fresh
          (phase_at k e)
          (phase_at k (score_all sample previous touched e).0)
  unfolding score_all
  score_all-Steps sample previous touched fresh k e =
      subst
        (λ memory. Steps sample.timestamp_ms fresh (phase_at k e) (
          phase_of (lookup k (score_incidents sample previous touched e.active e).0)
            (lookup k memory)))
        (sym (score_incidents-memory sample previous touched e.active e))
        (score_incidents-Steps sample previous touched fresh k e.active e
          (lookup k e.resolved_memory))
