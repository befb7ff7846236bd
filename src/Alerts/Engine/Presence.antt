-- ===== src/Alerts/Engine/Presence.antt =====
-- A candidate keeps its incident open: the passes of `AlertEngine::evaluate`
-- (src/PcPulse.Service/src/alerting.rs) on an open incident whose detector fires.
use pc_pulse.Prelude.{
  ◌≡◌, ◌≤◌, ◌^◌, ◌-◌, sym, ◌∙◌, ap, subst, inl, inr, true, Bool-cases, Option, none, some, List, [],
  ◌∷◌, map, arith,
}
use pc_pulse.Text.{Text, text_eq, text_eq_iff}
use pc_pulse.Table.{lookup, text_Eq}
use pc_pulse.Float.{Float}
use pc_pulse.Alerts.Model.{Alert}
use pc_pulse.Alerts.Engine.{AlertEngine, Candidate, Sample, ResolvedIncident, contains}
use pc_pulse.Alerts.Engine.Candidates.{
  Touched, refresh_alert, observe_candidate, raise_incident, fires, meet_candidate, meet_candidates,
}
use pc_pulse.Alerts.Engine.Resolution.{prune, absent_keys}
use pc_pulse.Alerts.Engine.Evaluation.{candidate_key, reconcile, score_all, evaluate}
use pc_pulse.Alerts.Engine.Validity.{raised, active-raise_incident}
use pc_pulse.Alerts.Engine.Elsewhere.{resolve_keys-Alike, absent_keys-present}
use pc_pulse.Alerts.Engine.Hysteresis.{
  Continues, Continues-refl, score_incidents-Continues, start, start-active,
}

module _ {F : Type 0} ⦃f : Float F⦄ where
  raised-Continues :
      (sample : Sample F) (c : Candidate F) (fresh : Text) (a : Alert F) (x : Option (Alert F))
      (r : Option ResolvedIncident)
      → a.occurrence_count ≤ 2 ^ 32 - 1
      → Continues a x
      → Continues a (some (raised sample c fresh x r))
  unfolding refresh_alert
  raised-Continues sample c fresh a none r n h = absurd h
  raised-Continues sample c fresh a (some x) r n h = (h.0, (h.1.0, omega arith))

  raise_incident-Continues :
      (sample : Sample F) (c : Candidate F) (fresh key : Text) (a : Alert F) (e : AlertEngine F)
      → a.occurrence_count ≤ 2 ^ 32 - 1
      → Continues a (lookup key e.active)
      → Continues a (lookup key (raise_incident sample c fresh e).active)
  raise_incident-Continues sample c fresh key a e n h =
      rw (active-raise_incident sample c fresh key e) (elim (Bool-cases (text_eq c.key key)) [
        | inl k ↦ rw k (
            raised-Continues sample c fresh a (lookup c.key e.active)
              (lookup c.key e.resolved_memory) n
              (subst (λ j. Continues a (lookup j e.active)) (sym ((text_eq_iff c.key key).0 k)) h))
        | inr k ↦ rw k h
      ])

  pub meet_candidates-Continues :
      (sample : Sample F) (fresh : Text → Text) (cs : List (Candidate F)) (key : Text) (a : Alert F)
      (state : AlertEngine F × Touched)
      → a.occurrence_count ≤ 2 ^ 32 - 1
      → Continues a (lookup key state.0.active)
      → Continues a (lookup key (meet_candidates sample fresh cs state).0.active)
  unfolding meet_candidates meet_candidate observe_candidate
  meet_candidates-Continues sample fresh [] key a state n h = h
  meet_candidates-Continues sample fresh (c ∷ cs) key a (e, touched) n h =
      meet_candidates-Continues sample fresh cs key a (meet_candidate sample fresh c (e, touched)) n
        (elim (Bool-cases (fires c (observe_candidate sample c e))) [
          | inl k ↦ rw k (
              raise_incident-Continues sample c (fresh c.key) key a (observe_candidate sample c e) n
                h)
          | inr k ↦ rw k h
        ])

  -- An open incident whose candidate is there stays the same open incident through an evaluation,
  -- with no fewer occurrences, which fit 32 bits.
  pub evaluate-present :
      (sample : Sample F) (fresh : Text → Text) (candidates : List (Candidate F)) (key : Text)
      (e : AlertEngine F) (a : Alert F)
      → lookup key e.active ≡ some a
      → contains key (map candidate_key candidates) ≡ true
      → a.occurrence_count ≤ 2 ^ 32 - 1
      → Continues a (lookup key (evaluate sample fresh candidates e).0.active)
  unfolding evaluate score_all reconcile prune
  evaluate-present sample fresh candidates key e a found p n =
      let met = (meet_candidates sample fresh candidates (start sample e, [])).0 in
      score_incidents-Continues sample e.active _ key a _ _ (
        subst (Continues a)
          (sym
            (resolve_keys-Alike sample (absent_keys (map candidate_key candidates) met.active) key
              (met, [])
              (absent_keys-present (map candidate_key candidates) key met.active p)).active)
          (meet_candidates-Continues sample fresh candidates key a (start sample e, []) n
            (subst (Continues a) (sym (ap (lookup key) (start-active sample e) ∙ found))
              (Continues-refl a))))
