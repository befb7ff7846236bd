-- ===== src/Alerts/Engine/Reopening.antt =====
-- A condition that comes back within the quiet period takes up its incident again, over a whole
-- `AlertEngine::evaluate` (src/PcPulse.Service/src/alerting.rs).
use pc_pulse.Prelude.{
  ◌≡◌, ◌≤◌, ◌^◌, ◌-◌, refl, sym, ◌∙◌, ap, subst, true, false, Option, none, some, List, [], ◌∷◌,
  ◌++◌, map, arith,
}
use pc_pulse.Text.{Text, text_eq_iff}
use pc_pulse.Table.{lookup, text_Eq, Distinct}
use pc_pulse.Float.{Float}
use pc_pulse.Alerts.Model.{Alert}
use pc_pulse.Alerts.Offsets.{or_default}
use pc_pulse.Alerts.Engine.{
  AlertEngine, Candidate, Sample, ResolvedIncident, contains, inc_u32, within_quiet_period,
}
use pc_pulse.Alerts.Engine.Candidates.{
  Touched, filter_recent, open_alert, observe_candidate, meet_candidate, meet_candidates,
}
use pc_pulse.Alerts.Engine.Resolution.{prune, absent_keys, forget_resolved}
use pc_pulse.Alerts.Engine.Evaluation.{observe_rates, candidate_key, reconcile, score_all, evaluate}
use pc_pulse.Alerts.Engine.Maps.{lookup-retain}
use pc_pulse.Alerts.Engine.Validity.{active-raise_incident}
use pc_pulse.Alerts.Engine.Elsewhere.{
  resolve_keys-Alike, absent_keys-present, meet_candidates-Alike,
}
use pc_pulse.Alerts.Engine.Hysteresis.{
  Continues, Continues-refl, score_incidents-Continues, start, start-active,
}
use pc_pulse.Alerts.Engine.Presence.{meet_candidates-Continues}
use pc_pulse.Alerts.Engine.Reachability.{Reachable, Reachable-IsValid}
use pc_pulse.Alerts.Engine.Streaks.{
  streaks-meet_candidates, meet_candidates-append, contains-append, fires-observe_candidate,
}

module _ {F : Type 0} ⦃f : Float F⦄ where
  -- The candidate itself, on an engine where its incident is not open.
  meet_candidate-opens :
      (sample : Sample F) (fresh : Text → Text) (c : Candidate F) (state : AlertEngine F × Touched)
      → c.required_samples ≤ inc_u32 (or_default 0 (lookup c.key state.0.streaks))
      → lookup c.key state.0.active ≡ none
      → lookup c.key (meet_candidate sample fresh c state).0.active
        ≡ some (
            open_alert sample c
              (fresh c.key)
              (filter_recent sample.timestamp_ms (lookup c.key state.0.resolved_memory)))
  unfolding meet_candidate observe_candidate
  meet_candidate-opens sample fresh c (e, touched) n h =
      rw
        (
          fires-observe_candidate sample c e n,
          active-raise_incident sample c (fresh c.key) c.key (observe_candidate sample c e),
          (text_eq_iff c.key c.key).1 refl,
          h,
        )
        refl

  -- What a candidate opens, after the others have been met.
  abbrev newcomer : Sample F → (Text → Text) → Candidate F → AlertEngine F → Alert F
  newcomer sample fresh c e =
      open_alert sample c (fresh c.key)
        (filter_recent sample.timestamp_ms (lookup c.key e.resolved_memory))

  newcomer_count :
      (sample : Sample F) (c : Candidate F) (fresh : Text) (prior : Option ResolvedIncident)
      → (open_alert sample c fresh prior).occurrence_count ≤ 2 ^ 32 - 1
  unfolding open_alert
  newcomer_count sample c fresh none = omega arith
  newcomer_count sample c fresh (some r) = omega arith

  meet_candidates-opens :
      (sample : Sample F) (fresh : Text → Text) (before after : List (Candidate F))
      (c : Candidate F) (e : AlertEngine F)
      → contains c.key (map candidate_key before) ≡ false
      → c.required_samples ≤ inc_u32 (or_default 0 (lookup c.key e.streaks))
      → lookup c.key e.active ≡ none
      → Continues
          (newcomer sample fresh c e)
          (lookup c.key (meet_candidates sample fresh (before ++ c ∷ after) (e, [])).0.active)
  unfolding meet_candidates
  meet_candidates-opens sample fresh before after c e first n h =
      let met = meet_candidates sample fresh before (e, []) in
      let same = meet_candidates-Alike sample fresh before c.key (e, []) first in
      let streak = streaks-meet_candidates sample fresh before c.key (e, []) first in
      rw (meet_candidates-append sample fresh before (c ∷ after) (e, [])) (
        meet_candidates-Continues sample fresh after c.key (newcomer sample fresh c e)
          (meet_candidate sample fresh c met)
          (newcomer_count sample c (fresh c.key)
            (filter_recent sample.timestamp_ms (lookup c.key e.resolved_memory)))
          (rw (meet_candidate-opens sample fresh c met (rw streak n) (same.active ∙ h), same.memory)
            (Continues-refl (newcomer sample fresh c e))))

  -- An alert that goes on with a resolved incident.
  abbrev pub Resumes : ResolvedIncident → Option (Alert F) → Type 0
  Resumes r none = ⊥
  Resumes r (some b) =
      (b.id ≡ r.id)
      × ((b.first_seen_ms ≡ r.first_seen_ms) × (inc_u32 r.occurrence_count ≤ b.occurrence_count))

  Resumes-Continues :
      (sample : Sample F) (c : Candidate F) (fresh : Text) (r : ResolvedIncident)
      (found : Option (Alert F))
      → Continues (open_alert sample c fresh (some r)) found
      → Resumes r found
  unfolding open_alert
  Resumes-Continues sample c fresh r none h = h
  Resumes-Continues sample c fresh r (some b) h = h

  start-memory :
      (sample : Sample F) (key : Text) (e : AlertEngine F) (r : ResolvedIncident)
      → Distinct e.resolved_memory
      → lookup key e.resolved_memory ≡ some r
      → within_quiet_period sample.timestamp_ms r.resolved_at_ms ≡ true
      → lookup key (start sample e).resolved_memory ≡ some r
  unfolding observe_rates forget_resolved
  start-memory sample key e r d h q = rw (
    lookup-retain (λ k prior. within_quiet_period sample.timestamp_ms prior.resolved_at_ms) key
        e.resolved_memory d,
    h,
    q,
  )

  start-streaks : (sample : Sample F) (e : AlertEngine F) → (start sample e).streaks ≡ e.streaks
  unfolding observe_rates forget_resolved
  start-streaks sample e = refl

  recent_memory :
      (sample : Sample F) (c : Candidate F) (e : AlertEngine F) (r : ResolvedIncident)
      → Distinct e.resolved_memory
      → lookup c.key e.resolved_memory ≡ some r
      → within_quiet_period sample.timestamp_ms r.resolved_at_ms ≡ true
      → filter_recent sample.timestamp_ms (lookup c.key (start sample e).resolved_memory) ≡ some r
  recent_memory sample c e r d h q = rw (start-memory sample c.key e r d h q, q)

  -- A candidate whose streak is long enough takes up the incident that was resolved under its key
  -- within the quiet period: after the evaluation it is open with that incident's id and start, and
  -- with one occurrence more than it had, or more still. The engine is reachable, the incident is not
  -- open, and the candidate is the first with its key.
  pub evaluate-Resumes :
      (sample : Sample F) (fresh : Text → Text) (before after : List (Candidate F))
      (c : Candidate F) (e : AlertEngine F) (r : ResolvedIncident)
      → Reachable e
      → contains c.key (map candidate_key before) ≡ false
      → c.required_samples ≤ inc_u32 (or_default 0 (lookup c.key e.streaks))
      → lookup c.key e.active ≡ none
      → lookup c.key e.resolved_memory ≡ some r
      → within_quiet_period sample.timestamp_ms r.resolved_at_ms ≡ true
      → Resumes r (lookup c.key (evaluate sample fresh (before ++ c ∷ after) e).0.active)
  unfolding evaluate score_all reconcile prune
  evaluate-Resumes sample fresh before after c e r reach first n shut found q =
      let candidates = before ++ c ∷ after in
      let met = (meet_candidates sample fresh candidates (start sample e, [])).0 in
      let opened : Continues (newcomer sample fresh c (start sample e)) (lookup c.key met.active) =
        meet_candidates-opens sample fresh before after c (start sample e) first
          (subst (λ streaks. c.required_samples ≤ inc_u32 (or_default 0 (lookup c.key streaks)))
            (sym (start-streaks sample e)) n)
          (ap (lookup c.key) (start-active sample e) ∙ shut) in
      let present : contains c.key (map candidate_key candidates) ≡ true =
        contains-append c.key before c after ((text_eq_iff c.key c.key).1 refl) in
      Resumes-Continues sample c (fresh c.key) r _ (
        subst
          (λ prior.
            Continues (open_alert sample c (fresh c.key) prior)
              (lookup c.key (evaluate sample fresh candidates e).0.active))
          (recent_memory sample c e r (Reachable-IsValid e reach).distinct found q)
          (score_incidents-Continues sample e.active _ c.key
            (newcomer sample fresh c (start sample e)) _ _
            (subst (Continues (newcomer sample fresh c (start sample e)))
              (sym
                (resolve_keys-Alike sample (absent_keys (map candidate_key candidates) met.active)
                  c.key (met, [])
                  (absent_keys-present (map candidate_key candidates) c.key met.active
                    present)).active)
              opened)))
