-- ===== src/Alerts/Engine/Agreement.antt =====
-- The resolving and the scoring pass of `AlertEngine::evaluate`
-- (src/PcPulse.Service/src/alerting.rs) keep the engine's maps in agreement, and so does an evaluation
-- as a whole.
use pc_pulse.Prelude.{
  sym, subst, inl, inr, Bool, true, false, Bool-cases, Option, none, some, List, [], ◌∷◌, map,
  if◌then◌else◌,
}
use pc_pulse.Prelude.Int.{ℤ}
use pc_pulse.Text.{Text, text_eq}
use pc_pulse.Table.{Table, lookup, text_Eq, Distinct, lookup-remove, insert-Distinct}
use pc_pulse.Float.{Float}
use pc_pulse.Alerts.Model.{Alert, AlertQuality}
use pc_pulse.Alerts.Quality.{NotifyDecision}
use pc_pulse.Alerts.Engine.{
  AlertEngine, Candidate, Sample, ResolvedIncident, GrowthFate, auto_resolve, stays_open, undecided,
}
use pc_pulse.Alerts.Engine.Memory.{resolved_incident}
use pc_pulse.Alerts.Engine.Candidates.{meet_candidates}
use pc_pulse.Alerts.Engine.Resolution.{
  condition_cleared, close_incident, close_if_cleared, resolve_by_fate, fate_of, resolve_key,
  resolve_keys, prune, remember, absent_keys, forget_resolved,
}
use pc_pulse.Alerts.Engine.Scoring.{
  apply_decision, score_at, decision_at, score_incident, score_incidents,
}
use pc_pulse.Alerts.Engine.Evaluation.{observe_rates, candidate_key, reconcile, score_all, evaluate}
use pc_pulse.Alerts.Engine.Closing.{remember-other, score_incidents-memory}
use pc_pulse.Alerts.Engine.Validity.{
  Agrees, IsValid, forget_resolved-IsValid, meet_candidates-IsValid,
}

module _ {F : Type 0} ⦃f : Float F⦄ where
  remember-Distinct :
      (key : Text) (now_ms : ℤ) (a : Option (Alert F)) (memory : Table Text ResolvedIncident)
      → Distinct memory
      → Distinct (remember key now_ms a memory)
  remember-Distinct key now_ms none memory h = h
  remember-Distinct key now_ms (some a) memory h =
      insert-Distinct key (resolved_incident now_ms a) memory h

  close_incident-IsValid :
      (sample : Sample F) (key : Text) (silent : Bool) (state : AlertEngine F × List (Alert F))
      → IsValid state.0
      → IsValid (close_incident sample key silent state).0
  unfolding close_incident
  close_incident-IsValid sample key silent (e, alerts) h = record {
    distinct =
        remember-Distinct key sample.timestamp_ms (lookup key e.active) e.resolved_memory
          h.distinct;
    agrees = (λ k. elim (Bool-cases (text_eq key k)) [
      | inl n ↦ rw (lookup-remove key k e.active, n) tt
      | inr n ↦
          rw
            (
              lookup-remove key k e.active,
              n,
              remember-other sample.timestamp_ms key k (lookup key e.active) e.resolved_memory n,
            )
            (h.agrees k)
    ]);
  }

  close_if_cleared-IsValid :
      (sample : Sample F) (key : Text) (state : AlertEngine F × List (Alert F))
      → IsValid state.0
      → IsValid (close_if_cleared sample key state).0
  close_if_cleared-IsValid sample key (e, alerts) h =
      elim (Bool-cases (condition_cleared sample key e).0) [
        | inl n ↦ rw n (
            close_incident-IsValid sample key false
              (record e { below_exit_since = (condition_cleared sample key e).1 }, alerts)
              (record { distinct = h.distinct; agrees = h.agrees }))
        | inr n ↦ rw n (record { distinct = h.distinct; agrees = h.agrees })
      ]

  resolve_by_fate-IsValid :
      (sample : Sample F) (key : Text) (fate : Option GrowthFate)
      (state : AlertEngine F × List (Alert F))
      → IsValid state.0
      → IsValid (resolve_by_fate sample key fate state).0
  resolve_by_fate-IsValid sample key none state h = close_if_cleared-IsValid sample key state h
  resolve_by_fate-IsValid sample key (some auto_resolve) state h =
      close_incident-IsValid sample key true state h
  resolve_by_fate-IsValid sample key (some stays_open) (e, alerts) h = record {
    distinct = h.distinct;
    agrees = h.agrees;
  }
  resolve_by_fate-IsValid sample key (some undecided) state h =
      close_if_cleared-IsValid sample key state h

  resolve_keys-IsValid :
      (sample : Sample F) (keys : List Text) (state : AlertEngine F × List (Alert F))
      → IsValid state.0
      → IsValid (resolve_keys sample keys state).0
  unfolding resolve_keys resolve_key
  resolve_keys-IsValid sample [] state h = h
  resolve_keys-IsValid sample (key ∷ keys) state h =
      resolve_keys-IsValid sample keys (resolve_key sample key state)
        (resolve_by_fate-IsValid sample key (fate_of (lookup key sample.growth_shapes)) state h)

  reconcile-IsValid :
      (sample : Sample F) (fresh : Text → Text) (candidates : List (Candidate F))
      (e : AlertEngine F)
      → IsValid e
      → IsValid (reconcile sample fresh candidates e).0
  unfolding reconcile prune
  reconcile-IsValid sample fresh candidates e h =
      let met = (meet_candidates sample fresh candidates (e, [])).0 in
      let settled =
        resolve_keys-IsValid sample (absent_keys (map candidate_key candidates) met.active)
          (met, []) (meet_candidates-IsValid sample fresh candidates (e, []) h) in
      record { distinct = settled.distinct; agrees = settled.agrees }

  apply_decision-Agrees :
      (key : Text) (quality : AlertQuality F) (d : NotifyDecision) (a : Alert F)
      (r : Option ResolvedIncident)
      → Agrees key (some a) r
      → Agrees key (some (apply_decision quality d a)) r
  unfolding apply_decision
  apply_decision-Agrees key quality d a none h = h
  apply_decision-Agrees key quality d a (some r) h = absurd h

  Agrees-if :
      (key : Text) (here : Bool) (a b : Alert F) (x y : Option (Alert F))
      (r : Option ResolvedIncident)
      → (Agrees key (some a) r → Agrees key (some b) r)
      → (Agrees key x r → Agrees key y r)
      → Agrees key (if here then some a else x) r
      → Agrees key (if here then some b else y) r
  Agrees-if key true a b x y r g h k = g k
  Agrees-if key false a b x y r g h k = h k

  score_incidents-Agrees :
      (sample : Sample F) (previous : Table Text (Alert F)) (touched : List Text) (k : Text)
      (t : Table Text (Alert F)) (e : AlertEngine F) (r : Option ResolvedIncident)
      → Agrees k (lookup k t) r
      → Agrees k (lookup k (score_incidents sample previous touched t e).0) r
  unfolding score_incidents score_incident lookup
  score_incidents-Agrees sample previous touched k [] e r h = tt
  score_incidents-Agrees sample previous touched k ((key, a) ∷ t) e r h =
      Agrees-if k (text_eq key k) _ _ _ _ r
        (apply_decision-Agrees k (score_at sample key a e) (decision_at sample previous key a e) a
          r)
        (score_incidents-Agrees sample previous touched k t
          (score_incident sample previous key a e).1 r)
        h

  score_all-IsValid :
      (sample : Sample F) (previous : Table Text (Alert F)) (touched : List Text)
      (e : AlertEngine F)
      → IsValid e
      → IsValid (score_all sample previous touched e).0
  unfolding score_all
  score_all-IsValid sample previous touched e h =
      let same = score_incidents-memory sample previous touched e.active e in
      record {
        distinct = subst Distinct (sym same) h.distinct;
        agrees = (λ key.
            subst
              (λ memory.
                Agrees key (lookup key (score_incidents sample previous touched e.active e).0)
                  (lookup key memory))
              (sym same)
              (score_incidents-Agrees sample previous touched key e.active e
                (lookup key e.resolved_memory) (h.agrees key)));
      }

  -- An evaluation keeps a valid engine valid: its memory of resolved incidents has no key twice, and
  -- every open incident carries its key as fingerprint, is open or reopened with no resolution time,
  -- and is not remembered as resolved.
  pub evaluate-IsValid :
      (sample : Sample F) (fresh : Text → Text) (candidates : List (Candidate F))
      (e : AlertEngine F)
      → IsValid e
      → IsValid (evaluate sample fresh candidates e).0
  unfolding evaluate observe_rates
  evaluate-IsValid sample fresh candidates e h =
      let kept = forget_resolved-IsValid sample e h in
      let start = observe_rates sample (forget_resolved sample e) in
      score_all-IsValid sample e.active (reconcile sample fresh candidates start).1.0
        (reconcile sample fresh candidates start).0
        (reconcile-IsValid sample fresh candidates start
          (record { distinct = kept.distinct; agrees = kept.agrees }))
