-- ===== src/Alerts/Engine/Endings.antt =====
-- What ends an incident over a whole `AlertEngine::evaluate` (src/PcPulse.Service/src/alerting.rs).
use pc_pulse.Prelude.{
  ◌≡◌, refl, sym, ◌∙◌, ap, subst, inl, inr, true, false, Bool-cases, none, some, List, [], ◌∷◌, map,
  arith, true≢false,
}
use pc_pulse.Prelude.Int.{ℤ}
use pc_pulse.Text.{Text, text_eq, text_eq_iff}
use pc_pulse.Table.{Table, lookup, text_Eq}
use pc_pulse.Float.{Float}
use pc_pulse.Alerts.Model.{Alert}
use pc_pulse.Alerts.Engine.{AlertEngine, Candidate, Sample, contains}
use pc_pulse.Alerts.Engine.Candidates.{meet_candidates}
use pc_pulse.Alerts.Engine.Resolution.{
  fate_of, resolve_key, resolve_keys, prune, absent_keys, forget_resolved,
}
use pc_pulse.Alerts.Engine.Scoring.{score_incident, score_incidents}
use pc_pulse.Alerts.Engine.Evaluation.{observe_rates, candidate_key, reconcile, score_all, evaluate}
use pc_pulse.Alerts.Engine.Closing.{score_incidents-memory}
use pc_pulse.Alerts.Engine.Elsewhere.{Alike, resolve_by_fate-Alike, meet_candidates-Alike}
use pc_pulse.Alerts.Engine.Hysteresis.{start, start-active}
use pc_pulse.Alerts.Engine.Lapses.{Ended, Lapsed, Ended-by_fate, Ended-stays, Ended-Alike}

module _ {F : Type 0} ⦃f : Float F⦄ where
  Lapsed-Alike :
      (sample : Sample F) (key : Text) (e d : AlertEngine F)
      → Alike key e d
      → Lapsed sample key d
      → Lapsed sample key e
  Lapsed-Alike sample key e d k (inl h) = inl h
  Lapsed-Alike sample key e d k (inr (n, inl g)) = inr (n, inl (k.guards ∙ g))
  Lapsed-Alike sample key e d k (inr (n, inr v)) = inr (n, inr v)

  resolve_keys-again :
      (sample : Sample F) (keys : List Text) (key : Text) (a : Alert F) (now_ms : ℤ)
      (state : AlertEngine F × List (Alert F))
      → Ended now_ms key a state.0
      → Ended now_ms key a (resolve_keys sample keys state).0
  unfolding resolve_keys resolve_key
  resolve_keys-again sample [] key a now_ms state h = h
  resolve_keys-again sample (k ∷ keys) key a now_ms state h =
      resolve_keys-again sample keys key a now_ms (resolve_key sample k state)
        (elim (Bool-cases (text_eq k key)) [
          | inl n ↦
              subst (λ j. Ended now_ms key a (resolve_key sample j state).0)
                (sym ((text_eq_iff k key).0 n))
                (Ended-stays sample key a now_ms (fate_of (lookup key sample.growth_shapes)) state
                  h)
          | inr n ↦
              Ended-Alike now_ms key a _ _
                (resolve_by_fate-Alike sample k key (fate_of (lookup k sample.growth_shapes)) state
                  n)
                h
        ])

  resolve_keys-Ended :
      (sample : Sample F) (keys : List Text) (key : Text) (a : Alert F)
      (state : AlertEngine F × List (Alert F))
      → contains key keys ≡ true
      → Lapsed sample key state.0
      → lookup key state.0.active ≡ some a
      → Ended sample.timestamp_ms key a (resolve_keys sample keys state).0
  unfolding resolve_keys resolve_key
  resolve_keys-Ended sample [] key a state p n h = absurd (true≢false (sym p))
  resolve_keys-Ended sample (k ∷ keys) key a state p n h = elim (Bool-cases (text_eq k key)) [
    | inl here ↦
        resolve_keys-again sample keys key a sample.timestamp_ms (resolve_key sample k state) (
          subst (λ j. Ended sample.timestamp_ms key a (resolve_key sample j state).0)
            (sym ((text_eq_iff k key).0 here))
            (Ended-by_fate sample key a (fate_of (lookup key sample.growth_shapes)) state n h))
    | inr there ↦
        let same =
          resolve_by_fate-Alike sample k key (fate_of (lookup k sample.growth_shapes)) state
            there in
        resolve_keys-Ended sample keys key a (resolve_key sample k state) (ground arith)
          (Lapsed-Alike sample key _ _ same n) (same.active ∙ h)
  ]

  absent_keys-absent :
      (present : List Text) (key : Text) (a : Alert F) (t : Table Text (Alert F))
      → contains key present ≡ false
      → lookup key t ≡ some a
      → contains key (absent_keys present t) ≡ true
  unfolding absent_keys lookup
  absent_keys-absent present key a [] n h = absurd cc
  absent_keys-absent present key a ((k, x) ∷ t) n h =
      ground (arith, text_eq_iff k key, absent_keys-absent present key a t n)

  reconcile-Ended :
      (sample : Sample F) (fresh : Text → Text) (cs : List (Candidate F)) (key : Text) (a : Alert F)
      (e : AlertEngine F)
      → lookup key e.active ≡ some a
      → contains key (map candidate_key cs) ≡ false
      → Lapsed sample key e
      → Ended sample.timestamp_ms key a (reconcile sample fresh cs e).0
  unfolding reconcile prune
  reconcile-Ended sample fresh cs key a e h p n =
      let met = (meet_candidates sample fresh cs (e, [])).0 in
      let same = meet_candidates-Alike sample fresh cs key (e, []) p in
      resolve_keys-Ended sample (absent_keys (map candidate_key cs) met.active) key a (met, [])
        (absent_keys-absent (map candidate_key cs) key a met.active p (same.active ∙ h))
        (Lapsed-Alike sample key met e same n) (same.active ∙ h)

  score_incidents-none :
      (sample : Sample F) (previous : Table Text (Alert F)) (touched : List Text) (key : Text)
      (t : Table Text (Alert F)) (e : AlertEngine F)
      → lookup key t ≡ none
      → lookup key (score_incidents sample previous touched t e).0 ≡ none
  unfolding score_incidents lookup
  score_incidents-none sample previous touched key [] e h = refl
  score_incidents-none sample previous touched key ((k, x) ∷ t) e h = ground (
    arith,
    score_incidents-none sample previous touched key t (score_incident sample previous k x e).1,
  )

  start-Lapsed :
      (sample : Sample F) (key : Text) (e : AlertEngine F)
      → Lapsed sample key e
      → Lapsed sample key (start sample e)
  unfolding observe_rates forget_resolved
  start-Lapsed sample key e h = h

  -- An open incident that no candidate names is closed by an evaluation, and remembered as resolved
  -- at the sample's time with its id and its history, when its growth window says that the excursion
  -- is over, or when nothing holds it: the window does not, and it has no exit terms or no reading.
  pub evaluate-Ended :
      (sample : Sample F) (fresh : Text → Text) (candidates : List (Candidate F)) (key : Text)
      (e : AlertEngine F) (a : Alert F)
      → lookup key e.active ≡ some a
      → contains key (map candidate_key candidates) ≡ false
      → Lapsed sample key e
      → Ended sample.timestamp_ms key a (evaluate sample fresh candidates e).0
  unfolding evaluate score_all
  evaluate-Ended sample fresh candidates key e a found p n =
      let done =
        reconcile-Ended sample fresh candidates key a (start sample e)
          (ap (lookup key) (start-active sample e) ∙ found) p (start-Lapsed sample key e n) in
      let met = reconcile sample fresh candidates (start sample e) in
      (
        score_incidents-none sample e.active met.1.0 key met.0.active met.0 done.0,
        ap (lookup key) (score_incidents-memory sample e.active met.1.0 met.0.active met.0)
            ∙ done.1,
      )
