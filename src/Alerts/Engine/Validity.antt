-- ===== src/Alerts/Engine/Validity.antt =====
-- The engine's maps agree: what an open incident says of itself, and that it is not remembered as
-- resolved at the same time. Every pass of `AlertEngine::evaluate`
-- (src/PcPulse.Service/src/alerting.rs) keeps it.
use pc_pulse.Prelude.{
  ◌≡◌, refl, sym, inl, inr, Bool, true, false, Bool-cases, Option-cases, Option, none, some, List,
  [], ◌∷◌, arith, if◌then◌else◌,
}
use pc_pulse.Text.{Text, text_eq, text_eq_iff}
use pc_pulse.Table.{
  lookup, text_Eq, Distinct, lookup-insert, lookup-remove, lookup-modify, remove-Distinct,
}
use pc_pulse.Float.{Float}
use pc_pulse.Alerts.Model.{Alert, IncidentState, open_state, reopened, resolved}
use pc_pulse.Alerts.Engine.{AlertEngine, Candidate, Sample, ResolvedIncident, within_quiet_period}
use pc_pulse.Alerts.Engine.Candidates.{
  Touched, filter_recent, observe_candidate, refresh_alert, open_alert, raise_incident, fires,
  meet_candidate, meet_candidates,
}
use pc_pulse.Alerts.Engine.Resolution.{forget_resolved}
use pc_pulse.Alerts.Engine.Maps.{kept, lookup-retain, retain-Distinct}

abbrev pub is_open : IncidentState → Bool
is_open open_state = true
is_open reopened = true
is_open resolved = false

module _ {F : Type 0} where
  -- What stands under a key: an open incident that carries the key as its fingerprint, with nothing
  -- remembered, or no open incident.
  abbrev pub Agrees : Text → Option (Alert F) → Option ResolvedIncident → Type 0
  Agrees key none r = Unit
  Agrees key (some a) (some r) = ⊥
  Agrees key (some a) none =
      (a.fingerprint ≡ key) × ((a.resolved_at_ms ≡ none) × (is_open a.state ≡ true))

  abbrev pub AgreesAt : Text → AlertEngine F → Type 0
  AgreesAt key e = Agrees key (lookup key e.active) (lookup key e.resolved_memory)

  pub record IsValid (e : AlertEngine F) : Type 0 where
    pub distinct : Distinct e.resolved_memory
    pub agrees : (key : Text) → AgreesAt key e

module _ {F : Type 0} ⦃f : Float F⦄ where
  forget-Agrees :
      (key : Text) (keep : ResolvedIncident → Bool) (a : Option (Alert F))
      (r : Option ResolvedIncident)
      → Agrees key a r
      → Agrees key a (kept keep r)
  forget-Agrees key keep none r h = tt
  forget-Agrees key keep (some a) none h = h
  forget-Agrees key keep (some a) (some r) h = absurd h

  pub forget_resolved-IsValid :
      (sample : Sample F) (e : AlertEngine F) → IsValid e → IsValid (forget_resolved sample e)
  unfolding forget_resolved
  forget_resolved-IsValid sample e h = record {
    distinct = retain-Distinct _ e.resolved_memory h.distinct;
    agrees = (λ key.
        rw
          (lookup-retain (λ k prior. within_quiet_period sample.timestamp_ms prior.resolved_at_ms)
            key e.resolved_memory h.distinct)
          (forget-Agrees key (λ prior. within_quiet_period sample.timestamp_ms prior.resolved_at_ms)
            (lookup key e.active) (lookup key e.resolved_memory) (h.agrees key)));
  }

  refresh-Agrees :
      (sample : Sample F) (c : Candidate F) (key : Text) (a : Alert F) (r : Option ResolvedIncident)
      → Agrees key (some a) r
      → Agrees key (some (refresh_alert sample c a)) r
  unfolding refresh_alert
  refresh-Agrees sample c key a none h = h
  refresh-Agrees sample c key a (some r) h = absurd h

  open-Agrees :
      (sample : Sample F) (c : Candidate F) (fresh : Text) (prior : Option ResolvedIncident)
      → Agrees c.key (some (open_alert sample c fresh prior)) none
  unfolding open_alert
  open-Agrees sample c fresh none = (refl, (refl, refl))
  open-Agrees sample c fresh (some prior) = (refl, (refl, refl))

  -- What a firing candidate leaves under its own key.
  abbrev pub raised :
      Sample F → Candidate F → Text → Option (Alert F) → Option ResolvedIncident → Alert F
  raised sample c fresh (some a) r = refresh_alert sample c a
  raised sample c fresh none r = open_alert sample c fresh (filter_recent sample.timestamp_ms r)

  abbrev pub still_remembered : Option (Alert F) → Option ResolvedIncident → Option ResolvedIncident
  still_remembered none r = none
  still_remembered (some a) r = r

  pub active-raise_incident :
      (sample : Sample F) (c : Candidate F) (fresh key : Text) (e : AlertEngine F)
      → lookup key (raise_incident sample c fresh e).active ≡ (
          if text_eq c.key key
          then some (raised sample c fresh (lookup c.key e.active) (lookup c.key e.resolved_memory))
          else lookup key e.active)
  unfolding raise_incident
  active-raise_incident sample c fresh key e = elim (Option-cases (lookup c.key e.active)) [
    | inl n ↦ ground (
      arith,
      text_eq_iff c.key key,
      lookup-insert c.key key
          (open_alert sample c fresh
            (filter_recent sample.timestamp_ms (lookup c.key e.resolved_memory)))
          e.active,
    )
    | inr (a, n) ↦
        ground
          (arith, text_eq_iff c.key key, lookup-modify c.key key (refresh_alert sample c) e.active)
  ]

  pub memory-raise_incident :
      (sample : Sample F) (c : Candidate F) (fresh key : Text) (e : AlertEngine F)
      → lookup key (raise_incident sample c fresh e).resolved_memory ≡ (
          if text_eq c.key key
          then still_remembered (lookup c.key e.active) (lookup c.key e.resolved_memory)
          else lookup key e.resolved_memory)
  unfolding raise_incident
  memory-raise_incident sample c fresh key e = elim (Option-cases (lookup c.key e.active)) [
    | inl n ↦ ground (arith, text_eq_iff c.key key, lookup-remove c.key key e.resolved_memory)
    | inr (a, n) ↦ ground (arith, text_eq_iff c.key key)
  ]

  raised-Agrees :
      (sample : Sample F) (c : Candidate F) (fresh : Text) (a : Option (Alert F))
      (r : Option ResolvedIncident)
      → Agrees c.key a r
      → Agrees c.key (some (raised sample c fresh a r)) (still_remembered a r)
  raised-Agrees sample c fresh none r h =
      open-Agrees sample c fresh (filter_recent sample.timestamp_ms r)
  raised-Agrees sample c fresh (some a) r h = refresh-Agrees sample c c.key a r h

  raise_incident-agrees :
      (sample : Sample F) (c : Candidate F) (fresh key : Text) (e : AlertEngine F)
      → ((k : Text) → AgreesAt k e)
      → AgreesAt key (raise_incident sample c fresh e)
  raise_incident-agrees sample c fresh key e h =
      rw (active-raise_incident sample c fresh key e, memory-raise_incident sample c fresh key e)
        (elim (Bool-cases (text_eq c.key key)) [
          | inl k ↦
              rw (k, sym ((text_eq_iff c.key key).0 k)) (raised-Agrees sample c fresh _ _ (h c.key))
          | inr k ↦ rw k (h key)
        ])

  raise_incident-Distinct :
      (sample : Sample F) (c : Candidate F) (fresh : Text) (e : AlertEngine F)
      → Distinct e.resolved_memory
      → Distinct (raise_incident sample c fresh e).resolved_memory
  unfolding raise_incident
  raise_incident-Distinct sample c fresh e h = elim (Option-cases (lookup c.key e.active)) [
    | inl n ↦ rw n (remove-Distinct c.key e.resolved_memory h)
    | inr (a, n) ↦ rw n h
  ]

  observe_candidate-IsValid :
      (sample : Sample F) (c : Candidate F) (e : AlertEngine F)
      → IsValid e
      → IsValid (observe_candidate sample c e)
  unfolding observe_candidate
  observe_candidate-IsValid sample c e h = record { distinct = h.distinct; agrees = h.agrees }

  raise_incident-IsValid :
      (sample : Sample F) (c : Candidate F) (fresh : Text) (e : AlertEngine F)
      → IsValid e
      → IsValid (raise_incident sample c fresh e)
  raise_incident-IsValid sample c fresh e h = record {
    distinct = raise_incident-Distinct sample c fresh e h.distinct;
    agrees = (λ key. raise_incident-agrees sample c fresh key e h.agrees);
  }

  pub meet_candidates-IsValid :
      (sample : Sample F) (fresh : Text → Text) (cs : List (Candidate F))
      (state : AlertEngine F × Touched)
      → IsValid state.0
      → IsValid (meet_candidates sample fresh cs state).0
  unfolding meet_candidates meet_candidate
  meet_candidates-IsValid sample fresh [] state h = h
  meet_candidates-IsValid sample fresh (c ∷ cs) (e, touched) h =
      meet_candidates-IsValid sample fresh cs (meet_candidate sample fresh c (e, touched))
        (elim (Bool-cases (fires c (observe_candidate sample c e))) [
          | inl k ↦ rw k (
              raise_incident-IsValid sample c (fresh c.key) (observe_candidate sample c e)
                (observe_candidate-IsValid sample c e h))
          | inr k ↦ rw k (observe_candidate-IsValid sample c e h)
        ])
