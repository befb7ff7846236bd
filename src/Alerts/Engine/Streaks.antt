-- ===== src/Alerts/Engine/Streaks.antt =====
-- The candidates of a sample one after another: whose streak each feeds, in `AlertEngine::evaluate`
-- (src/PcPulse.Service/src/alerting.rs).
use pc_pulse.Prelude.{
  ◌≡◌, ◌≤◌, refl, ◌∙◌, inl, inr, true, false, Bool-cases, Option-cases, List, [], ◌∷◌, ◌++◌, map,
  arith,
}
use pc_pulse.Text.{Text, text_eq, text_eq_iff}
use pc_pulse.Table.{lookup, text_Eq, lookup-insert}
use pc_pulse.Float.{Float}
use pc_pulse.Alerts.Offsets.{or_default}
use pc_pulse.Alerts.Engine.{AlertEngine, Candidate, Sample, contains, inc_u32}
use pc_pulse.Alerts.Engine.Candidates.{
  Touched, observe_candidate, raise_incident, fires, meet_candidate, meet_candidates,
}
use pc_pulse.Alerts.Engine.Evaluation.{candidate_key}

module _ {F : Type 0} ⦃f : Float F⦄ where
  streaks-raise_incident :
      (sample : Sample F) (c : Candidate F) (fresh : Text) (e : AlertEngine F)
      → (raise_incident sample c fresh e).streaks ≡ e.streaks
  unfolding raise_incident
  streaks-raise_incident sample c fresh e = elim (Option-cases (lookup c.key e.active)) [
    | inl n ↦ rw n
    | inr (a, n) ↦ rw n
  ]

  streaks-meet_candidate :
      (sample : Sample F) (fresh : Text → Text) (c : Candidate F) (key : Text)
      (state : AlertEngine F × Touched)
      → text_eq c.key key ≡ false
      → lookup key (meet_candidate sample fresh c state).0.streaks ≡ lookup key state.0.streaks
  unfolding meet_candidate observe_candidate
  streaks-meet_candidate sample fresh c key (e, touched) h =
      elim (Bool-cases (fires c (observe_candidate sample c e))) [
        | inl k ↦ rw (
          k,
          streaks-raise_incident sample c (fresh c.key) (observe_candidate sample c e),
          lookup-insert c.key key (inc_u32 (or_default 0 (lookup c.key e.streaks))) e.streaks,
          h,
        )
        | inr k ↦ rw (
          k,
          lookup-insert c.key key (inc_u32 (or_default 0 (lookup c.key e.streaks))) e.streaks,
          h,
        )
      ]

  pub streaks-meet_candidates :
      (sample : Sample F) (fresh : Text → Text) (cs : List (Candidate F)) (key : Text)
      (state : AlertEngine F × Touched)
      → contains key (map candidate_key cs) ≡ false
      → lookup key (meet_candidates sample fresh cs state).0.streaks ≡ lookup key state.0.streaks
  unfolding meet_candidates
  streaks-meet_candidates sample fresh [] key state h = refl
  streaks-meet_candidates sample fresh (c ∷ cs) key state h =
      streaks-meet_candidates sample fresh cs key (meet_candidate sample fresh c state)
        (ground arith)
      ∙ streaks-meet_candidate sample fresh c key state (ground arith)

  pub meet_candidates-append :
      (sample : Sample F) (fresh : Text → Text) (xs ys : List (Candidate F))
      (state : AlertEngine F × Touched)
      → meet_candidates sample fresh (xs ++ ys) state
        ≡ meet_candidates sample fresh ys (meet_candidates sample fresh xs state)
  unfolding meet_candidates
  meet_candidates-append sample fresh [] ys state = refl
  meet_candidates-append sample fresh (c ∷ xs) ys state =
      meet_candidates-append sample fresh xs ys (meet_candidate sample fresh c state)

  pub contains-append :
      (key : Text) (xs : List (Candidate F)) (c : Candidate F) (ys : List (Candidate F))
      → text_eq c.key key ≡ true
      → contains key (map candidate_key (xs ++ c ∷ ys)) ≡ true
  contains-append key [] c ys h = ground arith
  contains-append key (x ∷ xs) c ys h = ground (arith, contains-append key xs c ys h)

  pub fires-observe_candidate :
      (sample : Sample F) (c : Candidate F) (e : AlertEngine F)
      → c.required_samples ≤ inc_u32 (or_default 0 (lookup c.key e.streaks))
      → fires c (observe_candidate sample c e) ≡ true
  unfolding fires observe_candidate
  fires-observe_candidate sample c e h =
      rw
        (
          lookup-insert c.key c.key (inc_u32 (or_default 0 (lookup c.key e.streaks))) e.streaks,
          (text_eq_iff c.key c.key).1 refl,
        )
        (ground arith)
