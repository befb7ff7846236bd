-- ===== src/Alerts/Engine/Hysteresis.antt =====
-- When an incident stays open and when it closes: the exit threshold, the shape of a growth window
-- and the absence of a reading, over a whole `AlertEngine::evaluate`
-- (src/PcPulse.Service/src/alerting.rs).
use pc_pulse.Prelude.{
  ◌≡◌, ◌≤◌, ◌≢◌, ◌⊎◌, refl, sym, ◌∙◌, ap, subst, inl, inr, Bool, true, false, Bool-cases, Option,
  none, some, List, [], ◌∷◌, map, arith, if◌then◌else◌,
}
use pc_pulse.Text.{Text, text_eq, text_eq_iff}
use pc_pulse.Table.{Table, lookup, text_Eq}
use pc_pulse.Float.{Float}
use pc_pulse.Alerts.Model.{Alert, AlertQuality}
use pc_pulse.Alerts.Quality.{NotifyDecision}
use pc_pulse.Alerts.Engine.{
  AlertEngine, Candidate, Sample, ExitGuard, GrowthFate, auto_resolve, stays_open, undecided,
  contains,
}
use pc_pulse.Alerts.Engine.Candidates.{meet_candidates}
use pc_pulse.Alerts.Engine.Resolution.{
  condition_cleared, close_if_cleared, resolve_by_fate, fate_of, resolve_key, resolve_keys, prune,
  absent_keys, forget_resolved,
}
use pc_pulse.Alerts.Engine.Scoring.{
  apply_decision, score_at, decision_at, score_incident, score_incidents,
}
use pc_pulse.Alerts.Engine.Evaluation.{observe_rates, candidate_key, reconcile, score_all, evaluate}
use pc_pulse.Alerts.Engine.Elsewhere.{
  Alike, Alike-refl, Alike-trans, resolve_by_fate-Alike, meet_candidates-Alike,
}

module _ {F : Type 0} ⦃f : Float F⦄ where
  -- The window's shape says so, or the reading has not fallen below the exit threshold.
  abbrev pub HeldOpen : Sample F → Text → AlertEngine F → Type 0
  HeldOpen sample key e =
      (fate_of (lookup key sample.growth_shapes) ≡ some stays_open)
      ⊎ ((fate_of (lookup key sample.growth_shapes) ≢ some auto_resolve)
          × ((guard : ExitGuard F) × ((value : F) × ((lookup key e.guards ≡ some guard)
                  × ((lookup key sample.readings ≡ some value)
                      × (f.le guard.exit_threshold value ≡ true))))))

  -- The incident is open and the same one, with all its occurrences.
  abbrev pub Continues : Alert F → Option (Alert F) → Type 0
  Continues a none = ⊥
  Continues a (some b) =
      (b.id ≡ a.id)
      × ((b.first_seen_ms ≡ a.first_seen_ms) × (a.occurrence_count ≤ b.occurrence_count))

  condition_cleared-held :
      (sample : Sample F) (key : Text) (e : AlertEngine F) (guard : ExitGuard F) (value : F)
      → lookup key e.guards ≡ some guard
      → lookup key sample.readings ≡ some value
      → f.le guard.exit_threshold value ≡ true
      → (condition_cleared sample key e).0 ≡ false
  unfolding condition_cleared
  condition_cleared-held sample key e guard value g v h = rw (g, v, h)

  close_if_cleared-held :
      (sample : Sample F) (key : Text) (state : AlertEngine F × List (Alert F))
      → (condition_cleared sample key state.0).0 ≡ false
      → Alike key (close_if_cleared sample key state).0 state.0
  close_if_cleared-held sample key (e, alerts) h =
      rw h (record { active = refl; guards = refl; memory = refl })

  held_by_fate :
      (sample : Sample F) (key : Text) (fate : Option GrowthFate)
      (state : AlertEngine F × List (Alert F))
      → (fate ≡ some stays_open)
        ⊎ ((fate ≢ some auto_resolve) × ((condition_cleared sample key state.0).0 ≡ false))
      → Alike key (resolve_by_fate sample key fate state).0 state.0
  held_by_fate sample key none state (inl h) = absurd cc
  held_by_fate sample key none state (inr h) = close_if_cleared-held sample key state h.1
  held_by_fate sample key (some stays_open) (e, alerts) h = record {
    active = refl;
    guards = refl;
    memory = refl;
  }
  held_by_fate sample key (some undecided) state (inl h) = absurd cc
  held_by_fate sample key (some undecided) state (inr h) =
      close_if_cleared-held sample key state h.1
  held_by_fate sample key (some auto_resolve) state (inl h) = absurd cc
  held_by_fate sample key (some auto_resolve) state (inr h) = absurd (h.0 refl)

  resolve_key-held :
      (sample : Sample F) (key : Text) (state : AlertEngine F × List (Alert F))
      → HeldOpen sample key state.0
      → Alike key (resolve_key sample key state).0 state.0
  unfolding resolve_key
  resolve_key-held sample key state (inl h) = held_by_fate sample key _ state (inl h)
  resolve_key-held sample key state (inr (n, (g, (v, (a, (b, c)))))) =
      held_by_fate sample key _ state (inr (n, condition_cleared-held sample key state.0 g v a b c))

  HeldOpen-Alike :
      (sample : Sample F) (key : Text) (e d : AlertEngine F)
      → Alike key e d
      → HeldOpen sample key d
      → HeldOpen sample key e
  HeldOpen-Alike sample key e d k (inl h) = inl h
  HeldOpen-Alike sample key e d k (inr (n, (g, (v, (a, h))))) = inr (n, (g, (v, (k.guards ∙ a, h))))

  resolve_key-keeps :
      (sample : Sample F) (k key : Text) (state : AlertEngine F × List (Alert F))
      → HeldOpen sample key state.0
      → Alike key (resolve_key sample k state).0 state.0
  unfolding resolve_key
  resolve_key-keeps sample k key state h = elim (Bool-cases (text_eq k key)) [
    | inl n ↦
        subst (λ j. Alike key (resolve_key sample j state).0 state.0)
          (sym ((text_eq_iff k key).0 n)) (resolve_key-held sample key state h)
    | inr n ↦ resolve_by_fate-Alike sample k key _ state n
  ]

  resolve_keys-held :
      (sample : Sample F) (keys : List Text) (key : Text) (state : AlertEngine F × List (Alert F))
      → HeldOpen sample key state.0
      → Alike key (resolve_keys sample keys state).0 state.0
  unfolding resolve_keys
  resolve_keys-held sample [] key state h = Alike-refl key state.0
  resolve_keys-held sample (k ∷ keys) key state h =
      let here : Alike key (resolve_key sample k state).0 state.0 =
        resolve_key-keeps sample k key state h in
      Alike-trans key _ _ _
        (resolve_keys-held sample keys key (resolve_key sample k state)
          (HeldOpen-Alike sample key _ _ here h))
        here

  Continues-if :
      (a x y : Alert F) (here : Bool) (p q : Option (Alert F))
      → (Continues a (some x) → Continues a (some y))
      → (Continues a p → Continues a q)
      → Continues a (if here then some x else p)
      → Continues a (if here then some y else q)
  Continues-if a x y true p q g h k = g k
  Continues-if a x y false p q g h k = h k

  apply_decision-Continues :
      (a x : Alert F) (quality : AlertQuality F) (d : NotifyDecision)
      → Continues a (some x)
      → Continues a (some (apply_decision quality d x))
  unfolding apply_decision
  apply_decision-Continues a x quality d h = h

  pub score_incidents-Continues :
      (sample : Sample F) (previous : Table Text (Alert F)) (touched : List Text) (key : Text)
      (a : Alert F) (t : Table Text (Alert F)) (e : AlertEngine F)
      → Continues a (lookup key t)
      → Continues a (lookup key (score_incidents sample previous touched t e).0)
  unfolding score_incidents score_incident lookup
  score_incidents-Continues sample previous touched key a [] e h = h
  score_incidents-Continues sample previous touched key a ((k, x) ∷ t) e h =
      Continues-if a x _ (text_eq k key) _ _
        (apply_decision-Continues a x (score_at sample k x e) (decision_at sample previous k x e))
        (score_incidents-Continues sample previous touched key a t
          (score_incident sample previous k x e).1)
        h

  -- Forgetting old memory and the kernel rates leave the open incidents alone.
  abbrev pub start : Sample F → AlertEngine F → AlertEngine F
  start sample e = observe_rates sample (forget_resolved sample e)

  pub start-active : (sample : Sample F) (e : AlertEngine F) → (start sample e).active ≡ e.active
  unfolding observe_rates forget_resolved
  start-active sample e = refl

  HeldOpen-start :
      (sample : Sample F) (key : Text) (e : AlertEngine F)
      → HeldOpen sample key e
      → HeldOpen sample key (start sample e)
  unfolding observe_rates forget_resolved
  HeldOpen-start sample key e h = h

  pub Continues-refl : (a : Alert F) → Continues a (some a)
  Continues-refl a = (refl, (refl, omega arith))

  reconcile-held :
      (sample : Sample F) (fresh : Text → Text) (cs : List (Candidate F)) (key : Text)
      (e : AlertEngine F)
      → contains key (map candidate_key cs) ≡ false
      → HeldOpen sample key e
      → lookup key (reconcile sample fresh cs e).0.active ≡ lookup key e.active
  unfolding reconcile prune
  reconcile-held sample fresh cs key e n h =
      let met = meet_candidates-Alike sample fresh cs key (e, []) n in
      (resolve_keys-held sample
        (absent_keys (map candidate_key cs) (meet_candidates sample fresh cs (e, [])).0.active) key
        ((meet_candidates sample fresh cs (e, [])).0, [])
        (HeldOpen-Alike sample key _ e met h)).active
      ∙ met.active

  -- An open incident that no candidate names stays the same open incident through an evaluation when
  -- its growth window says that it is still climbing or has only partly given back, or when its
  -- reading has not fallen below the exit threshold and no window closes it.
  pub evaluate-held :
      (sample : Sample F) (fresh : Text → Text) (candidates : List (Candidate F)) (key : Text)
      (e : AlertEngine F) (a : Alert F)
      → lookup key e.active ≡ some a
      → contains key (map candidate_key candidates) ≡ false
      → HeldOpen sample key e
      → Continues a (lookup key (evaluate sample fresh candidates e).0.active)
  unfolding evaluate score_all
  evaluate-held sample fresh candidates key e a found n h =
      score_incidents-Continues sample e.active _ key a _ _ (
        subst (Continues a)
          (sym (
            reconcile-held sample fresh candidates key (start sample e) n
              (HeldOpen-start sample key e h)
            ∙ (ap (lookup key) (start-active sample e) ∙ found)))
          (Continues-refl a))
