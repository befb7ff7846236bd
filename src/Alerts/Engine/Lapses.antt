-- ===== src/Alerts/Engine/Lapses.antt =====
-- How one incident closes (`condition_cleared` and the second pass of `AlertEngine::evaluate`,
-- src/PcPulse.Service/src/alerting.rs), and that it then stays closed for the pass.
use pc_pulse.Prelude.{
  ◌≡◌, ◌≢◌, ◌⊎◌, refl, ◌∙◌, inl, inr, Bool, true, false, Bool-cases, Option-cases, Option, none,
  some, List,
}
use pc_pulse.Prelude.Int.{ℤ}
use pc_pulse.Text.{Text, text_eq_iff}
use pc_pulse.Table.{lookup, text_Eq, lookup-remove, lookup-insert}
use pc_pulse.Float.{Float}
use pc_pulse.Alerts.Model.{Alert}
use pc_pulse.Alerts.Engine.{AlertEngine, Sample, GrowthFate, auto_resolve, stays_open, undecided}
use pc_pulse.Alerts.Engine.Memory.{resolved_incident}
use pc_pulse.Alerts.Engine.Resolution.{
  condition_cleared, close_incident, close_if_cleared, resolve_by_fate, fate_of,
}
use pc_pulse.Alerts.Engine.Elsewhere.{Alike}

module _ {F : Type 0} ⦃f : Float F⦄ where
  -- The incident has closed at this time.
  abbrev pub Ended : ℤ → Text → Alert F → AlertEngine F → Type 0
  Ended now_ms key a e =
      (lookup key e.active ≡ none)
      × (lookup key e.resolved_memory ≡ some (resolved_incident now_ms a))

  -- Its window says that the excursion is over, or nothing holds it: no terms or no reading.
  abbrev pub Lapsed : Sample F → Text → AlertEngine F → Type 0
  Lapsed sample key e =
      (fate_of (lookup key sample.growth_shapes) ≡ some auto_resolve)
      ⊎ ((fate_of (lookup key sample.growth_shapes) ≢ some stays_open)
          × ((lookup key e.guards ≡ none) ⊎ (lookup key sample.readings ≡ none)))

  close_incident-Ended :
      (sample : Sample F) (key : Text) (silent : Bool) (a : Alert F)
      (state : AlertEngine F × List (Alert F))
      → lookup key state.0.active ≡ some a
      → Ended sample.timestamp_ms key a (close_incident sample key silent state).0
  unfolding close_incident
  close_incident-Ended sample key silent a (e, alerts) h =
      let same = (text_eq_iff key key).1 refl in
      (
        rw (lookup-remove key key e.active, same),
        rw (
          h,
          lookup-insert key key (resolved_incident sample.timestamp_ms a) e.resolved_memory,
          same,
        ),
      )

  close_incident-again :
      (sample : Sample F) (key : Text) (silent : Bool) (a : Alert F) (now_ms : ℤ)
      (state : AlertEngine F × List (Alert F))
      → Ended now_ms key a state.0
      → Ended now_ms key a (close_incident sample key silent state).0
  unfolding close_incident
  close_incident-again sample key silent a now_ms (e, alerts) h =
      (rw (lookup-remove key key e.active, (text_eq_iff key key).1 refl), rw (h.0, h.1))

  condition_cleared-lapsed :
      (sample : Sample F) (key : Text) (e : AlertEngine F)
      → (lookup key e.guards ≡ none) ⊎ (lookup key sample.readings ≡ none)
      → (condition_cleared sample key e).0 ≡ true
  unfolding condition_cleared
  condition_cleared-lapsed sample key e (inl g) = rw g
  condition_cleared-lapsed sample key e (inr v) = elim (Option-cases (lookup key e.guards)) [
    | inl g ↦ rw g
    | inr (guard, g) ↦ rw (g, v)
  ]

  close_if_cleared-Ended :
      (sample : Sample F) (key : Text) (a : Alert F) (state : AlertEngine F × List (Alert F))
      → (lookup key state.0.guards ≡ none) ⊎ (lookup key sample.readings ≡ none)
      → lookup key state.0.active ≡ some a
      → Ended sample.timestamp_ms key a (close_if_cleared sample key state).0
  close_if_cleared-Ended sample key a (e, alerts) n h =
      rw (condition_cleared-lapsed sample key e n) (
        close_incident-Ended sample key false a
          (record e { below_exit_since = (condition_cleared sample key e).1 }, alerts) h)

  close_if_cleared-again :
      (sample : Sample F) (key : Text) (a : Alert F) (now_ms : ℤ)
      (state : AlertEngine F × List (Alert F))
      → Ended now_ms key a state.0
      → Ended now_ms key a (close_if_cleared sample key state).0
  close_if_cleared-again sample key a now_ms (e, alerts) h =
      elim (Bool-cases (condition_cleared sample key e).0) [
        | inl n ↦ rw n (
            close_incident-again sample key false a now_ms
              (record e { below_exit_since = (condition_cleared sample key e).1 }, alerts) h)
        | inr n ↦ rw n h
      ]

  pub Ended-by_fate :
      (sample : Sample F) (key : Text) (a : Alert F) (fate : Option GrowthFate)
      (state : AlertEngine F × List (Alert F))
      → (fate ≡ some auto_resolve)
        ⊎ ((fate ≢ some stays_open)
            × ((lookup key state.0.guards ≡ none) ⊎ (lookup key sample.readings ≡ none)))
      → lookup key state.0.active ≡ some a
      → Ended sample.timestamp_ms key a (resolve_by_fate sample key fate state).0
  Ended-by_fate sample key a none state (inl n) h = absurd cc
  Ended-by_fate sample key a none state (inr n) h = close_if_cleared-Ended sample key a state n.1 h
  Ended-by_fate sample key a (some auto_resolve) state n h =
      close_incident-Ended sample key true a state h
  Ended-by_fate sample key a (some undecided) state (inl n) h = absurd cc
  Ended-by_fate sample key a (some undecided) state (inr n) h =
      close_if_cleared-Ended sample key a state n.1 h
  Ended-by_fate sample key a (some stays_open) state (inl n) h = absurd cc
  Ended-by_fate sample key a (some stays_open) state (inr n) h = absurd (n.0 refl)

  pub Ended-stays :
      (sample : Sample F) (key : Text) (a : Alert F) (now_ms : ℤ) (fate : Option GrowthFate)
      (state : AlertEngine F × List (Alert F))
      → Ended now_ms key a state.0
      → Ended now_ms key a (resolve_by_fate sample key fate state).0
  Ended-stays sample key a now_ms none state h = close_if_cleared-again sample key a now_ms state h
  Ended-stays sample key a now_ms (some auto_resolve) state h =
      close_incident-again sample key true a now_ms state h
  Ended-stays sample key a now_ms (some undecided) state h =
      close_if_cleared-again sample key a now_ms state h
  Ended-stays sample key a now_ms (some stays_open) (e, alerts) h = h

  pub Ended-Alike :
      (now_ms : ℤ) (key : Text) (a : Alert F) (e d : AlertEngine F)
      → Alike key e d
      → Ended now_ms key a d
      → Ended now_ms key a e
  Ended-Alike now_ms key a e d k h = (k.active ∙ h.0, k.memory ∙ h.1)
