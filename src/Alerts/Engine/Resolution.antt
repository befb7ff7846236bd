-- ===== src/Alerts/Engine/Resolution.antt =====
-- The second pass of `AlertEngine::evaluate` (src/PcPulse.Service/src/alerting.rs): an open incident
-- whose candidate is absent closes once its condition has cleared, and what belongs to no incident
-- any more is dropped.
use pc_pulse.Prelude.{
  Bool, true, false, not, ◌&&◌, ◌||◌, Option, none, some, List, [], ◌∷◌, ◌++◌, if◌then◌else◌,
}
use pc_pulse.Prelude.Int.{ℤ, leb_ℤ, sub_i64}
use pc_pulse.Text.{Text, text_eq}
use pc_pulse.Table.{Table, lookup, insert, remove, text_Eq}
use pc_pulse.Float.{Float}
use pc_pulse.Alerts.Model.{resolved, Alert}
use pc_pulse.Alerts.Offsets.{or_default}
use pc_pulse.Alerts.Engine.{
  AlertEngine, CandidateQuality, ExitGuard, TrendShape, GrowthFate, auto_resolve, stays_open,
  undecided, growth_fate, IncidentCalibration, default_calibration, ResolvedIncident, Sample,
  within_quiet_period, contains, contains_key, retain, upsert, dpc_key,
}
use pc_pulse.Alerts.Engine.Memory.{resolved_incident}

module _ {V : Type 0} where
  -- The keys of an open incident that no candidate names.
  unfoldable pub absent_keys : List Text → Table Text V → List Text
  absent_keys present [] = []
  absent_keys present ((key, v) ∷ rest) =
      let keys = absent_keys present rest in if contains key present then keys else key ∷ keys

-- The exit clock of a key, started now if it stood still.
abbrev pub start_clock : Text → ℤ → Table Text ℤ → Table Text ℤ
start_clock key now_ms clocks = insert key (or_default now_ms (lookup key clocks)) clocks

module _ {F : Type 0} ⦃f : Float F⦄ where
  -- With the terms and the reading of a key: whether it may close, and the exit clocks.
  abbrev pub clearing :
      Text → ℤ → Option (ExitGuard F) → Option F → Table Text ℤ → Bool × Table Text ℤ
  clearing key now_ms none value clocks = (true, clocks)
  clearing key now_ms (some guard) none clocks = (true, clocks)
  clearing key now_ms (some guard) (some value) clocks =
      if f.le guard.exit_threshold value then (false, remove key clocks) else (
        leb_ℤ guard.hold_ms (sub_i64 now_ms (or_default now_ms (lookup key clocks))),
        start_clock key now_ms clocks,
      )

  unfoldable pub condition_cleared : Sample F → Text → AlertEngine F → Bool × Table Text ℤ
  unfolding lookup insert remove sub_i64
  condition_cleared sample key e =
      clearing key sample.timestamp_ms (lookup key e.guards) (lookup key sample.readings)
        e.below_exit_since

  abbrev pub fate_of : Option (TrendShape F) → Option GrowthFate
  fate_of none = none
  fate_of (some shape) = some (growth_fate shape)

  unfoldable pub resolved_alert : ℤ → Bool → Alert F → Alert F
  resolved_alert now_ms silent alert = record alert {
    resolved_at_ms = some now_ms;
    state = resolved;
    notify = if silent then false else alert.notify;
  }

  abbrev pub remember :
      Text → ℤ → Option (Alert F) → Table Text ResolvedIncident → Table Text ResolvedIncident
  remember key now_ms none memory = memory
  remember key now_ms (some alert) memory = insert key (resolved_incident now_ms alert) memory

  abbrev pub push_resolved : ℤ → Bool → Option (Alert F) → List (Alert F) → List (Alert F)
  push_resolved now_ms silent none alerts = alerts
  push_resolved now_ms silent (some alert) alerts =
      alerts ++ resolved_alert now_ms silent alert ∷ []

  -- The incident of a key closes.
  unfoldable pub close_incident :
      Sample F → Text → Bool → AlertEngine F × List (Alert F) → AlertEngine F × List (Alert F)
  unfolding lookup remove
  close_incident sample key silent (e, alerts) =
      let found = lookup key e.active in
      (
        record e {
          active = remove key e.active;
          resolved_memory = remember key sample.timestamp_ms found e.resolved_memory;
          pending_verdict_change = not (text_eq key dpc_key) && e.pending_verdict_change;
          guards = remove key e.guards;
          below_exit_since = remove key e.below_exit_since;
          streaks = remove key e.streaks;
        },
        push_resolved sample.timestamp_ms silent found alerts,
      )

  -- Hysteresis decides.
  abbrev pub close_if_cleared :
      Sample F → Text → AlertEngine F × List (Alert F) → AlertEngine F × List (Alert F)
  close_if_cleared sample key (e, alerts) =
      let (cleared, clocks) = condition_cleared sample key e in
      let e = record e { below_exit_since = clocks } in
      if cleared then close_incident sample key false (e, alerts) else (e, alerts)

  -- A growth incident closes, or stays open, on the shape of its window.
  abbrev pub resolve_by_fate :
      Sample F
      → Text
      → Option GrowthFate
      → AlertEngine F × List (Alert F)
      → AlertEngine F × List (Alert F)
  resolve_by_fate sample key (some stays_open) (e, alerts) =
      (record e { below_exit_since = remove key e.below_exit_since }, alerts)
  resolve_by_fate sample key (some auto_resolve) state = close_incident sample key true state
  resolve_by_fate sample key (some undecided) state = close_if_cleared sample key state
  resolve_by_fate sample key none state = close_if_cleared sample key state

  unfoldable pub resolve_key :
      Sample F → Text → AlertEngine F × List (Alert F) → AlertEngine F × List (Alert F)
  unfolding lookup
  resolve_key sample key state =
      resolve_by_fate sample key (fate_of (lookup key sample.growth_shapes)) state

  unfoldable pub resolve_keys :
      Sample F → List Text → AlertEngine F × List (Alert F) → AlertEngine F × List (Alert F)
  unfolding resolve_key
  resolve_keys sample [] state = state
  resolve_keys sample (key ∷ keys) state = resolve_keys sample keys (resolve_key sample key state)

  abbrev pub refresh_dpc :
      CandidateQuality
      → AlertEngine F
      → Table Text IncidentCalibration
      → Table Text IncidentCalibration
  refresh_dpc quality e calibrations =
      if contains_key dpc_key e.active
      then upsert dpc_key default_calibration (λ terms. record terms { quality = quality })
          calibrations
      else calibrations

  -- The three `retain` calls, and the DPC incident's own terms.
  unfoldable pub prune : Sample F → List Text → CandidateQuality → AlertEngine F → AlertEngine F
  unfolding retain within_quiet_period
  prune sample present quality e = record e {
    streaks = retain (λ key streak. contains key present || contains_key key e.active) e.streaks;
    calibrations =
        refresh_dpc quality e
          (retain (λ key terms. contains key present || contains_key key e.active) e.calibrations);
    notify_memory =
        retain
          (λ key memory.
            contains_key key e.active || within_quiet_period sample.timestamp_ms memory.at_ms)
          e.notify_memory;
  }

  unfoldable pub forget_resolved : Sample F → AlertEngine F → AlertEngine F
  unfolding retain within_quiet_period
  forget_resolved sample e = record e {
    resolved_memory =
        retain (λ key prior. within_quiet_period sample.timestamp_ms prior.resolved_at_ms)
          e.resolved_memory;
  }
