-- ===== src/Alerts/Engine/Memory.antt =====
-- What the engine is told between two samples, and what it remembers across a restart: `new`,
-- `observe_interrupts`, `observe_rating_offsets`, `acknowledge`, `set_archived`,
-- `user_impact_signals`, `sustained_above_p95`, `dpc_quality` of src/PcPulse.Service/src/alerting.rs.
use pc_pulse.Prelude.{
  ℕ, suc, ◌+◌, ◌/◌, ◌^◌, ◌-◌, min, max, Bool, true, false, not, ◌&&◌, ◌||◌, Option, none, some,
  List, [], ◌∷◌, leb, ◌==◌, if◌then◌else◌, length,
}
use pc_pulse.Prelude.Int.{ℤ, pos, negsuc, sub_ℕ, leb_ℤ, ltb_ℤ, sub_i64, wrap}
use pc_pulse.Text.{Text, codes, text_eq}
use pc_pulse.Table.{Table, map_some, lookup, insert, text_Eq}
use pc_pulse.Float.{Float}
use pc_pulse.Alerts.Model.{Alert}
use pc_pulse.Alerts.Offsets.{PolicyOffsets, or_default}
use pc_pulse.Alerts.Engine.{
  AlertEngine, ResolvedIncident, InterruptContext, VerdictState, changed_confidently, is_attributed,
  verdict_stable, CandidateQuality, default_engine, sustained_p95_ms,
}

abbrev pub user_impact_kinds : List Text
user_impact_kinds = codes "unresponsive" ∷ codes "slowLaunch" ∷ []

abbrev pub is_user_impact : Text → Bool
is_user_impact kind = text_eq kind (codes "unresponsive") || text_eq kind (codes "slowLaunch")

abbrev pub no_later : Option ResolvedIncident → ℤ → Bool
no_later none resolved_at_ms = true
no_later (some remembered) resolved_at_ms = leb_ℤ remembered.resolved_at_ms resolved_at_ms

-- The samples that a full window would hold: an i64 division, whose divisor is negative for an
-- interval of 2 ^ 63 or more.
abbrev pub span_over : ℤ → ℤ
span_over (pos interval_ms) = pos (sustained_p95_ms / interval_ms)
span_over (negsuc n) = sub_ℕ 0 (sustained_p95_ms / suc n)

abbrev pub expected_samples : ℕ → ℤ
expected_samples interval_ms = span_over (wrap (pos (max interval_ms 1)))

abbrev pub spans : List (ℤ × Bool) → ℤ → Bool
spans [] now_ms = false
spans ((oldest_ms, above) ∷ rest) now_ms =
    not (ltb_ℤ (sub_i64 now_ms oldest_ms) (pos sustained_p95_ms))

-- The flags of a window, as `filter(..).count()`.
abbrev pub count_above : List (ℤ × Bool) → ℕ
count_above [] = 0
count_above ((at_ms, above) ∷ rest) = (if above then 1 else 0) + count_above rest

-- Whether a confident change is another one than the last.
abbrev pub is_new_change : Option (Text × Text) → Text → Text → Bool
is_new_change none from to = true
is_new_change (some (last_from, last_to)) from to =
    not (text_eq last_from from && text_eq last_to to)

module _ {F : Type 0} where
  abbrev pub resolution_time : Alert F → ℤ
  resolution_time alert = or_default alert.last_seen_ms alert.resolved_at_ms

  abbrev pub resolved_incident : ℤ → Alert F → ResolvedIncident
  resolved_incident resolved_at_ms alert = record {
    id = alert.id;
    resolved_at_ms = resolved_at_ms;
    first_seen_ms = alert.first_seen_ms;
    occurrence_count = alert.occurrence_count;
    notify_generation = alert.notify_generation;
    severity = alert.severity;
  }

  unfoldable pub seed : Alert F → Table Text ResolvedIncident → Table Text ResolvedIncident
  unfolding lookup insert
  seed alert memory =
      if length alert.fingerprint == 0
      then memory
      else if no_later (lookup alert.fingerprint memory) (resolution_time alert)
      then insert alert.fingerprint (resolved_incident (resolution_time alert) alert) memory
      else memory

  unfoldable pub seed_all :
      List (Alert F) → Table Text ResolvedIncident → Table Text ResolvedIncident
  unfolding seed
  seed_all [] memory = memory
  seed_all (alert ∷ rest) memory = seed_all rest (seed alert memory)

  -- `find` on the values by id, and the write to the one that is found.
  unfoldable pub update_by_id :
      Text → (Alert F → Alert F) → Table Text (Alert F) → Table Text (Alert F)
  update_by_id id g [] = []
  update_by_id id g ((key, alert) ∷ rest) =
      if text_eq alert.id id then (key, g alert) ∷ rest else (key, alert) ∷ update_by_id id g rest

  unfoldable pub find_by_id : Text → Table Text (Alert F) → Option (Alert F)
  find_by_id id [] = none
  find_by_id id ((key, alert) ∷ rest) =
      if text_eq alert.id id then some alert else find_by_id id rest

  abbrev pub acknowledged_alert : Alert F → Alert F
  acknowledged_alert alert = record alert { acknowledged = true }

  abbrev pub archived_alert : Bool → Alert F → Alert F
  archived_alert archived alert = record alert { archived = archived }

  unfoldable pub acknowledge : Text → AlertEngine F → Option (Alert F) × AlertEngine F
  unfolding find_by_id update_by_id
  acknowledge id e = (
    map_some acknowledged_alert (find_by_id id e.active),
    record e { active = update_by_id id acknowledged_alert e.active },
  )

  unfoldable pub set_archived : Text → Bool → AlertEngine F → Option (Alert F) × AlertEngine F
  unfolding find_by_id update_by_id
  set_archived id archived e = (
    map_some (archived_alert archived) (find_by_id id e.active),
    record e { active = update_by_id id (archived_alert archived) e.active },
  )

  abbrev pub count_impact : Table Text (Alert F) → ℕ
  count_impact [] = 0
  count_impact ((key, alert) ∷ rest) =
      (if is_user_impact alert.kind && not alert.archived then 1 else 0) + count_impact rest

  unfoldable pub user_impact_signals : AlertEngine F → ℕ
  user_impact_signals e = min (count_impact e.active) (2 ^ 32 - 1)

  abbrev pub latch : AlertEngine F → Text → Text → AlertEngine F
  latch e from to =
      if is_new_change e.last_verdict_change from to
      then record e { last_verdict_change = some (from, to); pending_verdict_change = true }
      else e

  abbrev pub latch_verdict : VerdictState → AlertEngine F → AlertEngine F
  latch_verdict (changed_confidently from to) e = latch e from to
  latch_verdict _ e = e

  unfoldable pub observe_interrupts : InterruptContext F → AlertEngine F → AlertEngine F
  observe_interrupts context e =
      let e = latch_verdict context.verdict e in record e { interrupts = context }

  unfoldable pub observe_rating_offsets : PolicyOffsets F → AlertEngine F → AlertEngine F
  observe_rating_offsets offsets e = record e { rating_offsets = offsets }

  unfoldable pub rating_offsets_of : AlertEngine F → PolicyOffsets F
  rating_offsets_of e = e.rating_offsets

module _ {F : Type 0} ⦃f : Float F⦄ where
  abbrev pub sustained_p95_fraction : F
  sustained_p95_fraction = f.literal 9 1

  unfoldable pub new : List (Alert F) → AlertEngine F
  unfolding seed_all
  new reopen_seed = record default_engine { resolved_memory = seed_all reopen_seed [] }

  unfoldable pub sustained_above_p95 : AlertEngine F → ℤ → ℕ → Bool
  unfolding sub_i64 wrap
  sustained_above_p95 e now_ms interval_ms =
      let samples = f.of_i64 (pos (length e.p95_window)) in
      let above = f.of_i64 (pos (count_above e.p95_window)) in
      spans e.p95_window now_ms
      && (not
            (f.lt samples (f.mul (f.of_i64 (expected_samples interval_ms)) sustained_p95_fraction))
          && f.le (f.mul samples sustained_p95_fraction) above)

  unfoldable pub dpc_quality : AlertEngine F → ℤ → ℕ → CandidateQuality
  unfolding user_impact_signals sustained_above_p95
  dpc_quality e now_ms interval_ms =
      let impact = user_impact_signals e in
      let signals = e.interrupts.corroborating_signals in
      record {
        attribution_stable = verdict_stable e.interrupts.verdict;
        corroborating_signals = signals;
        user_impact_signals = impact;
        notify =
            is_attributed e.interrupts.verdict
            || (sustained_above_p95 e now_ms interval_ms && (leb 1 signals || leb 1 impact));
      }
