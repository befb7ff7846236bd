-- ===== src/Alerts/Engine/Lifecycle.antt =====
-- What an incident's life promises, apart from how `AlertEngine` of
-- src/PcPulse.Service/src/alerting.rs keeps it: a fingerprint is absent, open, or remembered after its
-- resolution, and moves between these by the steps below.
use pc_pulse.Prelude.{ℕ, ◌≡◌, true, false, Option, none, some}
use pc_pulse.Prelude.Int.{ℤ}
use pc_pulse.Text.{Text}
use pc_pulse.Table.{lookup, text_Eq}
use pc_pulse.Alerts.Model.{Alert}
use pc_pulse.Alerts.Engine.{AlertEngine, ResolvedIncident, inc_u32, within_quiet_period}

pub record Incident : Type 0 where
  pub id : Text
  pub first_seen_ms : ℤ
  pub occurrence_count : ℕ
  pub notify_generation : ℕ

pub data Phase : Type 0 where
  absent : Phase
  open_phase : Incident → Phase
  remembered : Incident → (resolved_at_ms : ℤ) → Phase

abbrev pub first_incident : Text → ℤ → Incident
first_incident id now_ms = record {
  id = id;
  first_seen_ms = now_ms;
  occurrence_count = 1;
  notify_generation = 0;
}

abbrev pub occurred_again : Incident → Incident
occurred_again i = record i { occurrence_count = inc_u32 i.occurrence_count }

abbrev pub notified_again : Incident → Incident
notified_again i = record i { notify_generation = inc_u32 i.notify_generation }

-- One step of a fingerprint at a time; `fresh` is the id that a new incident gets.
pub data Step (now_ms : ℤ) (fresh : Text) : Phase → Phase → Type 0 where
  opened : Step now_ms fresh absent (open_phase (first_incident fresh now_ms))
  forgotten :
      (i : Incident) (at_ms : ℤ)
      → within_quiet_period now_ms at_ms ≡ false
      → Step now_ms fresh (remembered i at_ms) absent
  came_back :
      (i : Incident) (at_ms : ℤ)
      → within_quiet_period now_ms at_ms ≡ true
      → Step now_ms fresh (remembered i at_ms) (open_phase (occurred_again i))
  occurred : (i : Incident) → Step now_ms fresh (open_phase i) (open_phase (occurred_again i))
  renotified : (i : Incident) → Step now_ms fresh (open_phase i) (open_phase (notified_again i))
  closed : (i : Incident) → Step now_ms fresh (open_phase i) (remembered i now_ms)

pub data Steps (now_ms : ℤ) (fresh : Text) : Phase → Phase → Type 0 where
  rest : (p : Phase) → Steps now_ms fresh p p
  then_step :
      (p q r : Phase) → Step now_ms fresh p q → Steps now_ms fresh q r → Steps now_ms fresh p r

module _ {now_ms : ℤ} {fresh : Text} where
  pub one : (p q : Phase) → Step now_ms fresh p q → Steps now_ms fresh p q
  one p q s = then_step p q q s (rest q)

  pub Steps-append :
      (p q r : Phase) → Steps now_ms fresh p q → Steps now_ms fresh q r → Steps now_ms fresh p r
  Steps-append _ _ r (rest p) t = t
  Steps-append _ _ r (then_step p m q s u) t = then_step p m r s (Steps-append m q r u t)

abbrev pub incident_of_memory : ResolvedIncident → Incident
incident_of_memory r = record {
  id = r.id;
  first_seen_ms = r.first_seen_ms;
  occurrence_count = r.occurrence_count;
  notify_generation = r.notify_generation;
}

module _ {F : Type 0} where
  abbrev pub incident_of : Alert F → Incident
  incident_of a = record {
    id = a.id;
    first_seen_ms = a.first_seen_ms;
    occurrence_count = a.occurrence_count;
    notify_generation = a.notify_generation;
  }

  abbrev pub phase_of : Option (Alert F) → Option ResolvedIncident → Phase
  phase_of (some a) memory = open_phase (incident_of a)
  phase_of none (some r) = remembered (incident_of_memory r) r.resolved_at_ms
  phase_of none none = absent

  -- The phase of a fingerprint in the engine.
  abbrev pub phase_at : Text → AlertEngine F → Phase
  phase_at key e = phase_of (lookup key e.active) (lookup key e.resolved_memory)
