-- ===== src/Ratings.antt =====
-- The bucket of a rating and the digest that is kept with it: `majority_bucket`, `truncate_str`,
-- `build_digest` of src/PcPulse.Service/src/ratings.rs. The digest's rollups come as arguments, and
-- the length of its JSON form is a parameter.
pub mod Trimming
use pc_pulse.Prelude.{
  ℕ, zero, suc, ◌+◌, ◌*◌, ◌%◌, ◌^◌, Bool, true, false, not, ◌&&◌, Option, List, [], ◌∷◌, ◌++◌, map,
  take, length, leb, ltb, ◌==◌, if◌then◌else◌,
}
use pc_pulse.Text.{Text, byte_len}
use pc_pulse.Redact.{is_char_boundary, floor_boundary, slice_to, sliced}
use pc_pulse.Alerts.Model.{
  Severity, AlertQuality, Alert, DemandBucket, light, moderate, heavy, bucket_eq,
}

-- `+= 1` on a u32 counter, once for each of a bucket's samples.
unfoldable pub count_bucket : DemandBucket → List DemandBucket → ℕ
count_bucket b [] = 0
count_bucket b (c ∷ buckets) =
    let rest = count_bucket b buckets in if bucket_eq c b then (rest + 1) % 2 ^ 32 else rest

unfoldable pub majority_bucket : List DemandBucket → DemandBucket
unfolding count_bucket
majority_bucket buckets =
    if leb (count_bucket light buckets) (count_bucket heavy buckets)
      && leb (count_bucket moderate buckets) (count_bucket heavy buckets)
    then heavy
    else if leb (count_bucket light buckets) (count_bucket moderate buckets)
    then moderate
    else light

abbrev pub digest_max_bytes : ℕ
digest_max_bytes = 32 * 1024

abbrev pub digest_max_processes : ℕ
digest_max_processes = 20

abbrev pub string_truncation_ladder : List ℕ
string_truncation_ladder = 500 ∷ 200 ∷ 80 ∷ 20 ∷ []

unfoldable pub truncate_str : Text → ℕ → Text
unfolding byte_len is_char_boundary floor_boundary slice_to
truncate_str value max_len =
    if leb (byte_len value) max_len
    then value
    else sliced (slice_to value (floor_boundary value max_len)) ++ 0x2026 ∷ []

pub record DigestIncident (F : Type 0) : Type 0 where
  pub fingerprint : Text
  pub kind : Text
  pub severity : Severity
  pub quality : AlertQuality F
  pub notify : Bool
  pub acknowledged : Bool

-- What `compose` puts together; R is the system's rollup and P a process's.
pub record Digest (F R P : Type 0) : Type 0 where
  pub rollup : R
  pub processes : List P
  pub incidents : List (DigestIncident F)
  pub learning : Bool
  pub learning_percent : Option ℕ
  pub collector_health : Text

module _ {A : Type 0} where
  -- `Vec::pop`
  unfoldable pub pop : List A → List A
  pop [] = []
  pop (x ∷ []) = []
  pop (x ∷ (y ∷ rest)) = x ∷ pop (y ∷ rest)

module _ {F : Type 0} where
  abbrev pub digest_incident : Alert F → DigestIncident F
  digest_incident alert = record {
    fingerprint = alert.fingerprint;
    kind = alert.kind;
    severity = alert.severity;
    quality = alert.quality;
    notify = alert.notify;
    acknowledged = alert.acknowledged;
  }

  abbrev pub shorten_incident : ℕ → DigestIncident F → DigestIncident F
  shorten_incident max_len incident = record incident {
    kind = truncate_str incident.kind max_len;
    fingerprint = truncate_str incident.fingerprint max_len;
  }

module _ {F R P : Type 0} (serialized_len : Digest F R P → ℕ) where
  abbrev pub is_over : Digest F R P → Bool
  is_over d = ltb digest_max_bytes (serialized_len d)

  -- The rounds of a loop that are left.
  unfoldable pub drop_processes : ℕ → Digest F R P → Digest F R P
  unfolding pop
  drop_processes zero d = d
  drop_processes (suc rounds) d =
      let rest = drop_processes rounds (record d { processes = pop d.processes }) in
      if is_over d && not (length d.processes == 0) then rest else d

  unfoldable pub drop_incidents : ℕ → Digest F R P → Digest F R P
  unfolding pop
  drop_incidents zero d = d
  drop_incidents (suc rounds) d =
      let rest = drop_incidents rounds (record d { incidents = pop d.incidents }) in
      if is_over d && not (length d.incidents == 0) then rest else d

  unfoldable pub shorten_strings : List ℕ → Digest F R P → Digest F R P
  unfolding truncate_str
  shorten_strings [] d = d
  shorten_strings (max_len ∷ ladder) d =
      let shorter = record d {
        collector_health = truncate_str d.collector_health max_len;
        incidents = map (shorten_incident max_len) d.incidents;
      } in
      let rest = shorten_strings ladder shorter in
      if leb (serialized_len shorter) digest_max_bytes then shorter else rest

  unfoldable pub trim_digest : Digest F R P → Digest F R P
  unfolding drop_processes drop_incidents shorten_strings
  trim_digest d =
      let d = drop_processes (length d.processes) d in
      let d = if is_over d then shorten_strings string_truncation_ladder d else d in
      drop_incidents (length d.incidents) d

  unfoldable pub build_digest : R → List P → List (Alert F) → Bool → Option ℕ → Text → Digest F R P
  unfolding trim_digest
  build_digest rollup processes alerts learning learning_percent collector_health =
      trim_digest (record {
        rollup = rollup;
        processes = take digest_max_processes processes;
        incidents = map digest_incident alerts;
        learning = learning;
        learning_percent = learning_percent;
        collector_health = collector_health;
      })
