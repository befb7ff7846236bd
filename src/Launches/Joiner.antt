-- ===== src/Launches/Joiner.antt =====
-- The join of captured command lines to launch rows: `CmdlineJoiner`, `RecentLaunches` and `delta_ms`
-- of src/PcPulse.Service/src/launches.rs. A ring is a list, oldest first. A method returns the new
-- state.
pub mod Pick
pub mod Conserve
pub mod Rings
use pc_pulse.Prelude.{
  ℕ, zero, suc, ◌+◌, ◌-◌, ◌*◌, ◌%◌, ◌^◌, Bool, true, false, not, ◌&&◌, Option, none, some, List, [],
  ◌∷◌, ◌++◌, leb, ltb, ◌==◌, if◌then◌else◌, length, drop,
}
use pc_pulse.Prelude.Int.{ℤ, pos, leb_ℤ, ltb_ℤ, saturating_sub, saturating_abs, inc_u64}
use pc_pulse.Text.{Text, Unicode}
use pc_pulse.Redact.{redact_command_line}
use pc_pulse.Launches.Model.{LaunchEvent}

abbrev pub cmdline_join_cap : ℕ
cmdline_join_cap = 4096

abbrev pub cmdline_join_window_ms : ℤ
cmdline_join_window_ms = pos 2_000

abbrev pub cmdline_join_max_age_ms : ℤ
cmdline_join_max_age_ms = pos 300_000

abbrev pub recent_launch_cap : ℕ
recent_launch_cap = 1024

abbrev pub recent_launch_retain_ms : ℤ
recent_launch_retain_ms = pos 10_000

pub record PendingCmdline : Type 0 where
  pub pid : ℕ
  pub start_ms : ℤ
  pub redacted : Text
  pub redacted_fields : ℕ

pub record CmdlineJoiner : Type 0 where
  pub entries : List PendingCmdline
  pub unmatched_evicted : ℕ

pub record LaunchIdentity : Type 0 where
  pub pid : ℕ
  pub start_time_ms : ℤ
  pub saved_at_ms : ℤ

pub record LateJoinedCmdline : Type 0 where
  pub pid : ℕ
  pub start_time_ms : ℤ
  pub redacted : Text
  pub redacted_fields : ℕ

-- The ring of launches finalized of late.
pub record RecentLaunches : Type 0 where
  pub entries : List LaunchIdentity

unfoldable pub delta_ms : ℤ → ℤ → ℤ
unfolding saturating_sub saturating_abs
delta_ms a b = saturating_abs (saturating_sub a b)

abbrev pub new_joiner : CmdlineJoiner
new_joiner = record { entries = []; unmatched_evicted = 0 }

-- `while self.entries.len() > cap { self.entries.pop_front(); .. }`, with the number of rounds.
unfoldable pub pop_over {ℓ} : {A : Type ℓ} → ℕ → List A → List A × ℕ
pop_over cap [] = ([], 0)
pop_over cap (x ∷ xs) =
    let (kept, popped) = pop_over cap xs in
    if ltb cap (length (x ∷ xs)) then (kept, popped + 1) else (x ∷ xs, 0)

-- `while let Some(entry) = self.entries.front() { if .. { break; } self.entries.pop_front(); .. }`
unfoldable pub pop_while {ℓ} : {A : Type ℓ} → (A → Bool) → List A → List A × ℕ
pop_while old [] = ([], 0)
pop_while old (x ∷ xs) =
    let (kept, popped) = pop_while old xs in if old x then (kept, popped + 1) else (x ∷ xs, 0)

-- `n` times `+= 1` on the counter.
abbrev pub add_u64 : ℕ → ℕ → ℕ
add_u64 n m = (n + m) % 2 ^ 64

abbrev pub evicted : CmdlineJoiner → List PendingCmdline × ℕ → CmdlineJoiner
evicted j (kept, popped) = record {
  entries = kept;
  unmatched_evicted = add_u64 j.unmatched_evicted popped;
}

unfoldable pub offer : Unicode → CmdlineJoiner → ℕ → ℤ → Text → CmdlineJoiner
unfolding pop_over redact_command_line
offer u j pid event_start_ms raw_line =
    let (redacted, redacted_fields) = redact_command_line u raw_line in
    let entry : PendingCmdline = record {
      pid = pid;
      start_ms = event_start_ms;
      redacted = redacted;
      redacted_fields = redacted_fields;
    } in
    evicted j (pop_over cmdline_join_cap (j.entries ++ entry ∷ []))

abbrev pub is_expired : ℤ → ℤ → ℤ → Bool
is_expired now_ms at_ms max_age = not (leb_ℤ (saturating_sub now_ms at_ms) max_age)

unfoldable pub evict_older_than : CmdlineJoiner → ℤ → CmdlineJoiner
unfolding pop_while saturating_sub
evict_older_than j now_ms =
    evicted j (pop_while (λ e. is_expired now_ms e.start_ms cmdline_join_max_age_ms) j.entries)

abbrev pub is_candidate : ℕ → ℤ → PendingCmdline → Bool
is_candidate pid start e = e.pid == pid && leb_ℤ (delta_ms e.start_ms start) cmdline_join_window_ms

-- Of a candidate and the one found behind it, the first unless the other is strictly closer:
-- `min_by_key` returns the first of equals. The pair has what the ring is without the choice.
abbrev pub closer :
    ℤ
    → PendingCmdline
    → List PendingCmdline
    → Option (PendingCmdline × List PendingCmdline)
    → Option (PendingCmdline × List PendingCmdline)
closer start e rest none = some (e, rest)
closer start e rest (some (f, others)) =
    if ltb_ℤ (delta_ms f.start_ms start) (delta_ms e.start_ms start)
    then some (f, e ∷ others)
    else some (e, rest)

abbrev pub keep_front :
    PendingCmdline
    → Option (PendingCmdline × List PendingCmdline)
    → Option (PendingCmdline × List PendingCmdline)
keep_front e none = none
keep_front e (some (f, others)) = some (f, e ∷ others)

-- `.filter(..).min_by_key(..)` and the removal of the entry at that index.
unfoldable pub take_closest :
    ℕ → ℤ → List PendingCmdline → Option (PendingCmdline × List PendingCmdline)
unfolding delta_ms
take_closest pid start [] = none
take_closest pid start (e ∷ rest) =
    let later = take_closest pid start rest in
    if is_candidate pid start e then closer start e rest later else keep_front e later

-- `attach`: the joiner, the event and what the caller is to store.
abbrev pub attached :
    CmdlineJoiner
    → LaunchEvent
    → Option (PendingCmdline × List PendingCmdline)
    → CmdlineJoiner × LaunchEvent × Option (Text × ℕ)
attached j ev none = (j, ev, none)
attached j ev (some (e, rest)) = (
  record { entries = rest; unmatched_evicted = j.unmatched_evicted },
  record {
    pid = ev.pid;
    start_time_ms = ev.start_time_ms;
    stop_time_ms = ev.stop_time_ms;
    exit_code = ev.exit_code;
    exe_name = ev.exe_name;
    exe_path = ev.exe_path;
    raw_image_path = ev.raw_image_path;
    session_id = ev.session_id;
    parent_pid = ev.parent_pid;
    lineage = ev.lineage;
    window_state = ev.window_state;
    console_host = ev.console_host;
    command_line = some e.redacted;
  },
  some (e.redacted, e.redacted_fields),
)

unfoldable pub attach :
    CmdlineJoiner → LaunchEvent → CmdlineJoiner × LaunchEvent × Option (Text × ℕ)
unfolding take_closest
attach j ev = attached j ev (take_closest ev.pid ev.start_time_ms j.entries)

-- One round of the loop of `attach_to_recent`, given the rounds after it.
abbrev pub claim :
    (List PendingCmdline → List PendingCmdline × List LateJoinedCmdline)
    → LaunchIdentity
    → List PendingCmdline
    → Option (PendingCmdline × List PendingCmdline)
    → List PendingCmdline × List LateJoinedCmdline
claim later identity entries none = later entries
claim later identity entries (some (e, rest)) =
    let (remaining, out) = later rest in
    (
      remaining,
      record {
        pid = identity.pid;
        start_time_ms = identity.start_time_ms;
        redacted = e.redacted;
        redacted_fields = e.redacted_fields;
      }
          ∷ out,
    )

-- The loop; the `break` on an empty ring changes nothing, since no round finds anything in it.
unfoldable pub claim_all :
    List LaunchIdentity → List PendingCmdline → List PendingCmdline × List LateJoinedCmdline
unfolding take_closest
claim_all [] entries = (entries, [])
claim_all (identity ∷ recent) [] = ([], [])
claim_all (identity ∷ recent) (e ∷ entries) =
    claim (claim_all recent) identity (e ∷ entries)
      (take_closest identity.pid identity.start_time_ms (e ∷ entries))

unfoldable pub attach_to_recent :
    CmdlineJoiner → RecentLaunches → CmdlineJoiner × List LateJoinedCmdline
unfolding claim_all
attach_to_recent j recent =
    let (remaining, out) = claim_all recent.entries j.entries in
    (record { entries = remaining; unmatched_evicted = j.unmatched_evicted }, out)

abbrev pub clear : CmdlineJoiner → CmdlineJoiner
clear j = record { entries = []; unmatched_evicted = j.unmatched_evicted }

unfoldable pub remember : RecentLaunches → ℕ → ℤ → ℤ → RecentLaunches
unfolding pop_over
remember r pid start_time_ms saved_at_ms = record {
  entries =
      (pop_over recent_launch_cap (
        r.entries
        ++ record { pid = pid; start_time_ms = start_time_ms; saved_at_ms = saved_at_ms } ∷ [])).0;
}

unfoldable pub evict_recent : RecentLaunches → ℤ → RecentLaunches
unfolding pop_while saturating_sub
evict_recent r now_ms = record {
  entries = (pop_while (λ e. is_expired now_ms e.saved_at_ms recent_launch_retain_ms) r.entries).0;
}

abbrev pub clear_recent : RecentLaunches → RecentLaunches
clear_recent r = record { entries = [] }
