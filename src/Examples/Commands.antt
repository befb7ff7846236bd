-- ===== src/Examples/Commands.antt =====
-- The theorems on command lines and groups at short texts, two captures and three launches.
use pc_pulse.Prelude.{
  ℕ, ◌+◌, ◌-◌, ◌≤◌, ◌≡◌, refl, Bool, true, false, none, some, List, [], ◌∷◌, ◌++◌, arith, length,
  map, drop, All, ◌==◌, min,
}
use pc_pulse.Prelude.Int.{ℤ, pos}
use pc_pulse.Text.{Text, codes, byte_len, text_eq}
use pc_pulse.Examples.{ascii}
use pc_pulse.Launches.Model.{WindowState, windowed, running, LaunchEvent}
use pc_pulse.Redact.{redact_command_line, truncate_at_char_boundary}
use pc_pulse.Redact.Keys.{normalize_key}
use pc_pulse.Redact.Vocabulary.{redact_vocabulary}
use pc_pulse.Redact.Opaque.{redact_long_opaque_runs}
use pc_pulse.Redact.Urls.{redact_urls}
use pc_pulse.Redact.Connections.{redact_connection_strings}
use pc_pulse.Redact.Unchanged.Whole.{redact_command_line-unchanged}
use pc_pulse.Redact.Truncate.{truncate_at_char_boundary-bounds}
use pc_pulse.Launches.Joiner.{
  PendingCmdline, CmdlineJoiner, LaunchIdentity, RecentLaunches, cmdline_join_cap, add_u64, attach,
  attach_to_recent, offer, evict_older_than, remember,
}
use pc_pulse.Launches.Joiner.Pick.{IsAttached, attach-IsAttached}
use pc_pulse.Launches.Joiner.Conserve.{count_pending, count_joined, attach_to_recent-conserves}
use pc_pulse.Launches.Joiner.Rings.{
  First, IsStale, IsYoung, offered, offer-bounds, evict_older_than-splits, remember-bounds,
}
use mathlib.Core.List.{Perm}
use pc_pulse.Launches.Groups.Order.{IsRanked, candidates, group_launches-IsRanked}
use pc_pulse.Launches.Groups.{LaunchGroup, build_group, group_launches}
use pc_pulse.Launches.Groups.Counts.{IsBetween, build_group-partition}
use pc_pulse.Launches.Groups.Total.{total, group_launches-total}

abbrev line : Text
line = codes "cmd.exe /c dir"

redact_command_line-unchanged_example : (redact_command_line ascii line).0 ≡ line
unfolding byte_len redact_command_line redact_vocabulary truncate_at_char_boundary normalize_key
    text_eq redact_long_opaque_runs redact_urls redact_connection_strings
redact_command_line-unchanged_example = redact_command_line-unchanged ascii line (omega arith) refl

-- Eight bytes end inside the last character.
abbrev accented : Text
accented = codes "cmd /" ++ 0xe9 ∷ 0xe9 ∷ []

accented_run : truncate_at_char_boundary accented 8 ≡ some (codes "cmd /" ++ 0xe9 ∷ [])
unfolding truncate_at_char_boundary byte_len
accented_run = refl

truncate_at_char_boundary-bounds_example :
    (front rest : Text) × (truncate_at_char_boundary accented 8 ≡ some front)
    × (accented ≡ front ++ rest)
    × (byte_len front ≤ 8)
    × ((other after : Text)
        → accented ≡ other ++ after
        → byte_len other ≤ 8
        → byte_len other ≤ byte_len front)
truncate_at_char_boundary-bounds_example = truncate_at_char_boundary-bounds accented 8

abbrev capture : ℤ → PendingCmdline
capture start = record { pid = 40; start_ms = start; redacted = line; redacted_fields = 0 }

abbrev ring : CmdlineJoiner
ring = record { entries = capture (pos 900) ∷ capture (pos 1100) ∷ []; unmatched_evicted = 0 }

abbrev launch : ℤ → WindowState → LaunchEvent
launch start state = record {
  pid = 40;
  start_time_ms = start;
  stop_time_ms = none;
  exit_code = none;
  exe_name = codes "cmd.exe";
  exe_path = codes "cmd.exe";
  raw_image_path = none;
  session_id = 1;
  parent_pid = 4;
  lineage = [];
  window_state = state;
  console_host = true;
  command_line = none;
}

attach-IsAttached_example :
    IsAttached ring (launch (pos 1000) windowed) (attach ring (launch (pos 1000) windowed))
attach-IsAttached_example = attach-IsAttached ring (launch (pos 1000) windowed)

abbrev saved : RecentLaunches
saved = record {
  entries = record { pid = 40; start_time_ms = pos 1000; saved_at_ms = pos 2000 } ∷ [];
}

abbrev is_clean : Text → ℕ → Bool
is_clean text fields = fields == 0

attach_to_recent-conserves_example :
    count_pending is_clean ring.entries
    ≡ count_pending is_clean (attach_to_recent ring saved).0.entries
      + count_joined is_clean (attach_to_recent ring saved).1
attach_to_recent-conserves_example = attach_to_recent-conserves ring saved is_clean

offer-bounds_example :
    length (offer ascii ring 40 (pos 1200) line).entries ≤ cmdline_join_cap
    × (offer ascii ring 40 (pos 1200) line).entries
      ≡ drop (3 - cmdline_join_cap) (ring.entries ++ offered ascii 40 (pos 1200) line ∷ [])
    × (offer ascii ring 40 (pos 1200) line).unmatched_evicted ≡ add_u64 0 (3 - cmdline_join_cap)
offer-bounds_example = offer-bounds ascii ring 40 (pos 1200) line (omega arith)

evict_older_than-splits_example :
    (popped : List PendingCmdline) × (ring.entries
      ≡ popped ++ (evict_older_than ring (pos 301_000)).entries)
    × All (IsStale (pos 301_000)) popped
    × First (IsYoung (pos 301_000)) (evict_older_than ring (pos 301_000)).entries
    × ((evict_older_than ring (pos 301_000)).unmatched_evicted ≡ add_u64 0 (length popped))
evict_older_than-splits_example = evict_older_than-splits ring (pos 301_000)

remember-bounds_example :
    length (remember saved 41 (pos 2100) (pos 2200)).entries ≡ min 1024 (length saved.entries + 1)
    × (popped : List LaunchIdentity) × (length popped ≡ length saved.entries + 1 - 1024)
    × (popped ++ (remember saved 41 (pos 2100) (pos 2200)).entries
        ≡ saved.entries
          ++ record { pid = 41; start_time_ms = pos 2100; saved_at_ms = pos 2200 } ∷ [])
remember-bounds_example = remember-bounds saved 41 (pos 2100) (pos 2200)

abbrev launches : List LaunchEvent
launches = launch (pos 1000) windowed ∷ launch (pos 5000) running ∷ []

group_launches-total_example : total (group_launches ascii launches false 5) ≡ 2
group_launches-total_example = group_launches-total ascii launches 5 (omega arith)

build_group-partition_example :
    let g = build_group ascii (launch (pos 1000) windowed) (launch (pos 5000) running ∷ []) in
    (g.windowed + g.never_windowed + g.unobserved + g.running ≡ g.count)
    × All (IsBetween g.first_ms g.last_ms) launches
build_group-partition_example =
    build_group-partition ascii (launch (pos 1000) windowed) (launch (pos 5000) running ∷ [])

-- The two launches of cmd.exe outrank the later one of another program, which is cut.
abbrev with_other : List LaunchEvent
with_other = record (launch (pos 9000) windowed) { exe_path = codes "notepad.exe" } ∷ launches

with_other_run :
    map (λ g. g.exe_path) (group_launches ascii with_other false 1) ≡ codes "cmd.exe" ∷ []
unfolding group_launches
with_other_run = refl

group_launches-IsRanked_example :
    (rows cut : List (ℕ × LaunchGroup)) × (group_launches ascii with_other false 1
      ≡ map (λ g. g.1) rows)
    × (length rows ≡ min 1 (length (rows ++ cut)))
    × IsRanked (rows ++ cut)
    × Perm (rows ++ cut) (candidates ascii with_other false)
group_launches-IsRanked_example = group_launches-IsRanked ascii with_other false 1
