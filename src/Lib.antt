-- ===== src/Lib.antt =====
-- PC Pulse: incidents, their notification policy, launch history and command-line redaction of the
-- Windows service, and the clip codec of the terminal client.
--
-- PC Pulse is a service that samples a machine and a terminal client that shows what it found. The
-- service's parts that are modelled here lie under src/PcPulse.Service/src, the client's one under
-- src/PcPulse.Tui/src.
--
-- alerting.rs turns samples into incidents. At each sample its detectors raise candidates, one for a
-- condition that holds, under a key that is the incident's fingerprint. `AlertEngine::evaluate` counts a
-- streak for each candidate and, once it is long enough, opens the incident, updates it, or takes it
-- up again if it was resolved within the last six hours. An incident without its candidate closes when
-- its growth window says that the excursion is over, or when its reading has been below the exit
-- threshold for as long as a breach takes to count; a window that is still climbing holds it open. Then
-- every open incident is scored by `score` of quality.rs, and `decide` says whether it notifies and
-- whether it notifies again, with floors that `derive_offsets` moves by the user's ratings
-- (`PolicyOffsets`). stats.rs classifies growth windows, config.rs validates the settings. ratings.rs
-- keeps with each rating the demand of the time and a digest cut down to 32 KiB.
--
-- launches.rs keeps a history of the processes that start. Kernel events come in as calls of
-- `LaunchTracker`: `on_start` files a row under (pid, start time) and routes the pid to it, `on_stop`
-- closes the routed row, `observe_window` records a window sample, and once per tick
-- `drain_flushable` hands out what is finished or has run for a minute and forgets what is a day
-- old. A second event session captures command lines: `CmdlineJoiner` redacts each at once, keeps it in
-- a ring, and joins it to a launch of the same pid within 2 s, or to a launch saved a moment ago
-- (`RecentLaunches`). `group_launches` summarises saved launches by executable and ancestry.
--
-- redact.rs takes secrets out of a command line in four passes: a vocabulary of secret keys, long
-- opaque words, URLs, and connection strings.
--
-- pulseclip.rs is the client's codec for video backgrounds: frames quantized to a cube of 252 colours,
-- compressed, and stored behind a header and a table of offsets.
--
-- The files:
--   Prelude, Prelude/Tests, Prelude/Lists, Prelude/Int: numbers, lists, `i64` with its wrapping
--     and saturating operations. Text: strings as lists of code points. Table: maps as association
--     lists.
--   Float: what the program does with an f64, and the laws of its order. Float/Fixed: an instance.
--   Config: config.rs; Config/Validation: theorems.
--   Alerts/Model: the records of models.rs. Alerts/Quality: `score` to `decide` of quality.rs;
--     Quality/Policy: theorems. Alerts/Offsets: `PolicyOffsets` and `derive_offsets`; Offsets/Notifying,
--     Buckets, Isolation, Bounds: theorems.
--   Alerts/Engine: the state of `AlertEngine`. Engine/Memory: `new` and the calls between samples.
--     Engine/Candidates, Resolution, Scoring: the three passes of `evaluate`; Engine/Evaluation: the
--     whole. Engine/Lifecycle: the life of an incident as a step relation; Passes, Closing, Refinement:
--     that the engine follows it. Validity, Agreement, Reachability: its invariant. Elsewhere,
--     Hysteresis, Presence, Lapses, Endings: what stays open and what closes. Streaks, Reopening:
--     what comes back. Restart: the seed. Maps: lemmas.
--   Alerts/Growth: `classify_trend` of stats.rs and the growth functions of alerting.rs;
--     Growth/Runs: `monotonic_since`, how long a count has climbed. Growth/Fates, Climbing, Duration:
--     theorems.
--   Ratings: `majority_bucket` and `build_digest` of ratings.rs; Ratings/Trimming: theorems.
--   Launches/Model: the records of launches.rs, models.rs and etw_props.rs.
--   Launches/Paths: image paths and the device map (`normalize_image_path` to `is_console_host`).
--   Launches/Tracker: the state of `LaunchTracker`, `new`, `on_start`, `build_lineage`. Tracker/Flow:
--     `on_stop`, `observe_window`, `drain_flushable`, `status`. Tracker/Invariant, Rows, Stops, Drain,
--     Counters, Lineage, Lifecycle: theorems by operation. Tracker/Runs: sequences of calls.
--   Launches/Joiner: `CmdlineJoiner` and `RecentLaunches`; Joiner/Pick, Conserve, Rings: theorems.
--   Launches/Groups: `lineage_sig` to `group_launches`; Groups/Counts, Total, Order:
--     theorems.
--   Redact: `truncate_at_char_boundary` and `redact_command_line`. Redact/Keys, Vocabulary, Opaque,
--     Urls, Connections: one file for each pass and for the key tests. Redact/Scan: the loop that
--     they share. Redact/Faithful, Unchanged (a child for each pass), Truncate: theorems.
--   Clip/Color, Bytes, Writer, Reader: pulseclip.rs; Clip/Reader/Roundtrip,
--     Frames: theorems.
--   Examples: the theorems at concrete inputs.
--
-- An operation takes the state and returns the new one. A string is a list of Unicode code points;
-- lengths in bytes are those of its UTF-8 form. The slice that cuts a text (`slice_to`) is none off
-- a character boundary, where Rust panics. Counters are u64 and wrap around; times are i64. The
-- source subtracts times by `-` in some places, which wraps around in a release build and is
-- modelled so, and by saturating methods in others. Loops are structural recursion on the
-- characters, rows or entries that they run over, so no fuel is needed; the loops of `build_digest`
-- count down from the length of the list that they shorten; the walk of a lineage counts down from
-- its bound of five, as the source's `for` does.
--
-- Parameters, since their code is not in the repository: Unicode's case mapping and character
-- classes (`Unicode`), the Win32 call `QueryDosDeviceW`, the process table (`LiveLookup`), and the
-- compression of the clip codec (`deflate`, `inflate`), f64 arithmetic (`Float`; the theorems on
-- order take `IsOrdered`), the ids of new incidents (`Uuid::new_v4`), and the length of a digest's
-- JSON form (`serialized_len`). A hash map's order of iteration is that of insertion here.
--
-- The engine's evaluation takes what its detectors found as arguments: the candidates, the readings and
-- the shapes of the growth windows. The detectors and their own state (process baselines, growth
-- windows, pool statistics) are left out of `AlertEngine`; Alerts/Growth/Runs has the one table that
-- the handle and thread findings take their severity from, apart from the engine.
--
-- Not modelled: the event sessions themselves, storage, serialisation, encryption, the pipe, the
-- rest of the detectors, the rollups and percentiles of ratings, the collection of metrics, and the
-- rest of the terminal client: they are input and output, Windows calls, floating point or drawing,
-- or are left for later.
pub mod Prelude
pub mod Text
pub mod Table
pub mod Float
pub mod Config
pub mod Alerts
pub mod Redact
pub mod Launches
pub mod Ratings
pub mod Clip
pub mod Examples
