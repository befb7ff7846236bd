-- ===== src/Examples.antt =====
-- What the examples in the children share: the Unicode tables cut down to ASCII, and a machine with no
-- drives and no processes.
mod Tracking
mod Commands
mod Clips
mod Incidents
mod Policies
mod Digests
use pc_pulse.Prelude.{◌||◌, ◌&&◌, none, [], leb, ◌==◌}
use pc_pulse.Text.{Unicode, to_ascii_lowercase, is_ascii_alphanumeric}
use pc_pulse.Launches.Paths.{QueryDosDevice}
use pc_pulse.Launches.Tracker.{LiveLookup}

abbrev pub ascii : Unicode
ascii = record {
  to_lowercase = to_ascii_lowercase;
  is_alphanumeric = is_ascii_alphanumeric;
  is_whitespace = λ c. c == 32 || (leb 9 c && leb c 13);
}

-- No drive letter is mapped.
abbrev pub no_drives : QueryDosDevice
no_drives = λ letter. ([], 0)

abbrev pub idle : LiveLookup
idle = λ pid. none
