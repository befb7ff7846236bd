-- ===== src/Redact/Unchanged/Whole.antt =====
-- The four passes together: a command line that is not cut short and in which no field is redacted
-- comes back as it was.
use pc_pulse.Prelude.{ℕ, ◌+◌, ◌≤◌, ◌≡◌, refl, some, ◌∙◌, arith, le→leb, le→ltb}
use pc_pulse.Text.{Text, Unicode, byte_len}
use pc_pulse.Redact.{max_scan_bytes, truncate_at_char_boundary, redact_command_line}
use pc_pulse.Redact.Vocabulary.{redact_vocabulary}
use pc_pulse.Redact.Opaque.{redact_long_opaque_runs}
use pc_pulse.Redact.Urls.{redact_urls}
use pc_pulse.Redact.Connections.{redact_connection_strings}
use pc_pulse.Redact.Unchanged.Vocabulary.{redact_vocabulary-unchanged}
use pc_pulse.Redact.Unchanged.Opaque.{redact_long_opaque_runs-IsUnchanged}
use pc_pulse.Redact.Unchanged.Urls.{redact_urls-unchanged}
use pc_pulse.Redact.Unchanged.Connections.{redact_connection_strings-unchanged}

short-truncate :
    (input : Text) (max_bytes : ℕ)
    → byte_len input ≤ max_bytes
    → truncate_at_char_boundary input max_bytes ≡ some input
unfolding truncate_at_char_boundary
short-truncate input max_bytes h = rw (le→leb (byte_len input) max_bytes h) refl

-- The four passes over the text that is scanned.
abbrev passes : Unicode → Text → Text × ℕ
passes u truncated =
    let (s1, n1) = redact_vocabulary u truncated in
    let (s2, n2) = redact_long_opaque_runs u s1 in
    let (s3, n3) = redact_urls u s2 in
    let (s4, n4) = redact_connection_strings u s3 in (s4, n1 + n2 + n3 + n4)

passes-unchanged : (u : Unicode) (s : Text) → (passes u s).1 ≡ 0 → (passes u s).0 ≡ s
passes-unchanged u s h =
    let s1 = (redact_vocabulary u s).0 in
    let s2 = (redact_long_opaque_runs u s1).0 in
    let s3 = (redact_urls u s2).0 in
    redact_connection_strings-unchanged u s3 (omega arith)
    ∙ redact_urls-unchanged u s2 (omega arith)
    ∙ redact_long_opaque_runs-IsUnchanged u s1 (omega arith)
    ∙ redact_vocabulary-unchanged u s (omega arith)

-- A command line of at most 32 KiB in which `redact_command_line` counts no redacted field is
-- returned as it was given.
pub redact_command_line-unchanged :
    (u : Unicode) (input : Text)
    → byte_len input ≤ max_scan_bytes
    → (redact_command_line u input).1 ≡ 0
    → (redact_command_line u input).0 ≡ input
unfolding redact_command_line
redact_command_line-unchanged u input short h =
    let whole = short-truncate input max_scan_bytes short in
    let no_mark = le→ltb max_scan_bytes (byte_len input) short in
    rw no_mark (rw whole (passes-unchanged u input (rw whole at h)))
