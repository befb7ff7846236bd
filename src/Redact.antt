-- ===== src/Redact.antt =====
-- Command-line redaction, src/PcPulse.Service/src/redact.rs: the four passes in their order. Each
-- pass has a module of its own; `Scan` is the loop that they share.
pub mod Scan
pub mod Keys
pub mod Vocabulary
pub mod Opaque
pub mod Urls
pub mod Connections
pub mod Faithful
pub mod Unchanged
pub mod Truncate
use pc_pulse.Prelude.{
  ℕ, zero, suc, ◌+◌, ◌-◌, ◌*◌, Bool, true, false, Option, none, some, List, [], ◌∷◌, ◌++◌, leb, ltb,
  ◌==◌, if◌then◌else◌,
}
use pc_pulse.Text.{Text, codes, Unicode, char_len, byte_len}
use Vocabulary.{redact_vocabulary}
use Opaque.{redact_long_opaque_runs}
use Urls.{redact_urls}
use Connections.{redact_connection_strings}

abbrev pub max_scan_bytes : ℕ
max_scan_bytes = 32 * 1024

-- "…[truncated]"
abbrev pub truncated_marker : Text
truncated_marker = 0x2026 ∷ codes "[truncated]"

-- `str::is_char_boundary`.
unfoldable pub is_char_boundary : Text → ℕ → Bool
is_char_boundary [] index = index == 0
is_char_boundary (c ∷ s) index =
    if index == 0
    then true
    else if ltb index (char_len c)
    then false
    else is_char_boundary s (index - char_len c)

-- `while end > 0 && !input.is_char_boundary(end) { end -= 1 }`
unfoldable pub floor_boundary : Text → ℕ → ℕ
floor_boundary input zero = zero
floor_boundary input (suc end) = elim (is_char_boundary input (suc end)) [
  | true ↦ suc end
  | false ↦ floor_boundary input end
]

abbrev pub push_front : ℕ → Option Text → Option Text
push_front c none = none
push_front c (some s) = some (c ∷ s)

-- `&input[..end]`: none where it panics, off a boundary or behind the end.
unfoldable pub slice_to : Text → ℕ → Option Text
slice_to [] end = if end == 0 then some [] else none
slice_to (c ∷ s) end =
    if end == 0
    then some []
    else if ltb end (char_len c)
    then none
    else push_front c (slice_to s (end - char_len c))

unfoldable pub truncate_at_char_boundary : Text → ℕ → Option Text
unfolding slice_to floor_boundary is_char_boundary byte_len
truncate_at_char_boundary input max_bytes =
    if leb (byte_len input) max_bytes
    then some input
    else slice_to input (floor_boundary input max_bytes)

-- The text of a slice that does not panic; of one that does, none.
abbrev pub sliced : Option Text → Text
sliced none = []
sliced (some s) = s

unfoldable pub redact_command_line : Unicode → Text → Text × ℕ
redact_command_line u input =
    let truncated = sliced (truncate_at_char_boundary input max_scan_bytes) in
    let (s1, n1) = redact_vocabulary u truncated in
    let (s2, n2) = redact_long_opaque_runs u s1 in
    let (s3, n3) = redact_urls u s2 in
    let (s4, n4) = redact_connection_strings u s3 in
    (
      (if ltb max_scan_bytes (byte_len input) then s4 ++ truncated_marker else s4),
      n1 + n2 + n3 + n4,
    )
