-- ===== src/Redact/Connections.antt =====
-- Pass 4 (redact.rs): connection-string fragments.
use pc_pulse.Prelude.{
  ℕ, ◌+◌, Bool, true, false, not, ◌&&◌, ◌||◌, Option, none, some, List, [], ◌∷◌, ltb, ◌==◌,
  if◌then◌else◌, length, take, drop,
}
use pc_pulse.Text.{Text, codes, Unicode, ascii_lower, text_eq}
use pc_pulse.Redact.Scan.{redacted, Round, copy, loop, span}
use pc_pulse.Redact.Vocabulary.{
  Cell, quoted_from, compute_in_quotes, chars, in_quotes_at, is_ws, redact_after,
}

abbrev pub connection_keys : List Text
connection_keys = codes "password" ∷ codes "pwd" ∷ codes "user id" ∷ codes "uid" ∷ []

abbrev pub is_identifier_char : Unicode → Cell → Bool
is_identifier_char u c = u.is_alphanumeric c.0 || c.0 == b'_'

abbrev pub at_word_start : Unicode → Option Cell → Bool
at_word_start u none = true
at_word_start u (some prev) = not (is_identifier_char u prev || prev.0 == b'-')

abbrev pub ends_word : Unicode → List Cell → Bool
ends_word u [] = true
ends_word u (c ∷ rest) = not (is_identifier_char u c)

abbrev pub starts_space : List Cell → Bool
starts_space [] = false
starts_space (c ∷ rest) = c.0 == b' '

unfoldable pub skip_spaces : List Cell → List Cell
skip_spaces [] = []
skip_spaces (c ∷ rest) = if c.0 == b' ' then skip_spaces rest else c ∷ rest

abbrev pub starts_ci : List Cell → ℕ → Bool
starts_ci [] k = false
starts_ci (c ∷ rest) k = ascii_lower c.0 == ascii_lower k

unfoldable pub matches_ci_with_ws : Unicode → List Cell → Text → Bool
unfolding skip_spaces
matches_ci_with_ws u here [] = ends_word u here
matches_ci_with_ws u here (k ∷ key) =
    if k == b' '
    then starts_space here && matches_ci_with_ws u (skip_spaces here) key
    else starts_ci here k && matches_ci_with_ws u (drop 1 here) key

-- The length of the value that starts at the first of these cells.
unfoldable pub connection_string_value_end : Unicode → List Cell → ℕ
unfolding span
connection_string_value_end u value =
    let inside = in_quotes_at value in
    let region = if inside then (span (λ c. not (c.0 == b'"')) value).0 else value in
    let (before, after) = span (λ c. not (c.0 == b';' && (inside || not c.1))) region in
    if ltb 0 (length after)
    then length before
    else if inside
    then length region
    else length (span (λ c. not (is_ws u c)) region).0

abbrev pub starts_equals : List Cell → Bool
starts_equals [] = false
starts_equals (c ∷ rest) = c.0 == b'='

-- Behind a key that matches: `kept` characters stand before the value.
unfoldable pub try_value : Unicode → List Cell → ℕ → List Cell → Option Round
unfolding connection_string_value_end
try_value u here kept value =
    let value_len = connection_string_value_end u value in
    if ltb 0 value_len && not (text_eq (chars (take value_len value)) redacted)
    then some (redact_after here kept value_len)
    else none

-- One key of the `for` loop; `none` goes on to the next.
unfoldable pub try_key : Unicode → List Cell → Text → Option Round
unfolding matches_ci_with_ws try_value span
try_key u here key =
    let (ws, next) = span (is_ws u) (drop (length key) here) in
    let (ws', value) = span (is_ws u) (drop 1 next) in
    if matches_ci_with_ws u here key && starts_equals next
    then try_value u here (length key + length ws + 1 + length ws') value
    else none

abbrev pub or_else : Option Round → Option Round → Option Round
or_else none next = next
or_else (some r) next = some r

unfoldable pub try_keys : Unicode → List Cell → List Text → Option Round
unfolding try_key
try_keys u here [] = none
try_keys u here (key ∷ keys) = or_else (try_key u here key) (try_keys u here keys)

abbrev pub or_copy : ℕ → Option Round → Round
or_copy c none = copy c
or_copy c (some r) = r

unfoldable pub connection_round : Unicode → Option Cell → List Cell → Round
unfolding try_keys
connection_round u prev [] = record { emit = []; consumed = 1; found = 0 }
connection_round u prev (c ∷ rest) =
    if at_word_start u prev then or_copy c.0 (try_keys u (c ∷ rest) connection_keys) else copy c.0

unfoldable pub redact_connection_strings : Unicode → Text → Text × ℕ
unfolding loop connection_round quoted_from
redact_connection_strings u input = loop (connection_round u) none 0 (compute_in_quotes input)
