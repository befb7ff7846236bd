-- ===== src/Redact/Opaque.antt =====
-- Pass 2 (redact.rs): long opaque runs, word by word. The two `for idx in 0..=len` loops over a
-- path and over a query are a split at a character and a join.
use pc_pulse.Prelude.{
  ℕ, ◌+◌, Bool, true, false, not, ◌&&◌, ◌||◌, Option, none, some, List, [], ◌∷◌, ◌++◌, leb, ◌==◌,
  if◌then◌else◌, length, all, any,
}
use pc_pulse.Text.{
  Text, Unicode, byte_len, contains_char, is_ascii_alphanumeric, is_ascii_alphabetic,
  is_ascii_hexdigit,
}
use pc_pulse.Redact.Scan.{redacted, Round, copy, loop, span}
use pc_pulse.Redact.Keys.{is_vocab_key_normalized, is_empty}

abbrev pub is_opaque_char : ℕ → Bool
is_opaque_char c =
    is_ascii_alphanumeric c || (c == b'+' || (c == b'/' || (c == b'=' || (c == b'_' || c == b'-'))))

unfoldable pub looks_opaque : Text → Bool
unfolding byte_len
looks_opaque token =
    (leb 20 (byte_len token) && all is_ascii_hexdigit token) || any is_ascii_alphabetic token

abbrev pub opaque : Bool → ℕ → Bool
opaque percent_opaque c = is_opaque_char c || (percent_opaque && c == b'%')

unfoldable pub opaque_round : Bool → Option ℕ → Text → Round
unfolding span looks_opaque
opaque_round percent_opaque prev [] = record { emit = []; consumed = 1; found = 0 }
opaque_round percent_opaque prev (c ∷ rest) =
    let token = (span (opaque percent_opaque) (c ∷ rest)).0 in
    let secret = leb 20 (byte_len token) && looks_opaque token in
    if opaque percent_opaque c
    then record {
      emit = if secret then redacted else token;
      consumed = length token;
      found = if secret then 1 else 0;
    }
    else copy c

unfoldable pub redact_opaque_runs_inner : Bool → Text → Text × ℕ
unfolding loop opaque_round
redact_opaque_runs_inner percent_opaque word = loop (opaque_round percent_opaque) none 0 word

abbrev pub redact_opaque_runs_in_word : Text → Text × ℕ
redact_opaque_runs_in_word = redact_opaque_runs_inner false

-- Emits a text in front.
abbrev pub prepend : Text → Text × ℕ → Text × ℕ
prepend s (out, n) = (s ++ out, n)

abbrev pub append_to : Text × ℕ → Text → Text × ℕ
append_to (out, n) s = (out ++ s, n)

-- The pair, its key, and what follows the key.
unfoldable pub redact_pair_value : Text → Text → Text → Text × ℕ
unfolding redact_opaque_runs_inner is_vocab_key_normalized
redact_pair_value pair key [] = redact_opaque_runs_in_word pair
redact_pair_value pair key (eq ∷ value) =
    if is_vocab_key_normalized key
    then (pair, 0)
    else prepend (key ++ eq ∷ []) (redact_opaque_runs_inner true value)

unfoldable pub redact_query_pair : Text → Text × ℕ
unfolding redact_pair_value span
redact_query_pair pair =
    let (key, rest) = span (λ c. not (c == b'=')) pair in redact_pair_value pair key rest

abbrev pub cons_stem : ℕ → Option (Text × Text) → Option (Text × Text)
cons_stem c none = none
cons_stem c (some (stem, ext)) = some (c ∷ stem, ext)

-- `rposition`: what stands before the last such character, and what behind it.
unfoldable pub split_last : ℕ → Text → Option (Text × Text)
split_last sep [] = none
split_last sep (c ∷ s) =
    let later = split_last sep s in
    elim later [ some p ↦ cons_stem c (some p) | none ↦ if c == sep then some ([], s) else none ]

abbrev pub is_short_extension : Text → Bool
is_short_extension ext = not (is_empty ext) && (leb (length ext) 5 && all is_ascii_alphanumeric ext)

abbrev pub redact_stem : Text → Option (Text × Text) → Text × ℕ
redact_stem segment none = redact_opaque_runs_in_word segment
redact_stem segment (some (stem, ext)) =
    if not (is_empty stem) && is_short_extension ext
    then append_to (redact_opaque_runs_in_word stem) (b'.' ∷ ext)
    else redact_opaque_runs_in_word segment

unfoldable pub redact_path_segment : Text → Text × ℕ
unfolding redact_opaque_runs_inner split_last
redact_path_segment segment = redact_stem segment (split_last b'.' segment)

-- The pieces between the separators; there is always one.
abbrev pub split_head : Bool → ℕ → List Text → List Text
split_head true c pieces = [] ∷ pieces
split_head false c [] = (c ∷ []) ∷ []
split_head false c (piece ∷ pieces) = (c ∷ piece) ∷ pieces

unfoldable pub split_on : ℕ → Text → List Text
split_on sep [] = [] ∷ []
split_on sep (c ∷ s) = split_head (c == sep) c (split_on sep s)

-- Redacts each piece and joins the results.
unfoldable pub redact_pieces : (Text → Text × ℕ) → ℕ → List Text → Text × ℕ
redact_pieces redact sep [] = ([], 0)
redact_pieces redact sep (piece ∷ []) = redact piece
redact_pieces redact sep (piece ∷ next ∷ pieces) =
    let (out, n) = redact piece in
    let (rest, m) = redact_pieces redact sep (next ∷ pieces) in (out ++ sep ∷ rest, n + m)

unfoldable pub redact_query : Text → Text × ℕ
unfolding redact_pieces redact_query_pair split_on
redact_query [] = ([], 0)
redact_query (mark ∷ params) =
    prepend (mark ∷ []) (redact_pieces redact_query_pair b'&' (split_on b'&' params))

unfoldable pub redact_url_word : Text → Text × ℕ
unfolding redact_pieces redact_path_segment redact_query span
redact_url_word word =
    let (path, query) = span (λ c. not (c == b'?')) word in
    let (out, n) = redact_pieces redact_path_segment b'/' (split_on b'/' path) in
    let (rest, m) = redact_query query in (out ++ rest, n + m)

unfoldable pub redact_word : Text → Text × ℕ
unfolding redact_url_word redact_opaque_runs_inner contains_char
redact_word word =
    if contains_char word b'\\'
    then (word, 0)
    else if contains_char word b'/'
    then redact_url_word word
    else redact_opaque_runs_in_word word

unfoldable pub word_round : Unicode → Option ℕ → Text → Round
unfolding redact_word span
word_round u prev [] = record { emit = []; consumed = 1; found = 0 }
word_round u prev (c ∷ rest) =
    let word = (span (λ d. not (u.is_whitespace d)) (c ∷ rest)).0 in
    let (out, n) = redact_word word in
    if u.is_whitespace c then copy c else record { emit = out; consumed = length word; found = n }

unfoldable pub redact_long_opaque_runs : Unicode → Text → Text × ℕ
unfolding loop word_round
redact_long_opaque_runs u input = loop (word_round u) none 0 input
