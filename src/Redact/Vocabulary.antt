-- ===== src/Redact/Vocabulary.antt =====
-- Pass 1 (redact.rs): `key=value`, `key:value`, `--key value`, `/key:value` and `Bearer value`.
-- A cell is a character and whether it lies inside double quotes.
use pc_pulse.Prelude.{
  ℕ, ◌+◌, Bool, false, not, ◌&&◌, ◌||◌, Option, none, some, List, [], ◌∷◌, ◌++◌, map, ltb, ◌==◌,
  if◌then◌else◌, length, take, drop,
}
use pc_pulse.Text.{Text, codes, Unicode, to_ascii_lowercase, text_eq}
use pc_pulse.Redact.Scan.{redacted, Round, copy, loop, span}
use pc_pulse.Redact.Keys.{is_vocab_word}

abbrev pub Cell : Type 0
Cell = ℕ × Bool

-- The characters with `compute_in_quotes`: the quote itself is outside, and toggles.
unfoldable pub quoted_from : Bool → Text → List Cell
quoted_from inside [] = []
quoted_from inside (c ∷ s) =
    if c == b'"'
    then (c, false) ∷ quoted_from (not inside) s
    else (c, inside) ∷ quoted_from inside s

abbrev pub compute_in_quotes : Text → List Cell
compute_in_quotes = quoted_from false

abbrev pub chars : List Cell → Text
chars = map (λ c. c.0)

-- `in_quotes.get(idx).unwrap_or(false)` at the first of these cells.
abbrev pub in_quotes_at : List Cell → Bool
in_quotes_at [] = false
in_quotes_at (c ∷ cells) = c.1

abbrev pub is_word_char : Unicode → Cell → Bool
is_word_char u c = u.is_alphanumeric c.0 || (c.0 == b'-' || c.0 == b'_')

abbrev pub is_ws : Unicode → Cell → Bool
is_ws u c = u.is_whitespace c.0

-- A value in quotes of its own: up to the closing quote, and with it if it is there.
unfoldable pub quoted_length : ℕ → List Cell → ℕ
quoted_length quote rest =
    let (inner, after) = span (λ d. not (d.0 == quote)) rest in
    if ltb 0 (length after) then length inner + 2 else length inner + 1

-- The length of the value that starts at the first of these cells.
unfoldable pub read_value : Unicode → List Cell → Bool → ℕ
unfolding quoted_length span
read_value u [] in_quotes = 0
read_value u (c ∷ rest) in_quotes =
    if in_quotes
    then length (span (λ d. not (d.0 == b'"')) (c ∷ rest)).0
    else if c.0 == b'"' || c.0 == b'\''
    then quoted_length c.0 rest
    else length (span (λ d. not (is_ws u d) && not (d.0 == b'&')) (c ∷ rest)).0

abbrev pub after_query_sep : Option Cell → Bool
after_query_sep none = false
after_query_sep (some p) = p.0 == b'?' || p.0 == b'&'

abbrev pub starts_flag : List Cell → Bool
starts_flag (c ∷ d ∷ rest) = c.0 == b'-' && d.0 == b'-'
starts_flag _ = false

abbrev pub starts_slash : List Cell → Bool
starts_slash [] = false
starts_slash (c ∷ rest) = c.0 == b'/'

-- The length of the prefix `--` or `/`; `none` for a character that begins a query parameter.
unfoldable pub key_prefix : Option Cell → List Cell → Option ℕ
key_prefix prev here =
    if starts_flag here
    then some 2
    else if starts_slash here
    then some 1
    else if after_query_sep prev
    then none
    else some 0

abbrev pub is_separator : List Cell → Bool
is_separator [] = false
is_separator (c ∷ rest) = c.0 == b'=' || c.0 == b':'

-- Emits the first `kept` characters as they are and a token for the `value_len` behind them.
abbrev pub redact_after : List Cell → ℕ → ℕ → Round
redact_after here kept value_len = record {
  emit = take kept (chars here) ++ (if ltb 0 value_len then redacted else []);
  consumed = kept + value_len;
  found = if ltb 0 value_len then 1 else 0;
}

-- The `=` or `:` form; `key_len` counts the prefix, the word and the space before the separator.
unfoldable pub separator_form : Unicode → List Cell → ℕ → Round
unfolding read_value span
separator_form u here key_len =
    let (ws, value) = span (is_ws u) (drop (key_len + 1) here) in
    redact_after here (key_len + 1 + length ws) (read_value u value (in_quotes_at value))

-- The `--key value` and `Bearer value` forms; `key_len` counts the prefix and the word.
unfoldable pub space_form : Unicode → ℕ → List Cell → ℕ → Round
unfolding read_value span
space_form u c here key_len =
    let (ws, value) = span (is_ws u) (drop key_len here) in
    let value_len = read_value u value (in_quotes_at value) in
    if ltb 0 (length ws) && ltb 0 value_len
    then redact_after here (key_len + length ws) value_len
    else copy c

unfoldable pub key_form : Unicode → ℕ → List Cell → ℕ → Round
unfolding separator_form space_form span is_vocab_word
key_form u c here prefix_len =
    let (word, after) = span (is_word_char u) (drop prefix_len here) in
    let (ws, next) = span (is_ws u) after in
    if is_vocab_word (chars word)
    then if is_separator next
      then separator_form u here (prefix_len + length word + length ws)
      else if prefix_len == 2 || text_eq (to_ascii_lowercase (chars word)) (codes "bearer")
      then space_form u c here (prefix_len + length word)
      else copy c
    else copy c

abbrev pub vocabulary_at : Unicode → ℕ → List Cell → Option ℕ → Round
vocabulary_at u c here none = copy c
vocabulary_at u c here (some prefix_len) = key_form u c here prefix_len

unfoldable pub vocabulary_round : Unicode → Option Cell → List Cell → Round
unfolding key_form key_prefix
vocabulary_round u prev [] = record { emit = []; consumed = 1; found = 0 }
vocabulary_round u prev (c ∷ rest) = vocabulary_at u c.0 (c ∷ rest) (key_prefix prev (c ∷ rest))

unfoldable pub redact_vocabulary : Unicode → Text → Text × ℕ
unfolding loop vocabulary_round quoted_from
redact_vocabulary u input = loop (vocabulary_round u) none 0 (compute_in_quotes input)
