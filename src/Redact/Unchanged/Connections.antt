-- ===== src/Redact/Unchanged/Connections.antt =====
-- Pass 4 returns its input where it counts nothing.
use pc_pulse.Prelude.{
  ℕ, ◌+◌, ◌≤◌, ◌≡◌, ◌∙◌, false, not, ◌&&◌, Option, none, some, List, [], ◌∷◌, arith, ltb, length,
  take, drop, Bool-cases, inl, inr,
}
use pc_pulse.Text.{Text, Unicode, text_eq}
use pc_pulse.Redact.Scan.{redacted, Round, span}
use pc_pulse.Redact.Faithful.{IsFaithful, IsFaithful-if, copy-IsFaithful, loop-unchanged}
use pc_pulse.Redact.Vocabulary.{Cell, chars, compute_in_quotes, is_ws}
use pc_pulse.Redact.Unchanged.Vocabulary.{chars-quoted_from, redact_after-IsFaithful}
use pc_pulse.Redact.Connections.{
  connection_keys, at_word_start, matches_ci_with_ws, connection_string_value_end, starts_equals,
  try_value, try_key, try_keys, or_else, or_copy, connection_round, redact_connection_strings,
}

try_value-IsFaithful :
    (u : Unicode) (c : Cell) (rest value : List Cell) (kept : ℕ)
    → 1 ≤ kept
    → IsFaithful (chars (c ∷ rest)) (or_copy c.0 (try_value u (c ∷ rest) kept value))
unfolding try_value
try_value-IsFaithful u c rest value kept h =
    let value_len = connection_string_value_end u value in
    elim (Bool-cases (ltb 0 value_len && not (text_eq (chars (take value_len value)) redacted))) [
      | inl e ↦ rw e (redact_after-IsFaithful (c ∷ rest) kept value_len h)
      | inr e ↦ rw e (copy-IsFaithful c.0 (chars rest))
    ]

try_key-IsFaithful :
    (u : Unicode) (c : Cell) (rest : List Cell) (key : Text)
    → IsFaithful (chars (c ∷ rest)) (or_copy c.0 (try_key u (c ∷ rest) key))
unfolding try_key
try_key-IsFaithful u c rest key =
    let (ws, next) = span (is_ws u) (drop (length key) (c ∷ rest)) in
    let (ws', value) = span (is_ws u) (drop 1 next) in
    elim (Bool-cases (matches_ci_with_ws u (c ∷ rest) key && starts_equals next)) [
      | inl e ↦ rw e (
          try_value-IsFaithful u c rest value (length key + length ws + 1 + length ws')
            (omega arith))
      | inr e ↦ rw e (copy-IsFaithful c.0 (chars rest))
    ]

or_else-IsFaithful :
    (text : Text) (c : ℕ) (first next : Option Round)
    → IsFaithful text (or_copy c first)
    → IsFaithful text (or_copy c next)
    → IsFaithful text (or_copy c (or_else first next))
or_else-IsFaithful text c none next f n = n
or_else-IsFaithful text c (some r) next f n = f

try_keys-IsFaithful :
    (u : Unicode) (c : Cell) (rest : List Cell) (keys : List Text)
    → IsFaithful (chars (c ∷ rest)) (or_copy c.0 (try_keys u (c ∷ rest) keys))
unfolding try_keys
try_keys-IsFaithful u c rest [] = copy-IsFaithful c.0 (chars rest)
try_keys-IsFaithful u c rest (key ∷ keys) =
    or_else-IsFaithful (chars (c ∷ rest)) c.0 (try_key u (c ∷ rest) key)
      (try_keys u (c ∷ rest) keys) (try_key-IsFaithful u c rest key)
      (try_keys-IsFaithful u c rest keys)

connection_round-IsFaithful :
    (u : Unicode) (prev : Option Cell) (c : Cell) (rest : List Cell)
    → IsFaithful (chars (c ∷ rest)) (connection_round u prev (c ∷ rest))
unfolding connection_round
connection_round-IsFaithful u prev c rest =
    IsFaithful-if (chars (c ∷ rest)) (at_word_start u prev)
      (λ _. try_keys-IsFaithful u c rest connection_keys) (λ _. copy-IsFaithful c.0 (chars rest))

pub redact_connection_strings-unchanged :
    (u : Unicode) (input : Text)
    → (redact_connection_strings u input).1 ≡ 0
    → (redact_connection_strings u input).0 ≡ input
unfolding redact_connection_strings
redact_connection_strings-unchanged u input h =
    loop-unchanged (λ (c : Cell). c.0) (connection_round u) (connection_round-IsFaithful u)
      (compute_in_quotes input) none 0 h
    ∙ chars-quoted_from false input
