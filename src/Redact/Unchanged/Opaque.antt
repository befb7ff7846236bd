-- ===== src/Redact/Unchanged/Opaque.antt =====
-- Pass 2 returns its input where it counts nothing.
use mathlib.Core.List.{append_assoc}
use pc_pulse.Prelude.{
  ℕ, ◌≡◌, refl, ap, sym, ◌∙◌, Bool, true, false, not, ◌&&◌, Option, none, some, List, [], ◌∷◌, ◌++◌,
  arith, ◌==◌, Bool-cases, Option-cases, inl, inr,
}
use pc_pulse.Text.{Text, Unicode, contains_char}
use pc_pulse.Redact.Scan.{span, span-append}
use pc_pulse.Redact.Faithful.{IsFaithful, copy-IsFaithful, loop_text-unchanged, take-span, span_pos}
use pc_pulse.Redact.Keys.{is_vocab_key_normalized, is_empty}
use pc_pulse.Redact.Opaque.{
  opaque, opaque_round, redact_opaque_runs_inner, redact_pair_value, redact_query_pair, split_last,
  is_short_extension, redact_stem, redact_path_segment, split_head, split_on, redact_pieces,
  redact_query, redact_url_word, redact_word, word_round, redact_long_opaque_runs,
}

-- A redactor that counts nothing changes nothing.
abbrev pub IsUnchanged : Text × ℕ → Text → Type 0
IsUnchanged r s = r.1 ≡ 0 → r.0 ≡ s

opaque_round-IsFaithful :
    (percent : Bool) (prev : Option ℕ) (c : ℕ) (rest : Text)
    → IsFaithful (c ∷ rest) (opaque_round percent prev (c ∷ rest))
unfolding opaque_round
opaque_round-IsFaithful percent prev c rest = ground (
  arith,
  copy-IsFaithful c rest,
  take-span (opaque percent) (c ∷ rest),
  span_pos (opaque percent) c rest,
)

inner-IsUnchanged :
    (percent : Bool) (word : Text) → IsUnchanged (redact_opaque_runs_inner percent word) word
unfolding redact_opaque_runs_inner
inner-IsUnchanged percent word h =
    loop_text-unchanged (opaque_round percent) (opaque_round-IsFaithful percent) word h

split_last-eq_some :
    (sep : ℕ) (s stem ext : Text) → split_last sep s ≡ some (stem, ext) → s ≡ stem ++ sep ∷ ext
unfolding split_last
split_last-eq_some sep [] stem ext h = cc
split_last-eq_some sep (c ∷ s) stem ext h = elim (Option-cases (split_last sep s)) [
  | inr ((stem', ext'), e) ↦
      let ih = split_last-eq_some sep s stem' ext' e in ground (arith, rw e at h)
  | inl e ↦ ground (arith, rw e at h)
]

redact_stem-IsUnchanged :
    (segment : Text) (parts : Option (Text × Text))
    → split_last b'.' segment ≡ parts
    → IsUnchanged (redact_stem segment parts) segment
redact_stem-IsUnchanged segment none e h = inner-IsUnchanged false segment h
redact_stem-IsUnchanged segment (some (stem, ext)) e h =
    elim (Bool-cases (not (is_empty stem) && is_short_extension ext)) [
      | inl short ↦ rw short (
          ap (λ t. t ++ b'.' ∷ ext) (inner-IsUnchanged false stem (rw short at h))
          ∙ sym (split_last-eq_some b'.' segment stem ext e))
      | inr long ↦ rw long (inner-IsUnchanged false segment (rw long at h))
    ]

redact_path_segment-IsUnchanged :
    (segment : Text) → IsUnchanged (redact_path_segment segment) segment
unfolding redact_path_segment
redact_path_segment-IsUnchanged segment h =
    redact_stem-IsUnchanged segment (split_last b'.' segment) refl h

pair_value-IsUnchanged :
    (pair key rest : Text) → key ++ rest ≡ pair → IsUnchanged (redact_pair_value pair key rest) pair
unfolding redact_pair_value
pair_value-IsUnchanged pair key [] e h = inner-IsUnchanged false pair h
pair_value-IsUnchanged pair key (eq ∷ value) e h = elim (Bool-cases (is_vocab_key_normalized key)) [
  | inl secret ↦ rw secret refl
  | inr plain ↦ rw plain (
      ap (◌++◌ (key ++ eq ∷ [])) (inner-IsUnchanged true value (rw plain at h))
      ∙ append_assoc key (eq ∷ []) value
      ∙ e)
]

redact_query_pair-IsUnchanged : (pair : Text) → IsUnchanged (redact_query_pair pair) pair
unfolding redact_query_pair
redact_query_pair-IsUnchanged pair h =
    let (key, rest) = span (λ c. not (c == b'=')) pair in
    pair_value-IsUnchanged pair key rest (span-append (λ c. not (c == b'=')) pair) h

abbrev join_on : ℕ → List Text → Text
join_on sep [] = []
join_on sep (piece ∷ []) = piece
join_on sep (piece ∷ next ∷ pieces) = piece ++ sep ∷ join_on sep (next ∷ pieces)

redact_pieces-IsUnchanged :
    (redact : Text → Text × ℕ)
    → ((s : Text) → IsUnchanged (redact s) s)
    → (sep : ℕ) (pieces : List Text)
    → IsUnchanged (redact_pieces redact sep pieces) (join_on sep pieces)
unfolding redact_pieces
redact_pieces-IsUnchanged redact u sep [] h = refl
redact_pieces-IsUnchanged redact u sep (piece ∷ []) h = u piece h
redact_pieces-IsUnchanged redact u sep (piece ∷ next ∷ pieces) h =
    let first = u piece (omega arith) in
    let later = redact_pieces-IsUnchanged redact u sep (next ∷ pieces) (omega arith) in
    cc (first, later)

abbrev IsFull : List Text → Type 0
IsFull [] = ⊥
IsFull (piece ∷ pieces) = Unit

join_on-split_head :
    (sep c : ℕ) (pieces : List Text)
    → IsFull pieces
    → join_on sep (split_head (c == sep) c pieces) ≡ c ∷ join_on sep pieces
join_on-split_head sep c [] full = absurd full
join_on-split_head sep c (piece ∷ []) full = ground arith
join_on-split_head sep c (piece ∷ next ∷ pieces) full = ground arith

split_head-IsFull : (b : Bool) (c : ℕ) (pieces : List Text) → IsFull (split_head b c pieces)
split_head-IsFull true c pieces = tt
split_head-IsFull false c [] = tt
split_head-IsFull false c (piece ∷ pieces) = tt

split_on-IsFull : (sep : ℕ) (s : Text) → IsFull (split_on sep s)
unfolding split_on
split_on-IsFull sep [] = tt
split_on-IsFull sep (c ∷ s) = split_head-IsFull (c == sep) c (split_on sep s)

join_on-split_on : (sep : ℕ) (s : Text) → join_on sep (split_on sep s) ≡ s
unfolding split_on
join_on-split_on sep [] = refl
join_on-split_on sep (c ∷ s) =
    join_on-split_head sep c (split_on sep s) (split_on-IsFull sep s)
    ∙ ap (◌∷◌ c) (join_on-split_on sep s)

redact_query-IsUnchanged : (query : Text) → IsUnchanged (redact_query query) query
unfolding redact_query
redact_query-IsUnchanged [] h = refl
redact_query-IsUnchanged (mark ∷ params) h = ap (◌∷◌ mark) (
    redact_pieces-IsUnchanged redact_query_pair redact_query_pair-IsUnchanged b'&'
      (split_on b'&' params) h
    ∙ join_on-split_on b'&' params)

redact_url_word-IsUnchanged : (word : Text) → IsUnchanged (redact_url_word word) word
unfolding redact_url_word
redact_url_word-IsUnchanged word h =
    let (path, query) = span (λ c. not (c == b'?')) word in
    let first =
      redact_pieces-IsUnchanged redact_path_segment redact_path_segment-IsUnchanged b'/'
        (split_on b'/' path) (omega arith) in
    let later = redact_query-IsUnchanged query (omega arith) in
    rw (first ∙ join_on-split_on b'/' path, later) (span-append (λ c. not (c == b'?')) word)

redact_word-IsUnchanged : (word : Text) → IsUnchanged (redact_word word) word
unfolding redact_word
redact_word-IsUnchanged word h = elim (Bool-cases (contains_char word b'\\')) [
  | inl path ↦ rw path refl
  | inr other ↦ elim (Bool-cases (contains_char word b'/')) [
    | inl url ↦ rw (other, url) (redact_url_word-IsUnchanged word (rw (other, url) at h))
    | inr plain ↦ rw (other, plain) (inner-IsUnchanged false word (rw (other, plain) at h))
  ]
]

word_round-IsFaithful :
    (u : Unicode) (prev : Option ℕ) (c : ℕ) (rest : Text)
    → IsFaithful (c ∷ rest) (word_round u prev (c ∷ rest))
unfolding word_round
word_round-IsFaithful u prev c rest =
    let p = λ (d : ℕ). not (u.is_whitespace d) in
    let word = (span p (c ∷ rest)).0 in
    ground (
      arith,
      copy-IsFaithful c rest,
      redact_word-IsUnchanged word,
      take-span p (c ∷ rest),
      span_pos p c rest,
    )

pub redact_long_opaque_runs-IsUnchanged :
    (u : Unicode) (input : Text) → IsUnchanged (redact_long_opaque_runs u input) input
unfolding redact_long_opaque_runs
redact_long_opaque_runs-IsUnchanged u input h =
    loop_text-unchanged (word_round u) (word_round-IsFaithful u) input h
