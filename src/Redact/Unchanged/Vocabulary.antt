-- ===== src/Redact/Unchanged/Vocabulary.antt =====
-- Pass 1 returns its input where it counts nothing.
use mathlib.Core.List.{append-nil}
use pc_pulse.Prelude.{
  ℕ, zero, suc, ◌+◌, ◌≤◌, ◌≡◌, refl, ap, ◌∙◌, Bool, false, not, ◌&&◌, Option, none, List, [], ◌∷◌,
  arith, ltb, ◌==◌, length, take, drop, Bool-cases, Option-cases, inl, inr,
}
use pc_pulse.Text.{Text, Unicode}
use pc_pulse.Redact.Scan.{span}
use pc_pulse.Redact.Faithful.{IsFaithful, IsFaithful-if, copy-IsFaithful, loop-unchanged}
use pc_pulse.Redact.Vocabulary.{
  Cell, chars, quoted_from, compute_in_quotes, in_quotes_at, read_value, key_prefix, separator_form,
  space_form, key_form, vocabulary_round, redact_vocabulary, redact_after, is_ws, is_word_char,
}

pub chars-quoted_from : (inside : Bool) (s : Text) → chars (quoted_from inside s) ≡ s
unfolding quoted_from
chars-quoted_from inside [] = refl
chars-quoted_from inside (c ∷ s) = elim (Bool-cases (c == b'"')) [
  | inl e ↦ rw e (ap (◌∷◌ c) (chars-quoted_from (not inside) s))
  | inr e ↦ rw e (ap (◌∷◌ c) (chars-quoted_from inside s))
]

pub redact_after-IsFaithful :
    (here : List Cell) (kept value_len : ℕ)
    → 1 ≤ kept
    → IsFaithful (chars here) (redact_after here kept value_len)
redact_after-IsFaithful here kept zero h = record {
  advances = omega arith;
  unchanged = λ z.
      append-nil _ ∙ (let e : kept ≡ kept + 0 = omega arith in ap (λ n. take n (chars here)) e);
}
redact_after-IsFaithful here kept (suc value_len) h = record {
  advances = omega arith;
  unchanged = λ z. ground arith;
}

module _ (u : Unicode) where
  separator_form-IsFaithful :
      (here : List Cell) (key_len : ℕ) → IsFaithful (chars here) (separator_form u here key_len)
  unfolding separator_form
  separator_form-IsFaithful here key_len = redact_after-IsFaithful here _ _ (omega arith)

  space_form-IsFaithful :
      (c : Cell) (rest : List Cell) (key_len : ℕ)
      → IsFaithful (chars (c ∷ rest)) (space_form u c.0 (c ∷ rest) key_len)
  unfolding space_form
  space_form-IsFaithful c rest key_len =
      let (ws, value) = span (is_ws u) (drop key_len (c ∷ rest)) in
      let value_len = read_value u value (in_quotes_at value) in
      IsFaithful-if (chars (c ∷ rest)) (ltb 0 (length ws) && ltb 0 value_len)
        (λ room. redact_after-IsFaithful (c ∷ rest) (key_len + length ws) value_len (ground arith))
        (λ _. copy-IsFaithful c.0 (chars rest))

  key_form-IsFaithful :
      (c : Cell) (rest : List Cell) (prefix_len : ℕ)
      → IsFaithful (chars (c ∷ rest)) (key_form u c.0 (c ∷ rest) prefix_len)
  unfolding key_form
  key_form-IsFaithful c rest prefix_len =
      let (word, after) = span (is_word_char u) (drop prefix_len (c ∷ rest)) in
      let (ws, next) = span (is_ws u) after in
      ground (
        arith,
        separator_form-IsFaithful (c ∷ rest) (prefix_len + length word + length ws),
        space_form-IsFaithful c rest (prefix_len + length word),
        copy-IsFaithful c.0 (chars rest),
      )

  vocabulary_round-IsFaithful :
      (prev : Option Cell) (c : Cell) (rest : List Cell)
      → IsFaithful (chars (c ∷ rest)) (vocabulary_round u prev (c ∷ rest))
  unfolding vocabulary_round
  vocabulary_round-IsFaithful prev c rest = elim (Option-cases (key_prefix prev (c ∷ rest))) [
    | inl e ↦ rw e (copy-IsFaithful c.0 (chars rest))
    | inr (n, e) ↦ rw e (key_form-IsFaithful c rest n)
  ]

  pub redact_vocabulary-unchanged :
      (input : Text) → (redact_vocabulary u input).1 ≡ 0 → (redact_vocabulary u input).0 ≡ input
  unfolding redact_vocabulary
  redact_vocabulary-unchanged input h =
      loop-unchanged (λ c. c.0) (vocabulary_round u) vocabulary_round-IsFaithful
        (compute_in_quotes input) none 0 h
      ∙ chars-quoted_from false input
