-- ===== src/Redact/Unchanged/Urls.antt =====
-- Pass 3 returns its input where it counts nothing.
use pc_pulse.Prelude.{
  ℕ, suc, ◌+◌, ◌≡◌, refl, ap, sym, subst, ◌∙◌, not, ◌&&◌, ◌||◌, Option, none, some, [], ◌∷◌, ◌++◌,
  arith, ◌==◌, length, take, Bool-cases, inl, inr,
}
use pc_pulse.Text.{Text, codes, Unicode, strip_prefix, strip_prefix-eq_some}
use pc_pulse.Redact.Scan.{span}
use pc_pulse.Redact.Faithful.{
  IsFaithful, IsFaithful-if, copy-IsFaithful, loop_text-unchanged, take-span,
}
use pc_pulse.Redact.Keys.{is_vocab_key_normalized}
use pc_pulse.Redact.Urls.{
  userinfo, userinfo_found, userinfo_at, userinfo_round, plain_param, query_value,
  redact_url_userinfo, query_key, query_round, redact_url_query, redact_urls,
}

userinfo_found-IsFaithful :
    (tail : Text) (found : Option Text) → IsFaithful (codes "://" ++ tail) (userinfo_found found)
userinfo_found-IsFaithful tail none = record { advances = omega arith; unchanged = λ h. refl }
userinfo_found-IsFaithful tail (some before) = record {
  advances = omega arith;
  unchanged = λ h. absurd (omega arith);
}

userinfo_at-IsFaithful :
    (c : ℕ) (rest : Text) (tail : Option Text)
    → strip_prefix (codes "://") (c ∷ rest) ≡ tail
    → IsFaithful (c ∷ rest) (userinfo_at c tail)
unfolding userinfo_at
userinfo_at-IsFaithful c rest none e = copy-IsFaithful c rest
userinfo_at-IsFaithful c rest (some tail) e =
    subst (λ text. IsFaithful text (userinfo_found (userinfo tail)))
      (sym (strip_prefix-eq_some (codes "://") (c ∷ rest) tail e))
      (userinfo_found-IsFaithful tail (userinfo tail))

userinfo_round-IsFaithful :
    (prev : Option ℕ) (c : ℕ) (rest : Text) → IsFaithful (c ∷ rest) (userinfo_round prev (c ∷ rest))
unfolding userinfo_round
userinfo_round-IsFaithful prev c rest =
    userinfo_at-IsFaithful c rest (strip_prefix (codes "://") (c ∷ rest)) refl

redact_url_userinfo-unchanged :
    (input : Text) → (redact_url_userinfo input).1 ≡ 0 → (redact_url_userinfo input).0 ≡ input
unfolding redact_url_userinfo
redact_url_userinfo-unchanged input h =
    loop_text-unchanged userinfo_round userinfo_round-IsFaithful input h

plain_param-IsFaithful :
    (sep : ℕ) (key rest : Text)
    → take (length key) rest ≡ key
    → IsFaithful (sep ∷ rest) (plain_param sep key)
plain_param-IsFaithful sep key rest e = record {
  advances = omega arith;
  unchanged =
      λ h. let n : 1 + length key ≡ suc (length key) = omega arith in rw n (ap (◌∷◌ sep) (sym e));
}

query_value-IsFaithful :
    (u : Unicode) (sep : ℕ) (key rest after : Text)
    → take (length key) rest ≡ key
    → IsFaithful (sep ∷ rest) (query_value u sep key after)
unfolding query_value
query_value-IsFaithful u sep key rest [] e = plain_param-IsFaithful sep key rest e
query_value-IsFaithful u sep key rest (c ∷ value) e =
    IsFaithful-if (sep ∷ rest) (c == b'=' && is_vocab_key_normalized key)
      (λ _. record { advances = omega arith; unchanged = λ h. absurd (omega arith) })
      (λ _. plain_param-IsFaithful sep key rest e)

query_key-IsFaithful :
    (u : Unicode) (sep : ℕ) (rest : Text) → IsFaithful (sep ∷ rest) (query_key u sep rest)
unfolding query_key
query_key-IsFaithful u sep rest =
    let p = λ (c : ℕ). not (c == b'=' || (c == b'&' || u.is_whitespace c)) in
    query_value-IsFaithful u sep (span p rest).0 rest (span p rest).1 (take-span p rest)

query_round-IsFaithful :
    (u : Unicode) (prev : Option ℕ) (c : ℕ) (rest : Text)
    → IsFaithful (c ∷ rest) (query_round u prev (c ∷ rest))
unfolding query_round
query_round-IsFaithful u prev c rest = elim (Bool-cases (c == b'?' || c == b'&')) [
  | inl e ↦ rw e (query_key-IsFaithful u c rest)
  | inr e ↦ rw e (copy-IsFaithful c rest)
]

redact_url_query-unchanged :
    (u : Unicode) (input : Text)
    → (redact_url_query u input).1 ≡ 0
    → (redact_url_query u input).0 ≡ input
unfolding redact_url_query
redact_url_query-unchanged u input h =
    loop_text-unchanged (query_round u) (query_round-IsFaithful u) input h

pub redact_urls-unchanged :
    (u : Unicode) (input : Text) → (redact_urls u input).1 ≡ 0 → (redact_urls u input).0 ≡ input
unfolding redact_urls
redact_urls-unchanged u input h =
    let first = redact_url_userinfo-unchanged input (omega arith) in
    redact_url_query-unchanged u (redact_url_userinfo input).0 (omega arith) ∙ first
