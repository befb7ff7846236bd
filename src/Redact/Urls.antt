-- ===== src/Redact/Urls.antt =====
-- Pass 3 (redact.rs): URL userinfo, and the values of secret query parameters. The source finds the
-- next `://`, `?` or `&` and copies what stands before it; here each character before it is a
-- round of the loop.
use pc_pulse.Prelude.{
  ℕ, ◌+◌, not, ◌&&◌, ◌||◌, Option, none, some, [], ◌∷◌, ◌++◌, ◌==◌, if◌then◌else◌, length,
}
use pc_pulse.Text.{Text, codes, Unicode, strip_prefix}
use pc_pulse.Redact.Scan.{redacted, Round, copy, loop, span}
use pc_pulse.Redact.Keys.{is_vocab_key_normalized}

-- The user information of the text behind `://`: what stands before the first `@`, if that comes
-- before the first `/`.
unfoldable pub userinfo : Text → Option Text
unfolding span
userinfo tail =
    let (before, after) = span (λ c. not (c == b'@' || c == b'/')) tail in
    elim after [ [] ↦ none | ◌∷◌ c rest ↦ if c == b'@' then some before else none ]

abbrev pub userinfo_found : Option Text → Round
userinfo_found none = record { emit = codes "://"; consumed = 3; found = 0 }
userinfo_found (some before) = record {
  emit = codes "://" ++ redacted ++ b'@' ∷ [];
  consumed = 3 + (length before + 1);
  found = 1;
}

unfoldable pub userinfo_at : ℕ → Option Text → Round
unfolding userinfo
userinfo_at c none = copy c
userinfo_at c (some tail) = userinfo_found (userinfo tail)

unfoldable pub userinfo_round : Option ℕ → Text → Round
unfolding userinfo_at strip_prefix
userinfo_round prev [] = record { emit = []; consumed = 1; found = 0 }
userinfo_round prev (c ∷ rest) = userinfo_at c (strip_prefix (codes "://") (c ∷ rest))

unfoldable pub redact_url_userinfo : Text → Text × ℕ
unfolding loop userinfo_round
redact_url_userinfo input = loop userinfo_round none 0 input

abbrev pub plain_param : ℕ → Text → Round
plain_param sep key = record { emit = sep ∷ key; consumed = 1 + length key; found = 0 }

-- Behind a separator and a key: the value, if there is an `=` and the key is secret.
unfoldable pub query_value : Unicode → ℕ → Text → Text → Round
unfolding span
query_value u sep key [] = plain_param sep key
query_value u sep key (c ∷ value) =
    let secret = (span (λ d. not (d == b'&' || u.is_whitespace d)) value).0 in
    if c == b'=' && is_vocab_key_normalized key
    then record {
      emit = sep ∷ key ++ b'=' ∷ redacted;
      consumed = 1 + length key + 1 + length secret;
      found = 1;
    }
    else plain_param sep key

unfoldable pub query_key : Unicode → ℕ → Text → Round
unfolding query_value span
query_key u sep rest =
    let (key, after) = span (λ c. not (c == b'=' || (c == b'&' || u.is_whitespace c))) rest in
    query_value u sep key after

unfoldable pub query_round : Unicode → Option ℕ → Text → Round
unfolding query_key
query_round u prev [] = record { emit = []; consumed = 1; found = 0 }
query_round u prev (c ∷ rest) = if c == b'?' || c == b'&' then query_key u c rest else copy c

unfoldable pub redact_url_query : Unicode → Text → Text × ℕ
unfolding loop query_round
redact_url_query u input = loop (query_round u) none 0 input

unfoldable pub redact_urls : Unicode → Text → Text × ℕ
unfolding redact_url_userinfo redact_url_query
redact_urls u input =
    let (s, n) = redact_url_userinfo input in let (out, m) = redact_url_query u s in (out, n + m)
