-- ===== src/Redact/Keys.antt =====
-- The credential vocabulary and the normalized comparison of keys (redact.rs).
use pc_pulse.Prelude.{Bool, not, ◌&&◌, ◌||◌, true, false, List, [], ◌∷◌, ◌==◌, if◌then◌else◌, any}
use pc_pulse.Text.{Text, codes, to_ascii_lowercase, text_eq, contains_text}

abbrev pub vocab : List Text
vocab =
    codes "password"
    ∷ codes "passwd"
    ∷ codes "pwd"
    ∷ codes "secret"
    ∷ codes "token"
    ∷ codes "apikey"
    ∷ codes "api-key"
    ∷ codes "x-api-key"
    ∷ codes "auth"
    ∷ codes "credential"
    ∷ codes "bearer"
    ∷ codes "cookie"
    ∷ codes "session"
    ∷ []

unfoldable pub strip_separators : Text → Text
strip_separators [] = []
strip_separators (c ∷ key) =
    let rest = strip_separators key in if c == b'_' || c == b'-' then rest else c ∷ rest

unfoldable pub normalize_key : Text → Text
unfolding strip_separators
normalize_key key = to_ascii_lowercase (strip_separators key)

abbrev pub is_empty : Text → Bool
is_empty [] = true
is_empty (c ∷ s) = false

unfoldable pub is_vocab_word : Text → Bool
is_vocab_word word =
    let normalized = normalize_key word in
    not (is_empty normalized) && any (λ v. text_eq (normalize_key v) normalized) vocab

unfoldable pub is_vocab_key_normalized : Text → Bool
is_vocab_key_normalized key =
    let norm = normalize_key key in any (λ v. contains_text norm (normalize_key v)) vocab
