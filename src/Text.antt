-- ===== src/Text.antt =====
-- Rust's `String`, `&str` and `[char]` as lists of code points, and what the program uses of the
-- standard library on them. The Unicode tables (lower case, alphanumeric, white space) are a
-- parameter; all that is ASCII is written out.
use Prim.Native.Char.{code}
use Prim.Native.String.{String}
use pc_pulse.Prelude.{
  ℕ, ◌+◌, ◌≡◌, ◌↔◌, refl, Bool, true, false, ◌&&◌, ◌||◌, Option, none, some, List, [], ◌∷◌, ◌++◌,
  map, arith, ltb, leb, ◌==◌, if◌then◌else◌,
}

abbrev pub Text : Type 0
Text = List ℕ

-- The code points of a literal.
abbrev pub codes : String → Text
codes String.[] = []
codes (String.◌∷◌ c s) = code c ∷ codes s

-- `to_lowercase`, `char::is_alphanumeric` and `char::is_whitespace` of the standard library.
pub record Unicode : Type 0 where
  pub to_lowercase : Text → Text
  pub is_alphanumeric : ℕ → Bool
  pub is_whitespace : ℕ → Bool

abbrev pub is_ascii_digit : ℕ → Bool
is_ascii_digit c = leb b'0' c && leb c b'9'

abbrev pub is_ascii_upper : ℕ → Bool
is_ascii_upper c = leb b'A' c && leb c b'Z'

abbrev pub is_ascii_alphabetic : ℕ → Bool
is_ascii_alphabetic c = is_ascii_upper c || (leb b'a' c && leb c b'z')

abbrev pub is_ascii_alphanumeric : ℕ → Bool
is_ascii_alphanumeric c = is_ascii_alphabetic c || is_ascii_digit c

abbrev pub is_ascii_hexdigit : ℕ → Bool
is_ascii_hexdigit c = is_ascii_digit c || ((leb b'A' c && leb c b'F') || (leb b'a' c && leb c b'f'))

abbrev pub ascii_lower : ℕ → ℕ
ascii_lower c = if is_ascii_upper c then c + 32 else c

abbrev pub to_ascii_lowercase : Text → Text
to_ascii_lowercase = map ascii_lower

-- Bytes of a code point and of a text in UTF-8, which is what `str::len` counts.
abbrev pub char_len : ℕ → ℕ
char_len c = if ltb c 0x80 then 1 else if ltb c 0x800 then 2 else if ltb c 0x1_0000 then 3 else 4

unfoldable pub byte_len : Text → ℕ
byte_len [] = 0
byte_len (c ∷ s) = char_len c + byte_len s

unfoldable pub text_eq : Text → Text → Bool
text_eq [] [] = true
text_eq (a ∷ s) (b ∷ t) = a == b && text_eq s t
text_eq _ _ = false

pub text_eq_iff : (s t : Text) → (text_eq s t ≡ true) ↔ (s ≡ t)
unfolding text_eq
text_eq_iff [] [] = ground arith
text_eq_iff [] (b ∷ t) = ground arith
text_eq_iff (a ∷ s) [] = ground arith
text_eq_iff (a ∷ s) (b ∷ t) = ground (arith, text_eq_iff s t)

-- `str::strip_prefix`.
unfoldable pub strip_prefix : Text → Text → Option Text
strip_prefix [] s = some s
strip_prefix (p ∷ ps) [] = none
strip_prefix (p ∷ ps) (c ∷ s) = if p == c then strip_prefix ps s else none

pub strip_prefix-eq_some : (p s rest : Text) → strip_prefix p s ≡ some rest → s ≡ p ++ rest
unfolding strip_prefix
strip_prefix-eq_some [] s rest h = cc
strip_prefix-eq_some (p ∷ ps) [] rest h = cc
strip_prefix-eq_some (p ∷ ps) (c ∷ s) rest h = ground (arith, strip_prefix-eq_some ps s rest)

pub strip_prefix-append : (p s : Text) → strip_prefix p (p ++ s) ≡ some s
unfolding strip_prefix
strip_prefix-append [] s = refl
strip_prefix-append (p ∷ ps) s = ground (arith, strip_prefix-append ps s)

-- `str::contains` with a text.
abbrev pub is_some {ℓ} : {A : Type ℓ} → Option A → Bool
is_some none = false
is_some (some a) = true

unfoldable pub contains_text : Text → Text → Bool
unfolding strip_prefix
contains_text [] needle = is_some (strip_prefix needle [])
contains_text (c ∷ s) needle = is_some (strip_prefix needle (c ∷ s)) || contains_text s needle

unfoldable pub contains_char : Text → ℕ → Bool
contains_char [] c = false
contains_char (d ∷ s) c = d == c || contains_char s c

-- `Ord for str`: the order of the UTF-8 bytes is that of the code points.
unfoldable pub text_leb : Text → Text → Bool
text_leb [] t = true
text_leb (a ∷ s) [] = false
text_leb (a ∷ s) (b ∷ t) = ltb a b || (a == b && text_leb s t)
