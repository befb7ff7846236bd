-- ===== src/Clip/Bytes.antt =====
-- Little-endian numbers and exact reads.
use pc_pulse.Prelude.{
  ℕ, zero, suc, ◌+◌, ◌*◌, ◌/◌, ◌%◌, ◌<◌, ◌≡◌, refl, ap, subst, Option, none, some, List, [], ◌∷◌,
  ◌++◌, arith, leb, le→leb, if◌then◌else◌, length, take, drop, take-length-append,
  drop-length-append, length-append,
}

-- 256 to the power of the number of bytes.
unfoldable pub bound : ℕ → ℕ
bound zero = 1
bound (suc k) = 256 * bound k

-- `to_le_bytes` of a number of k bytes.
unfoldable pub le_bytes : ℕ → ℕ → List ℕ
le_bytes zero n = []
le_bytes (suc k) n = n % 256 ∷ le_bytes k (n / 256)

-- `from_le_bytes`
unfoldable pub of_le_bytes : List ℕ → ℕ
of_le_bytes [] = 0
of_le_bytes (b ∷ bs) = b + 256 * of_le_bytes bs

-- `read_exact` into a buffer of n bytes.
unfoldable pub read_exact : ℕ → List ℕ → Option (List ℕ × List ℕ)
read_exact n bytes = if leb n (length bytes) then some (take n bytes, drop n bytes) else none

abbrev pub number : Option (List ℕ × List ℕ) → Option (ℕ × List ℕ)
number none = none
number (some (buf, rest)) = some (of_le_bytes buf, rest)

-- `read_u16`, `read_u32`, `read_u64`, and `read_f32` for the bits of the number.
unfoldable pub read_le : ℕ → List ℕ → Option (ℕ × List ℕ)
unfolding read_exact of_le_bytes
read_le k bytes = number (read_exact k bytes)

pub length-le_bytes : (k n : ℕ) → length (le_bytes k n) ≡ k
unfolding le_bytes
length-le_bytes zero n = refl
length-le_bytes (suc k) n = ap suc (length-le_bytes k (n / 256))

of_le_bytes-le_bytes : (k n : ℕ) → n < bound k → of_le_bytes (le_bytes k n) ≡ n
unfolding of_le_bytes le_bytes bound
of_le_bytes-le_bytes zero n h = omega arith
of_le_bytes-le_bytes (suc k) n h =
    let ih = of_le_bytes-le_bytes k (n / 256) (omega arith) in omega arith

pub read_exact-append :
    (xs rest : List ℕ) (k : ℕ) → length xs ≡ k → read_exact k (xs ++ rest) ≡ some (xs, rest)
unfolding read_exact
read_exact-append xs rest k e =
    let n = length-append xs rest in
    let fits = le→leb (length xs) (length (xs ++ rest)) (omega arith) in
    subst (λ m. read_exact m (xs ++ rest) ≡ some (xs, rest)) e
      (rw (fits, take-length-append xs rest, drop-length-append xs rest) refl)

pub read_le-le_bytes :
    (k n : ℕ) (rest : List ℕ) → n < bound k → read_le k (le_bytes k n ++ rest) ≡ some (n, rest)
unfolding read_le
read_le-le_bytes k n rest h =
    rw (read_exact-append (le_bytes k n) rest k (length-le_bytes k n))
      (ap (λ m. some (m, rest)) (of_le_bytes-le_bytes k n h))
