-- ===== src/Redact/Truncate.antt =====
-- The cut of a command line that is too long, `truncate_at_char_boundary`.
use mathlib.Core.List.{append-nil}
use pc_pulse.Prelude.{
  ℕ, zero, suc, ◌+◌, ◌-◌, ◌≤◌, ◌≡◌, refl, ap, sym, subst, ◌∙◌, true, false, some, [], ◌∷◌, ◌++◌,
  arith, leb, ltb, ◌==◌, Bool-cases, inl, inr, leb→le, true≢false,
}
use pc_pulse.Text.{Text, char_len, byte_len}
use pc_pulse.Redact.{
  push_front, slice_to, is_char_boundary, floor_boundary, truncate_at_char_boundary,
}

byte_len-append : (s t : Text) → byte_len (s ++ t) ≡ byte_len s + byte_len t
unfolding byte_len
byte_len-append [] t = omega arith
byte_len-append (c ∷ s) t = omega (arith, byte_len-append s t)

char_len_pos : (c : ℕ) → 1 ≤ char_len c
char_len_pos c = ground arith

longer : (c end n : ℕ) → ltb end (char_len c) ≡ false → n ≡ end - char_len c → char_len c + n ≡ end
longer c end n l e = ground arith

-- A boundary behind the first character is one of the rest.
within :
    (c : ℕ) (s : Text) (end : ℕ)
    → (end == 0) ≡ false
    → ltb end (char_len c) ≡ false
    → is_char_boundary (c ∷ s) end ≡ true
    → is_char_boundary s (end - char_len c) ≡ true
unfolding is_char_boundary
within c s end z l h = rw (z, l) at h

behind :
    (c : ℕ) (s : Text) (n : ℕ)
    → is_char_boundary s n ≡ true
    → is_char_boundary (c ∷ s) (char_len c + n) ≡ true
unfolding is_char_boundary
behind c s n h =
    let z : ((char_len c + n) == 0) ≡ false = ground (arith, char_len_pos c) in
    let l : ltb (char_len c + n) (char_len c) ≡ false = ground arith in
    let e : char_len c + n - char_len c ≡ n = omega arith in rw (z, l, e) h

-- A slice up to a boundary is a beginning of just that length.
slice_to-boundary :
    (s : Text) (end : ℕ)
    → is_char_boundary s end ≡ true
    → (front rest : Text) × (slice_to s end ≡ some front)
      × (s ≡ front ++ rest)
      × (byte_len front ≡ end)
unfolding slice_to is_char_boundary byte_len
slice_to-boundary [] end h = ([], [], ground arith, refl, ground arith)
slice_to-boundary (c ∷ s) end h = elim (Bool-cases (end == 0)) [
  | inl z ↦ ([], c ∷ s, rw z refl, refl, ground arith)
  | inr z ↦ elim (Bool-cases (ltb end (char_len c))) [
    | inl l ↦ absurd (ground arith)
    | inr l ↦
        let (front, rest, e, whole, n) =
          slice_to-boundary s (end - char_len c) (within c s end z l h) in
        (
          c ∷ front,
          rest,
          rw (z, l, ap (push_front c) e) refl,
          ap (◌∷◌ c) whole,
          longer c end (byte_len front) l n,
        )
  ]
]

-- The beginnings of whole characters end at boundaries.
boundary-append : (s t : Text) → is_char_boundary (s ++ t) (byte_len s) ≡ true
unfolding is_char_boundary byte_len
boundary-append [] [] = refl
boundary-append [] (c ∷ t) = refl
boundary-append (c ∷ s) t = behind c (s ++ t) (byte_len s) (boundary-append s t)

start-boundary : (s : Text) → is_char_boundary s 0 ≡ true
unfolding is_char_boundary
start-boundary [] = refl
start-boundary (c ∷ s) = refl

-- The loop ends at a boundary, and at none before the last one up to its start.
floor_boundary-boundary : (s : Text) (end : ℕ) → is_char_boundary s (floor_boundary s end) ≡ true
unfolding floor_boundary
floor_boundary-boundary s zero = start-boundary s
floor_boundary-boundary s (suc end) = elim (Bool-cases (is_char_boundary s (suc end))) [
  | inl h ↦ rw (h, floor_boundary) h
  | inr h ↦ rw (h, floor_boundary) (floor_boundary-boundary s end)
]

floor_boundary_le : (s : Text) (end : ℕ) → floor_boundary s end ≤ end
unfolding floor_boundary
floor_boundary_le s zero = omega arith
floor_boundary_le s (suc end) = ground (arith, floor_boundary_le s end)

earlier :
    (s : Text) (end k : ℕ)
    → k ≤ suc end
    → is_char_boundary s k ≡ true
    → is_char_boundary s (suc end) ≡ false
    → k ≤ end
earlier s end k h b e = elim (Bool-cases (leb k end)) [
  | inl l ↦ leb→le k end l
  | inr l ↦
      let last : k ≡ suc end = ground arith in
      absurd (true≢false (sym b ∙ ap (is_char_boundary s) last ∙ e))
]

floor_boundary_last :
    (s : Text) (end k : ℕ) → k ≤ end → is_char_boundary s k ≡ true → k ≤ floor_boundary s end
unfolding floor_boundary
floor_boundary_last s zero k h b = omega arith
floor_boundary_last s (suc end) k h b = elim (Bool-cases (is_char_boundary s (suc end))) [
  | inl e ↦ rw (e, floor_boundary) h
  | inr e ↦ rw (e, floor_boundary) (floor_boundary_last s end k (earlier s end k h b e) b)
]

-- `truncate_at_char_boundary` does not panic, and returns the longest beginning of its input, of
-- whole characters, that is at most `max_bytes` bytes long in UTF-8.
pub truncate_at_char_boundary-bounds :
    (input : Text) (max_bytes : ℕ)
    → (front rest : Text) × (truncate_at_char_boundary input max_bytes ≡ some front)
      × (input ≡ front ++ rest)
      × (byte_len front ≤ max_bytes)
      × ((other after : Text)
          → input ≡ other ++ after
          → byte_len other ≤ max_bytes
          → byte_len other ≤ byte_len front)
unfolding truncate_at_char_boundary
truncate_at_char_boundary-bounds input max_bytes =
    elim (Bool-cases (leb (byte_len input) max_bytes)) [
      | inl e ↦ (
        input,
        [],
        rw e refl,
        sym (append-nil input),
        leb→le (byte_len input) max_bytes e,
        λ other after h n.
            subst (λ s. byte_len other ≤ byte_len s) (sym h)
              (omega (arith, byte_len-append other after)),
      )
      | inr e ↦
          let end = floor_boundary input max_bytes in
          let low = floor_boundary_le input max_bytes in
          let (front, rest, s, whole, n) =
            slice_to-boundary input end (floor_boundary-boundary input max_bytes) in
          (
            front,
            rest,
            rw (e, s) refl,
            whole,
            omega arith,
            λ other after h m. rw n (
                floor_boundary_last input max_bytes (byte_len other) m
                  (rw h (boundary-append other after))),
          )
    ]
