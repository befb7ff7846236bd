-- ===== src/Prelude/Int.antt =====
-- Signed integers, and the `i64` arithmetic of the program: `wrap` is a two's complement result
-- (the release build has no overflow checks), `saturate` that of the `saturating_*` methods.
use pc_pulse.Prelude.{
  ℕ, suc, ◌+◌, ◌-◌, ◌%◌, ◌^◌, ◌≤◌, ◌<◌, min, ◌≡◌, ◌↔◌, Bool, true, false, arith, ltb, leb, ◌==◌,
  if◌then◌else◌,
}

-- `negsuc n` is -(n + 1).
pub data ℤ : Type 0 where
  pos : ℕ → ℤ
  negsuc : ℕ → ℤ

abbrev pub pos_part : ℤ → ℕ
pos_part (pos n) = n
pos_part (negsuc n) = 0

abbrev pub neg_part : ℤ → ℕ
neg_part (pos n) = 0
neg_part (negsuc n) = suc n

-- a - b, as an integer.
abbrev pub sub_ℕ : ℕ → ℕ → ℤ
sub_ℕ a b = if leb b a then pos (a - b) else negsuc (b - a - 1)

infixl 65 ◌+ℤ◌ ◌-ℤ◌
infix 50 ◌≤ℤ◌ ◌<ℤ◌
unfoldable pub ◌+ℤ◌ : ℤ → ℤ → ℤ
a +ℤ b = sub_ℕ (pos_part a + pos_part b) (neg_part a + neg_part b)

unfoldable pub ◌-ℤ◌ : ℤ → ℤ → ℤ
a -ℤ b = sub_ℕ (pos_part a + neg_part b) (neg_part a + pos_part b)

abbrev pub ◌≤ℤ◌ : ℤ → ℤ → Type 0
a ≤ℤ b = pos_part a + neg_part b ≤ pos_part b + neg_part a

abbrev pub ◌<ℤ◌ : ℤ → ℤ → Type 0
a <ℤ b = pos_part a + neg_part b < pos_part b + neg_part a

abbrev pub ltb_ℤ : ℤ → ℤ → Bool
ltb_ℤ a b = ltb (pos_part a + neg_part b) (pos_part b + neg_part a)

abbrev pub leb_ℤ : ℤ → ℤ → Bool
leb_ℤ a b = leb (pos_part a + neg_part b) (pos_part b + neg_part a)

abbrev pub eqb_ℤ : ℤ → ℤ → Bool
eqb_ℤ (pos a) (pos b) = a == b
eqb_ℤ (negsuc a) (negsuc b) = a == b
eqb_ℤ _ _ = false

pub eqb_ℤ_iff : (a b : ℤ) → (eqb_ℤ a b ≡ true) ↔ (a ≡ b)
eqb_ℤ_iff (pos a) (pos b) = ground arith
eqb_ℤ_iff (negsuc a) (negsuc b) = ground arith
eqb_ℤ_iff (pos a) (negsuc b) = ground arith
eqb_ℤ_iff (negsuc a) (pos b) = ground arith

pub leb_ℤ_refl : (a : ℤ) → leb_ℤ a a ≡ true
leb_ℤ_refl a = ground arith

pub leb_ℤ_trans : (a b c : ℤ) → leb_ℤ a b ≡ true → leb_ℤ b c ≡ true → leb_ℤ a c ≡ true
leb_ℤ_trans a b c h k = ground arith

pub ltb_ℤ_leb : (a b : ℤ) → ltb_ℤ a b ≡ true → leb_ℤ a b ≡ true
ltb_ℤ_leb a b h = ground arith

pub ltb_ℤ-false : (a b : ℤ) → ltb_ℤ a b ≡ false → leb_ℤ b a ≡ true
ltb_ℤ-false a b h = ground arith

-- i64::MAX; `negsuc i64_max` is i64::MIN.
abbrev pub i64_max : ℕ
i64_max = 2 ^ 63 - 1

abbrev pub InRange : ℤ → Type 0
InRange a = (pos_part a ≤ i64_max) × (neg_part a ≤ i64_max + 1)

unfoldable pub saturate : ℤ → ℤ
saturate (pos n) = pos (min n i64_max)
saturate (negsuc n) = negsuc (min n i64_max)

unfoldable pub saturating_add : ℤ → ℤ → ℤ
unfolding saturate ◌+ℤ◌
saturating_add a b = saturate (a +ℤ b)

unfoldable pub saturating_sub : ℤ → ℤ → ℤ
unfolding saturate ◌-ℤ◌
saturating_sub a b = saturate (a -ℤ b)

unfoldable pub saturating_abs : ℤ → ℤ
saturating_abs (pos n) = pos n
saturating_abs (negsuc n) = pos (min (suc n) i64_max)

-- The integer that a 64-bit pattern stands for.
signed : ℕ → ℤ
signed w = if ltb w (2 ^ 63) then pos w else negsuc (2 ^ 64 - 1 - w)

unfoldable pub wrap : ℤ → ℤ
unfolding signed
wrap (pos n) = signed (n % 2 ^ 64)
wrap (negsuc n) = signed (2 ^ 64 - 1 - n % 2 ^ 64)

-- `a - b` on two `i64`.
unfoldable pub sub_i64 : ℤ → ℤ → ℤ
unfolding wrap ◌-ℤ◌
sub_i64 a b = wrap (a -ℤ b)

-- A difference that fits 64 bits is exact.
pub sub_i64-exact : (a b : ℤ) → InRange (a -ℤ b) → sub_i64 a b ≡ a -ℤ b
unfolding sub_i64
sub_i64-exact a b h = ground arith

-- Saturating subtraction is the exact difference where that fits 64 bits.
pub saturating_sub-exact : (a b : ℤ) → InRange (a -ℤ b) → saturating_sub a b ≡ a -ℤ b
unfolding saturating_sub
saturating_sub-exact a b h = ground arith

-- `+= 1` on a u64 counter.
abbrev pub inc_u64 : ℕ → ℕ
inc_u64 n = (n + 1) % 2 ^ 64
