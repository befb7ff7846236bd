-- ===== src/Float/Fixed.antt =====
-- A concrete arithmetic for runs of the model: fixed-point numbers in millionths, of which the laws of
-- `IsOrdered` hold. `powf` takes the whole part of its exponent.
use native.Mathlib.Nat.{
  le-div_iff_mul-le, le_of_mul-le-mul_right, mul-le-mul_right, div-mul-le_self, one-le-pow,
}
use pc_pulse.Prelude.{ℕ, zero, suc, ◌*◌, ◌/◌, ◌^◌, ◌≤◌, ◌<◌, arith}
use pc_pulse.Prelude.Int.{ℤ, pos, negsuc, ◌+ℤ◌, ◌-ℤ◌, leb_ℤ, ltb_ℤ, eqb_ℤ, sub_ℕ}
use pc_pulse.Float.{Float, IsOrdered}

abbrev million : ℕ
million = 10 ^ 6

abbrev scaled : ℕ → ℕ → ℕ
scaled n k = (n * million) / 10 ^ k

abbrev negate : ℤ → ℤ
negate (pos zero) = pos 0
negate (pos (suc n)) = negsuc n
negate (negsuc n) = pos (suc n)

abbrev magnitude : ℤ → ℤ
magnitude (pos n) = pos n
magnitude (negsuc n) = pos (suc n)

abbrev times : ℤ → ℤ → ℤ
times (pos a) (pos b) = pos (a * b / million)
times (pos a) (negsuc b) = sub_ℕ 0 (a * suc b / million)
times (negsuc a) (pos b) = sub_ℕ 0 (suc a * b / million)
times (negsuc a) (negsuc b) = pos (suc a * suc b / million)

abbrev over : ℤ → ℤ → ℤ
over (pos a) (pos b) = pos (a * million / b)
over (pos a) (negsuc b) = sub_ℕ 0 (a * million / suc b)
over (negsuc a) (pos b) = sub_ℕ 0 (suc a * million / b)
over (negsuc a) (negsuc b) = pos (suc a * million / suc b)

abbrev power : ℤ → ℕ → ℤ
power x zero = pos million
power x (suc n) = times x (power x n)

abbrev whole : ℤ → ℕ
whole (pos n) = n / million
whole (negsuc n) = 0

abbrev of_whole : ℤ → ℤ
of_whole (pos n) = pos (n * million)
of_whole (negsuc n) = sub_ℕ 0 (suc n * million)

instance abbrev pub fixed_float : Float ℤ
fixed_float = record {
  literal = (λ n k. pos (scaled n k));
  add = ◌+ℤ◌;
  sub = ◌-ℤ◌;
  mul = times;
  div = over;
  neg = negate;
  abs = magnitude;
  infinity = pos (million * million);
  le = leb_ℤ;
  lt = ltb_ℤ;
  eq = eqb_ℤ;
  of_i64 = of_whole;
  powi = power;
  powf = (λ x y. power x (whole y));
}

ten_pos : (k : ℕ) → 0 < 10 ^ k
ten_pos k = one-le-pow k 10 (omega arith)

below :
    (n k m j x : ℕ)
    → x * 10 ^ k ≤ n * million
    → n * 10 ^ j ≤ m * 10 ^ k
    → x * 10 ^ j * 10 ^ k ≤ m * million * 10 ^ k
below n k m j x h o = omega (arith, mul-le-mul_right (10 ^ j) h, mul-le-mul_right million o)

scaled_mono : (n k m j : ℕ) → n * 10 ^ j ≤ m * 10 ^ k → scaled n k ≤ scaled m j
scaled_mono n k m j h = (le-div_iff_mul-le (ten_pos j)).1 (
    le_of_mul-le-mul_right {k = 10 ^ k}
      (below n k m j (scaled n k) (div-mul-le_self (n * million) (10 ^ k)) h) (ten_pos k))

pub fixed_float-IsOrdered : IsOrdered fixed_float
unfolding ◌+ℤ◌
fixed_float-IsOrdered = record {
  le_refl_left = (λ x y h. ground arith);
  le_refl_right = (λ x y h. ground arith);
  le_trans = (λ x y z h k. ground arith);
  lt_iff = (λ x y h k. ground arith);
  le_total = (λ x y h k. ground arith);
  literal_le = (λ n k m j h. ground (arith, scaled_mono n k m j h));
  literal_add_le = (λ n k m j x y h o. ground (arith, scaled_mono n k m j h));
  neg_literal_le = (λ n k. ground arith);
}
