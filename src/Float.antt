-- ===== src/Float.antt =====
-- All that the program does with an `f64` in the parts that are modelled: IEEE arithmetic is a
-- parameter. `literal n k` is the literal n / 10 ^ k.
pub mod Fixed
use pc_pulse.Prelude.{ℕ, ◌*◌, ◌^◌, ◌≤◌, Bool, true, false, ◌≡◌, ◌⊎◌, ◌↔◌, if◌then◌else◌}
use pc_pulse.Prelude.Int.{ℤ}

pub record Float (F : Type 0) : Type 0 where
  pub literal : ℕ → ℕ → F
  pub add : F → F → F
  pub sub : F → F → F
  pub mul : F → F → F
  pub div : F → F → F
  pub neg : F → F
  pub abs : F → F
  pub infinity : F
  pub le : F → F → Bool
  pub lt : F → F → Bool
  -- `==`, which NaN is not to itself.
  pub eq : F → F → Bool
  -- `as f64`
  pub of_i64 : ℤ → F
  pub powi : F → ℕ → F
  pub powf : F → F → F

module _ {F : Type 0} ⦃f : Float F⦄ where
  -- `f64::clamp`; NaN stays.
  abbrev pub clamp : F → F → F → F
  clamp x lo hi = let raised = if f.lt x lo then lo else x in if f.lt hi raised then hi else raised

module _ {F : Type 0} ⦃f : Float F⦄ where
  -- `f64::max`, which prefers a number to NaN.
  abbrev pub max_f : F → F → F
  max_f x y = if f.eq x x then (if f.lt x y then y else x) else y

-- What is asked of the order where a theorem says so: NaN is the value that is not `<=` itself, a
-- literal is finite, and both rounding and a sum with a finite number keep the order.
pub record IsOrdered {F : Type 0} (f : Float F) : Type 0 where
  pub le_refl_left : (x y : F) → f.le x y ≡ true → f.le x x ≡ true
  pub le_refl_right : (x y : F) → f.le x y ≡ true → f.le y y ≡ true
  pub le_trans : (x y z : F) → f.le x y ≡ true → f.le y z ≡ true → f.le x z ≡ true
  pub lt_iff :
      (x y : F) → f.le x x ≡ true → f.le y y ≡ true → (f.lt x y ≡ true) ↔ (f.le y x ≡ false)
  pub le_total :
      (x y : F) → f.le x x ≡ true → f.le y y ≡ true → (f.le x y ≡ true) ⊎ (f.le y x ≡ true)
  pub literal_le :
      (n k m j : ℕ) → n * 10 ^ j ≤ m * 10 ^ k → f.le (f.literal n k) (f.literal m j) ≡ true
  pub literal_add_le :
      (n k m j : ℕ) (x y : F)
      → n * 10 ^ j ≤ m * 10 ^ k
      → f.le x y ≡ true
      → f.le (f.add (f.literal n k) x) (f.add (f.literal m j) y) ≡ true
  pub neg_literal_le : (n k : ℕ) → f.le (f.neg (f.literal n k)) (f.literal n k) ≡ true
