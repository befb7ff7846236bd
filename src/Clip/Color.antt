-- ===== src/Clip/Color.antt =====
-- The 6 by 7 by 6 colour cube: `quantize`, `dequantize`, `bucket_center`.
use pc_pulse.Prelude.{
  zero, suc, length, ◌≤◌, ℕ, ◌+◌, ◌-◌, ◌*◌, ◌/◌, ◌%◌, ◌<◌, min, ◌≡◌, refl, List, [], ◌∷◌, All,
  arith, ◌==◌, if◌then◌else◌,
}

unfoldable pub bucket_center : ℕ → ℕ → ℕ
bucket_center level levels =
    let bucket_size = 256 / levels in
    let start = level * bucket_size in
    let end = if level + 1 == levels then 256 else start + bucket_size in
    min (start + (end - start) / 2) 255 % 256

-- The index of one pixel.
abbrev pub pixel_index : ℕ → ℕ → ℕ → ℕ
pixel_index r g b = ((r * 6 / 256) * 42 + (g * 7 / 256) * 6 + (b * 6 / 256)) % 256

-- `chunks_exact(3)` leaves out an incomplete pixel.
unfoldable pub quantize : List ℕ → List ℕ
quantize [] = []
quantize (r ∷ []) = []
quantize (r ∷ g ∷ []) = []
quantize (r ∷ g ∷ b ∷ rest) = pixel_index r g b ∷ quantize rest

-- The output buffer of the source has three bytes for each index.
unfoldable pub dequantize : List ℕ → List ℕ
unfolding bucket_center
dequantize [] = []
dequantize (index ∷ rest) =
    bucket_center (index / 42) 6
    ∷ bucket_center (index / 6 % 7) 7
    ∷ bucket_center (index % 6) 6
    ∷ dequantize rest

level_6 : (level : ℕ) → level < 6 → bucket_center level 6 * 6 / 256 ≡ level
unfolding bucket_center
level_6 level h = ground arith

level_7 : (level : ℕ) → level < 7 → bucket_center level 7 * 7 / 256 ≡ level
unfolding bucket_center
level_7 level h = ground arith

pixel-again :
    (index : ℕ)
    → index < 252
    → pixel_index
        (bucket_center (index / 42) 6)
        (bucket_center (index / 6 % 7) 7)
        (bucket_center (index % 6) 6)
      ≡ index
pixel-again index h =
    let r = level_6 (index / 42) (omega arith) in
    let g = level_7 (index / 6 % 7) (omega arith) in
    let b = level_6 (index % 6) (omega arith) in rw (r, g, b) (omega arith)

-- Indices of the colour cube, all below 252, come back when the colours that they stand for are
-- quantized again.
pub quantize-dequantize :
    (indices : List ℕ) → All (λ (i : ℕ). i < 252) indices → quantize (dequantize indices) ≡ indices
unfolding quantize dequantize
quantize-dequantize [] h = refl
quantize-dequantize (index ∷ rest) h = rw (pixel-again index h.0, quantize-dequantize rest h.1) refl

-- What `quantize` makes of bytes is an index of the cube.
pub quantize-bounds :
    (rgb : List ℕ) → All (λ (c : ℕ). c < 256) rgb → All (λ (i : ℕ). i < 252) (quantize rgb)
unfolding quantize
quantize-bounds [] h = tt
quantize-bounds (r ∷ []) h = tt
quantize-bounds (r ∷ g ∷ []) h = tt
quantize-bounds (r ∷ g ∷ b ∷ rest) h =
    let hr = h.0 in
    let hg = h.1.0 in let hb = h.1.1.0 in (omega arith, quantize-bounds rest h.1.1.1)

-- At most 24 apart.
abbrev pub IsNear : ℕ → ℕ → Type 0
IsNear a b = a ≤ b + 24 × b ≤ a + 24

abbrev pub AreNear : List ℕ → List ℕ → Type 0
AreNear [] [] = Unit
AreNear (a ∷ rest) (b ∷ others) = IsNear a b × AreNear rest others
AreNear _ _ = ⊥

bucket_6-IsNear : (c : ℕ) → c < 256 → IsNear (bucket_center (c * 6 / 256) 6) c
unfolding bucket_center
bucket_6-IsNear c h = ground arith

bucket_7-IsNear : (c : ℕ) → c < 256 → IsNear (bucket_center (c * 7 / 256) 7) c
unfolding bucket_center
bucket_7-IsNear c h = ground arith

parts :
    (r g b : ℕ)
    → r < 6
    → g < 7
    → b < 6
    → ((r * 42 + g * 6 + b) % 256 / 42 ≡ r)
      × ((r * 42 + g * 6 + b) % 256 / 6 % 7 ≡ g)
      × ((r * 42 + g * 6 + b) % 256 % 6 ≡ b)
parts r g b hr hg hb = (omega arith, omega arith, omega arith)

-- Quantizing bytes of whole pixels and going back moves no channel by more than 24.
pub dequantize-quantize :
    (n : ℕ) (rgb : List ℕ)
    → length rgb ≡ n * 3
    → All (λ (c : ℕ). c < 256) rgb
    → AreNear (dequantize (quantize rgb)) rgb
unfolding quantize dequantize
dequantize-quantize zero [] e h = tt
dequantize-quantize (suc n) [] e h = absurd (omega arith)
dequantize-quantize n (r ∷ []) e h = absurd (omega arith)
dequantize-quantize n (r ∷ g ∷ []) e h = absurd (omega arith)
dequantize-quantize zero (r ∷ g ∷ b ∷ rest) e h = absurd (omega arith)
dequantize-quantize (suc n) (r ∷ g ∷ b ∷ rest) e h =
    let hr = h.0 in
    let hg = h.1.0 in
    let hb = h.1.1.0 in
    let p =
      parts (r * 6 / 256) (g * 7 / 256) (b * 6 / 256) (omega arith) (omega arith) (omega arith) in
    rw (p.0, p.1, p.2)
      (
        bucket_6-IsNear r hr,
        (
          bucket_7-IsNear g hg,
          (bucket_6-IsNear b hb, dequantize-quantize n rest (omega arith) h.1.1.1),
        ),
      )
