-- ===== src/Redact/Faithful.antt =====
-- Rounds of the redaction loop that are faithful: a round that finds nothing copies what it moves
-- past, and every round moves on. A loop of such rounds that finds nothing returns its input.
use pc_pulse.Prelude.{
  ℕ, zero, suc, ◌-◌, ◌≤◌, ◌≡◌, refl, ap, sym, ◌∙◌, Bool, true, false, Option, none, some, List, [],
  ◌∷◌, ◌++◌, map, arith, if◌then◌else◌, length, take, drop, take-append-drop, take-length-append,
}
use pc_pulse.Text.{Text}
use pc_pulse.Redact.Scan.{Round, copy, loop, span, span-append}

-- Of a round at this text.
pub record IsFaithful (text : Text) (r : Round) : Type 0 where
  pub advances : 1 ≤ r.consumed
  pub unchanged : r.found ≡ 0 → r.emit ≡ take r.consumed text

pub map-drop {ℓ} :
    {A : Type ℓ} (f : A → ℕ) (n : ℕ) (xs : List A) → map f (drop n xs) ≡ drop n (map f xs)
map-drop f zero xs = refl
map-drop f (suc n) [] = refl
map-drop f (suc n) (x ∷ xs) = map-drop f n xs

pub take-drop_pred : (n x : ℕ) (xs : Text) → 1 ≤ n → take n (x ∷ xs) ++ drop (n - 1) xs ≡ x ∷ xs
take-drop_pred zero x xs h = absurd (omega arith)
take-drop_pred (suc n) x xs h =
    let e : suc n - 1 ≡ n = omega arith in rw e (ap (◌∷◌ x) (take-append-drop n xs))

module _ {ℓ} {A : Type ℓ} (f : A → ℕ) (step : Option A → List A → Round)
    (faithful : (prev : Option A) (c : A) (rest : List A)
      → IsFaithful (map f (c ∷ rest)) (step prev (c ∷ rest))) where
  pub loop-unchanged :
      (cells : List A) (prev : Option A) (skip : ℕ)
      → (loop step prev skip cells).1 ≡ 0
      → (loop step prev skip cells).0 ≡ map f (drop skip cells)
  unfolding loop
  loop-unchanged [] prev zero h = refl
  loop-unchanged [] prev (suc skip) h = refl
  loop-unchanged (c ∷ rest) prev (suc skip) h = loop-unchanged rest (some c) skip h
  loop-unchanged (c ∷ rest) prev zero h =
      let r = step prev (c ∷ rest) in
      let fa = faithful prev c rest in
      let none_here : r.found ≡ 0 = omega arith in
      let none_later : (loop step (some c) (r.consumed - 1) rest).1 ≡ 0 = omega arith in
      rw (fa.unchanged none_here) (
        rw (loop-unchanged rest (some c) (r.consumed - 1) none_later) (
          rw (map-drop f (r.consumed - 1) rest)
            (take-drop_pred r.consumed (f c) (map f rest) fa.advances)))

pub copy-IsFaithful : (c : ℕ) (text : Text) → IsFaithful (c ∷ text) (copy c)
copy-IsFaithful c text = record { advances = omega arith; unchanged = λ h. refl }

pub IsFaithful-if :
    (text : Text) (b : Bool) {r s : Round}
    → (b ≡ true → IsFaithful text r)
    → (b ≡ false → IsFaithful text s)
    → IsFaithful text (if b then r else s)
IsFaithful-if text true fr fs = fr refl
IsFaithful-if text false fr fs = fs refl

map-same : (s : Text) → map (λ c. c) s ≡ s
map-same [] = refl
map-same (c ∷ s) = ap (◌∷◌ c) (map-same s)

-- The same for a loop over plain characters.
pub loop_text-unchanged :
    (step : Option ℕ → Text → Round)
    → ((prev : Option ℕ) (c : ℕ) (rest : Text) → IsFaithful (c ∷ rest) (step prev (c ∷ rest)))
    → (s : Text) → (loop step none 0 s).1 ≡ 0
    → (loop step none 0 s).0 ≡ s
loop_text-unchanged step faithful s h =
    loop-unchanged (λ c. c) step (λ prev c rest. rw (map-same (c ∷ rest)) (faithful prev c rest)) s
      none 0 h
    ∙ map-same s

module _ {ℓ} {A : Type ℓ} (p : A → Bool) where
  pub take-span : (xs : List A) → take (length (span p xs).0) xs ≡ (span p xs).0
  take-span xs =
      let (run, rest) = span p xs in
      ap (take (length run)) (sym (span-append p xs)) ∙ take-length-append run rest

  pub span_pos : (x : A) (xs : List A) → p x ≡ true → 1 ≤ length (span p (x ∷ xs)).0
  unfolding span
  span_pos x xs h = rw (h, length) (omega arith)
