-- ===== src/Redact/Scan.antt =====
-- The loop of the passes, `while i < chars.len()`. A round looks at the characters from `i` on, and
-- at the one before, emits some text, counts the fields that it redacted, and moves `i` on. The
-- recursion is on the characters; `skip` counts those that `i` has been moved past already.
use pc_pulse.Prelude.{
  ℕ, zero, suc, ◌+◌, ◌-◌, ◌≡◌, refl, ap, Bool, Option, some, List, [], ◌∷◌, ◌++◌, if◌then◌else◌,
  Bool-cases, inl, inr,
}
use pc_pulse.Text.{Text, codes}

-- "‹redacted›"
abbrev pub redacted : Text
redacted = 0x2039 ∷ codes "redacted" ++ 0x203a ∷ []

pub record Round : Type 0 where
  pub emit : Text
  pub consumed : ℕ
  pub found : ℕ

-- `out.push(chars[i]); i += 1;`
abbrev pub copy : ℕ → Round
copy c = record { emit = c ∷ []; consumed = 1; found = 0 }

module _ {ℓ} {A : Type ℓ} where
  unfoldable pub loop : (Option A → List A → Round) → Option A → ℕ → List A → Text × ℕ
  loop step prev skip [] = ([], 0)
  loop step prev (suc skip) (c ∷ rest) = loop step (some c) skip rest
  loop step prev zero (c ∷ rest) =
      let r = step prev (c ∷ rest) in
      let (out, found) = loop step (some c) (r.consumed - 1) rest in
      (r.emit ++ out, r.found + found)

  -- The longest run of elements that pass the test, and what follows.
  unfoldable pub span : (A → Bool) → List A → List A × List A
  span p [] = ([], [])
  span p (x ∷ xs) = let (run, rest) = span p xs in if p x then (x ∷ run, rest) else ([], x ∷ xs)

  pub span-append : (p : A → Bool) (xs : List A) → (span p xs).0 ++ (span p xs).1 ≡ xs
  unfolding span
  span-append p [] = refl
  span-append p (x ∷ xs) = elim (Bool-cases (p x)) [
    | inl e ↦ rw e (ap (◌∷◌ x) (span-append p xs))
    | inr e ↦ rw e refl
  ]
