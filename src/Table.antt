-- ===== src/Table.antt =====
-- `HashMap` as an association list: the list's order is the iteration order, which the standard
-- library leaves open, so no statement may rest on it. Keys are compared by an `Eq` instance.
use pc_pulse.Prelude.{
  ℕ, ◌+◌, ◌≡◌, ◌↔◌, refl, Bool, true, ◌&&◌, Option, none, some, List, [], ◌∷◌, arith, ◌==◌, ==_iff,
  if◌then◌else◌, length,
}
use pc_pulse.Prelude.Int.{ℤ, eqb_ℤ, eqb_ℤ_iff}
use pc_pulse.Text.{Text, text_eq, text_eq_iff}

pub record Eq {ℓ} (A : Type ℓ) : Type ℓ where
  pub beq : A → A → Bool
  pub beq_iff : (a b : A) → (beq a b ≡ true) ↔ (a ≡ b)

instance abbrev pub nat_eq : Eq ℕ
nat_eq = record { beq = ◌==◌; beq_iff = ==_iff }

-- The key `(u32, i64)`.
abbrev pub Key : Type 0
Key = ℕ × ℤ

abbrev pub key_eq : Key → Key → Bool
key_eq (p, s) (q, t) = p == q && eqb_ℤ s t

pub key_eq_iff : (a b : Key) → (key_eq a b ≡ true) ↔ (a ≡ b)
key_eq_iff (p, s) (q, t) = ground (arith, eqb_ℤ_iff s t)

instance abbrev pub key_Eq : Eq Key
key_Eq = record { beq = key_eq; beq_iff = key_eq_iff }

instance abbrev pub text_Eq : Eq Text
text_Eq = record { beq = text_eq; beq_iff = text_eq_iff }

abbrev pub Table : Type 0 → Type 0 → Type 0
Table K V = List (K × V)

abbrev pub map_some {ℓ κ} : {A : Type ℓ} {B : Type κ} → (A → B) → Option A → Option B
map_some f none = none
map_some f (some v) = some (f v)

module _ {K V : Type 0} ⦃e : Eq K⦄ where
  unfoldable pub lookup : K → Table K V → Option V
  lookup k [] = none
  lookup k ((j, v) ∷ t) = if e.beq j k then some v else lookup k t

  -- `insert` replaces the value of a key that is there.
  unfoldable pub insert : K → V → Table K V → Table K V
  insert k v [] = (k, v) ∷ []
  insert k v ((j, w) ∷ t) = if e.beq j k then (k, v) ∷ t else (j, w) ∷ insert k v t

  unfoldable pub remove : K → Table K V → Table K V
  remove k [] = []
  remove k ((j, v) ∷ t) = let rest = remove k t in if e.beq j k then rest else (j, v) ∷ rest

  -- A write through `get_mut`.
  unfoldable pub modify : K → (V → V) → Table K V → Table K V
  modify k f [] = []
  modify k f ((j, v) ∷ t) = if e.beq j k then (j, f v) ∷ t else (j, v) ∷ modify k f t

  pub lookup-insert :
      (k j : K) (v : V) (t : Table K V)
      → lookup j (insert k v t) ≡ (if e.beq k j then some v else lookup j t)
  unfolding lookup insert
  lookup-insert k j v [] = refl
  lookup-insert k j v ((i, w) ∷ t) =
      ground (arith, e.beq_iff k j, e.beq_iff i k, e.beq_iff i j, lookup-insert k j v t)

  pub lookup-remove :
      (k j : K) (t : Table K V) → lookup j (remove k t) ≡ (if e.beq k j then none else lookup j t)
  unfolding lookup remove
  lookup-remove k j [] = ground arith
  lookup-remove k j ((i, w) ∷ t) =
      ground (arith, e.beq_iff k j, e.beq_iff i k, e.beq_iff i j, lookup-remove k j t)

  pub lookup-modify :
      (k j : K) (f : V → V) (t : Table K V)
      → lookup j (modify k f t) ≡ (if e.beq k j then map_some f (lookup j t) else lookup j t)
  unfolding lookup modify
  lookup-modify k j f [] = ground arith
  lookup-modify k j f ((i, w) ∷ t) =
      ground (arith, e.beq_iff k j, e.beq_iff i k, e.beq_iff i j, lookup-modify k j f t)

  -- No key stands twice.
  abbrev pub Distinct : Table K V → Type 0
  Distinct [] = Unit
  Distinct ((k, v) ∷ t) = (lookup k t ≡ none) × Distinct t

  pub length-insert :
      (k : K) (v : V) (t : Table K V) → lookup k t ≡ none → length (insert k v t) ≡ length t + 1
  unfolding lookup insert
  length-insert k v [] h = omega arith
  length-insert k v ((i, w) ∷ t) h = ground (arith, length-insert k v t)

  pub length-modify : (k : K) (f : V → V) (t : Table K V) → length (modify k f t) ≡ length t
  unfolding modify
  length-modify k f [] = refl
  length-modify k f ((i, w) ∷ t) = ground (arith, length-modify k f t)

  remove-absent : (k : K) (t : Table K V) → lookup k t ≡ none → remove k t ≡ t
  unfolding lookup remove
  remove-absent k [] h = refl
  remove-absent k ((i, w) ∷ t) h = ground (arith, remove-absent k t)

  pub length-remove :
      (k : K) (v : V) (t : Table K V)
      → Distinct t
      → lookup k t ≡ some v
      → length (remove k t) + 1 ≡ length t
  unfolding lookup remove
  length-remove k v [] d h = cc
  length-remove k v ((i, w) ∷ t) d h =
      ground (arith, e.beq_iff i k, remove-absent i t d.0, length-remove k v t d.1)

  pub insert-Distinct : (k : K) (v : V) (t : Table K V) → Distinct t → Distinct (insert k v t)
  unfolding lookup insert
  insert-Distinct k v [] d = (refl, tt)
  insert-Distinct k v ((i, w) ∷ t) d =
      ground (arith, e.beq_iff i k, e.beq_iff k i, lookup-insert k i v t, insert-Distinct k v t d.1)

  pub remove-Distinct : (k : K) (t : Table K V) → Distinct t → Distinct (remove k t)
  unfolding lookup remove
  remove-Distinct k [] d = tt
  remove-Distinct k ((i, w) ∷ t) d = ground (arith, lookup-remove k i t, remove-Distinct k t d.1)

  pub modify-Distinct : (k : K) (f : V → V) (t : Table K V) → Distinct t → Distinct (modify k f t)
  unfolding lookup modify
  modify-Distinct k f [] d = tt
  modify-Distinct k f ((i, w) ∷ t) d =
      ground (arith, lookup-modify k i f t, modify-Distinct k f t d.1)
