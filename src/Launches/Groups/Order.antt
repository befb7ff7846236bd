-- ===== src/Launches/Groups/Order.antt =====
-- The order of the rows of `group_launches`.
use mathlib.Core.List.{Perm}
use mathlib.Core.List.Perm
use pc_pulse.Prelude.{
  ℕ, ◌≡◌, ◌≢◌, ◌<◌, ◌⊎◌, ◌∙◌, sym, refl, min, Bool, true, false, List, [], ◌∷◌, ◌++◌, map, take,
  drop, length, arith, Bool-cases, inl, inr, ◌==◌, ==_iff, true≢false, ltb→lt, if◌then◌else◌,
  take-append-drop, length-take,
}
use pc_pulse.Prelude.Int.{ℤ, pos, negsuc, eqb_ℤ, eqb_ℤ_iff, ltb_ℤ, ◌<ℤ◌}
use pc_pulse.Text.{Text, Unicode, text_eq, text_eq_iff, text_leb}
use pc_pulse.Launches.Model.{LaunchEvent}
use pc_pulse.Launches.Groups.{
  LaunchGroup, ranked_leb, insert_ranked, rank, retain, score, newest, fill_buckets, group_launches,
}

text_leb_total : (s t : Text) → text_leb s t ≡ false → text_leb t s ≡ true
unfolding text_leb
text_leb_total [] t h = absurd (cc)
text_leb_total (a ∷ s) [] h = refl
text_leb_total (a ∷ s) (b ∷ t) h = ground (arith, text_leb_total s t)

ltb_ℤ_total : (a b : ℤ) → eqb_ℤ a b ≡ false → ltb_ℤ a b ≡ false → ltb_ℤ b a ≡ true
ltb_ℤ_total (pos a) (pos b) = ground arith
ltb_ℤ_total (negsuc a) (negsuc b) = ground arith
ltb_ℤ_total (pos a) (negsuc b) = ground arith
ltb_ℤ_total (negsuc a) (pos b) = ground arith

eqb_ℤ_sym : (a b : ℤ) → eqb_ℤ a b ≡ eqb_ℤ b a
eqb_ℤ_sym (pos a) (pos b) = ground arith
eqb_ℤ_sym (negsuc a) (negsuc b) = ground arith
eqb_ℤ_sym (pos a) (negsuc b) = refl
eqb_ℤ_sym (negsuc a) (pos b) = refl

text_eq_sym : (s t : Text) → text_eq s t ≡ text_eq t s
unfolding text_eq
text_eq_sym [] [] = refl
text_eq_sym [] (b ∷ t) = refl
text_eq_sym (a ∷ s) [] = refl
text_eq_sym (a ∷ s) (b ∷ t) = ground (arith, text_eq_sym s t)

ranked_leb_total : (g h : ℕ × LaunchGroup) → ranked_leb g h ≡ false → ranked_leb h g ≡ true
unfolding ranked_leb
ranked_leb_total (n, a) (m, b) e = ground (
  arith,
  ltb_ℤ_total b.last_ms a.last_ms,
  eqb_ℤ_sym a.last_ms b.last_ms,
  text_eq_sym a.exe_path b.exe_path,
  text_leb_total a.exe_path b.exe_path,
  text_leb_total a.lineage_sig b.lineage_sig,
)

-- The order of two rows, each with its score, the launches of the trailing 24 h: more of them first, then the
-- later last launch, then the path and the ancestry in the order of their text.
abbrev pub Precedes : ℕ × LaunchGroup → ℕ × LaunchGroup → Type 0
Precedes (n, a) (m, b) =
    (m < n)
    ⊎ ((n ≡ m)
        × ((b.last_ms <ℤ a.last_ms)
            ⊎ ((a.last_ms ≡ b.last_ms)
                × (((a.exe_path ≢ b.exe_path) × (text_leb a.exe_path b.exe_path ≡ true))
                    ⊎ ((a.exe_path ≡ b.exe_path)
                        × (text_leb a.lineage_sig b.lineage_sig ≡ true))))))

by_path :
    (a b : LaunchGroup)
    → (if text_eq a.exe_path b.exe_path
        then text_leb a.lineage_sig b.lineage_sig
        else text_leb a.exe_path b.exe_path)
      ≡ true
    → ((a.exe_path ≢ b.exe_path) × (text_leb a.exe_path b.exe_path ≡ true))
      ⊎ ((a.exe_path ≡ b.exe_path) × (text_leb a.lineage_sig b.lineage_sig ≡ true))
by_path a b h = elim (Bool-cases (text_eq a.exe_path b.exe_path)) [
  | inl e ↦ inr ((text_eq_iff a.exe_path b.exe_path).0 e, (rw e at h))
  | inr e ↦ inl ((λ s. true≢false (sym ((text_eq_iff a.exe_path b.exe_path).1 s) ∙ e)), (rw e at h))
]

ranked_leb-Precedes : (g h : ℕ × LaunchGroup) → ranked_leb g h ≡ true → Precedes g h
unfolding ranked_leb
ranked_leb-Precedes (n, a) (m, b) e = elim (Bool-cases (n == m)) [
  | inl s ↦ elim (Bool-cases (eqb_ℤ a.last_ms b.last_ms)) [
    | inl l ↦
        inr (
          (==_iff n m).0 s,
          inr ((eqb_ℤ_iff a.last_ms b.last_ms).0 l, by_path a b (rw (s, l) at e)),
        )
    | inr l ↦ inr ((==_iff n m).0 s, inl (ground (arith, (rw (s, l) at e))))
  ]
  | inr s ↦ inl (ltb→lt m n (rw s at e))
]

-- Each row precedes the next.
abbrev pub IsRanked : List (ℕ × LaunchGroup) → Type 0
IsRanked [] = Unit
IsRanked (g ∷ []) = Unit
IsRanked (g ∷ h ∷ rest) = Precedes g h × IsRanked (h ∷ rest)

module _ (g : ℕ × LaunchGroup) where
  insert_after-IsRanked :
      (h : ℕ × LaunchGroup) (rest : List (ℕ × LaunchGroup))
      → Precedes h g
      → IsRanked (h ∷ rest)
      → IsRanked (h ∷ insert_ranked g rest)
  unfolding insert_ranked
  insert_after-IsRanked h [] e r = (e, tt)
  insert_after-IsRanked h (k ∷ rest) e r = elim (Bool-cases (ranked_leb g k)) [
    | inl before ↦ rw before (e, (ranked_leb-Precedes g k before, r.1))
    | inr after ↦ rw after (
      r.0,
      insert_after-IsRanked k rest (ranked_leb-Precedes k g (ranked_leb_total g k after)) r.1,
    )
  ]

  insert_ranked-IsRanked :
      (rows : List (ℕ × LaunchGroup)) → IsRanked rows → IsRanked (insert_ranked g rows)
  unfolding insert_ranked
  insert_ranked-IsRanked [] r = tt
  insert_ranked-IsRanked (h ∷ rest) r = elim (Bool-cases (ranked_leb g h)) [
    | inl before ↦ rw before (ranked_leb-Precedes g h before, r)
    | inr after ↦
        rw after
          (insert_after-IsRanked h rest (ranked_leb-Precedes h g (ranked_leb_total g h after)) r)
  ]

  insert_ranked-perm : (rows : List (ℕ × LaunchGroup)) → Perm (insert_ranked g rows) (g ∷ rows)
  unfolding insert_ranked
  insert_ranked-perm [] = Perm.refl (g ∷ [])
  insert_ranked-perm (h ∷ rest) = elim (Bool-cases (ranked_leb g h)) [
    | inl before ↦ rw before (Perm.refl (g ∷ h ∷ rest))
    | inr after ↦ rw after (Perm.trans (Perm.cons h (insert_ranked-perm rest)) (Perm.swap g h rest))
  ]

rank-IsRanked : (rows : List (ℕ × LaunchGroup)) → IsRanked (rank rows)
unfolding rank
rank-IsRanked [] = tt
rank-IsRanked (g ∷ rest) = insert_ranked-IsRanked g (rank rest) (rank-IsRanked rest)

rank-perm : (rows : List (ℕ × LaunchGroup)) → Perm (rank rows) rows
unfolding rank
rank-perm [] = Perm.refl []
rank-perm (g ∷ rest) = Perm.trans (insert_ranked-perm g (rank rest)) (Perm.cons g (rank-perm rest))

-- The groups of all buckets with their launches in the 24 h up to the newest start, of consoles only
-- if asked for.
abbrev pub candidates : Unicode → List LaunchEvent → Bool → List (ℕ × LaunchGroup)
candidates u events console_hosts_only =
    retain console_hosts_only (map (score u (newest events)) (fill_buckets u events []))

-- `group_launches` returns the first rows, `limit` of them or all if they are fewer, of an
-- arrangement of `candidates` (the groups of all buckets, of consoles only if asked for, each with its
-- score) in which each row precedes the next: it has a higher score, or as high a one and a later
-- last launch, or these alike and an earlier path, or these alike and an ancestry that is not later.
pub group_launches-IsRanked :
    (u : Unicode) (events : List LaunchEvent) (console_hosts_only : Bool) (limit : ℕ)
    → (rows cut : List (ℕ × LaunchGroup)) × (group_launches u events console_hosts_only limit
        ≡ map (λ g. g.1) rows)
      × (length rows ≡ min limit (length (rows ++ cut)))
      × IsRanked (rows ++ cut)
      × Perm (rows ++ cut) (candidates u events console_hosts_only)
unfolding group_launches
group_launches-IsRanked u events console_hosts_only limit =
    let ranked = rank (candidates u events console_hosts_only) in
    let whole = take-append-drop limit ranked in
    (
      take limit ranked,
      drop limit ranked,
      refl,
      rw whole (length-take limit ranked),
      rw whole (rank-IsRanked (candidates u events console_hosts_only)),
      rw whole (rank-perm (candidates u events console_hosts_only)),
    )
