-- ===== src/Launches/Groups/Total.antt =====
-- `group_launches` as a whole: no event is lost between the buckets, and the rows come in order.
use pc_pulse.Prelude.{
  ℕ, zero, suc, ◌+◌, ◌≤◌, ◌≡◌, refl, ap, ◌∙◌, Bool, false, ◌&&◌, List, [], ◌∷◌, map, arith, length,
  take, Bool-cases, inl, inr, length-append, length-take, length-map,
}
use pc_pulse.Prelude.Int.{ℤ}
use pc_pulse.Text.{Unicode, text_eq}
use pc_pulse.Launches.Model.{LaunchEvent}
use pc_pulse.Launches.Groups.{
  LaunchGroup, Bucket, build_group, push_event, fill_buckets, newest, score, retain, ranked_leb,
  insert_ranked, rank, group_launches, lineage_sig,
}

-- The occurrences that the rows count.
unfoldable pub total : List LaunchGroup → ℕ
total [] = 0
total (g ∷ rest) = g.count + total rest

unfoldable held : List Bucket → ℕ
held [] = 0
held (b ∷ rest) = 1 + length b.others + held rest

unfoldable scored_total : List (ℕ × LaunchGroup) → ℕ
scored_total [] = 0
scored_total (g ∷ rest) = g.1.count + scored_total rest

push_event-held :
    (u : Unicode) (ev : LaunchEvent) (buckets : List Bucket)
    → held (push_event u ev buckets) ≡ held buckets + 1
unfolding push_event held
push_event-held u ev [] = omega arith
push_event-held u ev (b ∷ buckets) =
    let ih = push_event-held u ev buckets in
    let n = length-append b.others (ev ∷ []) in
    elim (Bool-cases (text_eq b.exe_path ev.exe_path && text_eq b.sig (lineage_sig u ev.lineage))) [
      | inl e ↦ rw e (omega (arith, n))
      | inr e ↦ rw e (omega arith)
    ]

fill_buckets-held :
    (u : Unicode) (events : List LaunchEvent) (buckets : List Bucket)
    → held (fill_buckets u events buckets) ≡ held buckets + length events
unfolding fill_buckets
fill_buckets-held u [] buckets = omega arith
fill_buckets-held u (ev ∷ events) buckets =
    let ih = fill_buckets-held u events (push_event u ev buckets) in
    let one = push_event-held u ev buckets in omega arith

build_group-count :
    (u : Unicode) (ev : LaunchEvent) (others : List LaunchEvent)
    → (build_group u ev others).count ≡ 1 + length others
unfolding build_group
build_group-count u ev others = omega arith

score-held :
    (u : Unicode) (at : ℤ) (buckets : List Bucket)
    → scored_total (map (score u at) buckets) ≡ held buckets
unfolding held scored_total
score-held u at [] = refl
score-held u at (b ∷ buckets) =
    let ih = score-held u at buckets in
    let one = build_group-count u b.first b.others in omega arith

retain-all : (rows : List (ℕ × LaunchGroup)) → retain false rows ≡ rows
unfolding retain
retain-all [] = refl
retain-all (g ∷ rest) = ap (◌∷◌ g) (retain-all rest)

insert_ranked-total :
    (g : ℕ × LaunchGroup) (rows : List (ℕ × LaunchGroup))
    → (scored_total (insert_ranked g rows) ≡ g.1.count + scored_total rows)
      × (length (insert_ranked g rows) ≡ suc (length rows))
unfolding insert_ranked scored_total
insert_ranked-total g [] = (refl, refl)
insert_ranked-total g (h ∷ rest) =
    let (t, n) = insert_ranked-total g rest in
    elim (Bool-cases (ranked_leb g h)) [
      | inl e ↦ rw e (refl, refl)
      | inr e ↦ rw e (omega arith, omega arith)
    ]

rank-total :
    (rows : List (ℕ × LaunchGroup))
    → (scored_total (rank rows) ≡ scored_total rows) × (length (rank rows) ≡ length rows)
unfolding rank scored_total
rank-total [] = (refl, refl)
rank-total (g ∷ rest) =
    let (t, n) = rank-total rest in
    let (t', n') = insert_ranked-total g (rank rest) in (omega arith, omega arith)

take-whole {ℓ} : {A : Type ℓ} (n : ℕ) (xs : List A) → length xs ≤ n → take n xs ≡ xs
take-whole zero [] h = refl
take-whole zero (x ∷ xs) h = absurd (omega arith)
take-whole (suc n) [] h = refl
take-whole (suc n) (x ∷ xs) h = ap (◌∷◌ x) (take-whole n xs (omega arith))

total-map :
    (rows : List (ℕ × LaunchGroup))
    → total (map (λ (g : ℕ × LaunchGroup). g.1) rows) ≡ scored_total rows
unfolding total scored_total
total-map [] = refl
total-map (g ∷ rest) = ap (◌+◌ g.1.count) (total-map rest)

held-length : (buckets : List Bucket) → length buckets ≤ held buckets
unfolding held
held-length [] = omega arith
held-length (b ∷ rest) = let ih = held-length rest in omega arith

-- Where the rows are not restricted to console hosts and the limit is at least the number of events,
-- the counts of the rows of `group_launches` add up to the number of events.
pub group_launches-total :
    (u : Unicode) (events : List LaunchEvent) (limit : ℕ)
    → length events ≤ limit
    → total (group_launches u events false limit) ≡ length events
unfolding group_launches held
group_launches-total u events limit h =
    let buckets = fill_buckets u events [] in
    let rows : List (ℕ × LaunchGroup) = map (score u (newest events)) buckets in
    let whole : held buckets ≡ length events = fill_buckets-held u events [] ∙ omega arith in
    let (t, n) = rank-total rows in
    let few = held-length buckets in
    let m = length-map buckets (score u (newest events)) in
    rw (retain-all rows) (
      rw (take-whole limit (rank rows) (omega arith))
        (total-map (rank rows) ∙ t ∙ score-held u (newest events) buckets ∙ whole))

-- `group_launches` returns no more rows than the limit.
pub group_launches-limit :
    (u : Unicode) (events : List LaunchEvent) (console_hosts_only : Bool) (limit : ℕ)
    → length (group_launches u events console_hosts_only limit) ≤ limit
unfolding group_launches held
group_launches-limit u events console_hosts_only limit =
    let rows =
      rank (retain console_hosts_only (map (score u (newest events)) (fill_buckets u events []))) in
    let n = length-take limit rows in
    let m = length-map (take limit rows) (λ (g : ℕ × LaunchGroup). g.1) in omega arith
