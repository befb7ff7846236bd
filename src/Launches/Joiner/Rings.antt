-- ===== src/Launches/Joiner/Rings.antt =====
-- The bounds of the two rings: by number, and by age.
use pc_pulse.Prelude.{
  ℕ, suc, ◌+◌, ◌-◌, ◌≤◌, ◌≡◌, refl, ap, sym, ◌∙◌, Bool, true, false, List, [], ◌∷◌, ◌++◌, arith,
  ltb, length, drop, All, Bool-cases, inl, inr, ltb→lt, ltb_false→le, length-drop, take,
  take-append-drop, length-append, length-take, min,
}
use pc_pulse.Prelude.Int.{ℤ, pos, ◌+ℤ◌, ◌≤ℤ◌, ◌<ℤ◌, saturating_sub}
use pc_pulse.Text.{Text, Unicode}
use pc_pulse.Redact.{redact_command_line}
use pc_pulse.Launches.Joiner.{
  PendingCmdline, CmdlineJoiner, LaunchIdentity, RecentLaunches, cmdline_join_cap,
  recent_launch_cap, pop_over, pop_while, add_u64, offer, evict_older_than, is_expired,
  cmdline_join_max_age_ms, remember,
}

module _ {ℓ} {A : Type ℓ} where
  -- What is popped is the front, and just as much as is over the limit.
  pop_over-drop :
      (limit : ℕ) (xs : List A)
      → (pop_over limit xs).0 ≡ drop (length xs - limit) xs
        × (pop_over limit xs).1 ≡ length xs - limit
  unfolding pop_over
  pop_over-drop limit [] = ground arith
  pop_over-drop limit (x ∷ xs) = elim (Bool-cases (ltb limit (length (x ∷ xs)))) [
    | inl over ↦
        let lt = ltb→lt limit (length (x ∷ xs)) over in
        let (kept, popped) = pop_over-drop limit xs in
        let n : suc (length xs) - limit ≡ suc (length xs - limit) = omega arith in
        rw (over, n) (kept, omega arith)
    | inr fits ↦
        let le = ltb_false→le limit (length (x ∷ xs)) fits in
        let n : suc (length xs) - limit ≡ 0 = omega arith in rw (fits, n) (refl, refl)
  ]

  -- What is popped is a front whose elements passed the test, which stand for P.
  pop_while-split {κ} :
      {P : A → Type κ} (old : A → Bool)
      → ((x : A) → old x ≡ true → P x)
      → (xs : List A)
      → (popped : List A) × (xs ≡ popped ++ (pop_while old xs).0)
        × (length popped ≡ (pop_while old xs).1)
        × All P popped
  unfolding pop_while
  pop_while-split old holds [] = ([], refl, refl, tt)
  pop_while-split old holds (x ∷ xs) = elim (Bool-cases (old x)) [
    | inl e ↦
        let (popped, whole, n, gone) = pop_while-split old holds xs in
        rw e (x ∷ popped, ap (◌∷◌ x) whole, omega arith, (holds x e, gone))
    | inr e ↦ rw e ([], refl, refl, tt)
  ]

  -- The first element, where there is one.
  abbrev pub First {κ} : (A → Type κ) → List A → Type κ
  First P [] = Unit
  First P (x ∷ xs) = P x

  pop_while-First {κ} :
      {P : A → Type κ} (old : A → Bool)
      → ((x : A) → old x ≡ false → P x)
      → (xs : List A) → First P (pop_while old xs).0
  unfolding pop_while
  pop_while-First old fails [] = tt
  pop_while-First old fails (x ∷ xs) = elim (Bool-cases (old x)) [
    | inl e ↦ rw e (pop_while-First old fails xs)
    | inr e ↦ rw e (fails x e)
  ]

-- The entry that `offer` makes: the redacted text, never the raw one.
abbrev pub offered : Unicode → ℕ → ℤ → Text → PendingCmdline
offered u pid at raw = record {
  pid = pid;
  start_ms = at;
  redacted = (redact_command_line u raw).0;
  redacted_fields = (redact_command_line u raw).1;
}

-- `offer` on a ring of at most 4096 captures leaves a ring of at most 4096: the redacted line behind
-- the ring, less the oldest captures over the cap, each of which the counter counts.
pub offer-bounds :
    (u : Unicode) (j : CmdlineJoiner) (pid : ℕ) (at : ℤ) (raw : Text)
    → length j.entries ≤ cmdline_join_cap
    → length (offer u j pid at raw).entries ≤ cmdline_join_cap
      × (offer u j pid at raw).entries
        ≡ drop (length j.entries + 1 - cmdline_join_cap) (j.entries ++ offered u pid at raw ∷ [])
      × (offer u j pid at raw).unmatched_evicted
        ≡ add_u64 j.unmatched_evicted (length j.entries + 1 - cmdline_join_cap)
unfolding offer
offer-bounds u j pid at raw h =
    let all : List PendingCmdline = j.entries ++ offered u pid at raw ∷ [] in
    let n = length-append j.entries (offered u pid at raw ∷ []) in
    let m : length all ≡ length j.entries + 1 = omega (arith, n) in
    let (kept, popped) = pop_over-drop cmdline_join_cap all in
    let few = length-drop (length all - cmdline_join_cap) all in
    (
      rw kept (rw few (omega arith)),
      kept ∙ ap (λ k. drop (k - cmdline_join_cap) all) m,
      ap (add_u64 j.unmatched_evicted) (popped ∙ ap (λ k. k - cmdline_join_cap) m),
    )

-- More than five minutes have gone by since the capture, at that time.
abbrev pub IsStale : ℤ → PendingCmdline → Type 0
IsStale now_ms e = (e.start_ms +ℤ pos 300_000) <ℤ now_ms

-- No more than five minutes have gone by.
abbrev pub IsYoung : ℤ → PendingCmdline → Type 0
IsYoung now_ms e = now_ms ≤ℤ (e.start_ms +ℤ pos 300_000)

is_expired-IsStale :
    (now_ms : ℤ) (e : PendingCmdline)
    → is_expired now_ms e.start_ms cmdline_join_max_age_ms ≡ true
    → IsStale now_ms e
unfolding saturating_sub ◌+ℤ◌
is_expired-IsStale now_ms e h = ground arith

is_expired-IsYoung :
    (now_ms : ℤ) (e : PendingCmdline)
    → is_expired now_ms e.start_ms cmdline_join_max_age_ms ≡ false
    → IsYoung now_ms e
unfolding saturating_sub ◌+ℤ◌
is_expired-IsYoung now_ms e h = ground arith

-- `evict_older_than` takes a run of captures from the front of the ring, each of which started more
-- than 300,000 ms before the given time, and counts each as evicted. It stops at the end of the ring
-- or at a capture that started 300,000 ms before that time or later. The ages are exact, without
-- saturation.
pub evict_older_than-splits :
    (j : CmdlineJoiner) (now_ms : ℤ)
    → (popped : List PendingCmdline) × (j.entries ≡ popped ++ (evict_older_than j now_ms).entries)
      × All (IsStale now_ms) popped
      × First (IsYoung now_ms) (evict_older_than j now_ms).entries
      × ((evict_older_than j now_ms).unmatched_evicted
          ≡ add_u64 j.unmatched_evicted (length popped))
unfolding evict_older_than
evict_older_than-splits j now_ms =
    let old = λ (e : PendingCmdline). is_expired now_ms e.start_ms cmdline_join_max_age_ms in
    let (popped, whole, n, gone) = pop_while-split old (is_expired-IsStale now_ms) j.entries in
    (
      popped,
      whole,
      gone,
      pop_while-First old (is_expired-IsYoung now_ms) j.entries,
      ap (add_u64 j.unmatched_evicted) (sym n),
    )

-- `remember` puts the identity behind the ring and takes from the front just as many as are over
-- 1024: it keeps the newest 1024, or all where they are fewer, in their order.
pub remember-bounds :
    (r : RecentLaunches) (pid : ℕ) (start saved : ℤ)
    → length (remember r pid start saved).entries ≡ min 1024 (length r.entries + 1)
      × (popped : List LaunchIdentity) × (length popped ≡ length r.entries + 1 - 1024)
      × (popped ++ (remember r pid start saved).entries
          ≡ r.entries ++ record { pid = pid; start_time_ms = start; saved_at_ms = saved } ∷ [])
unfolding remember
remember-bounds r pid start saved =
    let entry : LaunchIdentity = record { pid = pid; start_time_ms = start; saved_at_ms = saved } in
    let all : List LaunchIdentity = r.entries ++ entry ∷ [] in
    let n : length all ≡ length r.entries + 1 =
      omega (arith, length-append r.entries (entry ∷ [])) in
    let kept = (pop_over-drop recent_launch_cap all).0 in
    let few = length-drop (length all - recent_launch_cap) all in
    let front = length-take (length all - recent_launch_cap) all in
    (
      rw kept (rw few (omega arith)),
      take (length all - recent_launch_cap) all,
      omega arith,
      rw kept (take-append-drop (length all - recent_launch_cap) all),
    )
