-- ===== src/Launches/Joiner/Conserve.antt =====
-- No capture is lost or given twice by `attach_to_recent`.
use pc_pulse.Prelude.{
  ℕ, ◌+◌, ◌≡◌, refl, Bool, Option, none, some, List, [], ◌∷◌, arith, if◌then◌else◌, Bool-cases, inl,
  inr,
}
use pc_pulse.Prelude.Int.{ℤ}
use pc_pulse.Text.{Text}
use pc_pulse.Launches.Joiner.{
  PendingCmdline, CmdlineJoiner, LaunchIdentity, LateJoinedCmdline, RecentLaunches, is_candidate,
  closer, keep_front, take_closest, claim, claim_all, attach_to_recent,
}

-- How many captures have a text and a count of fields that pass the test.
unfoldable pub count_pending : (Text → ℕ → Bool) → List PendingCmdline → ℕ
count_pending p [] = 0
count_pending p (e ∷ rest) =
    let n = count_pending p rest in if p e.redacted e.redacted_fields then n + 1 else n

unfoldable pub count_joined : (Text → ℕ → Bool) → List LateJoinedCmdline → ℕ
count_joined p [] = 0
count_joined p (e ∷ rest) =
    let n = count_joined p rest in if p e.redacted e.redacted_fields then n + 1 else n

module _ (p : Text → ℕ → Bool) where
  abbrev left_over : Option (PendingCmdline × List PendingCmdline) → ℕ → ℕ
  left_over none n = n
  left_over (some (e, rest)) n = count_pending p (e ∷ rest)

  closer-count :
      (start : ℤ) (e : PendingCmdline) (rest : List PendingCmdline)
      (later : Option (PendingCmdline × List PendingCmdline))
      → count_pending p rest ≡ left_over later (count_pending p rest)
      → count_pending p (e ∷ rest)
        ≡ left_over (closer start e rest later) (count_pending p (e ∷ rest))
  unfolding count_pending
  closer-count start e rest none h = refl
  closer-count start e rest (some (f, others)) h = ground arith

  keep_front-count :
      (e : PendingCmdline) (rest : List PendingCmdline)
      (later : Option (PendingCmdline × List PendingCmdline))
      → count_pending p rest ≡ left_over later (count_pending p rest)
      → count_pending p (e ∷ rest) ≡ left_over (keep_front e later) (count_pending p (e ∷ rest))
  unfolding count_pending
  keep_front-count e rest none h = refl
  keep_front-count e rest (some (f, others)) h = ground arith

  take_closest-count :
      (pid : ℕ) (start : ℤ) (ring : List PendingCmdline)
      → count_pending p ring ≡ left_over (take_closest pid start ring) (count_pending p ring)
  unfolding take_closest
  take_closest-count pid start [] = refl
  take_closest-count pid start (e ∷ rest) = elim (Bool-cases (is_candidate pid start e)) [
    | inl c ↦ rw c (
        closer-count start e rest (take_closest pid start rest) (take_closest-count pid start rest))
    | inr c ↦
        rw c (
          keep_front-count e rest (take_closest pid start rest) (take_closest-count pid start rest))
  ]

  claim-count :
      (recent : List LaunchIdentity) (identity : LaunchIdentity) (entries : List PendingCmdline)
      (found : Option (PendingCmdline × List PendingCmdline))
      → ((ring : List PendingCmdline)
          → count_pending p ring
            ≡ count_pending p (claim_all recent ring).0 + count_joined p (claim_all recent ring).1)
      → count_pending p entries ≡ left_over found (count_pending p entries)
      → count_pending p entries
        ≡ count_pending p (claim (claim_all recent) identity entries found).0
          + count_joined p (claim (claim_all recent) identity entries found).1
  unfolding count_pending count_joined
  claim-count recent identity entries none ih h = ih entries
  claim-count recent identity entries (some (e, rest)) ih h = ground (arith, ih rest)

  claim_all-count :
      (recent : List LaunchIdentity) (ring : List PendingCmdline)
      → count_pending p ring
        ≡ count_pending p (claim_all recent ring).0 + count_joined p (claim_all recent ring).1
  unfolding claim_all count_pending count_joined
  claim_all-count [] ring = ground arith
  claim_all-count (identity ∷ recent) [] = ground arith
  claim_all-count (identity ∷ recent) (e ∷ entries) =
      claim-count recent identity (e ∷ entries)
        (take_closest identity.pid identity.start_time_ms (e ∷ entries)) (claim_all-count recent)
        (take_closest-count identity.pid identity.start_time_ms (e ∷ entries))

-- Whatever test one puts on the text and the count of redacted fields, as many captures pass it
-- before `attach_to_recent` as pass it afterwards, those still pending and those handed out
-- together: no capture is lost, changed or handed out twice.
pub attach_to_recent-conserves :
    (j : CmdlineJoiner) (recent : RecentLaunches) (p : Text → ℕ → Bool)
    → count_pending p j.entries
      ≡ count_pending p (attach_to_recent j recent).0.entries
        + count_joined p (attach_to_recent j recent).1
unfolding attach_to_recent
attach_to_recent-conserves j recent p = claim_all-count p recent.entries j.entries
