-- ===== src/Launches/Joiner/Pick.antt =====
-- Which capture an event or an identity gets: the closest candidate, the oldest of those that are
-- equally close; and it leaves the ring.
use pc_pulse.Prelude.{
  ℕ, ◌≡◌, refl, ap, sym, ◌∙◌, true, false, Option, none, some, List, [], ◌∷◌, ◌++◌, All, All-append,
  subst, true≢false, Bool-cases, inl, inr, ◌⊎◌,
}
use pc_pulse.Prelude.Int.{ℤ, leb_ℤ, ltb_ℤ, leb_ℤ_refl, leb_ℤ_trans, ltb_ℤ_leb, ltb_ℤ-false}
use pc_pulse.Text.{Text}
use pc_pulse.Launches.Model.{LaunchEvent}
use pc_pulse.Launches.Joiner.{
  PendingCmdline, CmdlineJoiner, delta_ms, is_candidate, closer, keep_front, take_closest, attached,
  attach,
}

-- Not nearer than the distance d.
abbrev pub IsNoNearer : ℕ → ℤ → ℤ → PendingCmdline → Type 0
IsNoNearer pid start d e =
    is_candidate pid start e ≡ true → leb_ℤ d (delta_ms e.start_ms start) ≡ true

abbrev pub IsFarther : ℕ → ℤ → ℤ → PendingCmdline → Type 0
IsFarther pid start d e =
    is_candidate pid start e ≡ true → ltb_ℤ d (delta_ms e.start_ms start) ≡ true

-- The choice e from a ring, and what it leaves.
pub record IsClosest (pid : ℕ) (start : ℤ) (ring : List PendingCmdline) (e : PendingCmdline)
    (rest : List PendingCmdline) : Type 0 where
  pub before : List PendingCmdline
  pub after : List PendingCmdline
  pub stood : ring ≡ before ++ e ∷ after
  pub left : rest ≡ before ++ after
  pub candidate : is_candidate pid start e ≡ true
  pub older_farther : All (IsFarther pid start (delta_ms e.start_ms start)) before
  pub newer_no_nearer : All (IsNoNearer pid start (delta_ms e.start_ms start)) after

abbrev pub IsNoCandidate : ℕ → ℤ → PendingCmdline → Type 0
IsNoCandidate pid start e = is_candidate pid start e ≡ false

-- What a search of the ring answers.
abbrev pub IsAnswer :
    ℕ → ℤ → List PendingCmdline → Option (PendingCmdline × List PendingCmdline) → Type 0
IsAnswer pid start ring none = All (IsNoCandidate pid start) ring
IsAnswer pid start ring (some (e, rest)) = IsClosest pid start ring e rest

module _ (pid : ℕ) (start : ℤ) where
  none-IsNoNearer :
      (d : ℤ) (ring : List PendingCmdline)
      → All (IsNoCandidate pid start) ring
      → All (IsNoNearer pid start d) ring
  none-IsNoNearer d [] h = tt
  none-IsNoNearer d (e ∷ ring) h =
      ((λ c. absurd (true≢false (sym c ∙ h.0))), none-IsNoNearer d ring h.1)

  IsNoNearer-weaken :
      (d d' : ℤ) (ring : List PendingCmdline)
      → leb_ℤ d d' ≡ true
      → All (IsNoNearer pid start d') ring
      → All (IsNoNearer pid start d) ring
  IsNoNearer-weaken d d' [] le h = tt
  IsNoNearer-weaken d d' (e ∷ ring) le h = (
    (λ c. leb_ℤ_trans d d' (delta_ms e.start_ms start) le (h.0 c)),
    IsNoNearer-weaken d d' ring le h.1,
  )

  IsFarther-weaken :
      (d : ℤ) (ring : List PendingCmdline)
      → All (IsFarther pid start d) ring
      → All (IsNoNearer pid start d) ring
  IsFarther-weaken d [] h = tt
  IsFarther-weaken d (e ∷ ring) h =
      ((λ c. ltb_ℤ_leb d (delta_ms e.start_ms start) (h.0 c)), IsFarther-weaken d ring h.1)

  -- The whole ring is no nearer than the choice from it.
  closest-IsNoNearer :
      (ring rest : List PendingCmdline) (f : PendingCmdline)
      → IsClosest pid start ring f rest
      → All (IsNoNearer pid start (delta_ms f.start_ms start)) ring
  closest-IsNoNearer ring rest f c =
      let d = delta_ms f.start_ms start in
      subst (All (IsNoNearer pid start d)) (sym c.stood) (
        All-append (IsNoNearer pid start d) c.before (f ∷ c.after)
          (IsFarther-weaken d c.before c.older_farther) ((λ _. leb_ℤ_refl d), c.newer_no_nearer))

  closer-IsAnswer :
      (e : PendingCmdline) (ring : List PendingCmdline)
      (later : Option (PendingCmdline × List PendingCmdline))
      → is_candidate pid start e ≡ true
      → IsAnswer pid start ring later
      → IsAnswer pid start (e ∷ ring) (closer start e ring later)
  closer-IsAnswer e ring none c h = record {
    before = [];
    after = ring;
    stood = refl;
    left = refl;
    candidate = c;
    older_farther = tt;
    newer_no_nearer = none-IsNoNearer (delta_ms e.start_ms start) ring h;
  }
  closer-IsAnswer e ring (some (f, others)) c h =
      elim (Bool-cases (ltb_ℤ (delta_ms f.start_ms start) (delta_ms e.start_ms start))) [
        | inl nearer ↦ rw nearer (record {
          before = e ∷ h.before;
          after = h.after;
          stood = ap (◌∷◌ e) h.stood;
          left = ap (◌∷◌ e) h.left;
          candidate = h.candidate;
          older_farther = ((λ _. nearer), h.older_farther);
          newer_no_nearer = h.newer_no_nearer;
        })
        | inr same ↦ rw same (record {
          before = [];
          after = ring;
          stood = refl;
          left = refl;
          candidate = c;
          older_farther = tt;
          newer_no_nearer =
              IsNoNearer-weaken (delta_ms e.start_ms start) (delta_ms f.start_ms start) ring
                (ltb_ℤ-false (delta_ms f.start_ms start) (delta_ms e.start_ms start) same)
                (closest-IsNoNearer ring others f h);
        })
      ]

  keep_front-IsAnswer :
      (e : PendingCmdline) (ring : List PendingCmdline)
      (later : Option (PendingCmdline × List PendingCmdline))
      → is_candidate pid start e ≡ false
      → IsAnswer pid start ring later
      → IsAnswer pid start (e ∷ ring) (keep_front e later)
  keep_front-IsAnswer e ring none c h = (c, h)
  keep_front-IsAnswer e ring (some (f, others)) c h = record {
    before = e ∷ h.before;
    after = h.after;
    stood = ap (◌∷◌ e) h.stood;
    left = ap (◌∷◌ e) h.left;
    candidate = h.candidate;
    older_farther = ((λ k. absurd (true≢false (sym k ∙ c))), h.older_farther);
    newer_no_nearer = h.newer_no_nearer;
  }

  -- The search of the ring: where it finds nothing, the ring has no capture of this pid within the
  -- join window; where it finds a capture, that is such a one, it left the ring, which keeps the
  -- others in their order, every older candidate is strictly farther from the start time, and no
  -- newer candidate is nearer.
  pub take_closest-IsAnswer :
      (ring : List PendingCmdline) → IsAnswer pid start ring (take_closest pid start ring)
  unfolding take_closest
  take_closest-IsAnswer [] = tt
  take_closest-IsAnswer (e ∷ ring) = elim (Bool-cases (is_candidate pid start e)) [
    | inl c ↦
        rw c (closer-IsAnswer e ring (take_closest pid start ring) c (take_closest-IsAnswer ring))
    | inr c ↦
        rw c
          (keep_front-IsAnswer e ring (take_closest pid start ring) c (take_closest-IsAnswer ring))
  ]

-- What `attach` promises of its result: the event has no candidate in the ring and nothing changes,
-- or it gets the line of the closest candidate, which leaves the ring.
abbrev pub IsAttached :
    CmdlineJoiner → LaunchEvent → CmdlineJoiner × LaunchEvent × Option (Text × ℕ) → Type 0
IsAttached j ev (j', ev', stored) =
    (All (IsNoCandidate ev.pid ev.start_time_ms) j.entries
      × (j' ≡ j)
      × (ev' ≡ ev)
      × (stored ≡ none))
    ⊎ ((e : PendingCmdline) × IsClosest ev.pid ev.start_time_ms j.entries e j'.entries
        × (ev'.command_line ≡ some e.redacted)
        × (ev'.pid ≡ ev.pid)
        × (ev'.start_time_ms ≡ ev.start_time_ms)
        × (stored ≡ some (e.redacted, e.redacted_fields))
        × (j'.unmatched_evicted ≡ j.unmatched_evicted))

attached-IsAttached :
    (j : CmdlineJoiner) (ev : LaunchEvent) (found : Option (PendingCmdline × List PendingCmdline))
    → IsAnswer ev.pid ev.start_time_ms j.entries found
    → IsAttached j ev (attached j ev found)
attached-IsAttached j ev none h = inl (h, refl, refl, refl)
attached-IsAttached j ev (some (e, rest)) h = inr (e, h, refl, refl, refl, refl, refl)

-- `attach` on every branch: where no capture in the ring has the event's pid and a start time within
-- 2 s of the event's, joiner and event are returned unchanged with nothing to store; otherwise
-- the event gets the redacted line of a capture that is such a one and than which no other is
-- nearer, the older of equally near ones, that text and its count are what is to be stored, and the
-- ring is left without that capture, the others in their order.
pub attach-IsAttached : (j : CmdlineJoiner) (ev : LaunchEvent) → IsAttached j ev (attach j ev)
unfolding attach
attach-IsAttached j ev =
    attached-IsAttached j ev (take_closest ev.pid ev.start_time_ms j.entries)
      (take_closest-IsAnswer ev.pid ev.start_time_ms j.entries)
