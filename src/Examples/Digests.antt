-- ===== src/Examples/Digests.antt =====
-- The trimming of a digest whose every entry takes 12,000 bytes.
use pc_pulse.Prelude.{ℕ, ◌+◌, ◌*◌, ◌≡◌, refl, false, none, [], ◌∷◌, length}
use pc_pulse.Prelude.Int.{ℤ}
use pc_pulse.Text.{byte_len, codes}
use pc_pulse.Ratings.{Digest, build_digest}
use pc_pulse.Ratings.Trimming.{IsTrimmed, build_digest-IsTrimmed}
use pc_pulse.Examples.Incidents.{latency}

abbrev size : Digest ℤ ℕ ℕ → ℕ
size d = 12_000 * (1 + length d.processes + length d.incidents) + byte_len d.collector_health

abbrev crowded : Digest ℤ ℕ ℕ
crowded =
    build_digest size 0 (7 ∷ 8 ∷ 9 ∷ []) (latency ∷ latency ∷ []) false none (codes "all well")

-- Every process and one of the two incidents had to go.
crowded_run : (length crowded.processes ≡ 0) × (length crowded.incidents ≡ 1)
unfolding build_digest byte_len
crowded_run = (refl, refl)

build_digest-IsTrimmed_example : IsTrimmed size crowded
build_digest-IsTrimmed_example =
    build_digest-IsTrimmed size 0 (7 ∷ 8 ∷ 9 ∷ []) (latency ∷ latency ∷ []) false none
      (codes "all well")
