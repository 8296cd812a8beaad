-- ===== src/Idle/Tests.antt =====
-- Three pods, the second of them down, and sixteen shards.
use hc_framework_go.Prelude.{ℕ, ◌≡◌, refl, Bool, not, arith, ◌==◌}
use hc_framework_go.Idle.Shards.{scans, compute_owned_shards-scans}

abbrev up : ℕ → Bool
up d = not (d == 1)

compute_owned_shards-scans_example : scans 3 16 up 2 7 3 ≡ 1
compute_owned_shards-scans_example =
    compute_owned_shards-scans 3 16 up 2 7 (omega arith) (omega arith) (omega arith) refl
