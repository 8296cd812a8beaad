-- ===== src/Idle/Shards.antt =====
-- Every shard has one scanner: `calcPodSetShards` and `ComputeOwnedShards` of
-- internal/service/idle/scan_sharding.go.
use native.Mathlib.Nat.{mod-lt}
use hc_framework_go.Prelude.{
  ℕ, zero, suc, ◌+◌, ◌-◌, ◌%◌, ◌<◌, ◌≡◌, Bool, true, false, ◌&&◌, not, List, arith, ltb, leb, ◌==◌,
  if◌then◌else◌, count, count-append, ==_iff, ℤ, pos, negsuc,
}
use hc_framework_go.Idle.{
  owns_set_shard, shards_from, calc_pod_set_shards, dead_shards, compute_owned_shards,
  ScanShardingConfig, PodEnv, resolve_pod_shard, resolve_pod_total, at_least_one,
}

-- How often a list of shards names one.
abbrev pub times_in : ℕ → List ℕ → ℕ
times_in s = count (λ x. x == s)

from-times :
    (keep : ℕ → Bool) (s i left : ℕ)
    → times_in s (shards_from keep i left)
      ≡ (if (leb i s && ltb s (i + left)) && keep s then 1 else 0)
unfolding shards_from
from-times keep s i zero = ground arith
from-times keep s i (suc left) = ground (arith, from-times keep s (suc i) left, ==_iff i s)

-- A pod's own list names each shard that `ownsSetShard` gives it once, and no other.
pub calc_pod_set_shards-times :
    (index total set_shards s : ℕ)
    → times_in s (calc_pod_set_shards index total set_shards)
      ≡ (if ltb s set_shards && owns_set_shard s index total then 1 else 0)
unfolding calc_pod_set_shards owns_set_shard
calc_pod_set_shards-times index total set_shards s = ground (
  arith,
  from-times (λ i. true) s 0 set_shards,
  from-times (λ i. (i % total) == index) s 0 set_shards,
)

-- How often the pods below `k` that are alive scan a shard, when `leader` leads.
abbrev pub scans : ℕ → ℕ → (ℕ → Bool) → ℕ → ℕ → ℕ → ℕ
scans total set_shards alive leader s zero = 0
scans total set_shards alive leader s (suc k) =
    (if alive k
      then times_in s (compute_owned_shards k total set_shards alive (k == leader))
      else 0)
    + scans total set_shards alive leader s k

module _ (total set_shards : ℕ) (alive : ℕ → Bool) (s : ℕ) (many : 1 < total)
    (h : s < set_shards) where
  -- The owner of the shard.
  abbrev owner : ℕ
  owner = s % total

  in_range : owner < total
  in_range = mod-lt s (omega (arith, many))

  own-times :
      (d : ℕ) → times_in s (calc_pod_set_shards d total set_shards) ≡ (if owner == d then 1 else 0)
  unfolding owns_set_shard
  own-times d = ground (arith, calc_pod_set_shards-times d total set_shards s)

  dead-times :
      (d left : ℕ)
      → times_in s (dead_shards total set_shards alive d left)
        ≡ (if (leb d owner && ltb owner (d + left)) && not (alive owner) then 1 else 0)
  unfolding dead_shards
  dead-times d zero = ground arith
  dead-times d (suc left) = ground (
    arith,
    dead-times (suc d) left,
    own-times d,
    ==_iff owner d,
    count-append (λ x. x == s) (calc_pod_set_shards d total set_shards)
        (dead_shards total set_shards alive (suc d) left),
  )

  pub owned-times :
      (k : ℕ) (is_leader : Bool)
      → times_in s (compute_owned_shards k total set_shards alive is_leader)
        ≡ (if owner == k then 1 else 0) + (if is_leader && not (alive owner) then 1 else 0)
  unfolding compute_owned_shards
  owned-times k false = omega (arith, own-times k)
  owned-times k true = ground (
    arith,
    own-times k,
    dead-times 0 total,
    in_range,
    count-append (λ x. x == s) (calc_pod_set_shards k total set_shards)
        (dead_shards total set_shards alive 0 total),
  )

  scans-below :
      (leader k : ℕ)
      → alive leader ≡ true
      → scans total set_shards alive leader s k
        ≡ (if ltb owner k && alive owner then 1 else 0)
          + (if ltb leader k && not (alive owner) then 1 else 0)
  scans-below leader zero a = ground arith
  scans-below leader (suc k) a =
      ground (
        arith,
        scans-below leader k a,
        owned-times k (k == leader),
        ==_iff owner k,
        ==_iff k leader,
      )

-- With two pods or more and a leader that is alive, the pods that are alive scan each shard exactly
-- once between them: its owner does, or the leader where the owner is down.
pub compute_owned_shards-scans :
    (total set_shards : ℕ) (alive : ℕ → Bool) (leader s : ℕ)
    → 1 < total
    → s < set_shards
    → leader < total
    → alive leader ≡ true
    → scans total set_shards alive leader s total ≡ 1
compute_owned_shards-scans total set_shards alive leader s many h l a = ground (
  arith,
  scans-below total set_shards alive s many h leader total a,
  in_range total set_shards alive s many h,
)

bounded : (index total : ℕ) → 0 < total → (if leb total index then total - 1 else index) < total
bounded index total h = ground arith

positive : (z : ℤ) → 0 < at_least_one z
positive (pos zero) = omega arith
positive (pos (suc n)) = omega arith
positive (negsuc n) = omega arith

-- Whatever the configuration, the environment and the lookup say, the total is at least one and the
-- index of the pod is below it.
pub resolve_pod_shard-bounds :
    (cfg : ScanShardingConfig) (env : PodEnv)
    → (0 < (resolve_pod_shard cfg env).1)
      × ((resolve_pod_shard cfg env).0 < (resolve_pod_shard cfg env).1)
unfolding resolve_pod_shard
resolve_pod_shard-bounds cfg env =
    let h = positive (resolve_pod_total cfg env) in (h, bounded _ _ h)
