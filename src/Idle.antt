-- ===== src/Idle.antt =====
-- The scanner of idle sessions over several pods: internal/service/idle/scan_sharding.go.
-- The environment variables, the DNS lookup and FNV-1a are arguments.
pub mod Shards
pub mod Session
pub mod Daily
pub mod Settle
pub mod Devices
pub mod Calls
pub mod Active
pub mod Capacity
pub mod Stale
pub mod Scan
mod Tests
mod Scenarios
pub mod Failover
pub mod Expiry
pub mod Flusher
use hc_framework_go.Prelude.{
  ℕ, zero, suc, ◌-◌, ◌%◌, Bool, true, false, ◌&&◌, not, Option, none, some, List, [], ◌∷◌, ◌++◌,
  ltb, leb, ◌==◌, if◌then◌else◌, or_else, ℤ, pos, negsuc,
}

unfoldable pub session_set_shard : (ℕ → ℕ) → ℕ → ℕ → ℕ
session_set_shard fnv32a user set_shards = if leb set_shards 0 then 0 else fnv32a user % set_shards

unfoldable pub owns_set_shard : ℕ → ℕ → ℕ → Bool
owns_set_shard set_shard pod_index pod_total =
    if leb pod_total 1 then true else (set_shard % pod_total) == pod_index

-- The shards `i`, `i + 1`, ... of which `left` remain, that pass the test.
unfoldable pub shards_from : (ℕ → Bool) → ℕ → ℕ → List ℕ
shards_from keep i zero = []
shards_from keep i (suc left) =
    let rest = shards_from keep (suc i) left in if keep i then i ∷ rest else rest

unfoldable pub calc_pod_set_shards : ℕ → ℕ → ℕ → List ℕ
unfolding shards_from
calc_pod_set_shards index total set_shards =
    if leb set_shards 0
    then []
    else if leb total 1
    then shards_from (λ i. true) 0 set_shards
    else shards_from (λ i. (i % total) == index) 0 set_shards

-- The shards of the pods `d`, `d + 1`, ... that are not alive, where `left` pods remain.
unfoldable pub dead_shards : ℕ → ℕ → (ℕ → Bool) → ℕ → ℕ → List ℕ
dead_shards total set_shards alive d zero = []
dead_shards total set_shards alive d (suc left) =
    let rest = dead_shards total set_shards alive (suc d) left in
    if not (alive d) then calc_pod_set_shards d total set_shards ++ rest else rest

unfoldable pub compute_owned_shards : ℕ → ℕ → ℕ → (ℕ → Bool) → Bool → List ℕ
unfolding dead_shards
compute_owned_shards my_idx total set_shards alive is_leader =
    let owned = calc_pod_set_shards my_idx total set_shards in
    if is_leader then owned ++ dead_shards total set_shards alive 0 total else owned

pub record ScanShardingConfig : Type 0 where
  pub pod_index : ℤ
  pub pod_total : ℤ
  pub is_headless : Bool  -- `pod_discovery` is "headless" and a service is named

-- What the process sees: numbers that parse in the variables, and the records of the lookup.
pub record PodEnv : Type 0 where
  pub hc_pod_index : Option ℤ
  pub hc_pod_total : Option ℤ
  pub pod_name_ordinal : Option ℤ
  pub hostname_ordinal : Option ℤ
  pub resolved : Option ℕ

abbrev pub is_positive : ℤ → Bool
is_positive (pos zero) = false
is_positive (pos (suc n)) = true
is_positive (negsuc n) = false

-- `cfg.PodTotal > 1`
abbrev pub is_above_one : ℤ → Bool
is_above_one (pos n) = ltb 1 n
is_above_one (negsuc n) = false

abbrev pub non_negative : ℤ → Bool
non_negative (pos n) = true
non_negative (negsuc n) = false

-- -1 where neither name ends in a number.
unfoldable pub pod_ordinal : PodEnv → ℤ
pod_ordinal env = elim env.pod_name_ordinal [
  | some n ↦ n
  | none ↦ or_else env.hostname_ordinal (negsuc 0)
]

unfoldable pub resolve_pod_index : ScanShardingConfig → PodEnv → ℤ
unfolding pod_ordinal
resolve_pod_index cfg env =
    if is_positive cfg.pod_index then cfg.pod_index else elim env.hc_pod_index [
      | some n ↦ n
      | none ↦ if non_negative (pod_ordinal env) then pod_ordinal env else pos 0
    ]

abbrev pub env_total : PodEnv → ℤ
env_total env = elim env.hc_pod_total [ some n ↦ if is_positive n then n else pos 1 | none ↦ pos 1 ]

abbrev pub dns_total : PodEnv → ℤ
dns_total env = elim env.resolved [
  | some n ↦ if ltb 0 n then pos n else env_total env
  | none ↦ env_total env
]

unfoldable pub resolve_pod_total : ScanShardingConfig → PodEnv → ℤ
resolve_pod_total cfg env =
    if is_above_one cfg.pod_total
    then cfg.pod_total
    else if cfg.is_headless
    then dns_total env
    else env_total env

-- The bounds put on the two numbers.
abbrev pub at_least_one : ℤ → ℕ
at_least_one (pos zero) = 1
at_least_one (pos (suc n)) = suc n
at_least_one (negsuc n) = 1

abbrev pub at_least_zero : ℤ → ℕ
at_least_zero (pos n) = n
at_least_zero (negsuc n) = 0

unfoldable pub resolve_pod_shard : ScanShardingConfig → PodEnv → ℕ × ℕ
unfolding resolve_pod_index resolve_pod_total
resolve_pod_shard cfg env =
    let total = at_least_one (resolve_pod_total cfg env) in
    let index = at_least_zero (resolve_pod_index cfg env) in
    (if leb total index then total - 1 else index, total)
