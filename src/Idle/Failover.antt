-- ===== src/Idle/Failover.antt =====
-- The take-over of the shards of dead pods and the discovery of the number of pods: the rounds
-- `reconcile` of `StartScanFailover` and `refresh` of `StartPodDiscovery` in
-- internal/service/idle/idle_service.go, with `ownsSessionByShard`. The tickers and the DNS lookup are
-- outside.
use hc_framework_go.Prelude.{
  ℕ, ◌%◌, ◌<◌, ◌≡◌, Bool, true, false, ◌&&◌, ◌||◌, not, Option, none, some, List, arith, ltb, leb,
  ◌==◌, if◌then◌else◌,
}
use hc_framework_go.Idle.{
  session_set_shard, owns_set_shard, calc_pod_set_shards, compute_owned_shards,
}
use hc_framework_go.Idle.Shards.{times_in, owned-times}

-- The sharding of a service: `sees_any` is that `seenAlive` is not empty.
pub record Scanner : Type 0 where
  pub enabled : Bool
  pub failover : Bool
  pub pod_index : ℕ
  pub pod_total : ℕ
  pub set_shards : ℕ
  pub owned : List ℕ
  pub sees_any : Bool
  pub seen : ℕ → Bool

unfoldable pub owns_session_by_shard : (ℕ → ℕ) → Scanner → ℕ → Bool
unfolding owns_set_shard session_set_shard
owns_session_by_shard fnv32a p user =
    if not p.enabled || leb p.pod_total 1
    then true
    else owns_set_shard (session_set_shard fnv32a user p.set_shards) p.pod_index p.pod_total

-- The pods whose mark is found, and the pod itself, whose mark may be missing.
unfoldable pub now_alive : Scanner → (ℕ → Bool) → ℕ → Bool
now_alive p exists i = (ltb i p.pod_total && exists i) || (i == p.pod_index)

-- Those that were seen in an earlier round as well, and the pod itself.
unfoldable pub still_alive : Scanner → (ℕ → Bool) → ℕ → Bool
unfolding now_alive
still_alive p exists i =
    (ltb i p.pod_total && (p.seen i && now_alive p exists i)) || (i == p.pod_index)

unfoldable pub see : Scanner → (ℕ → Bool) → ℕ → Bool
unfolding now_alive
see p exists i = p.seen i || now_alive p exists i

-- `exists` says of which pods a mark is found, `is_leader` what the election says.
unfoldable pub reconcile : (ℕ → Bool) → Bool → Scanner → Scanner
unfolding now_alive still_alive see calc_pod_set_shards compute_owned_shards
reconcile exists is_leader p =
    if not p.sees_any
    then record p {
      owned = calc_pod_set_shards p.pod_index p.pod_total p.set_shards;
      sees_any = true;
      seen = now_alive p exists;
    }
    else record p {
      owned =
          compute_owned_shards p.pod_index p.pod_total p.set_shards (still_alive p exists)
            is_leader;
      seen = see p exists;
    }

-- The number of pods that the lookup finds, `none` for an error.
unfoldable pub refresh : Option ℕ → Scanner → Scanner
unfolding calc_pod_set_shards
refresh none p = p
refresh (some n) p =
    if leb 1 n && not (n == p.pod_total)
    then (if not p.failover
        then record p { pod_total = n; owned = calc_pod_set_shards p.pod_index n p.set_shards }
        else record p { pod_total = n })
    else p

-- In any round but the first, with two pods or more, the leader scans the shards of every other pod
-- that no earlier round has seen alive, once each: also those of a pod that never started, and those of
-- a pod whose mark this round finds for the first time.
pub reconcile-unseen :
    (exists : ℕ → Bool) (p : Scanner) (shard : ℕ)
    → p.sees_any ≡ true
    → 1 < p.pod_total
    → shard < p.set_shards
    → ((shard % p.pod_total) == p.pod_index) ≡ false
    → p.seen (shard % p.pod_total) ≡ false
    → times_in shard (reconcile exists true p).owned ≡ 1
unfolding reconcile still_alive
reconcile-unseen exists p shard later many h other unseen = ground (
  arith,
  later,
  other,
  unseen,
  owned-times p.pod_total p.set_shards (still_alive p exists) shard many h p.pod_index true,
)
