-- ===== src/Mq/Partitions.antt =====
-- The partitions of an instance: `assignPartitions` of internal/mq/kafka_consumer.go.
use hc_framework_go.Prelude.{
  ℕ, ◌%◌, ◌<◌, ◌≡◌, refl, ◌&&◌, List, [], ◌∷◌, arith, leb, ◌==◌, if◌then◌else◌, select, ==_iff,
  ==_refl, Bool-cases, inl, inr, ℤ, pos, negsuc,
}
use hc_framework_go.Mq.Progress.{has}

-- An instance id out of range falls back to all partitions.
unfoldable pub assign_partitions : ℕ → ℤ → List ℕ → List ℕ
assign_partitions instance_count (negsuc n) parts = parts
assign_partitions instance_count (pos id) parts =
    if leb instance_count 1
    then parts
    else if leb instance_count id
    then parts
    else select (λ p. (p % instance_count) == id) parts

has-select :
    (instance_count id p : ℕ) (parts : List ℕ)
    → has p (select (λ q. (q % instance_count) == id) parts)
      ≡ (has p parts && ((p % instance_count) == id))
has-select instance_count id p [] = refl
has-select instance_count id p (q ∷ qs) = elim (Bool-cases (q == p)) [
  | inl same ↦
      rw ((==_iff q p).0 same) (ground (arith, has-select instance_count id p qs, ==_refl p))
  | inr other ↦ ground (arith, has-select instance_count id p qs, other)
]

-- With two instances or more, each partition is read by the instance that its number leaves, and by no
-- other instance within the range.
pub assign_partitions-has :
    (instance_count id p : ℕ) (parts : List ℕ)
    → 1 < instance_count
    → id < instance_count
    → has p (assign_partitions instance_count (pos id) parts)
      ≡ (has p parts && ((p % instance_count) == id))
unfolding assign_partitions
assign_partitions-has instance_count id p parts many h =
    ground (arith, many, h, has-select instance_count id p parts)
