-- ===== src/Shop/Stock/Seed.antt =====
-- How the stock of an item is spread over its buckets: `makeBuckets` and `CreateStockBuckets` of
-- internal/repository/shop_repo.go.
use mathlib.Core.List.{append_assoc, append-nil}
use native.Mathlib.Nat.{mod-lt, div-add-mod}
use hc_framework_go.Prelude.{
  ℕ, zero, suc, ◌+◌, ◌-◌, ◌*◌, ◌/◌, ◌%◌, ◌≤◌, ◌<◌, ◌≡◌, refl, sym, ap, ◌∙◌, true, false, ◌&&◌, List,
  [], ◌∷◌, ◌++◌, arith, ltb, leb, ◌==◌, if◌then◌else◌, count-append, ==_iff, Bool-cases, inl, inr,
}
use hc_framework_go.Shop.Model.{ShopItemStockBucket}
use hc_framework_go.Shop.Stock.{
  bucket_count, bucket_sum, make_from, make_buckets, insert_new, create_stock_buckets,
  stock_bucket_count,
}
use hc_framework_go.Shop.Stock.Total.{key_count, IsKeyed}

module _ (id base rem : ℕ) where
  -- `rem - b` of the buckets from `b` on have one more.
  make-sum :
      (b left : ℕ)
      → rem ≤ b + left
      → bucket_sum id (make_from id base rem b left) ≡ left * base + (rem - b)
  unfolding bucket_sum make_from
  make-sum b zero h = omega arith
  make-sum b (suc left) h = ground (arith, make-sum (suc b) left (omega arith), suc-times left base)
    where
      suc-times : (n q : ℕ) → suc n * q ≡ n * q + q
      suc-times n q = omega arith

  make-keys :
      (j c b left : ℕ)
      → key_count j c (make_from id base rem b left)
        ≡ (if j == id && (leb b c && ltb c (b + left)) then 1 else 0)
  unfolding make_from
  make-keys j c b zero = ground arith
  make-keys j c b (suc left) = ground (arith, make-keys j c (suc b) left)

  make-count :
      (j b left : ℕ) → bucket_count j (make_from id base rem b left) ≡ (if j == id then left else 0)
  unfolding bucket_count make_from
  make-count j b zero = ground arith
  make-count j b (suc left) = ground (arith, make-count j (suc b) left)

  make-sum_ne : (j b left : ℕ) → (j == id) ≡ false → bucket_sum j (make_from id base rem b left) ≡ 0
  unfolding bucket_sum make_from
  make-sum_ne j b zero h = refl
  make-sum_ne j b (suc left) h = ground (arith, make-sum_ne j (suc b) left h)

  append-key :
      (c b s : ℕ) (rows : List ShopItemStockBucket)
      → suc b ≤ c
      → key_count id c (rows ++ record { item_id = id; bucket = b; stock = s } ∷ [])
        ≡ key_count id c rows
  append-key c b s [] h = ground arith
  append-key c b s (r ∷ rs) h = ground (arith, append-key c b s rs h)

  insert_fresh :
      (b left : ℕ) (rows : List ShopItemStockBucket)
      → ((c : ℕ) → b ≤ c → key_count id c rows ≡ 0)
      → insert_new (make_from id base rem b left) rows ≡ rows ++ make_from id base rem b left
  unfolding make_from insert_new
  insert_fresh b zero rows h = sym (append-nil rows)
  insert_fresh b (suc left) rows h =
      rw (h b (omega arith), insert_new)
        (insert_fresh (suc b) left (rows ++ next ∷ [])
            (λ c l. append-key c b next.stock rows l ∙ h c (omega arith))
          ∙ append_assoc rows (next ∷ []) (make_from id base rem (suc b) left))
    where
      next : ShopItemStockBucket
      next = record { item_id = id; bucket = b; stock = if ltb b rem then suc base else base }

pub sum-append :
    (j : ℕ) (xs ys : List ShopItemStockBucket)
    → bucket_sum j (xs ++ ys) ≡ bucket_sum j xs + bucket_sum j ys
unfolding bucket_sum
sum-append j [] ys = omega arith
sum-append j (x ∷ xs) ys = omega (arith, sum-append j xs ys)

no-keys :
    (id c : ℕ) (rows : List ShopItemStockBucket)
    → IsKeyed rows
    → bucket_count id rows ≡ 0
    → key_count id c rows ≡ 0
no-keys id c rows k h = ground (arith, k id c)

-- `n` new buckets behind rows that have none of the item.
module _ (id base rem n : ℕ) (rows : List ShopItemStockBucket) where
  abbrev spread : List ShopItemStockBucket
  spread = rows ++ make_from id base rem 0 n

  spread-count : (j : ℕ) → bucket_count j spread ≡ bucket_count j rows + (if j == id then n else 0)
  unfolding bucket_count
  spread-count j =
      count-append _ rows (make_from id base rem 0 n)
      ∙ ap (λ (t : ℕ). bucket_count j rows + t) (make-count id base rem j 0 n)

  spread-keys :
      (j c : ℕ)
      → key_count j c spread
        ≡ key_count j c rows + (if j == id && (leb 0 c && ltb c (0 + n)) then 1 else 0)
  spread-keys j c =
      count-append _ rows (make_from id base rem 0 n)
      ∙ ap (λ (t : ℕ). key_count j c rows + t) (make-keys id base rem j c 0 n)

  spread-IsKeyed : IsKeyed rows → bucket_count id rows ≡ 0 → IsKeyed spread
  spread-IsKeyed k z j c =
      ground (arith, spread-count j, spread-keys j c, k j c, no-keys id c rows k z, same)
    where
      same : (j == id) ≡ true → bucket_count j rows ≡ 0
      same e = rw ((==_iff j id).0 e) z

-- What seeding `n` buckets does for an item that has none yet.
pub record Seeded (n id total : ℕ) (rows rows' : List ShopItemStockBucket) : Type 0 where
  pub keyed : IsKeyed rows'
  pub holds : (j : ℕ) → bucket_sum j rows' ≡ (if j == id then total else bucket_sum j rows)
  pub numbered : bucket_count id rows' ≡ n

sum_of_none :
    (id : ℕ) (rows : List ShopItemStockBucket) → bucket_count id rows ≡ 0 → bucket_sum id rows ≡ 0
unfolding bucket_sum bucket_count
sum_of_none id [] h = refl
sum_of_none id (r ∷ rs) h = ground (arith, sum_of_none id rs)

seed-Seeded :
    (n id total : ℕ) (rows : List ShopItemStockBucket)
    → 0 < n
    → IsKeyed rows
    → bucket_count id rows ≡ 0
    → Seeded n id total rows (insert_new (make_buckets id total n) rows)
unfolding make_buckets
seed-Seeded n id total rows h k z =
    rw (insert_fresh id (total / n) (total % n) 0 n rows (λ c l. no-keys id c rows k z)) (record {
      keyed = spread-IsKeyed id (total / n) (total % n) n rows k z;
      holds = λ j. elim (Bool-cases (j == id)) [
        | inl hit ↦ rw hit (rw ((==_iff j id).0 hit) whole)
        | inr miss ↦ rw miss (
            sum-append j rows (make_from id (total / n) (total % n) 0 n)
            ∙ omega (arith, make-sum_ne id (total / n) (total % n) j 0 n miss))
      ];
      numbered = ground (arith, spread-count id (total / n) (total % n) n rows id);
    })
  where
    whole : bucket_sum id (rows ++ make_from id (total / n) (total % n) 0 n) ≡ total
    whole =
        sum-append id rows (make_from id (total / n) (total % n) 0 n)
        ∙ omega (
          arith,
          make-sum id (total / n) (total % n) 0 n (omega (arith, mod-lt total h)),
          sum_of_none id rows z,
          div-add-mod total n,
        )

-- Seeding an item that has no buckets gives it sixteen that hold exactly `total`, keeps the primary
-- key and the numbering, and leaves the stock of every other item alone.
pub create_stock_buckets-Seeded :
    (id total : ℕ) (rows : List ShopItemStockBucket)
    → IsKeyed rows
    → bucket_count id rows ≡ 0
    → Seeded stock_bucket_count id total rows (create_stock_buckets id total rows)
unfolding create_stock_buckets
create_stock_buckets-Seeded id total rows k z =
    seed-Seeded stock_bucket_count id total rows (omega arith) k z
