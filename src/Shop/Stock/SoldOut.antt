-- ===== src/Shop/Stock/SoldOut.antt =====
-- When `DeductStock` of internal/repository/shop_repo.go reports that the stock is insufficient.
use native.Mathlib.Nat.{mod-lt}
use hc_framework_go.Prelude.{
  ℕ, zero, suc, ◌-◌, ◌%◌, ◌+◌, ◌<◌, ◌≡◌, refl, ◌↔◌, inl, inr, Bool, false, Option, none, some, List,
  arith, ◌==◌, Bool-cases,
}
use hc_framework_go.Shop.Model.{Db, ShopItemStockBucket}
use hc_framework_go.Shop.Stock.{
  bucket_count, bucket_index, try_buckets, deduct_row, after_buckets, deduct_stock, insufficient,
  DeductFaults,
}
use hc_framework_go.Shop.Stock.Total.{fits, affected_of_fits}
use hc_framework_go.Shop.Stock.Deduct.{not_found}
use hc_framework_go.Shop.Stock.Rows.{item-affected-fits, item_fits, servers, IsStocked}

dry-loop :
    (fails : ℕ → Bool) (id q primary n left : ℕ) (rows : List ShopItemStockBucket)
    → ((a : ℕ) → fails a ≡ false)
    → fits id q rows ≡ 0
    → try_buckets fails id q primary n left rows ≡ some none
unfolding try_buckets
dry-loop fails id q primary n zero rows ok dry = refl
dry-loop fails id q primary n (suc left) rows ok dry = ground (
  arith,
  ok (n - suc left),
  affected_of_fits id ((primary + (n - suc left)) % n) q rows dry,
  dry-loop fails id q primary n left rows ok dry,
)

row-insufficient :
    (fails : Bool) (id q : ℕ) (db : Db)
    → deduct_row fails id q db ≡ insufficient
    → item_fits id q db.items ≡ 0
unfolding deduct_row
row-insufficient fails id q db e = ground (arith, item-affected-fits id q db.items)

row-dry :
    (id q : ℕ) (db : Db) → item_fits id q db.items ≡ 0 → deduct_row false id q db ≡ insufficient
unfolding deduct_row
row-dry id q db h = ground (arith, item-affected-fits id q db.items)

after-insufficient :
    (db : Db) (r : Option (Option (List ShopItemStockBucket)))
    → after_buckets db r ≡ insufficient
    → r ≡ some none
unfolding after_buckets
after-insufficient db none e = cc
after-insufficient db (some none) e = refl
after-insufficient db (some (some rows)) e = cc

primary-lt : (fnv32a : ℕ → ℕ) (key n : ℕ) → (n == 0) ≡ false → bucket_index fnv32a key n < n
unfolding bucket_index
primary-lt fnv32a key n h = mod-lt _ (ground arith)

-- "Insufficient" is the answer only if no row of the item, in whatever bucket, has `q` in stock.
pub deduct_stock-insufficient :
    (fnv32a : ℕ → ℕ) (faults : DeductFaults) (id q shard_key : ℕ) (db : Db)
    → IsStocked db
    → deduct_stock fnv32a faults id q shard_key db ≡ insufficient
    → servers id q db ≡ 0
unfolding deduct_stock servers
deduct_stock-insufficient fnv32a faults id q shard_key db s e =
    elim (Bool-cases faults.count_fails) [
      | inl bad ↦ absurd (let e' = rw bad at e in cc)
      | inr good ↦ elim (Bool-cases (bucket_count id db.buckets == 0)) [
        | inl plain ↦
            rw plain (row-insufficient (faults.update_fails 0) id q db (rw (good, plain) at e))
        | inr split ↦ rw split (
            not_found faults.update_fails id q
              (bucket_index fnv32a shard_key (bucket_count id db.buckets)) db.buckets s.keyed
              (primary-lt fnv32a shard_key (bucket_count id db.buckets) split)
              (after-insufficient db _ (rw (good, split) at e)))
      ]
    ]

-- Where the keys are unique and no query fails, a deduction answers `insufficient` exactly when no row
-- of the item holds the quantity.
pub deduct_stock_iff :
    (fnv32a : ℕ → ℕ) (faults : DeductFaults) (id q shard_key : ℕ) (db : Db)
    → IsStocked db
    → faults.count_fails ≡ false
    → ((a : ℕ) → faults.update_fails a ≡ false)
    → (deduct_stock fnv32a faults id q shard_key db ≡ insufficient) ↔ (servers id q db ≡ 0)
unfolding deduct_stock servers
deduct_stock_iff fnv32a faults id q shard_key db s good ok =
    (deduct_stock-insufficient fnv32a faults id q shard_key db s, dry)
  where
    dry : servers id q db ≡ 0 → deduct_stock fnv32a faults id q shard_key db ≡ insufficient
    dry h = elim (Bool-cases (bucket_count id db.buckets == 0)) [
      | inl plain ↦ rw (good, plain, ok 0) (row-dry id q db (rw plain at h))
      | inr split ↦
          rw (good, split)
            (rw
              (dry-loop faults.update_fails id q
                (bucket_index fnv32a shard_key (bucket_count id db.buckets))
                (bucket_count id db.buckets) (bucket_count id db.buckets) db.buckets ok
                (rw split at h))
              refl)
    ]
