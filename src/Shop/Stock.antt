-- ===== src/Shop/Stock.antt =====
-- The stock of an item: internal/repository/shop_repo.go, `bucketIndex`, `TotalStock`,
-- `fillItemStock`, `DeductStock`, `CreateStockBuckets` and `makeBuckets`.
-- A query is a function of the rows; what fails in a run is an argument (`DeductFaults`).
pub mod Total
pub mod Deduct
pub mod Seed
pub mod Rows
pub mod Conserve
pub mod SoldOut
use hc_framework_go.Prelude.{
  ℕ, zero, suc, ◌+◌, ◌-◌, ◌/◌, ◌%◌, ◌^◌, Bool, true, false, ◌&&◌, not, Option, none, some, List, [],
  ◌∷◌, ◌++◌, ltb, leb, ◌==◌, if◌then◌else◌, count, find?,
}
use hc_framework_go.Shop.Model.{ShopItem, ShopItemStockBucket, Db}

abbrev pub stock_bucket_count : ℕ
stock_bucket_count = 16

-- `fnv32a` is the 32-bit FNV-1a hash of the shard key.
unfoldable pub bucket_index : (ℕ → ℕ) → ℕ → ℕ → ℕ
bucket_index fnv32a shard_key n = fnv32a shard_key % n

-- SELECT COUNT(*) ... WHERE item_id = id
unfoldable pub bucket_count : ℕ → List ShopItemStockBucket → ℕ
bucket_count id = count (λ r. r.item_id == id)

-- SELECT COALESCE(SUM(stock),0) ... WHERE item_id = id
unfoldable pub bucket_sum : ℕ → List ShopItemStockBucket → ℕ
bucket_sum id [] = 0
bucket_sum id (r ∷ rs) = (if r.item_id == id then r.stock else 0) + bucket_sum id rs

unfoldable pub find_item_row : ℕ → List ShopItem → Option ShopItem
find_item_row id = find? (λ it. it.id == id)

-- `none` is an error of the query, the missing item's included.
unfoldable pub total_stock : Bool → ℕ → Db → Option ℕ
unfolding bucket_count bucket_sum find_item_row
total_stock failed id db =
    if failed
    then none
    else if bucket_count id db.buckets == 0
    then elim (find_item_row id db.items) [ none ↦ none | some it ↦ some it.stock ]
    else some (bucket_sum id db.buckets)

-- UPDATE ... SET stock = stock - q WHERE item_id = id AND bucket = b AND stock >= q,
-- with the number of rows it changed.
unfoldable pub update_bucket : ℕ → ℕ → ℕ → List ShopItemStockBucket → List ShopItemStockBucket × ℕ
update_bucket id b q [] = ([], 0)
update_bucket id b q (r ∷ rs) =
    let (rest, n) = update_bucket id b q rs in
    if r.item_id == id && r.bucket == b && leb q r.stock
    then (record r { stock = r.stock - q } ∷ rest, suc n)
    else (r ∷ rest, n)

-- UPDATE shop_items SET stock = stock - q WHERE id = ? AND stock >= q
unfoldable pub update_item : ℕ → ℕ → List ShopItem → List ShopItem × ℕ
update_item id q [] = ([], 0)
update_item id q (it ∷ its) =
    let (rest, n) = update_item id q its in
    if it.id == id && leb q it.stock
    then (record it { stock = it.stock - q } ∷ rest, suc n)
    else (it ∷ rest, n)

pub data Deducted : Type 0 where
  deducted : Db → Deducted
  insufficient db_error : Deducted

pub record DeductFaults : Type 0 where
  pub count_fails : Bool
  pub update_fails : ℕ → Bool  -- by attempt

-- The loop over the buckets: `left` attempts are left of `n`.
unfoldable pub try_buckets :
    (ℕ → Bool)
    → ℕ
    → ℕ
    → ℕ
    → ℕ
    → ℕ
    → List ShopItemStockBucket
    → Option (Option (List ShopItemStockBucket))
unfolding update_bucket
try_buckets fails id q primary n zero rows = some none
try_buckets fails id q primary n (suc left) rows =
    let attempt = n - suc left in
    let rest = try_buckets fails id q primary n left rows in
    let (rows', affected) = update_bucket id ((primary + attempt) % n) q rows in
    if fails attempt then none else if ltb 0 affected then some (some rows') else rest

-- The fallback of an item with no buckets.
unfoldable pub deduct_row : Bool → ℕ → ℕ → Db → Deducted
unfolding update_item
deduct_row fails id q db =
    let (items', affected) = update_item id q db.items in
    if fails
    then db_error
    else if affected == 0
    then insufficient
    else deducted (record db { items = items' })

-- `none` of the loop is a query error, `some none` that no bucket had enough.
unfoldable pub after_buckets : Db → Option (Option (List ShopItemStockBucket)) → Deducted
after_buckets db none = db_error
after_buckets db (some none) = insufficient
after_buckets db (some (some rows)) = deducted (record db { buckets = rows })

unfoldable pub deduct_stock : (ℕ → ℕ) → DeductFaults → ℕ → ℕ → ℕ → Db → Deducted
unfolding bucket_index bucket_count deduct_row try_buckets after_buckets
deduct_stock fnv32a faults id q shard_key db =
    let n = bucket_count id db.buckets in
    let primary = bucket_index fnv32a shard_key n in
    if faults.count_fails
    then db_error
    else if n == 0
    then deduct_row (faults.update_fails 0) id q db
    else after_buckets db (try_buckets faults.update_fails id q primary n n db.buckets)

-- The buckets `b`, `b + 1`, ..., for the `left` of them that remain of `n`.
unfoldable pub make_from : ℕ → ℕ → ℕ → ℕ → ℕ → List ShopItemStockBucket
make_from item_id base rem b zero = []
make_from item_id base rem b (suc left) =
    record { item_id = item_id; bucket = b; stock = (if ltb b rem then suc base else base) }
    ∷ make_from item_id base rem (suc b) left

unfoldable pub make_buckets : ℕ → ℕ → ℕ → List ShopItemStockBucket
unfolding make_from
make_buckets item_id total n = make_from item_id (total / n) (total % n) 0 n

-- INSERT ... ON CONFLICT DO NOTHING on the key (item_id, bucket).
unfoldable pub insert_new :
    List ShopItemStockBucket → List ShopItemStockBucket → List ShopItemStockBucket
insert_new [] rows = rows
insert_new (r ∷ rs) rows = insert_new rs (
    if count (λ s. (s.item_id == r.item_id) && (s.bucket == r.bucket)) rows == 0
    then rows ++ r ∷ []
    else rows)

unfoldable pub create_stock_buckets : ℕ → ℕ → List ShopItemStockBucket → List ShopItemStockBucket
create_stock_buckets item_id total rows =
    insert_new (make_buckets item_id total stock_bucket_count) rows
