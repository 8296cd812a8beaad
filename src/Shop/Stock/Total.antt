-- ===== src/Shop/Stock/Total.antt =====
-- How one UPDATE of the stock changes the rows: `update_bucket` of Stock, which stands for the
-- statement in internal/repository/shop_repo.go, `DeductStock`.
use hc_framework_go.Prelude.{
  ℕ, suc, ◌+◌, ◌*◌, ◌≤◌, ◌≡◌, refl, false, ◌&&◌, List, [], ◌∷◌, arith, ltb, leb, ◌==◌,
  if◌then◌else◌, count,
}
use hc_framework_go.Shop.Model.{ShopItemStockBucket}
use hc_framework_go.Shop.Stock.{bucket_count, bucket_sum, update_bucket}

-- How many rows have the key (id, b).
abbrev pub key_count : ℕ → ℕ → List ShopItemStockBucket → ℕ
key_count id b = count (λ r. r.item_id == id && r.bucket == b)

-- The rows obey their primary key, and the buckets of an item are numbered from 0.
abbrev pub IsKeyed : List ShopItemStockBucket → Type 0
IsKeyed rows = (id b : ℕ) → key_count id b rows ≡ (if ltb b (bucket_count id rows) then 1 else 0)

pub affected-le :
    (id b q : ℕ) (rows : List ShopItemStockBucket)
    → (update_bucket id b q rows).1 ≤ key_count id b rows
unfolding update_bucket
affected-le id b q [] = omega arith
affected-le id b q (r ∷ rs) = ground (arith, affected-le id b q rs)

pub update-key_count :
    (id b q j c : ℕ) (rows : List ShopItemStockBucket)
    → key_count j c (update_bucket id b q rows).0 ≡ key_count j c rows
unfolding update_bucket
update-key_count id b q j c [] = refl
update-key_count id b q j c (r ∷ rs) = ground (arith, update-key_count id b q j c rs)

pub update-bucket_count :
    (id b q j : ℕ) (rows : List ShopItemStockBucket)
    → bucket_count j (update_bucket id b q rows).0 ≡ bucket_count j rows
unfolding update_bucket bucket_count
update-bucket_count id b q j [] = refl
update-bucket_count id b q j (r ∷ rs) = ground (arith, update-bucket_count id b q j rs)

suc-times : (n q : ℕ) → suc n * q ≡ n * q + q
suc-times n q = omega arith

-- Each changed row gives up `q`, which it had.
pub update-sum :
    (id b q : ℕ) (rows : List ShopItemStockBucket)
    → bucket_sum id (update_bucket id b q rows).0 + (update_bucket id b q rows).1 * q
      ≡ bucket_sum id rows
unfolding update_bucket bucket_sum
update-sum id b q [] = omega arith
update-sum id b q (r ∷ rs) =
    ground (arith, update-sum id b q rs, suc-times (update_bucket id b q rs).1 q)

pub update-sum_ne :
    (id b q j : ℕ) (rows : List ShopItemStockBucket)
    → (j == id) ≡ false
    → bucket_sum j (update_bucket id b q rows).0 ≡ bucket_sum j rows
unfolding update_bucket bucket_sum
update-sum_ne id b q j [] h = refl
update-sum_ne id b q j (r ∷ rs) h = ground (arith, update-sum_ne id b q j rs h)

-- How many rows of the item could serve `q`.
abbrev pub fits : ℕ → ℕ → List ShopItemStockBucket → ℕ
fits id q = count (λ r. r.item_id == id && leb q r.stock)

affected-tail :
    (id b q : ℕ) (r : ShopItemStockBucket) (rs : List ShopItemStockBucket)
    → (update_bucket id b q rs).1 ≤ (update_bucket id b q (r ∷ rs)).1
unfolding update_bucket
affected-tail id b q r rs = ground arith

affected-head :
    (id q : ℕ) (r : ShopItemStockBucket) (rs : List ShopItemStockBucket)
    → (update_bucket id r.bucket q (r ∷ rs)).1 ≡ 0
    → (r.item_id == id && leb q r.stock) ≡ false
unfolding update_bucket
affected-head id q r rs h = ground arith

pub fits_of_affected :
    (id q : ℕ) (rows : List ShopItemStockBucket)
    → ((b : ℕ) → (update_bucket id b q rows).1 ≡ 0)
    → fits id q rows ≡ 0
fits_of_affected id q [] h = refl
fits_of_affected id q (r ∷ rs) h =
    let rest = fits_of_affected id q rs (λ b. omega (arith, affected-tail id b q r rs, h b)) in
    ground (arith, rest, affected-head id q r rs (h r.bucket))

pub affected_of_fits :
    (id b q : ℕ) (rows : List ShopItemStockBucket)
    → fits id q rows ≡ 0
    → (update_bucket id b q rows).1 ≡ 0
unfolding update_bucket
affected_of_fits id b q [] h = refl
affected_of_fits id b q (r ∷ rs) h = ground (arith, affected_of_fits id b q rs)
