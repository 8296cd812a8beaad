-- ===== src/Shop/Stock/Rows.antt =====
-- The single-row fallback of `DeductStock` in internal/repository/shop_repo.go, and what the rows
-- of items and buckets offer together.
use hc_framework_go.Prelude.{
  ℕ, suc, ◌+◌, ◌*◌, ◌≤◌, ◌≡◌, refl, false, ◌&&◌, List, [], ◌∷◌, arith, leb, ◌==◌, if◌then◌else◌,
  count,
}
use hc_framework_go.Shop.Model.{ShopItem, Db}
use hc_framework_go.Shop.Stock.{bucket_count, bucket_sum, update_item}
use hc_framework_go.Shop.Stock.Total.{IsKeyed, fits}

-- The stock column of an item, summed over the rows that have its id.
unfoldable pub item_sum : ℕ → List ShopItem → ℕ
item_sum id [] = 0
item_sum id (it ∷ its) = (if it.id == id then it.stock else 0) + item_sum id its

abbrev pub item_count : ℕ → List ShopItem → ℕ
item_count id = count (λ it. it.id == id)

abbrev pub item_fits : ℕ → ℕ → List ShopItem → ℕ
item_fits id q = count (λ it. it.id == id && leb q it.stock)

pub item-affected-le :
    (id q : ℕ) (its : List ShopItem) → (update_item id q its).1 ≤ item_count id its
unfolding update_item
item-affected-le id q [] = omega arith
item-affected-le id q (it ∷ its) = ground (arith, item-affected-le id q its)

pub item-affected-fits :
    (id q : ℕ) (its : List ShopItem) → (update_item id q its).1 ≡ item_fits id q its
unfolding update_item
item-affected-fits id q [] = refl
item-affected-fits id q (it ∷ its) = ground (arith, item-affected-fits id q its)

suc-times : (n q : ℕ) → suc n * q ≡ n * q + q
suc-times n q = omega arith

pub update_item-sum :
    (id q : ℕ) (its : List ShopItem)
    → item_sum id (update_item id q its).0 + (update_item id q its).1 * q ≡ item_sum id its
unfolding update_item item_sum
update_item-sum id q [] = omega arith
update_item-sum id q (it ∷ its) =
    ground (arith, update_item-sum id q its, suc-times (update_item id q its).1 q)

pub update_item-sum_ne :
    (id q j : ℕ) (its : List ShopItem)
    → (j == id) ≡ false
    → item_sum j (update_item id q its).0 ≡ item_sum j its
unfolding update_item item_sum
update_item-sum_ne id q j [] h = refl
update_item-sum_ne id q j (it ∷ its) h = ground (arith, update_item-sum_ne id q j its h)

pub update_item-count :
    (id q j : ℕ) (its : List ShopItem) → item_count j (update_item id q its).0 ≡ item_count j its
unfolding update_item
update_item-count id q j [] = refl
update_item-count id q j (it ∷ its) = ground (arith, update_item-count id q j its)

-- The stock that is for sale: the buckets', or the item's where it has none.
unfoldable pub available : ℕ → Db → ℕ
available id db =
    if bucket_count id db.buckets == 0 then item_sum id db.items else bucket_sum id db.buckets

-- How many rows could serve an order of `q`.
unfoldable pub servers : ℕ → ℕ → Db → ℕ
servers id q db =
    if bucket_count id db.buckets == 0 then item_fits id q db.items else fits id q db.buckets

-- The primary keys of the two tables hold, and each item's buckets are numbered from 0.
pub record IsStocked (db : Db) : Type 0 where
  pub keyed : IsKeyed db.buckets
  pub unique : (id : ℕ) → item_count id db.items ≤ 1
