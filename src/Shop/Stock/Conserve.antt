-- ===== src/Shop/Stock/Conserve.antt =====
-- `DeductStock` of internal/repository/shop_repo.go against the stock that is for sale.
use hc_framework_go.Prelude.{
  moved_of, if◌then◌else◌, ℕ, ◌+◌, ◌*◌, ◌≡◌, refl, inl, inr, Bool, true, false, Option, none, some,
  List, arith, ◌==◌, Bool-cases, subst,
}
use hc_framework_go.Shop.Model.{Db, ShopItemStockBucket}
use hc_framework_go.Shop.Stock.{
  bucket_count, bucket_index, update_item, deduct_row, after_buckets, deduct_stock, deducted,
  DeductFaults,
}
use hc_framework_go.Shop.Stock.Deduct.{Took, found}
use hc_framework_go.Shop.Stock.Rows.{
  item-affected-le, update_item-sum, update_item-sum_ne, update_item-count, available, IsStocked,
}

-- A database after `q` left the item `id`: nothing but its stock changed.
pub record Sold (id q : ℕ) (db db' : Db) : Type 0 where
  pub moved : (j : ℕ) → available j db' + (if j == id then q else 0) ≡ available j db
  pub stocked : IsStocked db'
  pub activities_kept : db'.activities ≡ db.activities
  pub orders_kept : db'.orders ≡ db.orders
  pub next_kept : db'.next_order ≡ db.next_order
  pub transactions_kept : db'.transactions ≡ db.transactions
  pub outbox_kept : db'.outbox ≡ db.outbox

buckets-Sold :
    (id q : ℕ) (db : Db) (rows : List ShopItemStockBucket)
    → IsStocked db
    → (bucket_count id db.buckets == 0) ≡ false
    → Took id q db.buckets rows
    → Sold id q db (record db { buckets = rows })
unfolding available
buckets-Sold id q db rows s h t = record {
  moved =
      moved_of (λ j. available j db) (λ j. available j (record db { buckets = rows })) id q
        (ground (arith, t.counts id, t.taken)) (λ j ne. ground (arith, t.counts j, t.others j ne));
  stocked = record {
    keyed = λ j c. ground (arith, t.keys j c, t.counts j, s.keyed j c);
    unique = s.unique;
  };
  activities_kept = refl;
  orders_kept = refl;
  next_kept = refl;
  transactions_kept = refl;
  outbox_kept = refl;
}

one-times : (n q : ℕ) → n ≡ 1 → n * q ≡ q
one-times n q h = rw h (omega arith)

items-Sold :
    (id q : ℕ) (db : Db)
    → IsStocked db
    → (bucket_count id db.buckets == 0) ≡ true
    → ((update_item id q db.items).1 == 0) ≡ false
    → Sold id q db (record db { items = (update_item id q db.items).0 })
unfolding available
items-Sold id q db s h a =
    let one : (update_item id q db.items).1 ≡ 1 =
      ground (arith, item-affected-le id q db.items, s.unique id) in
    record {
      moved =
          moved_of (λ j. available j db)
            (λ j. available j (record db { items = (update_item id q db.items).0 })) id q
            (ground (arith, update_item-sum id q db.items, one-times _ q one))
            (λ j ne. ground (arith, update_item-sum_ne id q j db.items ne));
      stocked = record {
        keyed = s.keyed;
        unique = λ j. omega (arith, s.unique j, update_item-count id q j db.items);
      };
      activities_kept = refl;
      orders_kept = refl;
      next_kept = refl;
      transactions_kept = refl;
      outbox_kept = refl;
    }

deducted-injective : {a b : Db} → deducted a ≡ deducted b → a ≡ b
deducted-injective e = cc

row-Sold :
    (fails : Bool) (id q : ℕ) (db db' : Db)
    → IsStocked db
    → (bucket_count id db.buckets == 0) ≡ true
    → deduct_row fails id q db ≡ deducted db'
    → Sold id q db db'
unfolding deduct_row
row-Sold true id q db db' s h e = cc
row-Sold false id q db db' s h e = elim (Bool-cases ((update_item id q db.items).1 == 0)) [
  | inl nothing ↦ absurd (let e' = rw nothing at e in cc)
  | inr some_row ↦
      subst (Sold id q db) (deducted-injective (rw some_row at e)) (items-Sold id q db s h some_row)
]

bucket-Sold :
    (id q : ℕ) (db db' : Db) (r : Option (Option (List ShopItemStockBucket)))
    → ((rows : List ShopItemStockBucket)
        → r ≡ some (some rows)
        → Sold id q db (record db { buckets = rows }))
    → after_buckets db r ≡ deducted db'
    → Sold id q db db'
unfolding after_buckets
bucket-Sold id q db db' none f e = cc
bucket-Sold id q db db' (some none) f e = cc
bucket-Sold id q db db' (some (some rows)) f e =
    subst (Sold id q db) (deducted-injective e) (f rows refl)

-- Where the keys are unique, a successful deduction takes exactly `q` from the item. It keeps what is for
-- sale of every other item, the keys of the tables, and all the other tables.
pub deduct_stock-Sold :
    (fnv32a : ℕ → ℕ) (faults : DeductFaults) (id q shard_key : ℕ) (db db' : Db)
    → IsStocked db
    → deduct_stock fnv32a faults id q shard_key db ≡ deducted db'
    → Sold id q db db'
unfolding deduct_stock
deduct_stock-Sold fnv32a faults id q shard_key db db' s e = elim (Bool-cases faults.count_fails) [
  | inl bad ↦ absurd (let e' = rw bad at e in cc)
  | inr good ↦ elim (Bool-cases (bucket_count id db.buckets == 0)) [
    | inl plain ↦ row-Sold (faults.update_fails 0) id q db db' s plain (rw (good, plain) at e)
    | inr split ↦
        bucket-Sold id q db db' _
          (λ rows hit. buckets-Sold id q db rows s split (
            found faults.update_fails id q
              (bucket_index fnv32a shard_key (bucket_count id db.buckets))
              (bucket_count id db.buckets) db.buckets rows s.keyed hit))
          (rw (good, split) at e)
  ]
]
