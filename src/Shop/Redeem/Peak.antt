-- ===== src/Shop/Redeem/Peak.antt =====
-- What an exchange does to the Redis counter of its item: the deferred function of `Redeem` in
-- internal/service/shop/shop_service.go.
use hc_framework_go.Prelude.{
  ok, err, ℕ, ◌-◌, ◌<◌, ◌≡◌, refl, ap, ◌∙◌, Bool, true, false, Option, some, arith, leb, pos, ltb_ℤ,
  Bool-cases, inl, inr, ◌⊎◌,
}
use hc_framework_go.Shop.Model.{ShopItem, RedeemOrder, Db}
use hc_framework_go.Shop.Errors.{Result, stock_insufficient, redeem_sold_out_peak}
use hc_framework_go.Shop.Counter.{
  Cell, CacheMode, with_l2, seeded, redeem_ok, redeem_sold_out, try_acquire_redeem, release_redeem,
  reconcile_redeem, is_redeem_sold_out,
}
use hc_framework_go.Shop.Stock.{deduct_stock, insufficient}
use hc_framework_go.Shop.Stock.Rows.{servers, IsStocked}
use hc_framework_go.Shop.Stock.SoldOut.{deduct_stock_iff}
use hc_framework_go.Shop.Redeem.{
  RedeemEnv, total_points, redeem_tx, pay, close, redeem_item, admit, redeem,
}
use hc_framework_go.Shop.Redeem.Cases.{quantity_of, redeem-err}

-- Redis answers every call of the run.
pub record IsRedisUp (env : RedeemEnv) : Type 0 where
  pub l2 : env.cache ≡ with_l2
  pub acquires : env.acquire_fails ≡ false
  pub restores : env.restore_fails ≡ false

-- The counter that a run should leave: one less after a sale, the same after a failure, and zero
-- once the database has said that the stock is insufficient.
abbrev pub left_in : Result RedeemOrder → Cell → Cell
left_in (ok order) c = record c { value = c.value - 1 }
left_in (err stock_insufficient) c = record { value = 0; expires = true }
left_in (err _) c = c

close-counter :
    (env : RedeemEnv) (c : Cell) (db : Db) (r : Result (Db × RedeemOrder))
    → IsRedisUp env
    → 0 < c.value
    → let o = close env true (some (record c { value = c.value - 1 })) db r in
      o.counter ≡ some (left_in o.result c)
unfolding close release_redeem reconcile_redeem
close-counter env c db (ok (db', order)) up h = ground arith
close-counter env c db (err stock_insufficient) up h = ground arith
close-counter env c db (err _) up h = ground arith

try-cases :
    (mode : CacheMode) (fails : Bool) (seed : ℕ) (key : Option Cell)
    → mode ≡ with_l2
    → fails ≡ false
    → let c = seeded seed key in
      ((0 < c.value)
        × (try_acquire_redeem mode fails seed key
            ≡ (some (record c { value = c.value - 1 }), some redeem_ok)))
      ⊎ ((c.value ≡ 0) × (try_acquire_redeem mode fails seed key ≡ (some c, some redeem_sold_out)))
unfolding try_acquire_redeem
try-cases mode fails seed key m f = elim (Bool-cases (leb (seeded seed key).value 0)) [
  | inl empty ↦ inr (ground arith, rw (m, f, empty))
  | inr full ↦ inl (ground arith, rw (m, f, full))
]

-- With Redis up, what a run leaves in the counter follows from its answer: one place fewer after a
-- sale, no place after the database's "insufficient", and after any other failure as many places as
-- the run found, or seeded.
pub redeem_item-counter :
    (fnv32a : ℕ → ℕ) (env : RedeemEnv) (user : ℕ) (it : ShopItem) (quantity : ℕ) (db : Db)
    (key : Option Cell)
    → IsRedisUp env
    → let o = redeem_item fnv32a env user it quantity db key in
      o.counter ≡ some (left_in o.result (seeded it.stock key))
unfolding redeem_item
redeem_item-counter fnv32a env user it quantity db key up =
    elim (try-cases env.cache env.acquire_fails it.stock key up.l2 up.acquires) [
      | inl (h, e) ↦
          rw e
            (close-counter env (seeded it.stock key) db (pay fnv32a env user it quantity db) up h)
      | inr (_, e) ↦ rw e refl
    ]

pay-insufficient :
    (fnv32a : ℕ → ℕ) (env : RedeemEnv) (user balance : ℕ) (it : ShopItem) (quantity : ℕ) (db : Db)
    → env.user_read ≡ some (some balance)
    → ltb_ℤ (pos balance) (total_points it quantity) ≡ false
    → deduct_stock fnv32a env.deduct it.id quantity user db ≡ insufficient
    → pay fnv32a env user it quantity db ≡ err stock_insufficient
unfolding pay redeem_tx
pay-insufficient fnv32a env user balance it quantity db r a d = rw (r, pay) (rw a (rw d))

-- A run that the deduction refuses, with Redis up.
refused_item :
    (fnv32a : ℕ → ℕ) (env : RedeemEnv) (user balance : ℕ) (it : ShopItem) (quantity : ℕ) (db : Db)
    (key : Option Cell)
    → IsRedisUp env
    → 0 < (seeded it.stock key).value
    → env.user_read ≡ some (some balance)
    → ltb_ℤ (pos balance) (total_points it quantity) ≡ false
    → deduct_stock fnv32a env.deduct it.id quantity user db ≡ insufficient
    → (redeem_item fnv32a env user it quantity db key).result ≡ err stock_insufficient
unfolding redeem_item close
refused_item fnv32a env user balance it quantity db key up h r a d =
    elim (try-cases env.cache env.acquire_fails it.stock key up.l2 up.acquires) [
      | inl (_, e) ↦ rw (e, pay-insufficient fnv32a env user balance it quantity db r a d)
      | inr (z, _) ↦ absurd (omega (arith, z))
    ]

-- Redis and its lock work, and nobody else holds the user's lock.
pub record IsPeekUp (env : RedeemEnv) : Type 0 where
  pub l2 : env.cache ≡ with_l2
  pub locks : env.lock_fails ≡ false
  pub lock_free : env.lock_held ≡ false
  pub peeks : env.peek_fails ≡ false

peek :
    (fnv32a : ℕ → ℕ) (env : RedeemEnv) (user item_id requested : ℕ) (db : Db)
    → IsPeekUp env
    → (redeem fnv32a env user item_id requested db
        (some (record { value = 0; expires = true }))).result
      ≡ err redeem_sold_out_peak
unfolding redeem admit is_redeem_sold_out
peek fnv32a env user item_id requested db up = rw (up.l2, up.locks, up.lock_free, up.peeks)

admitted :
    (fnv32a : ℕ → ℕ) (env : RedeemEnv) (user item_id requested : ℕ) (db : Db) (key : Option Cell)
    (it : ShopItem)
    → admit env item_id (quantity_of requested) key ≡ ok it
    → redeem fnv32a env user item_id requested db key
      ≡ redeem_item fnv32a env user it (quantity_of requested) db key
unfolding redeem
admitted fnv32a env user item_id requested db key it a = rw (a, redeem)

-- Where the keys of the stock are unique and no query of the deduction fails: an order that was
-- admitted, meets a counter that is not empty and a balance that covers it, and asks for more units
-- than any one row of the item holds, is refused as "stock insufficient", although nothing here
-- says that the item is sold out: the rows together may hold far more. With Redis up the refusal
-- sets the counter to zero, the tables stay as they were, and a later exchange of that item by any
-- user, for any quantity, that finds Redis and its lock working, is answered as sold out.
pub redeem_blocks_item :
    (fnv32a : ℕ → ℕ) (env later : RedeemEnv) (user item_id requested balance user' requested' : ℕ)
    (db : Db) (key : Option Cell) (it : ShopItem)
    → IsRedisUp env
    → IsStocked db
    → env.deduct.count_fails ≡ false
    → ((a : ℕ) → env.deduct.update_fails a ≡ false)
    → admit env item_id (quantity_of requested) key ≡ ok it
    → 0 < (seeded it.stock key).value
    → env.user_read ≡ some (some balance)
    → ltb_ℤ (pos balance) (total_points it (quantity_of requested)) ≡ false
    → servers it.id (quantity_of requested) db ≡ 0
    → IsPeekUp later
    → let o = redeem fnv32a env user item_id requested db key in
      (o.result ≡ err stock_insufficient)
      × (o.db ≡ db)
      × ((redeem fnv32a later user' item_id requested' o.db o.counter).result
          ≡ err redeem_sold_out_peak)
redeem_blocks_item fnv32a env later user item_id requested balance user' requested' db key it up s c
      u a h r e z later_up =
    (refused, kept, rw zero_left (peek fnv32a later user' item_id requested' _ later_up))
  where
    q : ℕ
    q = quantity_of requested

    same : redeem fnv32a env user item_id requested db key ≡ redeem_item fnv32a env user it q db key
    same = admitted fnv32a env user item_id requested db key it a

    dry : deduct_stock fnv32a env.deduct it.id q user db ≡ insufficient
    dry = (deduct_stock_iff fnv32a env.deduct it.id q user db s c u).1 z

    item_refused : (redeem_item fnv32a env user it q db key).result ≡ err stock_insufficient
    item_refused = refused_item fnv32a env user balance it q db key up h r e dry

    refused : (redeem fnv32a env user item_id requested db key).result ≡ err stock_insufficient
    refused = rw same item_refused

    kept : (redeem fnv32a env user item_id requested db key).db ≡ db
    kept = elim (redeem-err fnv32a env user item_id requested db key stock_insufficient refused) [
      | inl same_db ↦ same_db
      | inr (e, _, _, _) ↦ absurd (let h' = e in cc)
    ]

    zero_left :
        (redeem fnv32a env user item_id requested db key).counter
        ≡ some (record { value = 0; expires = true })
    zero_left = rw same (
        redeem_item-counter fnv32a env user it q db key up
        ∙ ap (λ (x : Result RedeemOrder). some (left_in x (seeded it.stock key))) item_refused)
