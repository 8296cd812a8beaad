-- ===== src/Shop/Flash/Limits.antt =====
-- The two limits of a timed sale that the run keeps beside the quota: the places in Redis and the
-- orders of one user. `FlashRedeem` of internal/service/shop/shop_service.go.
use hc_framework_go.Prelude.{
  ℕ, suc, ◌+◌, ◌-◌, ◌≤◌, ◌≡◌, ◌≢◌, refl, Bool, true, false, ◌&&◌, Option, none, some, List, ◌∷◌,
  arith, pos, ◌==◌, if◌then◌else◌, ok, err, Except, Bool-cases, inl, inr,
}
use hc_framework_go.Shop.Model.{RedeemOrder, ShopFlashActivity, Db}
use hc_framework_go.Shop.Errors.{Result}
use hc_framework_go.Shop.Counter.{
  Cell, FlashKeys, with_l2, seeded, FlashSaleAcquireResult, flash_ok, flash_sold_out,
  flash_user_limit, flash_skipped, try_acquire_flash_sale, try_acquire_flash_sale_script,
}
use hc_framework_go.Shop.Counter.Laws.{release-acquire_flash_sale}
use hc_framework_go.Shop.Redeem.{add_rows, new_order}
use hc_framework_go.Shop.Redeem.Peak.{IsRedisUp}
use hc_framework_go.Shop.Flash.{
  FlashEnv, user_orders, count_user_flash_orders, at_least_one, get_flash_activity, flash_close,
  flash_give_back, after_flash_acquire, flash_sell, flash_redeem,
}
use hc_framework_go.Shop.Flash.Cases.{flash_redeem-Won, flash_admit-IsOpen}

-- The run counts the user's orders on the tables as they are: no lag of the replica, no cached count.
pub record IsFresh (env : FlashEnv) (db : Db) : Type 0 where
  pub replica_is : env.base.replica.orders ≡ db.orders
  pub uncached : env.cached_count ≡ none

fresh-count :
    (env : FlashEnv) (db : Db) (activity user n : ℕ)
    → IsFresh env db
    → count_user_flash_orders env activity user ≡ ok n
    → n ≡ user_orders activity user db.orders
unfolding count_user_flash_orders
fresh-count env db activity user n f h =
    let h' = rw (f.uncached, f.replica_is, count_user_flash_orders) at h in ground arith

user_orders-cons :
    (activity user : ℕ) (order : RedeemOrder) (orders : List RedeemOrder)
    → user_orders activity user (order ∷ orders) ≤ suc (user_orders activity user orders)
unfolding user_orders
user_orders-cons activity user order orders = ground arith

-- After a successful purchase by a run that counted fresh, the user's orders in the sale are within
-- the per-user limit of the activity that the run read, a limit of zero counting as one.
pub flash_redeem-user_orders :
    (env : FlashEnv) (user activity_id : ℕ) (db : Db) (keys : FlashKeys) (order : RedeemOrder)
    → IsFresh env db
    → (flash_redeem env user activity_id db keys).result ≡ ok order
    → (act : ShopFlashActivity) × (get_flash_activity env activity_id ≡ some (some act))
      × (user_orders activity_id user (flash_redeem env user activity_id db keys).db.orders
          ≤ at_least_one act.per_user_limit)
unfolding add_rows
flash_redeem-user_orders env user activity_id db keys order f h =
    let w = flash_redeem-Won env user activity_id db keys order h in
    let p = w.paid in
    (
      w.activity,
      (flash_admit-IsOpen env activity_id w.activity w.admitted).0,
      rw p.rows_are (
          ground (
            arith,
            user_orders-cons activity_id user
                (new_order db.next_order user p.item (pos w.activity.price_points) activity_id)
                db.orders,
            fresh-count env db activity_id user p.bought f p.counted,
            p.may_buy,
          )),
    )

abbrev pub is_ok {ℓ} : {E : Type 0} {A : Type ℓ} → Except E A → Bool
is_ok (ok a) = true
is_ok (err e) = false

-- The places that a run leaves: one fewer after a sale, and otherwise as many as it found or seeded.
abbrev pub places_left : Bool → Cell → Cell
places_left true c = record c { value = c.value - 1 }
places_left false c = c

-- What a run leaves in Redis.
pub record Settled (user seed : ℕ) (sold : Bool) (keys keys' : FlashKeys) : Type 0 where
  pub stock_is : keys'.stock ≡ some (places_left sold (seeded seed keys.stock))
  pub users_are : (u : ℕ) → keys'.users u ≡ keys.users u + (if sold && (u == user) then 1 else 0)

abbrev pub was_taken : Option FlashSaleAcquireResult → Bool
was_taken (some flash_ok) = true
was_taken _ = false

try-Settled :
    (limit_qty user per_user : ℕ) (keys : FlashKeys) (r : Option FlashSaleAcquireResult)
    → (try_acquire_flash_sale with_l2 false limit_qty user per_user keys).1 ≡ r
    → Settled user limit_qty
        (was_taken r)
        keys
        (try_acquire_flash_sale with_l2 false limit_qty user per_user keys).0
unfolding try_acquire_flash_sale try_acquire_flash_sale_script
try-Settled limit_qty user per_user keys none h = absurd (ground arith)
try-Settled limit_qty user per_user keys (some flash_ok) h = record {
  stock_is = ground arith;
  users_are = λ u. ground arith;
}
try-Settled limit_qty user per_user keys (some flash_sold_out) h = record {
  stock_is = ground arith;
  users_are = λ u. ground arith;
}
try-Settled limit_qty user per_user keys (some flash_user_limit) h = record {
  stock_is = ground arith;
  users_are = λ u. ground arith;
}
try-Settled limit_qty user per_user keys (some flash_skipped) h = absurd (ground arith)

-- A place that was taken, and the transaction's result.
given_back-Settled :
    (env : FlashEnv) (limit_qty user per_user : ℕ) (keys : FlashKeys)
    → IsRedisUp env.base
    → (try_acquire_flash_sale with_l2 false limit_qty user per_user keys).1 ≡ some flash_ok
    → Settled user limit_qty false keys (
        flash_give_back env true user
          (try_acquire_flash_sale with_l2 false limit_qty user per_user keys).0)
unfolding flash_give_back
given_back-Settled env limit_qty user per_user keys up h =
    let (stock, users) = release-acquire_flash_sale limit_qty user per_user keys h in
    rw (up.l2, up.restores) (record { stock_is = stock; users_are = λ u. omega (arith, users u) })

close-Settled :
    (env : FlashEnv) (limit_qty user per_user : ℕ) (keys : FlashKeys) (db : Db)
    (r : Result (Db × RedeemOrder))
    → IsRedisUp env.base
    → (try_acquire_flash_sale with_l2 false limit_qty user per_user keys).1 ≡ some flash_ok
    → let o =
        flash_close env true user
          (try_acquire_flash_sale with_l2 false limit_qty user per_user keys).0
          db
          r in
      Settled user limit_qty (is_ok o.result) keys o.keys
unfolding flash_close
close-Settled env limit_qty user per_user keys db (ok (db', order)) up h =
    elim (Bool-cases env.base.commit_fails) [
      | inl lost ↦ rw lost (given_back-Settled env limit_qty user per_user keys up h)
      | inr answer ↦ rw answer (try-Settled limit_qty user per_user keys (some flash_ok) h)
    ]
close-Settled env limit_qty user per_user keys db (err e) up h =
    given_back-Settled env limit_qty user per_user keys up h

never_skipped :
    (limit_qty user per_user : ℕ) (keys : FlashKeys)
    → (try_acquire_flash_sale with_l2 false limit_qty user per_user keys).1 ≢ some flash_skipped
unfolding try_acquire_flash_sale try_acquire_flash_sale_script
never_skipped limit_qty user per_user keys e = ground arith

never_fails :
    (limit_qty user per_user : ℕ) (keys : FlashKeys)
    → (try_acquire_flash_sale with_l2 false limit_qty user per_user keys).1 ≢ none
unfolding try_acquire_flash_sale
never_fails limit_qty user per_user keys e = cc

after-Settled :
    (env : FlashEnv) (user activity_id : ℕ) (act : ShopFlashActivity) (db : Db) (keys : FlashKeys)
    (per_user : ℕ) (r : Option FlashSaleAcquireResult)
    → IsRedisUp env.base
    → (try_acquire_flash_sale with_l2 false act.limit_qty user per_user keys).1 ≡ r
    → let o =
        after_flash_acquire env user activity_id act db
          (try_acquire_flash_sale with_l2 false act.limit_qty user per_user keys).0
          r in
      Settled user act.limit_qty (is_ok o.result) keys o.keys
unfolding after_flash_acquire
after-Settled env user activity_id act db keys per_user (some flash_ok) up h =
    close-Settled env act.limit_qty user per_user keys db _ up h
after-Settled env user activity_id act db keys per_user (some flash_sold_out) up h =
    try-Settled act.limit_qty user per_user keys (some flash_sold_out) h
after-Settled env user activity_id act db keys per_user (some flash_user_limit) up h =
    try-Settled act.limit_qty user per_user keys (some flash_user_limit) h
after-Settled env user activity_id act db keys per_user (some flash_skipped) up h =
    absurd (never_skipped act.limit_qty user per_user keys h)
after-Settled env user activity_id act db keys per_user none up h =
    absurd (never_fails act.limit_qty user per_user keys h)

-- With Redis up, what a run leaves in the keys of the activity follows from its answer: after a sale
-- one place fewer and one unit more in the user's count, and after any failure the places and the
-- counts that it found, or seeded.
pub flash_sell-Settled :
    (env : FlashEnv) (user activity_id : ℕ) (act : ShopFlashActivity) (db : Db) (keys : FlashKeys)
    → IsRedisUp env.base
    → let o = flash_sell env user activity_id act db keys in
      Settled user act.limit_qty (is_ok o.result) keys o.keys
unfolding flash_sell
flash_sell-Settled env user activity_id act db keys up =
    rw same
      (after-Settled env user activity_id act db keys (at_least_one act.per_user_limit) _ up refl)
  where
    same :
        try_acquire_flash_sale env.base.cache env.base.acquire_fails act.limit_qty user
          (at_least_one act.per_user_limit)
          keys
        ≡ try_acquire_flash_sale with_l2 false act.limit_qty user
            (at_least_one act.per_user_limit)
            keys
    same = rw (up.l2, up.acquires)
