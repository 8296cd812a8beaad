-- ===== src/Shop/Flash.antt =====
-- A timed sale: internal/service/shop/shop_service.go, `FlashRedeem` and `getFlashActivity`, with
-- `AcquireFlashQuota`, `FindActivityByID` and `CountUserFlashOrders` of
-- internal/repository/shop_repo.go. What fails or is held by others in a run is its `FlashEnv`.
pub mod Quota
pub mod Cases
pub mod History
pub mod Limits
use hc_framework_go.Prelude.{
  ℕ, suc, ◌+◌, Bool, true, false, ◌&&◌, ◌||◌, not, Option, none, some, List, [], ◌∷◌, ltb, leb,
  ◌==◌, if◌then◌else◌, pos, count, find?, ok, err, refuse, ◌>>=◌, ◌>>◌,
}
use hc_framework_go.Shop.Model.{
  ShopItem, RedeemOrder, ShopFlashActivity, FlashSaleStatus, active, ended, pending, Db, pts_flash,
}
use hc_framework_go.Shop.Errors.{
  Result, ShopError, item_not_found, points_insufficient, user_not_found, redeem_concurrent,
  flash_sale_not_found, flash_sale_not_started, flash_sale_ended, flash_sale_sold_out,
  flash_sale_user_limit, lock_failed, find_item_failed, find_user_failed, find_activity_failed,
  count_orders_failed, acquire_quota_failed, commit_failed,
}
use hc_framework_go.Shop.Counter.{
  CacheMode, no_manager, has_l2, FlashKeys, FlashSaleAcquireResult, flash_ok, flash_sold_out,
  flash_user_limit, flash_skipped, try_acquire_flash_sale, release_flash_sale,
}
use hc_framework_go.Shop.Redeem.{RedeemEnv, find_item_by_id, record_order, after_commit}

-- `base` is what the run shares with an exchange: the lock, Redis, the replica, the item, the
-- balance, the inserts, the commit and the clock.
pub record FlashEnv : Type 0 where
  pub base : RedeemEnv
  pub activity_read_fails : Bool
  pub cached_activity : Option ShopFlashActivity  -- a usable value of the cache
  pub count_fails : Bool
  pub cached_count : Option ℕ
  pub quota_fails : Bool

unfoldable pub find_activity_row : ℕ → List ShopFlashActivity → Option ShopFlashActivity
find_activity_row id = find? (λ a. a.id == id)

-- The inner `none` is a missing activity, the outer a failed read.
unfoldable pub find_activity_by_id : FlashEnv → ℕ → Option (Option ShopFlashActivity)
unfolding find_activity_row
find_activity_by_id env id =
    if env.activity_read_fails
    then none
    else some (find_activity_row id env.base.replica.activities)

unfoldable pub get_flash_activity : FlashEnv → ℕ → Option (Option ShopFlashActivity)
unfolding find_activity_by_id
get_flash_activity env id =
    let from_db = find_activity_by_id env id in
    if has_l2 env.base.cache
    then elim env.cached_activity [ none ↦ from_db | some act ↦ some (some act) ]
    else from_db

-- UPDATE shop_flash_activities SET sold_qty = sold_qty + 1 WHERE id = ? AND sold_qty < limit_qty,
-- with the number of rows it changed.
unfoldable pub take_quota : ℕ → List ShopFlashActivity → List ShopFlashActivity × ℕ
take_quota id [] = ([], 0)
take_quota id (a ∷ rest) =
    let (rest', n) = take_quota id rest in
    if a.id == id && ltb a.sold_qty a.limit_qty
    then (record a { sold_qty = suc a.sold_qty } ∷ rest', suc n)
    else (a ∷ rest', n)

unfoldable pub acquire_flash_quota :
    Bool → ℕ → List ShopFlashActivity → Result (List ShopFlashActivity)
unfolding take_quota
acquire_flash_quota fails id acts =
    let (acts', n) = take_quota id acts in
    if fails then err acquire_quota_failed else if n == 0 then err flash_sale_sold_out else ok acts'

-- SELECT COUNT(*) ... WHERE activity_id = ? AND user_id = ?
unfoldable pub user_orders : ℕ → ℕ → List RedeemOrder → ℕ
user_orders activity user = count (λ o. (o.activity_id == activity) && (o.user_id == user))

unfoldable pub count_user_flash_orders : FlashEnv → ℕ → ℕ → Result ℕ
unfolding user_orders
count_user_flash_orders env activity user =
    let from_db =
      if env.count_fails
      then err count_orders_failed
      else ok (user_orders activity user env.base.replica.orders) in
    if has_l2 env.base.cache
    then elim env.cached_count [ none ↦ from_db | some n ↦ ok n ]
    else from_db

-- `now.After(*act.EndTime)`
abbrev pub is_over : ℕ → Option ℕ → Bool
is_over now none = false
is_over now (some end_time) = ltb end_time now

abbrev pub is_ended : FlashSaleStatus → Bool
is_ended ended = true
is_ended _ = false

abbrev pub is_pending : FlashSaleStatus → Bool
is_pending pending = true
is_pending _ = false

-- The time window.
unfoldable pub check_window : ℕ → ShopFlashActivity → Result ShopFlashActivity
check_window now act = do
  refuse (is_ended act.status) flash_sale_not_found
  refuse (is_pending act.status || ltb now act.start_time) flash_sale_not_started
  refuse (is_over now act.end_time) flash_sale_ended
  ok act

abbrev pub present : ShopError → ShopError → {A : Type 0} → Option (Option A) → Result A
present failed missing none = err failed
present failed missing (some none) = err missing
present failed missing (some (some a)) = ok a

-- The checks in front of the counter: the activity and the lock.
unfoldable pub flash_admit : FlashEnv → ℕ → Result ShopFlashActivity
unfolding get_flash_activity check_window
flash_admit env activity_id = do
  act ← present find_activity_failed flash_sale_not_found (get_flash_activity env activity_id)
  act' ← check_window env.base.now act
  refuse (has_l2 env.base.cache && env.base.lock_fails) lock_failed
  refuse (has_l2 env.base.cache && env.base.lock_held) redeem_concurrent
  ok act'

abbrev pub at_least_one : ℕ → ℕ
at_least_one n = if leb n 0 then 1 else n

abbrev pub active_item : ShopItem → Result ShopItem
active_item it = if it.is_active then ok it else err item_not_found

-- The transaction.
unfoldable pub flash_tx : FlashEnv → ℕ → ℕ → ShopItem → ℕ → ℕ → Db → Result (Db × RedeemOrder)
unfolding acquire_flash_quota record_order
flash_tx env user balance it price activity_id db = do
  acts ← acquire_flash_quota env.quota_fails activity_id db.activities
  record_order env.base pts_flash user balance it (pos price) activity_id
      (record db { activities = acts })

-- The part behind the counter.
unfoldable pub flash_buy : FlashEnv → ℕ → ℕ → ShopFlashActivity → Db → Result (Db × RedeemOrder)
unfolding count_user_flash_orders flash_tx
flash_buy env user activity_id act db = do
  cnt ← count_user_flash_orders env activity_id user
  refuse (leb (at_least_one act.per_user_limit) cnt) flash_sale_user_limit
  it ← present find_item_failed item_not_found (find_item_by_id env.base act.item_id)
  it' ← active_item it
  balance ← present find_user_failed user_not_found env.base.user_read
  refuse (ltb balance act.price_points) points_insufficient
  flash_tx env user balance it' act.price_points activity_id db

-- What a run leaves behind: its answer, the tables and the activity's Redis keys.
pub record FlashOutcome : Type 0 where
  pub result : Result RedeemOrder
  pub db : Db
  pub keys : FlashKeys

-- The deferred function: a place that was taken and not used is given back.
unfoldable pub flash_give_back : FlashEnv → Bool → ℕ → FlashKeys → FlashKeys
flash_give_back env acquired user keys =
    if acquired then release_flash_sale env.base.cache env.base.restore_fails user keys else keys

-- The end of the transaction, and the deferred function.
unfoldable pub flash_close :
    FlashEnv → Bool → ℕ → FlashKeys → Db → Result (Db × RedeemOrder) → FlashOutcome
unfolding flash_give_back
flash_close env acquired user keys db (ok (db', order)) = record {
  result = if env.base.commit_fails then err commit_failed else ok order;
  db = after_commit env.base db db';
  keys = if env.base.commit_fails then flash_give_back env acquired user keys else keys;
}
flash_close env acquired user keys db (err e) = record {
  result = err e;
  db = db;
  keys = flash_give_back env acquired user keys;
}

-- From the acquisition of a place on.
unfoldable pub after_flash_acquire :
    FlashEnv
    → ℕ
    → ℕ
    → ShopFlashActivity
    → Db
    → FlashKeys
    → Option FlashSaleAcquireResult
    → FlashOutcome
unfolding flash_buy flash_close
after_flash_acquire env user activity_id act db keys (some flash_sold_out) = record {
  result = err flash_sale_sold_out;
  db = db;
  keys = keys;
}
after_flash_acquire env user activity_id act db keys (some flash_user_limit) = record {
  result = err flash_sale_user_limit;
  db = db;
  keys = keys;
}
after_flash_acquire env user activity_id act db keys (some flash_ok) =
    flash_close env true user keys db (flash_buy env user activity_id act db)
after_flash_acquire env user activity_id act db keys (some flash_skipped) =
    flash_close env false user keys db (flash_buy env user activity_id act db)
after_flash_acquire env user activity_id act db keys none =
    flash_close env false user keys db (flash_buy env user activity_id act db)

unfoldable pub flash_sell : FlashEnv → ℕ → ℕ → ShopFlashActivity → Db → FlashKeys → FlashOutcome
unfolding after_flash_acquire
flash_sell env user activity_id act db keys =
    let (keys', r) =
      try_acquire_flash_sale env.base.cache env.base.acquire_fails act.limit_qty user
        (at_least_one act.per_user_limit) keys in
    after_flash_acquire env user activity_id act db keys' r

unfoldable pub flash_redeem : FlashEnv → ℕ → ℕ → Db → FlashKeys → FlashOutcome
unfolding flash_admit flash_sell
flash_redeem env user activity_id db keys = elim (flash_admit env activity_id) [
  | err e ↦ record { result = err e; db = db; keys = keys }
  | ok act ↦ flash_sell env user activity_id act db keys
]
