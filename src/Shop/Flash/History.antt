-- ===== src/Shop/Flash/History.antt =====
-- Exchanges and timed sales one after the other: `Redeem` and `FlashRedeem` of
-- internal/service/shop/shop_service.go on the same tables.
use hc_framework_go.Prelude.{
  ℕ, suc, ◌+◌, ◌≤◌, ◌≡◌, refl, false, List, [], ◌∷◌, arith, ◌==◌, if◌then◌else◌, All, count, ok,
  err, ltb, pos, some, ◌∙◌, ap, inl, inr, Option, subst,
}
use hc_framework_go.Shop.Model.{ShopItem, RedeemOrder, ShopFlashActivity, Db, pts_flash}
use hc_framework_go.Shop.Errors.{Result}
use hc_framework_go.Shop.Counter.{FlashKeys, Cell}
use hc_framework_go.Shop.Stock.Rows.{IsStocked}
use hc_framework_go.Shop.Redeem.{RedeemEnv, new_order, redeem, add_rows, ledger_row, outbox_row}
use hc_framework_go.Shop.Redeem.Effect.{RedeemCall, redeem-Ordered}
use hc_framework_go.Shop.Redeem.Cases.{redeem-err, answered}
use hc_framework_go.Shop.Flash.{FlashEnv, flash_redeem, get_flash_activity}
use hc_framework_go.Shop.Flash.Quota.{
  activity_count, sold_of, limit_of, WithinLimit, sold-le-limit, QuotaTaken,
  acquire_flash_quota-QuotaTaken,
}
use hc_framework_go.Shop.Flash.Cases.{
  IsOpen, flash_admit-IsOpen, FlashPaid, flash_redeem-Won, flash_redeem-err, flash_answered,
}

-- SELECT COUNT(*) FROM redeem_orders WHERE activity_id = ?
abbrev pub orders_of : ℕ → List RedeemOrder → ℕ
orders_of id = count (λ o. o.activity_id == id)

-- Activity ids start at 1 and are unique, and each activity has counted its orders within its limit.
pub record IsSound (db : Db) : Type 0 where
  pub stocked : IsStocked db
  pub keyed : (j : ℕ) → activity_count j db.activities ≤ 1
  pub counted : (j : ℕ) → orders_of (suc j) db.orders ≡ sold_of (suc j) db.activities
  pub within : All WithinLimit db.activities

-- The tables after one purchase in a sale, beside the tables before.
pub record FlashOrdered (env : FlashEnv) (user activity_id : ℕ) (act : ShopFlashActivity)
    (db db' : Db) (order : RedeemOrder) : Type 0 where
  pub quota : QuotaTaken activity_id db.activities db'.activities
  pub item : ShopItem
  pub order_is : order ≡ new_order db.next_order user item (pos act.price_points) activity_id
  pub orders_grow : db'.orders ≡ order ∷ db.orders
  pub balance : ℕ
  pub read : env.base.user_read ≡ some (some balance)
  pub affordable : ltb balance act.price_points ≡ false
  pub ledger :
      db'.transactions
      ≡ ledger_row user balance (pos act.price_points) db.next_order ∷ db.transactions
  pub outbox_grows : db'.outbox ≡ (
      if env.base.points_on
      then outbox_row env.base.now user (pos act.price_points) (pts_flash db.next_order) ∷ db.outbox
      else db.outbox)
  pub buckets_kept : db'.buckets ≡ db.buckets
  pub items_kept : db'.items ≡ db.items

paid-FlashOrdered :
    (env : FlashEnv) (user activity_id : ℕ) (act : ShopFlashActivity) (db db' : Db)
    (order : RedeemOrder)
    → IsSound db
    → FlashPaid env user activity_id act db db' order
    → FlashOrdered env user activity_id act db db' order
unfolding add_rows
paid-FlashOrdered env user activity_id act db db' order s p = rw p.rows_are (record {
  quota =
      acquire_flash_quota-QuotaTaken env.quota_fails activity_id db.activities p.acts
        (s.keyed activity_id) s.within p.taken;
  item = p.item;
  order_is = p.order_is;
  orders_grow = rw p.order_is;
  balance = p.balance;
  read = p.read;
  affordable = p.affordable;
  ledger = refl;
  outbox_grows = refl;
  buckets_kept = refl;
  items_kept = refl;
})

-- From sound tables, a successful purchase was made in a sale that was open at the time, by the
-- activity that the run read, took one place of the activity's quota within its limit, charged a
-- balance that covered the sale's price, and added one order, one ledger row and, where points are
-- on, one pending outbox row. The stock of the items did not move.
pub flash_redeem-FlashOrdered :
    (env : FlashEnv) (user activity_id : ℕ) (db : Db) (keys : FlashKeys) (order : RedeemOrder)
    → IsSound db
    → (flash_redeem env user activity_id db keys).result ≡ ok order
    → (act : ShopFlashActivity) × (get_flash_activity env activity_id ≡ some (some act))
      × IsOpen env.base.now act
      × FlashOrdered env user activity_id act db
          (flash_redeem env user activity_id db keys).db
          order
flash_redeem-FlashOrdered env user activity_id db keys order s h =
    let w = flash_redeem-Won env user activity_id db keys order h in
    let (found, open_now) = flash_admit-IsOpen env activity_id w.activity w.admitted in
    (
      w.activity,
      found,
      open_now,
      paid-FlashOrdered env user activity_id w.activity db _ order s w.paid,
    )

pub record FlashCall : Type 0 where
  pub env : FlashEnv
  pub user : ℕ
  pub activity_id : ℕ
  pub keys : FlashKeys

pub data ShopCall : Type 0 where
  exchange : RedeemCall → ShopCall
  purchase : FlashCall → ShopCall

abbrev pub run_call : (ℕ → ℕ) → Db → ShopCall → Db
run_call fnv32a db (exchange c) = (redeem fnv32a c.env c.user c.item_id c.requested db c.key).db
run_call fnv32a db (purchase c) = (flash_redeem c.env c.user c.activity_id db c.keys).db

unfoldable pub run_calls : (ℕ → ℕ) → Db → List ShopCall → Db
run_calls fnv32a db [] = db
run_calls fnv32a db (c ∷ cs) = run_calls fnv32a (run_call fnv32a db c) cs

-- A step keeps the invariant and the limits.
abbrev pub Keeps : Db → Db → Type 0
Keeps db db' = IsSound db' × ((j : ℕ) → limit_of j db'.activities ≡ limit_of j db.activities)

orders_of-cons :
    (id : ℕ) (order : RedeemOrder) (orders : List RedeemOrder)
    → orders_of id (order ∷ orders)
      ≡ orders_of id orders + (if id == order.activity_id then 1 else 0)
orders_of-cons id order orders = ground arith

bought-Keeps :
    (env : FlashEnv) (user activity_id : ℕ) (db : Db) (keys : FlashKeys) (order : RedeemOrder)
    → IsSound db
    → (flash_redeem env user activity_id db keys).result ≡ ok order
    → Keeps db (flash_redeem env user activity_id db keys).db
unfolding new_order
bought-Keeps env user activity_id db keys order s h =
    let (act, found, open_now, o) =
      flash_redeem-FlashOrdered env user activity_id db keys order s h in
    let of_activity : order.activity_id ≡ activity_id =
      ap (λ (x : RedeemOrder). x.activity_id) o.order_is in
    (
      record {
        stocked = record {
          keyed = rw o.buckets_kept s.stocked.keyed;
          unique = rw o.items_kept s.stocked.unique;
        };
        keyed = λ j. omega (arith, o.quota.ids_kept j, s.keyed j);
        counted = λ j. rw (o.orders_grow) (
            orders_of-cons (suc j) order db.orders
            ∙ rw of_activity (omega (arith, s.counted j, o.quota.sold_grows (suc j))));
        within = o.quota.within;
      },
      o.quota.limits_kept,
    )

purchase-Keeps :
    (env : FlashEnv) (user activity_id : ℕ) (db : Db) (keys : FlashKeys) (r : Result RedeemOrder)
    → IsSound db
    → (flash_redeem env user activity_id db keys).result ≡ r
    → Keeps db (flash_redeem env user activity_id db keys).db
purchase-Keeps env user activity_id db keys (ok order) s h =
    bought-Keeps env user activity_id db keys order s h
purchase-Keeps env user activity_id db keys (err e) s h =
    elim (flash_redeem-err env user activity_id db keys e h) [
      | inl same ↦ rw same (s, λ j. refl)
      | inr (order, taken, same) ↦
          subst (Keeps db) same
            (bought-Keeps (flash_answered env) user activity_id db keys order s taken)
    ]

exchanged-Keeps :
    (fnv32a : ℕ → ℕ) (env : RedeemEnv) (user item_id requested : ℕ) (db : Db) (key : Option Cell)
    (order : RedeemOrder)
    → IsSound db
    → (redeem fnv32a env user item_id requested db key).result ≡ ok order
    → Keeps db (redeem fnv32a env user item_id requested db key).db
unfolding new_order
exchanged-Keeps fnv32a env user item_id requested db key order s h =
    let (it, a, o) = redeem-Ordered fnv32a env user item_id requested db key order s.stocked h in
    let of_none : order.activity_id ≡ 0 = ap (λ (x : RedeemOrder). x.activity_id) o.order_is in
    (
      record {
        stocked = o.stocked;
        keyed = rw o.activities_kept s.keyed;
        counted = λ j.
            rw (o.orders_grow, o.activities_kept)
              (orders_of-cons (suc j) order db.orders ∙ rw of_none (ground (arith, s.counted j)));
        within = rw o.activities_kept s.within;
      },
      λ j. rw o.activities_kept refl,
    )

exchange-Keeps :
    (fnv32a : ℕ → ℕ) (db : Db) (c : RedeemCall) (r : Result RedeemOrder)
    → IsSound db
    → (redeem fnv32a c.env c.user c.item_id c.requested db c.key).result ≡ r
    → Keeps db (redeem fnv32a c.env c.user c.item_id c.requested db c.key).db
exchange-Keeps fnv32a db c (ok order) s h =
    exchanged-Keeps fnv32a c.env c.user c.item_id c.requested db c.key order s h
exchange-Keeps fnv32a db c (err e) s h =
    elim (redeem-err fnv32a c.env c.user c.item_id c.requested db c.key e h) [
      | inl same ↦ rw same (s, λ j. refl)
      | inr (_, order, taken, same) ↦ subst (Keeps db) same (
          exchanged-Keeps fnv32a (answered c.env) c.user c.item_id c.requested db c.key order s
            taken)
    ]

call-Keeps :
    (fnv32a : ℕ → ℕ) (db : Db) (c : ShopCall) → IsSound db → Keeps db (run_call fnv32a db c)
call-Keeps fnv32a db (exchange c) s = exchange-Keeps fnv32a db c _ s refl
call-Keeps fnv32a db (purchase c) s = purchase-Keeps c.env c.user c.activity_id db c.keys _ s refl

-- Exchanges and purchases, in any order, with any failures and any Redis, cache and replica contents,
-- keep the tables sound: unique keys, and each activity's count equal to its orders and within its
-- limit. They leave the limits as they were.
pub run_calls-Keeps :
    (fnv32a : ℕ → ℕ) (db : Db) (cs : List ShopCall) → IsSound db → Keeps db (run_calls fnv32a db cs)
unfolding run_calls
run_calls-Keeps fnv32a db [] s = (s, λ j. refl)
run_calls-Keeps fnv32a db (c ∷ cs) s =
    let (s', l) = call-Keeps fnv32a db c s in
    let (s'', l') = run_calls-Keeps fnv32a (run_call fnv32a db c) cs s' in (s'', λ j. l' j ∙ l j)

-- From sound tables, whatever exchanges and purchases follow, with any failures and any Redis, cache
-- and replica contents, the orders of an activity never outnumber the limit it started with.
pub run_calls-orders :
    (fnv32a : ℕ → ℕ) (db : Db) (cs : List ShopCall) (j : ℕ)
    → IsSound db
    → orders_of (suc j) (run_calls fnv32a db cs).orders ≤ limit_of (suc j) db.activities
run_calls-orders fnv32a db cs j s =
    let (s', l) = run_calls-Keeps fnv32a db cs s in
    omega (
      arith,
      s'.counted j,
      sold-le-limit (suc j) (run_calls fnv32a db cs).activities s'.within,
      l (suc j),
    )
