-- ===== src/Shop/Redeem.antt =====
-- An exchange of points for an item: internal/service/shop/shop_service.go, `Redeem`, with
-- `FindItemByID` of internal/repository/shop_repo.go. Tracing, logging and metrics are left out, and
-- what fails or is held by others in a run is its `RedeemEnv`.
pub mod Cases
pub mod Effect
pub mod Peak
use hc_framework_go.Prelude.{
  ok, err, ◌>>=◌, ◌>>◌, refuse, ℕ, suc, ◌+◌, ◌*◌, Bool, true, false, ◌&&◌, not, Option, none, some,
  List, [], ◌∷◌, ◌++◌, ltb, leb, ◌==◌, if◌then◌else◌, ℤ, pos, neg, ltb_ℤ, ◌-ℤ◌, to_int64,
}
use hc_framework_go.Shop.Model.{
  ShopItem, RedeemOrder, PointsTransaction, PointsOutbox, Db, redeem_spend, order_ref, pts_redeem,
  pending, EventId,
}
use hc_framework_go.Shop.Errors.{
  ShopError, Result, item_not_found, stock_insufficient, redeem_sold_out_peak, points_insufficient,
  user_not_found, redeem_concurrent, lock_failed, find_item_failed, find_user_failed,
  create_order_failed, create_transaction_failed, append_outbox_failed, commit_failed,
}
use hc_framework_go.Shop.Stock.{
  find_item_row, total_stock, DeductFaults, Deducted, deducted, insufficient, db_error,
  deduct_stock,
}
use hc_framework_go.Shop.Counter.{
  Cell, CacheMode, no_manager, no_l2, with_l2, has_l2, RedeemAcquireResult, redeem_ok,
  redeem_sold_out, redeem_skipped, try_acquire_redeem, release_redeem, reconcile_redeem,
  is_redeem_sold_out,
}

pub record RedeemEnv : Type 0 where
  pub cache : CacheMode
  pub points_on : Bool  -- `s.points != nil`
  pub lock_fails : Bool
  pub lock_held : Bool
  pub peek_fails : Bool
  pub acquire_fails : Bool
  pub restore_fails : Bool
  pub item_read_fails : Bool
  pub stock_read_fails : Bool
  pub cached_item : Option (Option ShopItem)  -- what the cache holds of the item, if it does
  pub replica : Db  -- what the reads outside the transaction see
  pub user_read : Option (Option ℕ)  -- an error, a missing user, or the balance
  pub deduct : DeductFaults
  pub create_order_fails : Bool
  pub create_transaction_fails : Bool
  pub append_fails : Bool
  pub commit_fails : Bool
  pub commit_applies : Bool  -- a commit that failed took effect, as when its answer is lost
  pub now : ℕ

-- The inner `none` is a missing item, the outer a failed read.
unfoldable pub load_item : RedeemEnv → ℕ → Option (Option ShopItem)
unfolding find_item_row
load_item env id =
    let from_db = if env.item_read_fails then none else some (find_item_row id env.replica.items) in
    elim env.cache [
      | no_manager ↦ from_db
      | _ ↦ elim env.cached_item [ none ↦ from_db | some v ↦ some v ]
    ]

-- `fillItemStock`: a failed read of the stock leaves the item's own.
unfoldable pub fill_item_stock : RedeemEnv → ShopItem → ShopItem
fill_item_stock env it = elim (total_stock env.stock_read_fails it.id env.replica) [
  | none ↦ it
  | some total ↦ record it { stock = total }
]

unfoldable pub find_item_by_id : RedeemEnv → ℕ → Option (Option ShopItem)
unfolding load_item fill_item_stock
find_item_by_id env id = elim (load_item env id) [
  | none ↦ none
  | some none ↦ some none
  | some (some it) ↦ some (some (fill_item_stock env it))
]

-- int64 product.
abbrev pub total_points : ShopItem → ℕ → ℤ
total_points it quantity = to_int64 (it.price_points * quantity)

unfoldable pub new_order : ℕ → ℕ → ShopItem → ℤ → ℕ → RedeemOrder
new_order id user it total activity = record {
  id = id;
  user_id = user;
  item_id = it.id;
  item_name = it.name;
  points_spent = total;
  activity_id = activity;
}

unfoldable pub ledger_row : ℕ → ℕ → ℤ → ℕ → PointsTransaction
ledger_row user balance total id = record {
  user_id = user;
  change_amount = neg total;
  balance_after = pos balance -ℤ total;
  change_type = redeem_spend;
  reference_id = order_ref id;
}

unfoldable pub outbox_row : ℕ → ℕ → ℤ → EventId → PointsOutbox
outbox_row now user total event = record {
  user_id = user;
  delta = neg total;
  event_id = event;
  status = pending;
  created_at = now;
}

-- The rows that the three inserts behind the deduction add: order, ledger row, outbox row.
unfoldable pub add_rows : RedeemEnv → (ℕ → EventId) → ℕ → ℕ → ShopItem → ℤ → ℕ → Db → Db
unfolding new_order ledger_row outbox_row
add_rows env event user balance it total activity db = record db {
  orders = new_order db.next_order user it total activity ∷ db.orders;
  next_order = suc db.next_order;
  transactions = ledger_row user balance total db.next_order ∷ db.transactions;
  outbox =
      if env.points_on
      then outbox_row env.now user total (event db.next_order) ∷ db.outbox
      else db.outbox;
}

-- The inserts.
unfoldable pub record_order :
    RedeemEnv → (ℕ → EventId) → ℕ → ℕ → ShopItem → ℤ → ℕ → Db → Result (Db × RedeemOrder)
unfolding add_rows
record_order env event user balance it total activity db = do
  refuse env.create_order_fails create_order_failed
  refuse env.create_transaction_fails create_transaction_failed
  refuse (env.points_on && env.append_fails) append_outbox_failed
  ok (
    add_rows env event user balance it total activity db,
    new_order db.next_order user it total activity,
  )

-- Every error of the deduction is reported as insufficient stock.
abbrev pub deducted_or : Deducted → Result Db
deducted_or (deducted db) = ok db
deducted_or insufficient = err stock_insufficient
deducted_or db_error = err stock_insufficient

-- The statements of the transaction, with the tables that a commit would leave. After an error of one
-- of them the transaction is rolled back, which undoes them all.
unfoldable pub redeem_tx :
    (ℕ → ℕ) → RedeemEnv → ℕ → ℕ → ShopItem → ℕ → ℤ → Db → Result (Db × RedeemOrder)
unfolding record_order
redeem_tx fnv32a env user balance it quantity total db = do
  db' ← deducted_or (deduct_stock fnv32a env.deduct it.id quantity user db)
  record_order env pts_redeem user balance it total 0 db'

-- What a run leaves behind: its answer, the tables and the item's Redis counter.
pub record Outcome : Type 0 where
  pub result : Result RedeemOrder
  pub db : Db
  pub counter : Option Cell

-- The part behind the counter: the user's balance and the transaction.
unfoldable pub pay : (ℕ → ℕ) → RedeemEnv → ℕ → ShopItem → ℕ → Db → Result (Db × RedeemOrder)
unfolding redeem_tx
pay fnv32a env user it quantity db = elim env.user_read [
  | none ↦ err find_user_failed
  | some none ↦ err user_not_found
  | some (some balance) ↦
      if ltb_ℤ (pos balance) (total_points it quantity)
      then err points_insufficient
      else redeem_tx fnv32a env user balance it quantity (total_points it quantity) db
]

abbrev pub is_stock_insufficient : ShopError → Bool
is_stock_insufficient stock_insufficient = true
is_stock_insufficient _ = false

-- The deferred function: what a failed run does to the counter that it had taken a place of.
unfoldable pub give_back : RedeemEnv → Bool → ShopError → Option Cell → Option Cell
give_back env acquired e key =
    if not acquired
    then key
    else if is_stock_insufficient e
    then reconcile_redeem env.cache env.restore_fails 0 key
    else release_redeem env.cache env.restore_fails key

-- The tables behind the commit of a transaction that found `db` and would leave `db'`.
abbrev pub after_commit : RedeemEnv → Db → Db → Db
after_commit env db db' =
    if not env.commit_fails then db' else if env.commit_applies then db' else db

-- The end of the transaction, and the deferred function.
unfoldable pub close : RedeemEnv → Bool → Option Cell → Db → Result (Db × RedeemOrder) → Outcome
unfolding give_back
close env acquired key db (ok (db', order)) = record {
  result = if env.commit_fails then err commit_failed else ok order;
  db = after_commit env db db';
  counter = if env.commit_fails then give_back env acquired commit_failed key else key;
}
close env acquired key db (err e) = record {
  result = err e;
  db = db;
  counter = give_back env acquired e key;
}

-- From the acquisition of a place on.
unfoldable pub after_acquire :
    (ℕ → ℕ) → RedeemEnv → ℕ → ShopItem → ℕ → Db → Option Cell → Option RedeemAcquireResult → Outcome
unfolding pay close
after_acquire fnv32a env user it quantity db key (some redeem_sold_out) = record {
  result = err redeem_sold_out_peak;
  db = db;
  counter = key;
}
after_acquire fnv32a env user it quantity db key (some redeem_ok) =
    close env true key db (pay fnv32a env user it quantity db)
after_acquire fnv32a env user it quantity db key (some redeem_skipped) =
    close env false key db (pay fnv32a env user it quantity db)
after_acquire fnv32a env user it quantity db key none =
    close env false key db (pay fnv32a env user it quantity db)

unfoldable pub redeem_item : (ℕ → ℕ) → RedeemEnv → ℕ → ShopItem → ℕ → Db → Option Cell → Outcome
unfolding after_acquire
redeem_item fnv32a env user it quantity db key =
    let (key', r) = try_acquire_redeem env.cache env.acquire_fails it.stock key in
    after_acquire fnv32a env user it quantity db key' r

-- The checks in front of the counter.
unfoldable pub admit : RedeemEnv → ℕ → ℕ → Option Cell → Result ShopItem
unfolding find_item_by_id
admit env item_id quantity key = do
  refuse (locks && env.lock_fails) lock_failed
  refuse (locks && env.lock_held) redeem_concurrent
  refuse (is_redeem_sold_out env.cache env.peek_fails key) redeem_sold_out_peak
  elim (find_item_by_id env item_id) [
    | none ↦ err find_item_failed
    | some none ↦ err item_not_found
    | some (some it) ↦
        if not it.is_active
        then err item_not_found
        else if ltb it.stock quantity
        then err stock_insufficient
        else ok it
  ]
  where
    locks : Bool
    locks = has_l2 env.cache

unfoldable pub redeem : (ℕ → ℕ) → RedeemEnv → ℕ → ℕ → ℕ → Db → Option Cell → Outcome
unfolding admit redeem_item
redeem fnv32a env user item_id requested db key =
    let quantity = if leb requested 0 then 1 else requested in
    elim (admit env item_id quantity key) [
      | err e ↦ record { result = err e; db = db; counter = key }
      | ok it ↦ redeem_item fnv32a env user it quantity db key
    ]
