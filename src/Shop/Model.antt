-- ===== src/Shop/Model.antt =====
-- The rows of the business database that the shop reads and writes: internal/model/order.go,
-- internal/model/transaction.go and internal/model/points_outbox.go.
-- User, item and activity ids are numbers: the code only compares them and hashes them.
use Prim.Native.String.{String}
use hc_framework_go.Prelude.{ℕ, Bool, Option, List, ℤ}

pub record ShopItem : Type 0 where
  pub id : ℕ
  pub name : String
  pub price_points : ℕ  -- int64
  pub stock : ℕ
  pub is_active : Bool

pub record ShopItemStockBucket : Type 0 where
  pub item_id : ℕ
  pub bucket : ℕ
  pub stock : ℕ

pub record RedeemOrder : Type 0 where
  pub id : ℕ
  pub user_id : ℕ
  pub item_id : ℕ
  pub item_name : String
  pub points_spent : ℤ
  pub activity_id : ℕ

pub data FlashSaleStatus : Type 0 where
  active ended pending : FlashSaleStatus

-- Times are seconds; `none` as the end is the NULL of a sale with no end.
pub record ShopFlashActivity : Type 0 where
  pub id : ℕ
  pub item_id : ℕ
  pub start_time : ℕ
  pub end_time : Option ℕ
  pub limit_qty : ℕ
  pub sold_qty : ℕ
  pub per_user_limit : ℕ
  pub price_points : ℕ
  pub status : FlashSaleStatus

pub data ChangeType : Type 0 where
  idle_reward task_reward redeem_spend : ChangeType

-- The reference of a ledger row, "order:<id>" and the like.
pub data ReferenceId : Type 0 where
  order_ref task_ref idle_ref : ℕ → ReferenceId

pub record PointsTransaction : Type 0 where
  pub user_id : ℕ
  pub change_amount : ℤ
  pub balance_after : ℤ
  pub change_type : ChangeType
  pub reference_id : ReferenceId

-- The idempotence key of an outbox row, "pts:redeem:<order>", "pts:flash:<order>",
-- "pts:task:<user>:<task>:<period>" and "pts:idle:<record>".
pub data EventId : Type 0 where
  pts_redeem pts_flash pts_idle : ℕ → EventId
  pts_task : ℕ → ℕ → ℕ → EventId

pub data OutboxStatus : Type 0 where
  pending processing done : OutboxStatus

pub record PointsOutbox : Type 0 where
  pub user_id : ℕ
  pub delta : ℤ
  pub event_id : EventId
  pub status : OutboxStatus
  pub created_at : ℕ

-- The tables of the shop, with the next key of the orders table.
pub record Db : Type 0 where
  pub items : List ShopItem
  pub buckets : List ShopItemStockBucket
  pub activities : List ShopFlashActivity
  pub orders : List RedeemOrder
  pub next_order : ℕ
  pub transactions : List PointsTransaction
  pub outbox : List PointsOutbox
