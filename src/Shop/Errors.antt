-- ===== src/Shop/Errors.antt =====
-- The errors of internal/service/shop/shop_service.go, and the result of an operation.
-- A constructor that ends in `_failed` is an error of the database, Redis or the user store, wrapped.
use hc_framework_go.Prelude.{Except}

pub data ShopError : Type 0 where
  item_not_found stock_insufficient redeem_sold_out_peak points_insufficient user_not_found :
      ShopError
  order_not_found redeem_concurrent : ShopError
  flash_sale_not_found flash_sale_not_started flash_sale_ended flash_sale_sold_out : ShopError
  flash_sale_user_limit : ShopError
  lock_failed find_item_failed find_user_failed create_order_failed create_transaction_failed :
      ShopError
  append_outbox_failed commit_failed find_activity_failed count_orders_failed : ShopError
  acquire_quota_failed : ShopError

abbrev pub Result {ℓ} : Type ℓ → Type ℓ
Result A = Except ShopError A
