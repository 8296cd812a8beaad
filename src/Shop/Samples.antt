-- ===== src/Shop/Samples.antt =====
-- A small shop for the tests: one item with twenty units in sixteen buckets, and a run in which
-- nothing fails.
use hc_framework_go.Prelude.{
  ℕ, ◌+◌, ◌%◌, refl, true, false, none, some, List, [], ◌∷◌, arith, to_int64,
}
use hc_framework_go.Shop.Model.{ShopItem, ShopItemStockBucket, ShopFlashActivity, Db, active}
use hc_framework_go.Shop.Stock.{
  DeductFaults, bucket_count, create_stock_buckets, find_item_row, total_stock, bucket_sum,
  make_buckets, insert_new, deduct_stock,
}
use hc_framework_go.Shop.Stock.Total.{IsKeyed}
use hc_framework_go.Shop.Stock.Rows.{IsStocked}
use hc_framework_go.Shop.Stock.Seed.{create_stock_buckets-Seeded}
use hc_framework_go.Shop.Counter.{
  with_l2, FlashKeys, try_acquire_flash_sale, release_flash_sale, is_redeem_sold_out,
  try_acquire_redeem, release_redeem, reconcile_redeem,
}
use hc_framework_go.Shop.Redeem.{RedeemEnv, redeem, find_item_by_id}
use hc_framework_go.Shop.Flash.{FlashEnv, flash_redeem, find_activity_row, user_orders, take_quota}

-- A stand-in for FNV-1a.
abbrev pub hash : ℕ → ℕ
hash k = (k + 5) % 4294967296

abbrev pub card : ShopItem
card = record { id = 7; name = "card"; price_points = 10; stock = 20; is_active = true }

pub no_rows-IsKeyed : IsKeyed []
unfolding bucket_count
no_rows-IsKeyed id b = ground arith

unfoldable pub rows : List ShopItemStockBucket
unfolding create_stock_buckets
rows = create_stock_buckets 7 20 []

pub rows-IsKeyed : IsKeyed rows
unfolding rows bucket_count
rows-IsKeyed = (create_stock_buckets-Seeded 7 20 [] no_rows-IsKeyed refl).keyed

abbrev pub flash : ShopFlashActivity
flash = record {
  id = 3;
  item_id = 7;
  start_time = 100;
  end_time = some 200;
  limit_qty = 2;
  sold_qty = 0;
  per_user_limit = 1;
  price_points = 5;
  status = active;
}

abbrev pub shop : Db
shop = record {
  items = card ∷ [];
  buckets = rows;
  activities = flash ∷ [];
  orders = [];
  next_order = 1;
  transactions = [];
  outbox = [];
}

pub shop-IsStocked : IsStocked shop
shop-IsStocked = record { keyed = rows-IsKeyed; unique = λ id. ground arith }

abbrev pub no_faults : DeductFaults
no_faults = record { count_fails = false; update_fails = λ a. false }

abbrev pub calm : RedeemEnv
calm = record {
  cache = with_l2;
  points_on = true;
  lock_fails = false;
  lock_held = false;
  peek_fails = false;
  acquire_fails = false;
  restore_fails = false;
  item_read_fails = false;
  stock_read_fails = false;
  cached_item = none;
  replica = shop;
  user_read = some (some 100);
  deduct = no_faults;
  create_order_fails = false;
  create_transaction_fails = false;
  append_fails = false;
  commit_fails = false;
  commit_applies = false;
  now = 120;
}

-- A commit that takes effect and is reported as failed.
abbrev pub unclear : RedeemEnv
unclear = record calm { commit_fails = true; commit_applies = true }

-- A balance that covers three units and no more.
abbrev pub poor : RedeemEnv
poor = record calm { user_read = some (some 5) }

-- What a run on these rows computes through.
unfoldable pub opened : Unit {0}
unfolding redeem find_item_row deduct_stock total_stock bucket_count bucket_sum rows make_buckets
    insert_new to_int64 is_redeem_sold_out try_acquire_redeem release_redeem reconcile_redeem
opened = tt

abbrev pub open_sale : FlashEnv
open_sale = record {
  base = calm;
  activity_read_fails = false;
  cached_activity = none;
  count_fails = false;
  cached_count = none;
  quota_fails = false;
}

abbrev pub fresh_keys : FlashKeys
fresh_keys = record { stock = none; users = λ u. 0; users_expire = false }

-- What a purchase on these rows computes through.
unfoldable pub sale_opened : Unit {0}
unfolding flash_redeem find_item_by_id find_activity_row user_orders find_item_row total_stock
    bucket_count bucket_sum rows make_buckets insert_new try_acquire_flash_sale release_flash_sale
    take_quota
sale_opened = tt
