-- ===== src/Shop/Tests.antt =====
-- Runs of the shop on the rows of Samples, and the theorems at concrete inputs.
use hc_framework_go.Prelude.{
  ok, err, ℕ, ◌≡◌, refl, true, false, none, some, List, [], ◌∷◌, arith, pos, ◌↔◌, ◌≤◌,
}
use hc_framework_go.Shop.Model.{ShopFlashActivity, ShopItem, Db, RedeemOrder, pts_redeem}
use hc_framework_go.Shop.Errors.{commit_failed, stock_insufficient, redeem_sold_out_peak}
use hc_framework_go.Shop.Stock.{
  bucket_sum, update_bucket, deduct_stock, insufficient, make_buckets, insert_new,
}
use hc_framework_go.Shop.Stock.Rows.{available, servers}
use hc_framework_go.Shop.Stock.Conserve.{Sold, deduct_stock-Sold}
use hc_framework_go.Shop.Stock.SoldOut.{deduct_stock_iff}
use hc_framework_go.Shop.Counter.{with_l2, try_acquire_flash_sale, release_flash_sale}
use hc_framework_go.Shop.Counter.Laws.{release-acquire_flash_sale}
use hc_framework_go.Shop.Redeem.{redeem, redeem_item, admit, total_points}
use hc_framework_go.Shop.Redeem.Effect.{
  redeem-Ordered, redeem_all, redeem_all-Balanced, RedeemCall, Balanced, Ordered,
}
use hc_framework_go.Shop.Redeem.Peak.{redeem_item-counter, redeem_blocks_item, IsRedisUp, IsPeekUp}
use hc_framework_go.Shop.Flash.{get_flash_activity, flash_redeem, user_orders, at_least_one}
use hc_framework_go.Shop.Flash.Cases.{IsOpen}
use hc_framework_go.Shop.Flash.History.{
  IsSound, FlashOrdered, flash_redeem-FlashOrdered, ShopCall, exchange, purchase, run_calls, Keeps,
  run_calls-Keeps, orders_of, run_calls-orders,
}
use hc_framework_go.Shop.Flash.Limits.{flash_redeem-user_orders}
use hc_framework_go.Shop.Samples.{
  hash, card, open_sale, fresh_keys, sale_opened, rows, shop, shop-IsStocked, no_faults, calm, poor,
  unclear, opened,
}

rows_hold : bucket_sum 7 rows ≡ 20
unfolding bucket_sum rows make_buckets insert_new
rows_hold = refl

-- The key 1 hashes to bucket 6, which holds one unit, and the loop comes round to bucket 0.
abbrev after_two : Db
after_two = record shop { buckets = (update_bucket 7 0 2 rows).0 }

deduct_stock-Sold_example : Sold 7 2 shop after_two
unfolding deduct_stock rows make_buckets insert_new
deduct_stock-Sold_example =
    deduct_stock-Sold hash no_faults 7 2 1 shop after_two shop-IsStocked refl

-- No bucket holds three units.
deduct_stock_iff_example :
    (deduct_stock hash no_faults 7 3 1 shop ≡ insufficient) ↔ (servers 7 3 shop ≡ 0)
deduct_stock_iff_example =
    deduct_stock_iff hash no_faults 7 3 1 shop shop-IsStocked refl (λ a. refl)

abbrev first_order : RedeemOrder
first_order = record {
  id = 1;
  user_id = 1;
  item_id = 7;
  item_name = "card";
  points_spent = pos 20;
  activity_id = 0;
}

redeem-Ordered_example :
    (it : ShopItem) × (admit calm 7 2 none ≡ ok it)
    × Ordered calm pts_redeem 1 2 it
        (total_points it 2)
        shop
        (redeem hash calm 1 7 2 shop none).db
        first_order
unfolding opened
redeem-Ordered_example = redeem-Ordered hash calm 1 7 2 shop none first_order shop-IsStocked refl

abbrev history : List RedeemCall
history =
    record { env = calm; user = 1; item_id = 7; requested = 2; key = none }
    ∷ record { env = poor; user = 2; item_id = 7; requested = 1; key = none }
    ∷ record { env = unclear; user = 3; item_id = 7; requested = 1; key = none }
    ∷ []

-- The third exchange answers an error, and its unit is counted as sold.
unclear_sold :
    ((redeem hash unclear 3 7 1 shop none).result ≡ err commit_failed)
    × ((redeem_all hash shop (λ j. 0) history).1 7 ≡ 3)
unfolding redeem_all opened
unclear_sold = (refl, refl)

redeem_all-Balanced_example :
    Balanced
      (λ j. available j shop)
      (redeem_all hash shop (λ j. 0) history).0
      (redeem_all hash shop (λ j. 0) history).1
redeem_all-Balanced_example =
    redeem_all-Balanced hash (λ j. available j shop) shop (λ j. 0) history shop-IsStocked
      (λ j. omega arith)

calm-IsRedisUp : IsRedisUp calm
calm-IsRedisUp = record { l2 = refl; acquires = refl; restores = refl }

redeem_item-counter_example :
    (redeem_item hash calm 1 card 2 shop none).counter
    ≡ some (record { value = 19; expires = true })
unfolding opened
redeem_item-counter_example = redeem_item-counter hash calm 1 card 2 shop none calm-IsRedisUp

-- Twenty units are for sale, none of the buckets holds three, and an order for three closes the item.
calm-IsPeekUp : IsPeekUp calm
calm-IsPeekUp = record { l2 = refl; locks = refl; lock_free = refl; peeks = refl }

redeem_blocks_item_example :
    let o = redeem hash calm 1 7 3 shop none in
    (o.result ≡ err stock_insufficient)
    × (o.db ≡ shop)
    × ((redeem hash calm 2 7 1 o.db o.counter).result ≡ err redeem_sold_out_peak)
unfolding opened servers
redeem_blocks_item_example =
    redeem_blocks_item hash calm calm 1 7 3 100 2 1 shop none card calm-IsRedisUp shop-IsStocked
      refl (λ a. refl) refl (omega arith) refl refl refl calm-IsPeekUp

release-acquire_flash_sale_example :
    let after =
      release_flash_sale with_l2 false 4
        (try_acquire_flash_sale with_l2 false 2 4 1 fresh_keys).0 in
    (after.stock ≡ some (record { value = 2; expires = true })) × ((u : ℕ) → after.users u ≡ 0)
unfolding try_acquire_flash_sale
release-acquire_flash_sale_example = release-acquire_flash_sale 2 4 1 fresh_keys refl

shop-IsSound : IsSound shop
shop-IsSound = record {
  stocked = shop-IsStocked;
  keyed = λ j. ground arith;
  counted = λ j. ground arith;
  within = (omega arith, tt);
}

abbrev sale_order : RedeemOrder
sale_order = record {
  id = 1;
  user_id = 4;
  item_id = 7;
  item_name = "card";
  points_spent = pos 5;
  activity_id = 3;
}

flash_redeem-FlashOrdered_example :
    (act : ShopFlashActivity) × (get_flash_activity open_sale 3 ≡ some (some act))
    × IsOpen 120 act
    × FlashOrdered open_sale 4 3 act shop (flash_redeem open_sale 4 3 shop fresh_keys).db sale_order
unfolding sale_opened
flash_redeem-FlashOrdered_example =
    flash_redeem-FlashOrdered open_sale 4 3 shop fresh_keys sale_order shop-IsSound refl

abbrev sales : List ShopCall
sales =
    purchase (record { env = open_sale; user = 4; activity_id = 3; keys = fresh_keys })
    ∷ exchange (record { env = calm; user = 1; item_id = 7; requested = 2; key = none })
    ∷ purchase (record { env = open_sale; user = 5; activity_id = 3; keys = fresh_keys })
    ∷ []

run_calls-Keeps_example : Keeps shop (run_calls hash shop sales)
run_calls-Keeps_example = run_calls-Keeps hash shop sales shop-IsSound

run_calls-orders_example : orders_of 3 (run_calls hash shop sales).orders ≤ 2
run_calls-orders_example = run_calls-orders hash shop sales 2 shop-IsSound

flash_redeem-user_orders_example :
    (act : ShopFlashActivity) × (get_flash_activity open_sale 3 ≡ some (some act))
    × (user_orders 3 4 (flash_redeem open_sale 4 3 shop fresh_keys).db.orders
        ≤ at_least_one act.per_user_limit)
unfolding sale_opened
flash_redeem-user_orders_example =
    flash_redeem-user_orders open_sale 4 3 shop fresh_keys sale_order
      (record { replica_is = refl; uncached = refl }) refl
