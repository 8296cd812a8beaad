-- ===== src/Paging/Tests.antt =====
-- Five orders of two users, in pages of one.
use hc_framework_go.Prelude.{ℕ, ◌≡◌, refl, false, some, List, [], ◌∷◌, arith, pos, ◌==◌, select}
use hc_framework_go.Shop.Model.{RedeemOrder}
use hc_framework_go.Paging.{order_desc, follow, orders, cursor_page, find_desc}
use hc_framework_go.Paging.Complete.{follow-orders}
use hc_framework_go.Paging.Sorted.{Distinct}

abbrev order : ℕ → ℕ → RedeemOrder
order id user = record {
  id = id;
  user_id = user;
  item_id = 7;
  item_name = "cup";
  points_spent = pos 5;
  activity_id = 0;
}

abbrev table : List RedeemOrder
table = order 3 1 ∷ order 1 1 ∷ order 5 2 ∷ order 4 1 ∷ order 2 2 ∷ []

table-Distinct : Distinct (λ o. o.id) table
table-Distinct = (
  (refl, (refl, (refl, (refl, tt)))),
  ((refl, (refl, (refl, tt))), ((refl, (refl, tt)), ((refl, tt), (tt, tt)))),
)

follow-orders_example :
    follow 6 (λ c. orders false 1 c (pos 1) table) 0
    ≡ some (order_desc (λ o. o.id) (select (λ o. o.user_id == 1) table))
follow-orders_example =
    follow-orders 1 (pos 1) table table-Distinct
      (omega arith, (omega arith, (omega arith, (omega arith, (omega arith, tt)))))

followed :
    follow 6 (λ c. orders false 1 c (pos 1) table) 0 ≡ some (order 4 1 ∷ order 3 1 ∷ order 1 1 ∷ [])
unfolding follow orders cursor_page find_desc
followed = refl
