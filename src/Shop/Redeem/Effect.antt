-- ===== src/Shop/Redeem/Effect.antt =====
-- What an exchange does to the tables, and what a history of exchanges does to the stock: `Redeem`
-- of internal/service/shop/shop_service.go.
use hc_framework_go.Prelude.{
  ok, err, none, subst, inl, inr, keep_count, ℕ, suc, ◌+◌, ◌≡◌, refl, false, Option, some, List, [],
  ◌∷◌, arith, ◌==◌, if◌then◌else◌, ℤ, pos, ltb_ℤ, update,
}
use hc_framework_go.Shop.Model.{ShopItem, RedeemOrder, Db, pts_redeem, EventId}
use hc_framework_go.Shop.Errors.{Result}
use hc_framework_go.Shop.Counter.{Cell}
use hc_framework_go.Shop.Stock.Rows.{available, IsStocked}
use hc_framework_go.Shop.Stock.Conserve.{Sold, deduct_stock-Sold}
use hc_framework_go.Shop.Redeem.{
  RedeemEnv, total_points, new_order, ledger_row, outbox_row, add_rows, admit, redeem,
}
use hc_framework_go.Shop.Redeem.Cases.{quantity_of, redeem-Exchanged, redeem-err, answered}

-- The tables after one order, beside the tables before.
pub record Ordered (env : RedeemEnv) (event : ℕ → EventId) (user q : ℕ) (it : ShopItem) (total : ℤ)
    (db db' : Db) (order : RedeemOrder) : Type 0 where
  pub moved : (j : ℕ) → available j db' + (if j == it.id then q else 0) ≡ available j db
  pub stocked : IsStocked db'
  pub order_is : order ≡ new_order db.next_order user it total 0
  pub orders_grow : db'.orders ≡ order ∷ db.orders
  pub next_grows : db'.next_order ≡ suc db.next_order
  pub balance : ℕ
  pub read : env.user_read ≡ some (some balance)
  pub affordable : ltb_ℤ (pos balance) total ≡ false
  pub ledger : db'.transactions ≡ ledger_row user balance total db.next_order ∷ db.transactions
  pub outbox_grows : db'.outbox ≡ (
      if env.points_on
      then outbox_row env.now user total (event db.next_order) ∷ db.outbox
      else db.outbox)
  pub activities_kept : db'.activities ≡ db.activities

available-add_rows :
    (env : RedeemEnv) (event : ℕ → EventId) (user balance : ℕ) (it : ShopItem) (total : ℤ)
    (activity j : ℕ) (db : Db)
    → available j (add_rows env event user balance it total activity db) ≡ available j db
unfolding available add_rows
available-add_rows env event user balance it total activity j db = refl

add_rows-IsStocked :
    (env : RedeemEnv) (event : ℕ → EventId) (user balance : ℕ) (it : ShopItem) (total : ℤ)
    (activity : ℕ) (db : Db)
    → IsStocked db
    → IsStocked (add_rows env event user balance it total activity db)
unfolding add_rows
add_rows-IsStocked env event user balance it total activity db s = record {
  keyed = s.keyed;
  unique = s.unique;
}

rows-Ordered :
    (env : RedeemEnv) (event : ℕ → EventId) (user balance q : ℕ) (it : ShopItem) (total : ℤ)
    (db left : Db)
    → Sold it.id q db left
    → env.user_read ≡ some (some balance)
    → ltb_ℤ (pos balance) total ≡ false
    → Ordered env event user q it total db
        (add_rows env event user balance it total 0 left)
        (new_order left.next_order user it total 0)
unfolding add_rows
rows-Ordered env event user balance q it total db left s r a = record {
  moved =
      λ j. omega (arith, s.moved j, available-add_rows env event user balance it total 0 j left);
  stocked = add_rows-IsStocked env event user balance it total 0 left s.stocked;
  order_is = rw s.next_kept;
  orders_grow = rw s.orders_kept;
  next_grows = rw s.next_kept;
  balance = balance;
  read = r;
  affordable = a;
  ledger = rw (s.next_kept, s.transactions_kept);
  outbox_grows = rw (s.next_kept, s.outbox_kept);
  activities_kept = s.activities_kept;
}

-- Where the keys of the stock are unique, a successful exchange took the quantity from the stock of
-- the item that was admitted, charged a balance that covered its price, and added one order, one
-- ledger row and, where points are on, one pending outbox row of that price under the order's event
-- id. No other stock and no activity moved.
pub redeem-Ordered :
    (fnv32a : ℕ → ℕ) (env : RedeemEnv) (user item_id requested : ℕ) (db : Db) (key : Option Cell)
    (order : RedeemOrder)
    → IsStocked db
    → (redeem fnv32a env user item_id requested db key).result ≡ ok order
    → (it : ShopItem) × (admit env item_id (quantity_of requested) key ≡ ok it)
      × Ordered env pts_redeem user
          (quantity_of requested)
          it
          (total_points it (quantity_of requested))
          db
          (redeem fnv32a env user item_id requested db key).db
          order
redeem-Ordered fnv32a env user item_id requested db key order s h =
    let x = redeem-Exchanged fnv32a env user item_id requested db key order h in
    let p = x.paid in
    let whole =
      rows-Ordered env pts_redeem user p.balance (quantity_of requested) x.item
        (total_points x.item (quantity_of requested)) db p.left
        (deduct_stock-Sold fnv32a env.deduct x.item.id (quantity_of requested) user db p.left s
          p.sold)
        p.read p.affordable in
    (x.item, x.admitted, rw (p.rows_are, p.order_is) whole)

-- One call of a history, with whatever Redis holds at the time.
pub record RedeemCall : Type 0 where
  pub env : RedeemEnv
  pub user : ℕ
  pub item_id : ℕ
  pub requested : ℕ
  pub key : Option Cell

-- The order that a call has put into the tables, if it has: also one whose commit failed may have.
abbrev pub head_order : List RedeemOrder → Option RedeemOrder
head_order [] = none
head_order (o ∷ os) = some o

abbrev pub placed : Db → Db → Option RedeemOrder
placed db db' = if db'.next_order == db.next_order then none else head_order db'.orders

-- What it adds to the count of what was sold of each item.
abbrev pub add_sold : Option RedeemOrder → ℕ → (ℕ → ℕ) → ℕ → ℕ
add_sold none q sold = sold
add_sold (some order) q sold = update sold order.item_id (sold order.item_id + q)

unfoldable pub redeem_all : (ℕ → ℕ) → Db → (ℕ → ℕ) → List RedeemCall → Db × (ℕ → ℕ)
redeem_all fnv32a db sold [] = (db, sold)
redeem_all fnv32a db sold (c ∷ cs) =
    let o = redeem fnv32a c.env c.user c.item_id c.requested db c.key in
    redeem_all fnv32a o.db (add_sold (placed db o.db) (quantity_of c.requested) sold) cs

-- A state whose stock and sales make up the stock at the start.
abbrev pub Balanced : (ℕ → ℕ) → Db → (ℕ → ℕ) → Type 0
Balanced start db sold = (j : ℕ) → available j db + sold j ≡ start j

order-item :
    (order : RedeemOrder) (id user : ℕ) (it : ShopItem) (total : ℤ)
    → order ≡ new_order id user it total 0
    → order.item_id ≡ it.id
unfolding new_order
order-item order id user it total e = rw e

unplaced : (db : Db) → placed db db ≡ none
unplaced db = ground arith

Ordered-placed :
    (env : RedeemEnv) (user q : ℕ) (it : ShopItem) (total : ℤ) (db db' : Db) (order : RedeemOrder)
    → Ordered env pts_redeem user q it total db db' order
    → placed db db' ≡ some order
Ordered-placed env user q it total db db' order o =
    let grown : (suc db.next_order == db.next_order) ≡ false = ground arith in
    rw (o.next_grows, grown, o.orders_grow) refl

-- The tables behind a call, sound and in balance with what was sold.
abbrev KeepsBalance : (ℕ → ℕ) → Db → (ℕ → ℕ) → ℕ → Db → Type 0
KeepsBalance start db sold q db' =
    IsStocked db' × Balanced start db' (add_sold (placed db db') q sold)

placed-Balanced :
    (fnv32a : ℕ → ℕ) (start : ℕ → ℕ) (db : Db) (sold : ℕ → ℕ) (env : RedeemEnv)
    (user item_id requested : ℕ) (key : Option Cell) (order : RedeemOrder)
    → IsStocked db
    → Balanced start db sold
    → (redeem fnv32a env user item_id requested db key).result ≡ ok order
    → KeepsBalance start db sold
        (quantity_of requested)
        (redeem fnv32a env user item_id requested db key).db
placed-Balanced fnv32a start db sold env user item_id requested key order s b h =
    let (it, a, o) = redeem-Ordered fnv32a env user item_id requested db key order s h in
    (
      o.stocked,
      rw
          (
            Ordered-placed env user (quantity_of requested) it _ db _ order o,
            order-item order db.next_order user it _ o.order_is,
          )
          (keep_count (λ j. available j db)
            (λ j. available j (redeem fnv32a env user item_id requested db key).db) sold start it.id
            (quantity_of requested) o.moved b),
    )

call-Balanced :
    (fnv32a : ℕ → ℕ) (start : ℕ → ℕ) (db : Db) (sold : ℕ → ℕ) (c : RedeemCall)
    (r : Result RedeemOrder)
    → IsStocked db
    → Balanced start db sold
    → (redeem fnv32a c.env c.user c.item_id c.requested db c.key).result ≡ r
    → KeepsBalance start db sold
        (quantity_of c.requested)
        (redeem fnv32a c.env c.user c.item_id c.requested db c.key).db
call-Balanced fnv32a start db sold c (ok order) s b h =
    placed-Balanced fnv32a start db sold c.env c.user c.item_id c.requested c.key order s b h
call-Balanced fnv32a start db sold c (err e) s b h =
    elim (redeem-err fnv32a c.env c.user c.item_id c.requested db c.key e h) [
      | inl same ↦ rw (same, unplaced db) (s, b)
      | inr (_, order, taken, same) ↦
          subst (KeepsBalance start db sold (quantity_of c.requested)) same (
            placed-Balanced fnv32a start db sold (answered c.env) c.user c.item_id c.requested c.key
              order s b taken)
    ]

-- Where the keys of the stock are unique and sales and stock agree at first: however many exchanges
-- of whatever users run one after the other, whatever fails in them and whatever Redis, the caches
-- and the replica tell them, the units of the orders that the tables got, also by a commit that took
-- effect although it failed, and those still for sale make up the stock of an item at the start:
-- nothing is sold twice, and nothing is lost.
pub redeem_all-Balanced :
    (fnv32a : ℕ → ℕ) (start : ℕ → ℕ) (db : Db) (sold : ℕ → ℕ) (cs : List RedeemCall)
    → IsStocked db
    → Balanced start db sold
    → Balanced start (redeem_all fnv32a db sold cs).0 (redeem_all fnv32a db sold cs).1
unfolding redeem_all
redeem_all-Balanced fnv32a start db sold [] s b = b
redeem_all-Balanced fnv32a start db sold (c ∷ cs) s b =
    let o = redeem fnv32a c.env c.user c.item_id c.requested db c.key in
    let (s', b') = call-Balanced fnv32a start db sold c o.result s b refl in
    redeem_all-Balanced fnv32a start o.db (add_sold (placed db o.db) (quantity_of c.requested) sold)
      cs s' b'
