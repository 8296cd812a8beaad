-- ===== src/Paging.antt =====
-- Lists in pages: `CursorPage` of internal/service/common/cursor.go, and the queries that it cuts:
-- `FindOrders` of internal/repository/shop_repo.go and `FindRecords` of
-- internal/repository/idle_repo.go, with `Orders` and `Records` of the services.
mod Sorted
mod Lists
mod Complete
mod Tests
use hc_framework_go.Prelude.{
  ℕ, zero, suc, ◌+◌, Bool, true, false, ◌&&◌, Option, none, some, List, [], ◌∷◌, ◌++◌, ℤ, pos,
  negsuc, ltb, leb, ◌==◌, if◌then◌else◌, length, take, select, Except, err, ok, ◌>>=◌,
}
use hc_framework_go.Shop.Model.{RedeemOrder}
use hc_framework_go.Idle.Session.{IdleRecord}

-- `DefaultPageSize`, also where a query has no limit of its own.
abbrev pub default_page_size : ℕ
default_page_size = 20

abbrev pub page_size : ℤ → ℕ
page_size (pos zero) = default_page_size
page_size (pos (suc n)) = suc n
page_size (negsuc n) = default_page_size

-- The query failed.
pub data QueryError : Type 0 where
  query_failed : QueryError

abbrev pub before_last : ℕ → ℕ
before_last zero = zero
before_last (suc n) = n

-- `id < ?`, which a query has only where there is a cursor.
abbrev pub behind : ℕ → ℕ → Bool
behind zero i = true
behind (suc c) i = ltb i (suc c)

module _ {A : Type 0} (id : A → ℕ) where
  -- `id(rows[i])`, which the code asks for only within the rows.
  abbrev pub id_at : ℕ → List A → ℕ
  id_at i [] = 0
  id_at zero (x ∷ xs) = id x
  id_at (suc i) (x ∷ xs) = id_at i xs

  -- The rows of the page, the next cursor, and whether there are more.
  unfoldable pub cursor_page : List A → ℤ → List A × ℕ × Bool
  cursor_page rows limit =
      if leb (length rows) (page_size limit)
      then (rows, 0, false)
      else (take (page_size limit) rows, id_at (before_last (page_size limit)) rows, true)

  -- ORDER BY id DESC.
  abbrev pub insert_desc : A → List A → List A
  insert_desc x [] = x ∷ []
  insert_desc x (y ∷ ys) =
      let rest = insert_desc x ys in if ltb (id y) (id x) then x ∷ y ∷ ys else y ∷ rest

  abbrev pub order_desc : List A → List A
  order_desc [] = []
  order_desc (x ∷ xs) = insert_desc x (order_desc xs)

  unfoldable pub find_desc : (A → Bool) → ℕ → ℤ → List A → List A
  find_desc matches cursor limit rows =
      take (suc (page_size limit))
        (order_desc (select (λ r. matches r && behind cursor (id r)) rows))

-- A client that asks for page after page, with the cursor of the last, gives up at an error and asks
-- at most so many times.
abbrev pub and_rows : {A : Type 0} → List A → Option (List A) → Option (List A)
and_rows rows none = none
and_rows rows (some rest) = some (rows ++ rest)

unfoldable pub follow :
    {A : Type 0} → ℕ → (ℕ → Except QueryError (List A × ℕ × Bool)) → ℕ → Option (List A)
follow zero page cursor = none
follow (suc fuel) page cursor = elim (page cursor) [
  | err e ↦ none
  | ok answer ↦
      let rest = follow fuel page answer.1 in
      if answer.2 then and_rows answer.0 rest else some answer.0
]

abbrev pub find_orders : Bool → ℕ → ℕ → ℤ → List RedeemOrder → Except QueryError (List RedeemOrder)
find_orders fails user cursor limit rows =
    if fails
    then err query_failed
    else ok (find_desc (λ o. o.id) (λ o. o.user_id == user) cursor limit rows)

unfoldable pub orders :
    Bool → ℕ → ℕ → ℤ → List RedeemOrder → Except QueryError (List RedeemOrder × ℕ × Bool)
unfolding cursor_page find_desc
orders fails user cursor limit table = do
  rows ← find_orders fails user cursor limit table
  ok (cursor_page (λ o. o.id) rows limit)

abbrev pub find_records : Bool → ℕ → ℕ → ℤ → List IdleRecord → Except QueryError (List IdleRecord)
find_records fails user cursor limit rows =
    if fails
    then err query_failed
    else ok (find_desc (λ r. r.id) (λ r. r.user_id == user) cursor limit rows)

unfoldable pub records :
    Bool → ℕ → ℕ → ℤ → List IdleRecord → Except QueryError (List IdleRecord × ℕ × Bool)
unfolding cursor_page find_desc
records fails user cursor limit table = do
  rows ← find_records fails user cursor limit table
  ok (cursor_page (λ r. r.id) rows limit)
