-- ===== src/Paging/Complete.antt =====
-- What a client gets that follows the cursors: `Orders` of internal/service/shop/shop_service.go and
-- `Records` of internal/service/idle/idle_service.go.
use hc_framework_go.Prelude.{
  ℕ, zero, suc, ◌<◌, ◌≡◌, refl, sym, ◌∙◌, ap, Bool, true, false, some, List, [], ◌∷◌, ℤ, pos,
  negsuc, ltb, leb, ◌==◌, length, take, drop, select, All, Bool-cases, inl, inr, arith, Except, ok,
  take-drop, length-take, length-select,
}
use hc_framework_go.Shop.Model.{RedeemOrder}
use hc_framework_go.Idle.Session.{IdleRecord}
use hc_framework_go.Paging.{
  page_size, before_last, behind, id_at, order_desc, cursor_page, find_desc, QueryError, follow,
  orders, records,
}
use hc_framework_go.Paging.Sorted.{
  Desc, Distinct, All-order_desc, All-select, order_desc-Desc, select-Desc, select-Distinct,
  select-order_desc, id_at-All, select-drop,
}
use hc_framework_go.Paging.Lists.{
  take-all, take-take, length-drop, select-and, select-narrow, select-same, select-true, All-passed,
  length-order_desc,
}

pos-page_size : (limit : ℤ) → 0 < page_size limit
pos-page_size (pos zero) = omega arith
pos-page_size (pos (suc n)) = omega arith
pos-page_size (negsuc n) = omega arith

before_last-suc : (n : ℕ) → 0 < n → suc (before_last n) ≡ n
before_last-suc zero h = absurd (omega (arith, h))
before_last-suc (suc n) h = refl

behind-ltb : (c i : ℕ) → 0 < c → behind c i ≡ ltb i c
behind-ltb zero i h = absurd (omega (arith, h))
behind-ltb (suc c) i h = refl

-- A cursor behind another narrows it.
behind-narrow : (c c' i : ℕ) → behind c c' ≡ true → ltb i c' ≡ true → behind c i ≡ true
behind-narrow zero c' i b l = refl
behind-narrow (suc c) c' i b l = ground (arith, b, l)

module _ {A : Type 0} (id : A → ℕ) where
  id_at-take :
      (n : ℕ) (xs : List A)
      → id_at id (before_last n) (take (suc n) xs) ≡ id_at id (before_last n) xs
  id_at-take n [] = refl
  id_at-take zero (x ∷ xs) = refl
  id_at-take (suc zero) (x ∷ xs) = refl
  id_at-take (suc (suc n)) (x ∷ xs) = id_at-take (suc n) xs

  -- The rows of a query that fetches one more than the page holds, cut to a page.
  last_page :
      (limit : ℤ) (xs : List A)
      → leb (length xs) (page_size limit) ≡ true
      → cursor_page id (take (suc (page_size limit)) xs) limit ≡ (xs, 0, false)
  unfolding cursor_page
  last_page limit xs h = rw (take-all (suc (page_size limit)) xs (ground (arith, h)), h) refl

  full_page :
      (limit : ℤ) (xs : List A)
      → leb (length xs) (page_size limit) ≡ false
      → cursor_page id (take (suc (page_size limit)) xs) limit
        ≡ (take (page_size limit) xs, id_at id (before_last (page_size limit)) xs, true)
  unfolding cursor_page
  full_page limit xs h =
      let more : leb (length (take (suc (page_size limit)) xs)) (page_size limit) ≡ false =
        ground (arith, h, length-take (suc (page_size limit)) xs) in
      rw (more, take-take (page_size limit) xs, id_at-take (page_size limit) xs) refl

  next_rows_at :
      (n size : ℕ) (all : List A) (c : ℕ)
      → suc n ≡ size
      → Desc id all
      → All (λ r. 0 < id r) all
      → (let rows = select (λ r. behind c (id r)) all in
          leb (length rows) size ≡ false
          → select (λ r. behind (id_at id n rows) (id r)) all ≡ drop size rows)
  next_rows_at n size all c e d positive full =
      let rows = select (λ r. behind c (id r)) all in
      let within : n < length rows = ground (arith, e, full) in
      let above : 0 < id_at id n rows =
        id_at-All id (λ i. 0 < i) n rows within
          (All-select id _ (λ r. behind c (id r)) all positive) in
      let passed : behind c (id_at id n rows) ≡ true =
        id_at-All id (λ i. behind c i ≡ true) n rows within
          (All-passed (λ r. behind c (id r)) all) in
      select-same _ _ all (λ r. behind-ltb (id_at id n rows) (id r) above)
      ∙ sym (
          select-narrow (λ r. ltb (id r) (id_at id n rows)) (λ r. behind c (id r)) all
            (λ r. behind-narrow c (id_at id n rows) (id r) passed))
      ∙ select-drop id n rows within (select-Desc id (λ r. behind c (id r)) all d)
      ∙ ap (λ k. drop k rows) e

  -- The rows behind the cursor that a full page gives are those behind the page.
  next_rows :
      (limit : ℤ) (all : List A) (c : ℕ)
      → Desc id all
      → All (λ r. 0 < id r) all
      → (let rows = select (λ r. behind c (id r)) all in
          leb (length rows) (page_size limit) ≡ false
          → select (λ r. behind (id_at id (before_last (page_size limit)) rows) (id r)) all
            ≡ drop (page_size limit) rows)
  next_rows limit all c d positive full =
      next_rows_at (before_last (page_size limit)) (page_size limit) all c
        (before_last-suc (page_size limit) (pos-page_size limit)) d positive full

  -- From a cursor on, a client gets the rows behind it that the order has.
  follow-behind :
      (limit : ℤ) (all : List A) (page : ℕ → Except QueryError (List A × ℕ × Bool))
      → ((c : ℕ)
          → page c
            ≡ ok (
                cursor_page id
                  (take (suc (page_size limit)) (select (λ r. behind c (id r)) all))
                  limit))
      → Desc id all
      → All (λ r. 0 < id r) all
      → (fuel c : ℕ) → length (select (λ r. behind c (id r)) all) < fuel
      → follow fuel page c ≡ some (select (λ r. behind c (id r)) all)
  unfolding follow
  follow-behind limit all page answers d positive zero c h = absurd (omega (arith, h))
  follow-behind limit all page answers d positive (suc fuel) c h =
      let rows = select (λ r. behind c (id r)) all in
      elim (Bool-cases (leb (length rows) (page_size limit))) [
        | inl last ↦ rw (follow, answers c, last_page limit rows last) refl
        | inr full ↦
            let next = id_at id (before_last (page_size limit)) rows in
            let rest = next_rows limit all c d positive full in
            let ih = follow-behind limit all page answers d positive fuel next (
              rw rest (
                ground (
                  arith,
                  h,
                  full,
                  pos-page_size limit,
                  length-drop (page_size limit) rows (ground (arith, full)),
                ))) in
            rw (follow, answers c, full_page limit rows full, ih, rest)
              (ap some (take-drop (page_size limit) rows))
      ]

  -- So from the first page on it gets all the rows that match, in the order of the query.
  follow-order_desc :
      (matches : A → Bool) (limit : ℤ) (rows : List A)
      (page : ℕ → Except QueryError (List A × ℕ × Bool))
      → ((c : ℕ) → page c ≡ ok (cursor_page id (find_desc id matches c limit rows) limit))
      → Distinct id rows
      → All (λ r. 0 < id r) rows
      → (fuel : ℕ) → length rows < fuel
      → follow fuel page 0 ≡ some (order_desc id (select matches rows))
  unfolding find_desc
  follow-order_desc matches limit rows page answers key positive fuel h =
      let all = order_desc id (select matches rows) in
      let unique = select-Distinct id matches rows key in
      let found = λ (c : ℕ).
        ap (order_desc id) (select-and matches (λ r. behind c (id r)) rows)
        ∙ sym (select-order_desc id (λ r. behind c (id r)) (select matches rows) unique) in
      let first : select (λ r. behind 0 (id r)) all ≡ all = select-true all in
      follow-behind limit all page
        (λ c.
          answers c
          ∙ ap (λ l. ok (cursor_page id (take (suc (page_size limit)) l) limit)) (found c))
        (order_desc-Desc id (select matches rows) unique)
        (All-order_desc id _ (select matches rows) (All-select id _ matches rows positive)) fuel 0
        (rw first (
          omega (arith, h, length-order_desc id (select matches rows), length-select matches rows)))
      ∙ ap some first

-- Where the ids of the orders are above zero and all different, no query fails and the table does not
-- change meanwhile, a client that starts without a cursor and follows the cursors gets the orders of
-- the user, each once and by descending ids, whatever its limit for a page, after at most one
-- question more than the table has rows.
pub follow-orders :
    (user : ℕ) (limit : ℤ) (rows : List RedeemOrder)
    → Distinct (λ o. o.id) rows
    → All (λ o. 0 < o.id) rows
    → follow (suc (length rows)) (λ c. orders false user c limit rows) 0
      ≡ some (order_desc (λ o. o.id) (select (λ o. o.user_id == user) rows))
unfolding orders
follow-orders user limit rows key positive =
    follow-order_desc (λ o. o.id) (λ o. o.user_id == user) limit rows
      (λ c. orders false user c limit rows) (λ c. refl) key positive (suc (length rows))
      (omega arith)

pub follow-records :
    (user : ℕ) (limit : ℤ) (rows : List IdleRecord)
    → Distinct (λ r. r.id) rows
    → All (λ r. 0 < r.id) rows
    → follow (suc (length rows)) (λ c. records false user c limit rows) 0
      ≡ some (order_desc (λ r. r.id) (select (λ r. r.user_id == user) rows))
unfolding records
follow-records user limit rows key positive =
    follow-order_desc (λ r. r.id) (λ r. r.user_id == user) limit rows
      (λ c. records false user c limit rows) (λ c. refl) key positive (suc (length rows))
      (omega arith)
