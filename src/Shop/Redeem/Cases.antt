-- ===== src/Shop/Redeem/Cases.antt =====
-- What a successful exchange has been through: inversion of `pay` and `redeem` of Redeem, which
-- stand for `Redeem` of internal/service/shop/shop_service.go.
use hc_framework_go.Prelude.{
  ok, err, ◌>>=◌, ℕ, ◌≡◌, refl, Bool, true, false, Option, none, some, arith, leb, if◌then◌else◌, ℤ,
  pos, ltb_ℤ, Bool-cases, inl, inr, ◌⊎◌, sym, subst,
}
use hc_framework_go.Shop.Model.{ShopItem, RedeemOrder, Db, EventId, pts_redeem}
use hc_framework_go.Shop.Errors.{Result, ShopError, points_insufficient, commit_failed}
use hc_framework_go.Shop.Stock.{deduct_stock, Deducted, deducted, insufficient, db_error}
use hc_framework_go.Shop.Counter.{
  Cell, RedeemAcquireResult, redeem_ok, redeem_sold_out, redeem_skipped,
}
use hc_framework_go.Shop.Redeem.{
  RedeemEnv, Outcome, total_points, new_order, add_rows, record_order, deducted_or, redeem_tx, pay,
  close, after_acquire, redeem_item, admit, redeem,
}

pub recorded :
    (env : RedeemEnv) (event : ℕ → EventId) (user balance : ℕ) (it : ShopItem) (total : ℤ)
    (activity : ℕ) (db db' : Db) (order : RedeemOrder)
    → record_order env event user balance it total activity db ≡ ok (db', order)
    → (db' ≡ add_rows env event user balance it total activity db)
      × (order ≡ new_order db.next_order user it total activity)
unfolding record_order
recorded env event user balance it total activity db db' order h = (ground arith, ground arith)

-- What a successful payment has been through.
pub record Paid (fnv32a : ℕ → ℕ) (env : RedeemEnv) (user : ℕ) (it : ShopItem) (quantity : ℕ)
    (db db' : Db) (order : RedeemOrder) : Type 0 where
  pub balance : ℕ
  pub read : env.user_read ≡ some (some balance)
  pub affordable : ltb_ℤ (pos balance) (total_points it quantity) ≡ false
  pub left : Db
  pub sold : deduct_stock fnv32a env.deduct it.id quantity user db ≡ deducted left
  pub rows_are : db' ≡ add_rows env pts_redeem user balance it (total_points it quantity) 0 left
  pub order_is : order ≡ new_order left.next_order user it (total_points it quantity) 0

tx-Paid :
    (fnv32a : ℕ → ℕ) (env : RedeemEnv) (user balance : ℕ) (it : ShopItem) (quantity : ℕ)
    (db db' : Db) (order : RedeemOrder) (d : Deducted)
    → env.user_read ≡ some (some balance)
    → ltb_ℤ (pos balance) (total_points it quantity) ≡ false
    → deduct_stock fnv32a env.deduct it.id quantity user db ≡ d
    → (deducted_or d >>= record_order env pts_redeem user balance it (total_points it quantity) 0)
      ≡ ok (db', order)
    → Paid fnv32a env user it quantity db db' order
tx-Paid fnv32a env user balance it quantity db db' order (deducted left) read enough e h =
    let (rows, o) =
      recorded env pts_redeem user balance it (total_points it quantity) 0 left db' order h in
    record {
      balance = balance;
      read = read;
      affordable = enough;
      left = left;
      sold = e;
      rows_are = rows;
      order_is = o;
    }
tx-Paid fnv32a env user balance it quantity db db' order insufficient read enough e h = cc
tx-Paid fnv32a env user balance it quantity db db' order db_error read enough e h = cc

pay_enough :
    (fnv32a : ℕ → ℕ) (env : RedeemEnv) (user balance : ℕ) (it : ShopItem) (quantity : ℕ)
    (db db' : Db) (order : RedeemOrder)
    → env.user_read ≡ some (some balance)
    → (if ltb_ℤ (pos balance) (total_points it quantity)
        then err points_insufficient
        else redeem_tx fnv32a env user balance it quantity (total_points it quantity) db)
      ≡ ok (db', order)
    → Paid fnv32a env user it quantity db db' order
unfolding redeem_tx
pay_enough fnv32a env user balance it quantity db db' order read h =
    elim (Bool-cases (ltb_ℤ (pos balance) (total_points it quantity))) [
      | inl poor ↦ absurd (let h' = rw poor at h in cc)
      | inr rich ↦
          tx-Paid fnv32a env user balance it quantity db db' order _ read rich refl (rw rich at h)
    ]

pay-read :
    (fnv32a : ℕ → ℕ) (env : RedeemEnv) (user : ℕ) (it : ShopItem) (quantity : ℕ) (db db' : Db)
    (order : RedeemOrder) (r : Option (Option ℕ))
    → env.user_read ≡ r
    → pay fnv32a env user it quantity db ≡ ok (db', order)
    → Paid fnv32a env user it quantity db db' order
unfolding pay
pay-read fnv32a env user it quantity db db' order none e h =
    absurd (let h' = rw (e, pay) at h in cc)
pay-read fnv32a env user it quantity db db' order (some none) e h =
    absurd (let h' = rw (e, pay) at h in cc)
pay-read fnv32a env user it quantity db db' order (some (some balance)) e h =
    pay_enough fnv32a env user balance it quantity db db' order e (rw (e, pay) at h)

pub pay-Paid :
    (fnv32a : ℕ → ℕ) (env : RedeemEnv) (user : ℕ) (it : ShopItem) (quantity : ℕ) (db db' : Db)
    (order : RedeemOrder)
    → pay fnv32a env user it quantity db ≡ ok (db', order)
    → Paid fnv32a env user it quantity db db' order
pay-Paid fnv32a env user it quantity db db' order h =
    pay-read fnv32a env user it quantity db db' order env.user_read refl h

-- The same run with a commit that is answered.
abbrev pub answered : RedeemEnv → RedeemEnv
answered env = record env { commit_fails = false }

-- A run that failed: its tables are as it found them, or its commit took effect all the same.
abbrev pub FailedAs : Db → ShopError → Outcome → Outcome → Type 0
FailedAs db e o clean =
    (o.db ≡ db)
    ⊎ ((e ≡ commit_failed) × (order : RedeemOrder) × (clean.result ≡ ok order) × (clean.db ≡ o.db))

close-err :
    (env : RedeemEnv) (acquired : Bool) (key : Option Cell) (db : Db)
    (r : Result (Db × RedeemOrder)) (e : ShopError)
    → (close env acquired key db r).result ≡ err e
    → FailedAs db e (close env acquired key db r) (close (answered env) acquired key db r)
unfolding close
close-err env acquired key db (err x) e h = inl refl
close-err env acquired key db (ok (db', order)) e h = elim (Bool-cases env.commit_fails) [
  | inr answer ↦ absurd (let h' = rw answer at h in cc)
  | inl lost ↦ elim (Bool-cases env.commit_applies) [
    | inr undone ↦ inl (rw (lost, undone) refl)
    | inl done ↦
        let same : commit_failed ≡ e = ground (arith, h, lost) in
        inr (sym same, order, refl, rw (lost, done) refl)
  ]
]

close-ok :
    (env : RedeemEnv) (acquired : Bool) (key : Option Cell) (db : Db)
    (r : Result (Db × RedeemOrder)) (order : RedeemOrder)
    → (close env acquired key db r).result ≡ ok order
    → r ≡ ok ((close env acquired key db r).db, order)
unfolding close
close-ok env acquired key db (ok (db', o)) order h = elim (Bool-cases env.commit_fails) [
  | inl lost ↦ absurd (let h' = rw lost at h in cc)
  | inr answer ↦ let same : o ≡ order = ground (arith, h, answer) in rw (answer, same) refl
]
close-ok env acquired key db (err x) order h = cc

module _ (fnv32a : ℕ → ℕ) (env : RedeemEnv) (user : ℕ) (it : ShopItem) (quantity : ℕ) (db : Db)
    (key : Option Cell) where
  pay-answered : pay fnv32a env user it quantity db ≡ pay fnv32a (answered env) user it quantity db
  unfolding pay redeem_tx record_order add_rows
  pay-answered = refl

  closed-err :
      (acquired : Bool) (e : ShopError)
      → (close env acquired key db (pay fnv32a env user it quantity db)).result ≡ err e
      → FailedAs db e
          (close env acquired key db (pay fnv32a env user it quantity db))
          (close (answered env) acquired key db (pay fnv32a (answered env) user it quantity db))
  closed-err acquired e h =
      subst
        (λ (r : Result (Db × RedeemOrder)).
          FailedAs db e (close env acquired key db (pay fnv32a env user it quantity db))
            (close (answered env) acquired key db r))
        pay-answered (close-err env acquired key db _ e h)

  after-err :
      (r : Option RedeemAcquireResult) (e : ShopError)
      → (after_acquire fnv32a env user it quantity db key r).result ≡ err e
      → FailedAs db e
          (after_acquire fnv32a env user it quantity db key r)
          (after_acquire fnv32a (answered env) user it quantity db key r)
  unfolding after_acquire
  after-err (some redeem_sold_out) e h = inl refl
  after-err (some redeem_ok) e h = closed-err true e h
  after-err (some redeem_skipped) e h = closed-err false e h
  after-err none e h = closed-err false e h

  after-ok :
      (r : Option RedeemAcquireResult) (order : RedeemOrder)
      → (after_acquire fnv32a env user it quantity db key r).result ≡ ok order
      → Paid fnv32a env user it quantity db
          (after_acquire fnv32a env user it quantity db key r).db
          order
  unfolding after_acquire
  after-ok (some redeem_sold_out) order h = cc
  after-ok (some redeem_ok) order h =
      pay-Paid fnv32a env user it quantity db _ order (close-ok env true key db _ order h)
  after-ok (some redeem_skipped) order h =
      pay-Paid fnv32a env user it quantity db _ order (close-ok env false key db _ order h)
  after-ok none order h =
      pay-Paid fnv32a env user it quantity db _ order (close-ok env false key db _ order h)

abbrev pub quantity_of : ℕ → ℕ
quantity_of requested = if leb requested 0 then 1 else requested

module _ (fnv32a : ℕ → ℕ) (env : RedeemEnv) (user item_id requested : ℕ) (db : Db)
    (key : Option Cell) where
  err-at :
      (r : Result ShopItem) (e : ShopError)
      → admit env item_id (quantity_of requested) key ≡ r
      → (redeem fnv32a env user item_id requested db key).result ≡ err e
      → FailedAs db e
          (redeem fnv32a env user item_id requested db key)
          (redeem fnv32a (answered env) user item_id requested db key)
  unfolding redeem redeem_item
  err-at (ok it) e a h =
      rw (a, redeem)
        (after-err fnv32a env user it (quantity_of requested) db _ _ e (rw (a, redeem) at h))
  err-at (err x) e a h = rw (a, redeem) (inl refl)

  -- A failed exchange leaves the tables as they were, or its commit took effect all the same.
  pub redeem-err :
      (e : ShopError)
      → (redeem fnv32a env user item_id requested db key).result ≡ err e
      → FailedAs db e
          (redeem fnv32a env user item_id requested db key)
          (redeem fnv32a (answered env) user item_id requested db key)
  redeem-err e h = err-at _ e refl h

  -- What a successful exchange has been through.
  pub record Exchanged (db' : Db) (order : RedeemOrder) : Type 0 where
    pub item : ShopItem
    pub admitted : admit env item_id (quantity_of requested) key ≡ ok item
    pub paid : Paid fnv32a env user item (quantity_of requested) db db' order

  ok-at :
      (r : Result ShopItem) (order : RedeemOrder)
      → admit env item_id (quantity_of requested) key ≡ r
      → (redeem fnv32a env user item_id requested db key).result ≡ ok order
      → Exchanged (redeem fnv32a env user item_id requested db key).db order
  unfolding redeem redeem_item
  ok-at (ok it) order a h = record {
    item = it;
    admitted = a;
    paid =
        rw (a, redeem)
          (after-ok fnv32a env user it (quantity_of requested) db _ _ order (rw (a, redeem) at h));
  }
  ok-at (err x) order a h = absurd (let h' = rw (a, redeem) at h in cc)

  pub redeem-Exchanged :
      (order : RedeemOrder)
      → (redeem fnv32a env user item_id requested db key).result ≡ ok order
      → Exchanged (redeem fnv32a env user item_id requested db key).db order
  redeem-Exchanged order h = ok-at _ order refl h
