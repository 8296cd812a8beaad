-- ===== src/Shop/Flash/Cases.antt =====
-- What a successful purchase in a timed sale has been through: inversion of `flash_redeem` of Flash,
-- which stands for `FlashRedeem` of internal/service/shop/shop_service.go.
use hc_framework_go.Prelude.{
  ℕ, ◌≡◌, refl, Bool, true, false, ◌||◌, ◌&&◌, sym, ◌∙◌, Option, none, some, List, arith, ltb, leb,
  pos, ok, err, passed, not_refused, Bool-cases, inl, inr, ◌⊎◌, subst,
}
use hc_framework_go.Shop.Model.{ShopItem, RedeemOrder, ShopFlashActivity, Db, pts_flash}
use hc_framework_go.Shop.Errors.{
  Result, ShopError, find_item_failed, find_user_failed, item_not_found, user_not_found,
  find_activity_failed, flash_sale_not_found,
}
use hc_framework_go.Shop.Counter.{
  has_l2, FlashKeys, FlashSaleAcquireResult, flash_ok, flash_sold_out, flash_user_limit,
  flash_skipped,
}
use hc_framework_go.Shop.Redeem.{
  new_order, add_rows, find_item_by_id, record_order, load_item, fill_item_stock,
}
use hc_framework_go.Shop.Redeem.Cases.{recorded, answered}
use hc_framework_go.Shop.Flash.{
  FlashEnv, FlashOutcome, get_flash_activity, acquire_flash_quota, count_user_flash_orders, is_over,
  is_ended, is_pending, check_window, present, flash_admit, at_least_one, active_item, flash_tx,
  flash_buy, flash_close, after_flash_acquire, flash_sell, flash_redeem,
}

pub present-ok :
    (failed missing : ShopError) {A : Type 0} (o : Option (Option A)) (a : A)
    → present failed missing o ≡ ok a
    → o ≡ some (some a)
present-ok failed missing none a h = cc
present-ok failed missing (some none) a h = cc
present-ok failed missing (some (some x)) a h = ground arith

-- What a successful payment has been through.
pub record FlashPaid (env : FlashEnv) (user activity_id : ℕ) (act : ShopFlashActivity) (db db' : Db)
    (order : RedeemOrder) : Type 0 where
  pub bought : ℕ
  pub counted : count_user_flash_orders env activity_id user ≡ ok bought
  pub may_buy : leb (at_least_one act.per_user_limit) bought ≡ false
  pub item : ShopItem
  pub balance : ℕ
  pub read : env.base.user_read ≡ some (some balance)
  pub affordable : ltb balance act.price_points ≡ false
  pub acts : List ShopFlashActivity
  pub taken : acquire_flash_quota env.quota_fails activity_id db.activities ≡ ok acts
  pub rows_are :
      db'
      ≡ add_rows env.base pts_flash user balance item
          (pos act.price_points)
          activity_id
          (record db { activities = acts })
  pub order_is : order ≡ new_order db.next_order user item (pos act.price_points) activity_id

flash_buy-FlashPaid :
    (env : FlashEnv) (user activity_id : ℕ) (act : ShopFlashActivity) (db db' : Db)
    (order : RedeemOrder)
    → flash_buy env user activity_id act db ≡ ok (db', order)
    → FlashPaid env user activity_id act db db' order
unfolding flash_buy flash_tx
flash_buy-FlashPaid env user activity_id act db db' order h =
    let (bought, h1, counted) = passed _ (count_user_flash_orders env activity_id user) h in
    let (h2, may_buy) = not_refused (leb (at_least_one act.per_user_limit) bought) _ _ h1 in
    let (it, h3, found) =
      passed _ (present find_item_failed item_not_found (find_item_by_id env.base act.item_id))
        h2 in
    let (item, h4, on_sale) = passed _ (active_item it) h3 in
    let (balance, h5, user_is) =
      passed _ (present find_user_failed user_not_found env.base.user_read) h4 in
    let (h6, affordable) = not_refused (ltb balance act.price_points) _ _ h5 in
    let (acts, h7, taken) =
      passed _ (acquire_flash_quota env.quota_fails activity_id db.activities) h6 in
    let (rows_are, order_is) =
      recorded env.base pts_flash user balance item _ activity_id _ db' order h7 in
    record {
      bought = bought;
      counted = counted;
      may_buy = may_buy;
      item = item;
      balance = balance;
      read = present-ok _ _ _ _ user_is;
      affordable = affordable;
      acts = acts;
      taken = taken;
      rows_are = rows_are;
      order_is = order_is;
    }

-- A sale that is open at the time of the run.
pub record IsOpen (now : ℕ) (act : ShopFlashActivity) : Type 0 where
  pub not_ended : is_ended act.status ≡ false
  pub started : (is_pending act.status || ltb now act.start_time) ≡ false
  pub not_over : is_over now act.end_time ≡ false

check_window-IsOpen :
    (now : ℕ) (act act' : ShopFlashActivity)
    → check_window now act ≡ ok act'
    → (act ≡ act') × IsOpen now act'
unfolding check_window
check_window-IsOpen now act act' h =
    let (h1, e) = not_refused (is_ended act.status) _ _ h in
    let (h2, p) = not_refused (is_pending act.status || ltb now act.start_time) _ _ h1 in
    let (h3, o) = not_refused (is_over now act.end_time) _ _ h2 in
    let same : act ≡ act' = ground arith in
    (same, rw (sym same) (record { not_ended = e; started = p; not_over = o }))

pub flash_admit-IsOpen :
    (env : FlashEnv) (activity_id : ℕ) (act : ShopFlashActivity)
    → flash_admit env activity_id ≡ ok act
    → (get_flash_activity env activity_id ≡ some (some act)) × IsOpen env.base.now act
unfolding flash_admit
flash_admit-IsOpen env activity_id act h =
    let (a, h1, found) =
      passed _
        (present find_activity_failed flash_sale_not_found (get_flash_activity env activity_id))
        h in
    let (a', h2, opened) = passed _ (check_window env.base.now a) h1 in
    let (h3, x) = not_refused (has_l2 env.base.cache && env.base.lock_fails) _ _ h2 in
    let (h4, y) = not_refused (has_l2 env.base.cache && env.base.lock_held) _ _ h3 in
    let (same, is_open) = check_window-IsOpen env.base.now a a' opened in
    let last : a' ≡ act = ground arith in
    (present-ok _ _ _ _ found ∙ rw (same, last), rw (sym last) is_open)

close-ok :
    (env : FlashEnv) (acquired : Bool) (user : ℕ) (keys : FlashKeys) (db : Db)
    (r : Result (Db × RedeemOrder)) (order : RedeemOrder)
    → (flash_close env acquired user keys db r).result ≡ ok order
    → r ≡ ok ((flash_close env acquired user keys db r).db, order)
unfolding flash_close
close-ok env acquired user keys db (ok (db', o)) order h = elim (Bool-cases env.base.commit_fails) [
  | inl lost ↦ absurd (let h' = rw lost at h in cc)
  | inr answer ↦ let same : o ≡ order = ground (arith, h, answer) in rw (answer, same) refl
]
close-ok env acquired user keys db (err x) order h = cc

-- The same run with a commit that is answered.
abbrev pub flash_answered : FlashEnv → FlashEnv
flash_answered env = record env { base = answered env.base }

-- What a failed run has left of the tables, beside the run whose commit is answered: the tables as
-- they were, or those of a purchase whose commit took effect although it failed.
abbrev pub FlashFailedAs : Db → FlashOutcome → FlashOutcome → Type 0
FlashFailedAs db o o' =
    (o.db ≡ db) ⊎ ((order : RedeemOrder) × (o'.result ≡ ok order) × (o'.db ≡ o.db))

close-err :
    (env : FlashEnv) (acquired : Bool) (user : ℕ) (keys : FlashKeys) (db : Db)
    (r : Result (Db × RedeemOrder)) (e : ShopError)
    → (flash_close env acquired user keys db r).result ≡ err e
    → FlashFailedAs db
        (flash_close env acquired user keys db r)
        (flash_close (flash_answered env) acquired user keys db r)
unfolding flash_close
close-err env acquired user keys db (err x) e h = inl refl
close-err env acquired user keys db (ok (db', order)) e h =
    elim (Bool-cases env.base.commit_fails) [
      | inr answer ↦ absurd (let h' = rw answer at h in cc)
      | inl lost ↦ elim (Bool-cases env.base.commit_applies) [
        | inr undone ↦ inl (rw (lost, undone) refl)
        | inl done ↦ inr (order, refl, rw (lost, done) refl)
      ]
    ]

module _ (env : FlashEnv) (user activity_id : ℕ) (act : ShopFlashActivity) (db : Db)
    (keys : FlashKeys) where
  after-ok :
      (r : Option FlashSaleAcquireResult) (order : RedeemOrder)
      → (after_flash_acquire env user activity_id act db keys r).result ≡ ok order
      → FlashPaid env user activity_id act db
          (after_flash_acquire env user activity_id act db keys r).db
          order
  unfolding after_flash_acquire
  after-ok (some flash_sold_out) order h = cc
  after-ok (some flash_user_limit) order h = cc
  after-ok (some flash_ok) order h =
      flash_buy-FlashPaid env user activity_id act db _ order
        (close-ok env true user keys db _ order h)
  after-ok (some flash_skipped) order h =
      flash_buy-FlashPaid env user activity_id act db _ order
        (close-ok env false user keys db _ order h)
  after-ok none order h =
      flash_buy-FlashPaid env user activity_id act db _ order
        (close-ok env false user keys db _ order h)

  flash_buy-answered :
      flash_buy env user activity_id act db ≡ flash_buy (flash_answered env) user activity_id act db
  unfolding flash_buy count_user_flash_orders flash_tx record_order add_rows find_item_by_id
      load_item fill_item_stock
  flash_buy-answered = refl

  closed-err :
      (acquired : Bool) (e : ShopError)
      → (flash_close env acquired user keys db (flash_buy env user activity_id act db)).result
        ≡ err e
      → FlashFailedAs db
          (flash_close env acquired user keys db (flash_buy env user activity_id act db))
          (flash_close
            (flash_answered env)
            acquired
            user
            keys
            db
            (flash_buy (flash_answered env) user activity_id act db))
  closed-err acquired e h =
      subst
        (λ (r : Result (Db × RedeemOrder)).
          FlashFailedAs db
            (flash_close env acquired user keys db (flash_buy env user activity_id act db))
            (flash_close (flash_answered env) acquired user keys db r))
        flash_buy-answered (close-err env acquired user keys db _ e h)

  after-err :
      (r : Option FlashSaleAcquireResult) (e : ShopError)
      → (after_flash_acquire env user activity_id act db keys r).result ≡ err e
      → FlashFailedAs db
          (after_flash_acquire env user activity_id act db keys r)
          (after_flash_acquire (flash_answered env) user activity_id act db keys r)
  unfolding after_flash_acquire
  after-err (some flash_sold_out) e h = inl refl
  after-err (some flash_user_limit) e h = inl refl
  after-err (some flash_ok) e h = closed-err true e h
  after-err (some flash_skipped) e h = closed-err false e h
  after-err none e h = closed-err false e h

module _ (env : FlashEnv) (user activity_id : ℕ) (db : Db) (keys : FlashKeys) where
  -- What a successful purchase has been through.
  pub record Won (db' : Db) (order : RedeemOrder) : Type 0 where
    pub activity : ShopFlashActivity
    pub admitted : flash_admit env activity_id ≡ ok activity
    pub paid : FlashPaid env user activity_id activity db db' order

  ok-at :
      (r : Result ShopFlashActivity) (order : RedeemOrder)
      → flash_admit env activity_id ≡ r
      → (flash_redeem env user activity_id db keys).result ≡ ok order
      → Won (flash_redeem env user activity_id db keys).db order
  unfolding flash_redeem flash_sell
  ok-at (ok act) order a h = record {
    activity = act;
    admitted = a;
    paid =
        rw (a, flash_redeem)
          (after-ok env user activity_id act db _ _ order (rw (a, flash_redeem) at h));
  }
  ok-at (err x) order a h = absurd (let h' = rw (a, flash_redeem) at h in cc)

  pub flash_redeem-Won :
      (order : RedeemOrder)
      → (flash_redeem env user activity_id db keys).result ≡ ok order
      → Won (flash_redeem env user activity_id db keys).db order
  flash_redeem-Won order h = ok-at _ order refl h

  err-at :
      (r : Result ShopFlashActivity) (e : ShopError)
      → flash_admit env activity_id ≡ r
      → (flash_redeem env user activity_id db keys).result ≡ err e
      → FlashFailedAs db
          (flash_redeem env user activity_id db keys)
          (flash_redeem (flash_answered env) user activity_id db keys)
  unfolding flash_redeem flash_sell
  err-at (ok act) e a h =
      rw (a, flash_redeem) (after-err env user activity_id act db _ _ e (rw (a, flash_redeem) at h))
  err-at (err x) e a h = rw (a, flash_redeem) (inl refl)

  -- A failed purchase leaves the tables as they were, or its commit took effect all the same.
  pub flash_redeem-err :
      (e : ShopError)
      → (flash_redeem env user activity_id db keys).result ≡ err e
      → FlashFailedAs db
          (flash_redeem env user activity_id db keys)
          (flash_redeem (flash_answered env) user activity_id db keys)
  flash_redeem-err e h = err-at _ e refl h
