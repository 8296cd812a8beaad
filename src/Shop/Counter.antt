-- ===== src/Shop/Counter.antt =====
-- The Redis counters in front of the database: internal/cache/manager.go, the scripts
-- `tryAcquireRedeemScript`, `releaseRedeemScript`, `tryAcquireFlashSaleScript` and
-- `releaseFlashSaleScript`, and the methods that run them.
-- Redis runs a script as one step. A key is `none` or a cell; that a key expires is a step of the
-- environment, which sets it to `none`.
pub mod Laws
use hc_framework_go.Prelude.{
  ℕ, zero, suc, ◌+◌, ◌-◌, Bool, true, false, ◌&&◌, not, Option, none, some, ltb, leb, ◌==◌,
  if◌then◌else◌, update, or_else,
}

-- `expires` says that the key has a time to live.
pub record Cell : Type 0 where
  pub value : ℕ
  pub expires : Bool

-- `no_manager` is a nil `*cache.Manager`, `no_l2` a manager with no Redis behind it.
pub data CacheMode : Type 0 where
  no_manager no_l2 with_l2 : CacheMode

abbrev pub has_l2 : CacheMode → Bool
has_l2 with_l2 = true
has_l2 _ = false

-- GET key or '0'
abbrev pub value_of : Option Cell → ℕ
value_of none = 0
value_of (some c) = c.value

-- EXISTS, SET, EXPIRE: the key, made with the seed where it was missing.
abbrev pub seeded : ℕ → Option Cell → Cell
seeded seed none = record { value = seed; expires = true }
seeded seed (some c) = c

-- The script's number: `none` for -1, `some n` for the n that are left.
unfoldable pub try_acquire_redeem_script : ℕ → Option Cell → Cell × Option ℕ
try_acquire_redeem_script seed key =
    let c = seeded seed key in
    if leb c.value 0 then (c, none) else (record c { value = c.value - 1 }, some (c.value - 1))

pub data RedeemAcquireResult : Type 0 where
  redeem_ok redeem_sold_out redeem_skipped : RedeemAcquireResult

redeem_result : Option ℕ → RedeemAcquireResult
redeem_result none = redeem_sold_out
redeem_result (some n) = redeem_ok

-- `fails` is an error of the script's run: then the key is as it was and the result is an error,
-- which is `none`.
unfoldable pub try_acquire_redeem :
    CacheMode → Bool → ℕ → Option Cell → Option Cell × Option RedeemAcquireResult
unfolding try_acquire_redeem_script redeem_result
try_acquire_redeem mode fails seed key =
    if not (has_l2 mode)
    then (key, some redeem_skipped)
    else if fails
    then (key, none)
    else (let (c, n) = try_acquire_redeem_script seed key in (some c, some (redeem_result n)))

-- INCR makes a missing key, with no time to live.
abbrev pub incr : Option Cell → Cell
incr none = record { value = 1; expires = false }
incr (some c) = record c { value = c.value + 1 }

unfoldable pub release_redeem : CacheMode → Bool → Option Cell → Option Cell
release_redeem mode fails key =
    if not (has_l2 mode) then key else if fails then key else some (incr key)

unfoldable pub reconcile_redeem : CacheMode → Bool → ℕ → Option Cell → Option Cell
reconcile_redeem mode fails remaining key =
    if not (has_l2 mode)
    then key
    else if fails
    then key
    else some (record { value = remaining; expires = true })

unfoldable pub is_redeem_sold_out : CacheMode → Bool → Option Cell → Bool
is_redeem_sold_out mode fails none = false
is_redeem_sold_out mode fails (some c) = has_l2 mode && (not fails && leb c.value 0)

-- The counter of a flash sale and the hash of what each user took.
pub record FlashKeys : Type 0 where
  pub stock : Option Cell
  pub users : ℕ → ℕ
  pub users_expire : Bool

pub data FlashSaleAcquireResult : Type 0 where
  flash_ok flash_sold_out flash_user_limit flash_skipped : FlashSaleAcquireResult

unfoldable pub try_acquire_flash_sale_script :
    ℕ → ℕ → ℕ → FlashKeys → FlashKeys × FlashSaleAcquireResult
try_acquire_flash_sale_script limit_qty user per_limit keys =
    let c = seeded limit_qty keys.stock in
    let k = record keys { stock = some c } in
    if ltb 0 per_limit && leb per_limit (k.users user)
    then (k, flash_user_limit)
    else if leb c.value 0
    then (k, flash_sold_out)
    else (
      record {
        stock = some (record c { value = c.value - 1 });
        users = update k.users user (k.users user + 1);
        users_expire = true;
      },
      flash_ok,
    )

unfoldable pub try_acquire_flash_sale :
    CacheMode → Bool → ℕ → ℕ → ℕ → FlashKeys → FlashKeys × Option FlashSaleAcquireResult
unfolding try_acquire_flash_sale_script
try_acquire_flash_sale mode fails limit_qty user per_user_limit keys =
    if not (has_l2 mode)
    then (keys, some flash_skipped)
    else if fails
    then (keys, none)
    else (let (k, r) =
          try_acquire_flash_sale_script limit_qty user
            (if leb per_user_limit 0 then 1 else per_user_limit) keys in
        (k, some r))

unfoldable pub release_flash_sale_script : ℕ → FlashKeys → FlashKeys
release_flash_sale_script user keys = record keys {
  stock = some (incr keys.stock);
  users =
      if ltb 0 (keys.users user) then update keys.users user (keys.users user - 1) else keys.users;
}

unfoldable pub release_flash_sale : CacheMode → Bool → ℕ → FlashKeys → FlashKeys
unfolding release_flash_sale_script
release_flash_sale mode fails user keys =
    if not (has_l2 mode) then keys else if fails then keys else release_flash_sale_script user keys

unfoldable pub reconcile_flash_sale : CacheMode → Bool → ℕ → FlashKeys → FlashKeys
reconcile_flash_sale mode fails remaining keys =
    if not (has_l2 mode)
    then keys
    else if fails
    then keys
    else record keys { stock = some (record { value = remaining; expires = true }) }
