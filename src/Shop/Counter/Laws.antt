-- ===== src/Shop/Counter/Laws.antt =====
-- The Redis scripts of internal/cache/manager.go, taken together: a release undoes an acquisition.
use hc_framework_go.Prelude.{ℕ, ◌≡◌, refl, false, Option, none, some, arith, leb, if◌then◌else◌}
use hc_framework_go.Shop.Counter.{
  Cell, with_l2, seeded, try_acquire_redeem, redeem_ok, release_redeem, FlashKeys,
  try_acquire_flash_sale, try_acquire_flash_sale_script, release_flash_sale_script, flash_ok,
  release_flash_sale,
}

-- A place that is acquired and released again leaves the counter as the first look at it made it.
pub release-acquire_redeem :
    (seed : ℕ) (key : Option Cell)
    → (try_acquire_redeem with_l2 false seed key).1 ≡ some redeem_ok
    → release_redeem with_l2 false (try_acquire_redeem with_l2 false seed key).0
      ≡ some (seeded seed key)
unfolding try_acquire_redeem release_redeem
release-acquire_redeem seed none h = ground arith
release-acquire_redeem seed (some c) h = ground arith

script-stock :
    (limit_qty user per_limit : ℕ) (keys : FlashKeys) (key : Option Cell)
    → keys.stock ≡ key
    → (try_acquire_flash_sale_script limit_qty user per_limit keys).1 ≡ flash_ok
    → (release_flash_sale_script user
        (try_acquire_flash_sale_script limit_qty user per_limit keys).0).stock
      ≡ some (seeded limit_qty keys.stock)
unfolding try_acquire_flash_sale_script release_flash_sale_script
script-stock limit_qty user per_limit keys none e h = ground arith
script-stock limit_qty user per_limit keys (some c) e h = ground arith

script-users :
    (limit_qty user per_limit : ℕ) (keys : FlashKeys) (u : ℕ)
    → (try_acquire_flash_sale_script limit_qty user per_limit keys).1 ≡ flash_ok
    → (release_flash_sale_script user
          (try_acquire_flash_sale_script limit_qty user per_limit keys).0).users
        u
      ≡ keys.users u
unfolding try_acquire_flash_sale_script release_flash_sale_script
script-users limit_qty user per_limit keys u h = ground arith

-- The same of a flash sale, where the user's own count goes back too, and no other user's moves.
pub release-acquire_flash_sale :
    (limit_qty user per_user : ℕ) (keys : FlashKeys)
    → (try_acquire_flash_sale with_l2 false limit_qty user per_user keys).1 ≡ some flash_ok
    → let after =
        release_flash_sale with_l2 false user
          (try_acquire_flash_sale with_l2 false limit_qty user per_user keys).0 in
      (after.stock ≡ some (seeded limit_qty keys.stock)) × ((u : ℕ) → after.users u ≡ keys.users u)
unfolding try_acquire_flash_sale release_flash_sale
release-acquire_flash_sale limit_qty user per_user keys h = (
  script-stock limit_qty user per keys keys.stock refl ok,
  λ u. script-users limit_qty user per keys u ok,
)
  where
    per : ℕ
    per = if leb per_user 0 then 1 else per_user

    ok : (try_acquire_flash_sale_script limit_qty user per keys).1 ≡ flash_ok
    ok = cc
