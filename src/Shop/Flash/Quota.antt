-- ===== src/Shop/Flash/Quota.antt =====
-- The quota of a timed sale: `AcquireFlashQuota` of internal/repository/shop_repo.go.
use hc_framework_go.Prelude.{
  ℕ, ◌+◌, ◌≤◌, ◌≡◌, refl, Bool, List, [], ◌∷◌, arith, ◌==◌, if◌then◌else◌, count, All, ok,
}
use hc_framework_go.Shop.Model.{ShopFlashActivity}
use hc_framework_go.Shop.Flash.{take_quota, acquire_flash_quota}

-- How often an id occurs; the primary key allows once.
abbrev pub activity_count : ℕ → List ShopFlashActivity → ℕ
activity_count id = count (λ a. a.id == id)

abbrev pub sold_of : ℕ → List ShopFlashActivity → ℕ
sold_of id [] = 0
sold_of id (a ∷ rest) = (if a.id == id then a.sold_qty else 0) + sold_of id rest

abbrev pub limit_of : ℕ → List ShopFlashActivity → ℕ
limit_of id [] = 0
limit_of id (a ∷ rest) = (if a.id == id then a.limit_qty else 0) + limit_of id rest

abbrev pub WithinLimit : ShopFlashActivity → Type 0
WithinLimit a = a.sold_qty ≤ a.limit_qty

module _ (id j : ℕ) where
  quota-sold :
      (acts : List ShopFlashActivity)
      → sold_of j (take_quota id acts).0
        ≡ sold_of j acts + (if j == id then (take_quota id acts).1 else 0)
  unfolding take_quota
  quota-sold [] = ground arith
  quota-sold (a ∷ rest) = ground (arith, quota-sold rest)

  quota-limit :
      (acts : List ShopFlashActivity) → limit_of j (take_quota id acts).0 ≡ limit_of j acts
  unfolding take_quota
  quota-limit [] = refl
  quota-limit (a ∷ rest) = ground (arith, quota-limit rest)

  quota-ids :
      (acts : List ShopFlashActivity)
      → activity_count j (take_quota id acts).0 ≡ activity_count j acts
  unfolding take_quota
  quota-ids [] = refl
  quota-ids (a ∷ rest) = ground (arith, quota-ids rest)

quota-le-count :
    (id : ℕ) (acts : List ShopFlashActivity) → (take_quota id acts).1 ≤ activity_count id acts
unfolding take_quota
quota-le-count id [] = omega arith
quota-le-count id (a ∷ rest) = ground (arith, quota-le-count id rest)

quota-WithinLimit :
    (id : ℕ) (acts : List ShopFlashActivity)
    → All WithinLimit acts
    → All WithinLimit (take_quota id acts).0
unfolding take_quota
quota-WithinLimit id [] w = tt
quota-WithinLimit id (a ∷ rest) (w, ws) = ground (arith, quota-WithinLimit id rest ws)

pub sold-le-limit :
    (id : ℕ) (acts : List ShopFlashActivity)
    → All WithinLimit acts
    → sold_of id acts ≤ limit_of id acts
sold-le-limit id [] w = omega arith
sold-le-limit id (a ∷ rest) (w, ws) = ground (arith, sold-le-limit id rest ws)

-- The activities after one place was taken.
pub record QuotaTaken (id : ℕ) (acts acts' : List ShopFlashActivity) : Type 0 where
  pub sold_grows : (j : ℕ) → sold_of j acts' ≡ sold_of j acts + (if j == id then 1 else 0)
  pub limits_kept : (j : ℕ) → limit_of j acts' ≡ limit_of j acts
  pub ids_kept : (j : ℕ) → activity_count j acts' ≡ activity_count j acts
  pub within : All WithinLimit acts'

-- Where ids are unique, a granted quota raised the count of that activity by one, within its limit,
-- and left every other as it was.
pub acquire_flash_quota-QuotaTaken :
    (fails : Bool) (id : ℕ) (acts acts' : List ShopFlashActivity)
    → activity_count id acts ≤ 1
    → All WithinLimit acts
    → acquire_flash_quota fails id acts ≡ ok acts'
    → QuotaTaken id acts acts'
unfolding acquire_flash_quota
acquire_flash_quota-QuotaTaken fails id acts acts' u w h = rw (taken.0) (record {
  sold_grows = λ j. ground (arith, quota-sold id j acts, taken.1);
  limits_kept = λ j. quota-limit id j acts;
  ids_kept = λ j. quota-ids id j acts;
  within = quota-WithinLimit id acts w;
})
  where
    taken : (acts' ≡ (take_quota id acts).0) × ((take_quota id acts).1 ≡ 1)
    taken = (ground arith, ground (arith, quota-le-count id acts))
