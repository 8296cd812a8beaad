-- ===== src/Shop/Stock/Deduct.antt =====
-- What `DeductStock` of internal/repository/shop_repo.go does to the rows: it takes the quantity
-- from one row, or it finds that no row of the item has enough.
use native.Mathlib.Nat.{mod-eq_of_lt, add-mod_right}
use hc_framework_go.Prelude.{
  ℕ, zero, suc, ◌+◌, ◌-◌, ◌%◌, ◌≤◌, ◌<◌, ◌≡◌, sym, ◌∙◌, ◌⊎◌, inl, inr, Bool, true, false, Option,
  none, some, List, arith, ltb, ◌==◌, Bool-cases, ==_iff, ltb→lt, subst,
}
use hc_framework_go.Shop.Model.{ShopItemStockBucket}
use hc_framework_go.Shop.Stock.{bucket_count, bucket_sum, update_bucket, try_buckets}
use hc_framework_go.Shop.Stock.Total.{
  key_count, IsKeyed, affected-le, update-key_count, update-bucket_count, update-sum, update-sum_ne,
  fits, fits_of_affected,
}

-- What a successful write does: `q` leaves the item, no other item and no key changes.
pub record Took (id q : ℕ) (rows rows' : List ShopItemStockBucket) : Type 0 where
  pub taken : bucket_sum id rows' + q ≡ bucket_sum id rows
  pub others : (j : ℕ) → (j == id) ≡ false → bucket_sum j rows' ≡ bucket_sum j rows
  pub keys : (j c : ℕ) → key_count j c rows' ≡ key_count j c rows
  pub counts : (j : ℕ) → bucket_count j rows' ≡ bucket_count j rows

one-affected :
    (id b q : ℕ) (rows : List ShopItemStockBucket)
    → IsKeyed rows
    → ltb 0 (update_bucket id b q rows).1 ≡ true
    → (update_bucket id b q rows).1 ≡ 1
one-affected id b q rows k h = ground (arith, affected-le id b q rows, k id b)

update-Took :
    (id b q : ℕ) (rows : List ShopItemStockBucket)
    → IsKeyed rows
    → ltb 0 (update_bucket id b q rows).1 ≡ true
    → Took id q rows (update_bucket id b q rows).0
update-Took id b q rows k h = record {
  taken = grind (arith, one-affected id b q rows k h, update-sum id b q rows);
  others = λ j. update-sum_ne id b q j rows;
  keys = λ j c. update-key_count id b q j c rows;
  counts = λ j. update-bucket_count id b q j rows;
}

abbrev TryResult : Type 0
TryResult = Option (Option (List ShopItemStockBucket))

-- A result of the loop over the buckets, by its cases.
abbrev Tried : ℕ → ℕ → List ShopItemStockBucket → (ℕ → Type 0) → TryResult → Type 0
Tried id q rows P none = Unit
Tried id q rows P (some none) = (b : ℕ) → P b → (update_bucket id b q rows).1 ≡ 0
Tried id q rows P (some (some rows')) = Took id q rows rows'

Tried-weaken :
    (id q : ℕ) (rows : List ShopItemStockBucket) (P Q : ℕ → Type 0) (r : TryResult)
    → ((b : ℕ) → Q b → P b ⊎ ((update_bucket id b q rows).1 ≡ 0))
    → Tried id q rows P r
    → Tried id q rows Q r
Tried-weaken id q rows P Q none f t = tt
Tried-weaken id q rows P Q (some none) f t = λ b h. elim (f b h) [ inl p ↦ t b p | inr e ↦ e ]
Tried-weaken id q rows P Q (some (some rows')) f t = t

-- The bucket that an attempt `a` with `n - left ≤ a < n` reads.
record Reads (primary n left b : ℕ) : Type 0 where
  attempt : ℕ
  late : n ≤ attempt + left
  early : attempt < n
  bucket_is : b ≡ (primary + attempt) % n

next_read :
    (id q primary n left : ℕ) (rows : List ShopItemStockBucket)
    → left < n
    → (update_bucket id ((primary + (n - suc left)) % n) q rows).1 ≡ 0
    → (b : ℕ) → Reads primary n (suc left) b
    → Reads primary n left b ⊎ ((update_bucket id b q rows).1 ≡ 0)
next_read id q primary n left rows l z b r = elim (Bool-cases (r.attempt == (n - suc left))) [
  | inl e ↦ inr (
      let same : r.attempt ≡ n - suc left = (==_iff r.attempt (n - suc left)).0 e in
      rw r.bucket_is (rw same z))
  | inr e ↦ inl (record {
    attempt = r.attempt;
    late = ground arith;
    early = r.early;
    bucket_is = r.bucket_is;
  })
]

-- What the loop returns, whatever fails.
tried :
    (fails : ℕ → Bool) (id q primary n left : ℕ) (rows : List ShopItemStockBucket)
    → IsKeyed rows
    → left ≤ n
    → Tried id q rows (Reads primary n left) (try_buckets fails id q primary n left rows)
unfolding try_buckets
tried fails id q primary n zero rows k l = λ b r. absurd (omega (arith, r.late, r.early))
tried fails id q primary n (suc left) rows k l = elim (Bool-cases (fails (n - suc left))) [
  | inl bad ↦ rw (bad, try_buckets) tt
  | inr good ↦
      elim (Bool-cases (ltb 0 (update_bucket id ((primary + (n - suc left)) % n) q rows).1)) [
        | inl hit ↦
            rw (good, hit, try_buckets)
              (update-Took id ((primary + (n - suc left)) % n) q rows k hit)
        | inr miss ↦
            rw (good, miss, try_buckets)
              (Tried-weaken id q rows (Reads primary n left) (Reads primary n (suc left))
                (try_buckets fails id q primary n left rows)
                (next_read id q primary n left rows l (ground arith))
                (tried fails id q primary n left rows k (omega arith)))
      ]
]

-- Every bucket of the item is read by some attempt, whatever bucket comes first.
covers : (primary n b : ℕ) → primary < n → b < n → Reads primary n n b
covers primary n b p h = elim (Bool-cases (ltb b primary)) [
  | inl below ↦ record {
    attempt = b + n - primary;
    late = omega arith;
    early = ground arith;
    bucket_is =
        let e : primary + (b + n - primary) ≡ b + n = ground arith in
        rw e (sym (add-mod_right b n ∙ mod-eq_of_lt h));
  }
  | inr above ↦ record {
    attempt = b - primary;
    late = omega arith;
    early = omega arith;
    bucket_is = let e : primary + (b - primary) ≡ b = ground arith in rw e (sym (mod-eq_of_lt h));
  }
]

no-bucket :
    (id b q : ℕ) (rows : List ShopItemStockBucket)
    → IsKeyed rows
    → bucket_count id rows ≤ b
    → (update_bucket id b q rows).1 ≡ 0
no-bucket id b q rows k h = ground (arith, affected-le id b q rows, k id b)

-- A loop that finds a row has taken `q` from it.
pub found :
    (fails : ℕ → Bool) (id q primary n : ℕ) (rows rows' : List ShopItemStockBucket)
    → IsKeyed rows
    → try_buckets fails id q primary n n rows ≡ some (some rows')
    → Took id q rows rows'
found fails id q primary n rows rows' k e =
    subst (Tried id q rows (Reads primary n n)) e
      (tried fails id q primary n n rows k (omega arith))

-- A loop that finds nothing has shown that no row of the item has enough.
pub not_found :
    (fails : ℕ → Bool) (id q primary : ℕ) (rows : List ShopItemStockBucket)
    → IsKeyed rows
    → primary < bucket_count id rows
    → try_buckets fails id q primary (bucket_count id rows) (bucket_count id rows) rows ≡ some none
    → fits id q rows ≡ 0
not_found fails id q primary rows k p e = fits_of_affected id q rows at_bucket
  where
    n : ℕ
    n = bucket_count id rows

    shown : Tried id q rows (Reads primary n n) (some none)
    shown =
        subst (Tried id q rows (Reads primary n n)) e (tried fails id q primary n n rows k le_self)
      where
        le_self : n ≤ n
        le_self = omega arith

    at_bucket : (b : ℕ) → (update_bucket id b q rows).1 ≡ 0
    at_bucket b = elim (Bool-cases (ltb b n)) [
      | inl inside ↦ shown b (covers primary n b p (ltb→lt b n inside))
      | inr outside ↦ no-bucket id b q rows k (ground arith)
    ]
