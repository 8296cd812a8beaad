-- ===== src/Paging/Sorted.antt =====
-- Rows by descending ids, the order of the queries of `FindOrders` and `FindRecords` in
-- internal/repository.
use hc_framework_go.Prelude.{
  ℕ, zero, suc, ◌<◌, ◌≡◌, refl, Bool, true, false, List, [], ◌∷◌, ltb, ◌==◌, if◌then◌else◌, length,
  drop, select, All, All-map, Bool-cases, inl, inr, arith,
}
use hc_framework_go.Paging.{id_at, insert_desc, order_desc}

module _ {A : Type 0} (id : A → ℕ) where
  -- Each row has a greater id than all behind it.
  abbrev pub Desc : List A → Type 0
  Desc [] = Unit
  Desc (x ∷ xs) = All (λ y. id y < id x) xs × Desc xs

  -- The ids are a key.
  abbrev pub Distinct : List A → Type 0
  Distinct [] = Unit
  Distinct (x ∷ xs) = All (λ y. (id y == id x) ≡ false) xs × Distinct xs

  All-insert_desc :
      (P : A → Type 0) (x : A) (ys : List A) → P x → All P ys → All P (insert_desc id x ys)
  All-insert_desc P x [] px ps = (px, tt)
  All-insert_desc P x (y ∷ ys) px (py, ps) = elim (Bool-cases (ltb (id y) (id x))) [
    | inl less ↦ rw less (px, (py, ps))
    | inr more ↦ rw more (py, All-insert_desc P x ys px ps)
  ]

  insert_desc-Desc :
      (x : A) (ys : List A)
      → All (λ y. (id y == id x) ≡ false) ys
      → Desc ys
      → Desc (insert_desc id x ys)
  insert_desc-Desc x [] other d = (tt, tt)
  insert_desc-Desc x (y ∷ ys) (o, other) (below, d) = elim (Bool-cases (ltb (id y) (id x))) [
    | inl less ↦
        let y_lt : id y < id x = ground (arith, less) in
        rw less ((y_lt, All-map ys (λ z h. omega (arith, h, y_lt)) below), (below, d))
    | inr more ↦
        rw more
          (All-insert_desc _ x ys (ground (arith, more, o)) below, insert_desc-Desc x ys other d)
  ]

  pub All-order_desc : (P : A → Type 0) (xs : List A) → All P xs → All P (order_desc id xs)
  All-order_desc P [] ps = tt
  All-order_desc P (x ∷ xs) (p, ps) =
      All-insert_desc P x (order_desc id xs) p (All-order_desc P xs ps)

  pub order_desc-Desc : (xs : List A) → Distinct xs → Desc (order_desc id xs)
  order_desc-Desc [] k = tt
  order_desc-Desc (x ∷ xs) (other, k) =
      insert_desc-Desc x (order_desc id xs) (All-order_desc _ xs other) (order_desc-Desc xs k)

  pub All-select : (P : A → Type 0) (p : A → Bool) (xs : List A) → All P xs → All P (select p xs)
  All-select P p [] ps = tt
  All-select P p (x ∷ xs) (px, ps) = elim (Bool-cases (p x)) [
    | inl hit ↦ rw hit (px, All-select P p xs ps)
    | inr miss ↦ rw miss (All-select P p xs ps)
  ]

  pub select-Desc : (p : A → Bool) (xs : List A) → Desc xs → Desc (select p xs)
  select-Desc p [] d = tt
  select-Desc p (x ∷ xs) (below, d) = elim (Bool-cases (p x)) [
    | inl hit ↦ rw hit (All-select _ p xs below, select-Desc p xs d)
    | inr miss ↦ rw miss (select-Desc p xs d)
  ]

  pub select-Distinct : (p : A → Bool) (xs : List A) → Distinct xs → Distinct (select p xs)
  select-Distinct p [] d = tt
  select-Distinct p (x ∷ xs) (other, d) = elim (Bool-cases (p x)) [
    | inl hit ↦ rw hit (All-select _ p xs other, select-Distinct p xs d)
    | inr miss ↦ rw miss (select-Distinct p xs d)
  ]

  -- A row goes in front of smaller ones.
  insert_desc-front :
      (x : A) (ys : List A) → All (λ y. id y < id x) ys → insert_desc id x ys ≡ x ∷ ys
  insert_desc-front x [] below = refl
  insert_desc-front x (y ∷ ys) (b, below) =
      let less : ltb (id y) (id x) ≡ true = ground (arith, b) in rw less refl

  select-insert_desc :
      (p : A → Bool) (x : A) (ys : List A)
      → Desc ys
      → select p (insert_desc id x ys)
        ≡ (if p x then insert_desc id x (select p ys) else select p ys)
  select-insert_desc p x [] d = refl
  select-insert_desc p x (y ∷ ys) (below, d) = elim (Bool-cases (ltb (id y) (id x))) [
    | inl less ↦
        let y_lt : id y < id x = ground (arith, less) in
        let front : insert_desc id x (select p (y ∷ ys)) ≡ x ∷ select p (y ∷ ys) =
          insert_desc-front x (select p (y ∷ ys))
            (All-select _ p (y ∷ ys) (y_lt, All-map ys (λ z h. omega (arith, h, y_lt)) below)) in
        rw (less, front) refl
    | inr more ↦
        rw (more, select-insert_desc p x ys d)
          (elim (Bool-cases (p y)) [
            | inl hit ↦
                rw (hit, more)
                  (elim (Bool-cases (p x)) [ inl also ↦ rw also refl | inr not ↦ rw not refl ])
            | inr miss ↦ rw miss refl
          ])
  ]

  -- Ordering and selecting may change places.
  pub select-order_desc :
      (p : A → Bool) (xs : List A)
      → Distinct xs
      → select p (order_desc id xs) ≡ order_desc id (select p xs)
  select-order_desc p [] k = refl
  select-order_desc p (x ∷ xs) (other, k) =
      rw
        (select-insert_desc p x (order_desc id xs) (order_desc-Desc xs k), select-order_desc p xs k)
        (elim (Bool-cases (p x)) [ inl hit ↦ rw hit refl | inr miss ↦ rw miss refl ])

  select-all : (p : A → Bool) (xs : List A) → All (λ x. p x ≡ true) xs → select p xs ≡ xs
  select-all p [] ps = refl
  select-all p (x ∷ xs) (px, ps) = rw (px, select-all p xs ps) refl

  pub id_at-All :
      (P : ℕ → Type 0) (n : ℕ) (xs : List A)
      → n < length xs
      → All (λ x. P (id x)) xs
      → P (id_at id n xs)
  id_at-All P n [] h ps = absurd (omega (arith, h))
  id_at-All P zero (x ∷ xs) h (p, ps) = p
  id_at-All P (suc n) (x ∷ xs) h (p, ps) = id_at-All P n xs (omega (arith, h)) ps

  -- The rows behind the id at a place are those at the later places.
  pub select-drop :
      (n : ℕ) (xs : List A)
      → n < length xs
      → Desc xs
      → select (λ r. ltb (id r) (id_at id n xs)) xs ≡ drop (suc n) xs
  select-drop n [] h d = absurd (omega (arith, h))
  select-drop zero (x ∷ xs) h (below, d) =
      let same : ltb (id x) (id x) ≡ false = ground arith in
      rw same (select-all _ xs (All-map xs (λ z b. ground (arith, b)) below))
  select-drop (suc n) (x ∷ xs) h (below, d) =
      let lower : id_at id n xs < id x = id_at-All (λ i. i < id x) n xs (omega (arith, h)) below in
      let past : ltb (id x) (id_at id n xs) ≡ false = ground (arith, lower) in
      rw past (select-drop n xs (omega (arith, h)) d)
