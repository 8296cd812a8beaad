-- ===== src/Paging/Lists.antt =====
-- Lists of rows that are cut to pages, for the queries of internal/repository.
use hc_framework_go.Prelude.{
  ℕ, zero, suc, ◌+◌, ◌≤◌, ◌≡◌, refl, ◌∙◌, ap, Bool, true, ◌&&◌, List, [], ◌∷◌, length, take, drop,
  select, All, Bool-cases, inl, inr, arith,
}
use hc_framework_go.Paging.{insert_desc, order_desc}

module _ {A : Type 0} where
  pub take-all : (n : ℕ) (xs : List A) → length xs ≤ n → take n xs ≡ xs
  take-all zero [] h = refl
  take-all zero (x ∷ xs) h = absurd (omega (arith, h))
  take-all (suc n) [] h = refl
  take-all (suc n) (x ∷ xs) h = ap (λ l. x ∷ l) (take-all n xs (omega (arith, h)))

  pub take-take : (n : ℕ) (xs : List A) → take n (take (suc n) xs) ≡ take n xs
  take-take zero xs = refl
  take-take (suc n) [] = refl
  take-take (suc n) (x ∷ xs) = ap (λ l. x ∷ l) (take-take n xs)

  pub length-drop : (n : ℕ) (xs : List A) → n ≤ length xs → length (drop n xs) + n ≡ length xs
  length-drop zero xs h = omega arith
  length-drop (suc n) [] h = absurd (omega (arith, h))
  length-drop (suc n) (x ∷ xs) h = omega (arith, length-drop n xs (omega (arith, h)))

  pub select-and :
      (p q : A → Bool) (xs : List A) → select (λ x. p x && q x) xs ≡ select q (select p xs)
  select-and p q [] = refl
  select-and p q (x ∷ xs) =
      rw (select-and p q xs)
        (elim (Bool-cases (p x)) [ inl hit ↦ rw hit refl | inr miss ↦ rw miss refl ])

  -- A stricter test may be made of what passed a weaker one.
  pub select-narrow :
      (p q : A → Bool) (xs : List A)
      → ((x : A) → p x ≡ true → q x ≡ true)
      → select p (select q xs) ≡ select p xs
  select-narrow p q [] h = refl
  select-narrow p q (x ∷ xs) h = elim (Bool-cases (p x)) [
    | inl hit ↦ rw (h x hit, hit, select-narrow p q xs h) refl
    | inr miss ↦ elim (Bool-cases (q x)) [
      | inl also ↦ rw (also, miss) (select-narrow p q xs h)
      | inr not ↦ rw (not, miss) (select-narrow p q xs h)
    ]
  ]

  pub select-same :
      (p q : A → Bool) (xs : List A) → ((x : A) → p x ≡ q x) → select p xs ≡ select q xs
  select-same p q [] h = refl
  select-same p q (x ∷ xs) h = rw (h x, select-same p q xs h) refl

  pub select-true : (xs : List A) → select (λ x. true) xs ≡ xs
  select-true [] = refl
  select-true (x ∷ xs) = ap (λ l. x ∷ l) (select-true xs)

  pub All-passed : (q : A → Bool) (xs : List A) → All (λ x. q x ≡ true) (select q xs)
  All-passed q [] = tt
  All-passed q (x ∷ xs) = elim (Bool-cases (q x)) [
    | inl hit ↦ rw hit (hit, All-passed q xs)
    | inr miss ↦ rw miss (All-passed q xs)
  ]

  pub length-insert_desc :
      (id : A → ℕ) (x : A) (ys : List A) → length (insert_desc id x ys) ≡ suc (length ys)
  length-insert_desc id x [] = refl
  length-insert_desc id x (y ∷ ys) = ground (arith, length-insert_desc id x ys)

  pub length-order_desc : (id : A → ℕ) (xs : List A) → length (order_desc id xs) ≡ length xs
  length-order_desc id [] = refl
  length-order_desc id (x ∷ xs) =
      length-insert_desc id x (order_desc id xs) ∙ ap suc (length-order_desc id xs)
