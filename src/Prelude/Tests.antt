-- ===== src/Prelude/Tests.antt =====
-- Boolean tests on the native numbers, the conditional, and a total map that is changed at a key.
use Prim.Native.Nat.{ℕ, ◌+◌, ◌≤◌, ◌<◌, compare, Ordering}
use mathlib.Core.Path.{◌≡◌, refl}
use mathlib.Core.Logic.{◌↔◌, ◌⊎◌, inl, inr}
use mathlib.Core.Bool.{Bool, true, false}
use mathlib.Core.Option.{Option, none, some}
use native.Mathlib.Omega.{arith}

abbrev pub ltb : ℕ → ℕ → Bool
ltb a b = elim (compare a b) [ Ordering.lt ↦ true | _ ↦ false ]

abbrev pub leb : ℕ → ℕ → Bool
leb a b = elim (compare a b) [ Ordering.gt ↦ false | _ ↦ true ]

infix 50 ◌==◌
abbrev pub ◌==◌ : ℕ → ℕ → Bool
a == b = elim (compare a b) [ Ordering.eq ↦ true | _ ↦ false ]

infix 1 if◌then◌else◌
abbrev pub if◌then◌else◌ {ℓ} : {A : Type ℓ} → Bool → A → A → A
if true then x else y = x
if false then x else y = y

pub ltb→lt : (a b : ℕ) → ltb a b ≡ true → a < b
ltb→lt a b h = ground arith

pub lt→ltb : (a b : ℕ) → a < b → ltb a b ≡ true
lt→ltb a b h = ground arith

pub leb→le : (a b : ℕ) → leb a b ≡ true → a ≤ b
leb→le a b h = ground arith

pub ==_iff : (a b : ℕ) → ((a == b) ≡ true) ↔ (a ≡ b)
==_iff a b = ground arith

pub ==_refl : (a : ℕ) → (a == a) ≡ true
==_refl a = ground arith

pub Bool-cases : (b : Bool) → (b ≡ true) ⊎ (b ≡ false)
Bool-cases true = inl refl
Bool-cases false = inr refl

pub Option-cases {ℓ} : {A : Type ℓ} (o : Option A) → (o ≡ none) ⊎ ((a : A) × (o ≡ some a))
Option-cases none = inl refl
Option-cases (some a) = inr (a, refl)

abbrev pub or_else {ℓ} : {A : Type ℓ} → Option A → A → A
or_else none d = d
or_else (some a) d = a

-- `update f k v` is `f` with the value `v` at `k`.
abbrev pub update {ℓ} : {A : Type ℓ} → (ℕ → A) → ℕ → A → ℕ → A
update f k v j = if j == k then v else f j

pub update_self {ℓ} : {A : Type ℓ} (f : ℕ → A) (k : ℕ) (v : A) → update f k v k ≡ v
update_self f k v = ground (arith, ==_refl k)

pub update_ne {ℓ} :
    {A : Type ℓ} (f : ℕ → A) (k j : ℕ) (v : A) → (j == k) ≡ false → update f k v j ≡ f j
update_ne f k j v h = ground arith

-- `q` leaves the entry `i` of a table of counts, and no other entry changes.
pub moved_of :
    (before after : ℕ → ℕ) (i q : ℕ)
    → after i + q ≡ before i
    → ((j : ℕ) → (j == i) ≡ false → after j ≡ before j)
    → (j : ℕ) → after j + (if j == i then q else 0) ≡ before j
moved_of before after i q t o j = elim (Bool-cases (j == i)) [
  | inl hit ↦ rw hit (rw ((==_iff j i).0 hit) t)
  | inr miss ↦ rw miss (omega (arith, o j miss))
]

-- So a count of what left, kept beside the table, makes up the same sum.
pub keep_count :
    (before after left start : ℕ → ℕ) (i q : ℕ)
    → ((j : ℕ) → after j + (if j == i then q else 0) ≡ before j)
    → ((j : ℕ) → before j + left j ≡ start j)
    → (j : ℕ) → after j + update left i (left i + q) j ≡ start j
keep_count before after left start i q m b j = elim (Bool-cases (j == i)) [
  | inl hit ↦ rw hit (ground (arith, (==_iff j i).0 hit, m j, b j))
  | inr miss ↦ rw miss (ground (arith, m j, b j))
]
