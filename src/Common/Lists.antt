-- ===== src/Common/Lists.antt =====
-- Tests and folds on lists, and sorted sets of numbers as the code's `BTreeSet` keeps them.
use Prim.Native.Nat.{ℕ, zero, suc, compare, Ordering}
use mathlib.Core.Path.{◌≡◌, refl}
use mathlib.Core.Logic.{◌↔◌, inl, inr}
use mathlib.Core.Bool.{Bool, true, false, ◌&&◌, ◌||◌}
use mathlib.Core.Option.{Option, none, some}
use mathlib.Core.List.{List, [], ◌∷◌, ◌++◌, map}
use native.Mathlib.Omega.{arith}
use rack_ai.Common.Tests.{Bool-cases, ltb, leb, nat_eq, if◌then◌else◌, add64, Eq, ◌==◌}

module _ {ℓ} {A : Type ℓ} where
  abbrev pub length : List A → ℕ
  length [] = 0
  length (x ∷ xs) = suc (length xs)

  abbrev pub any : (A → Bool) → List A → Bool
  any p [] = false
  any p (x ∷ xs) = p x || any p xs

  abbrev pub all : (A → Bool) → List A → Bool
  all p [] = true
  all p (x ∷ xs) = p x && all p xs

  abbrev pub keep : (A → Bool) → List A → List A
  keep p [] = []
  keep p (x ∷ xs) = if p x then x ∷ keep p xs else keep p xs

  abbrev pub find : (A → Bool) → List A → Option A
  find p [] = none
  find p (x ∷ xs) = if p x then some x else find p xs

  abbrev pub All {κ} : (A → Type κ) → List A → Type κ
  All P [] = Unit
  All P (x ∷ xs) = P x × All P xs

-- The number of elements that pass a test.
abbrev pub count_if {ℓ} : {A : Type ℓ} → (A → Bool) → List A → ℕ
count_if p [] = 0
count_if p (x ∷ xs) = if p x then suc (count_if p xs) else count_if p xs

-- The sum of a `u64` iterator.
abbrev pub sum64 : List ℕ → ℕ
sum64 [] = 0
sum64 (x ∷ xs) = add64 x (sum64 xs)

abbrev pub member {ℓ} : {A : Type ℓ} ⦃e : Eq A⦄ → A → List A → Bool
member a [] = false
member a (x ∷ xs) = a == x || member a xs

-- Insertion into an ordered set.
abbrev pub set_insert : ℕ → List ℕ → List ℕ
set_insert a [] = a ∷ []
set_insert a (x ∷ xs) = elim (compare a x) [
  | Ordering.lt ↦ a ∷ x ∷ xs
  | Ordering.eq ↦ x ∷ xs
  | Ordering.gt ↦ x ∷ set_insert a xs
]

pub member-set_insert :
    (b a : ℕ) (xs : List ℕ) → member b (set_insert a xs) ≡ (b == a || member b xs)
member-set_insert b a [] = refl
member-set_insert b a (x ∷ xs) = ground (arith, member-set_insert b a xs)

-- A test that holds of every element holds of a member, and the other way round.
pub all-member :
    (p : ℕ → Bool) (xs : List ℕ) (a : ℕ) → all p xs ≡ true → member a xs ≡ true → p a ≡ true
all-member p [] a h m = cc
all-member p (x ∷ xs) a h m = ground (arith, all-member p xs a)

-- Equality of vectors.
abbrev pub list_beq {ℓ} : {A : Type ℓ} ⦃e : Eq A⦄ → List A → List A → Bool
list_beq [] [] = true
list_beq [] (y ∷ ys) = false
list_beq (x ∷ xs) [] = false
list_beq (x ∷ xs) (y ∷ ys) = x == y && list_beq xs ys

pub list_beq_iff {ℓ} :
    {A : Type ℓ} ⦃e : Eq A⦄ (xs ys : List A) → (list_beq xs ys ≡ true) ↔ (xs ≡ ys)
list_beq_iff [] [] = (λ h. refl, λ h. refl)
list_beq_iff [] (y ∷ ys) = (λ h. cc, λ h. cc)
list_beq_iff (x ∷ xs) [] = (λ h. cc, λ h. cc)
list_beq_iff ⦃e⦄ (x ∷ xs) (y ∷ ys) = (
  λ h. ground (arith, e.beq_iff x y, list_beq_iff xs ys),
  λ h. ground (arith, e.beq_iff x y, list_beq_iff xs ys),
)

instance abbrev pub list_eq {ℓ} : {A : Type ℓ} ⦃e : Eq A⦄ → Eq (List A)
list_eq = record { beq = list_beq; beq_iff = list_beq_iff }

-- The order of the pairs by which the code sorts, and an insertion sort by a key.
abbrev pub pair_leb : ℕ × ℕ → ℕ × ℕ → Bool
pair_leb (a, b) (c, d) = ltb a c || (a == c && leb b d)

module _ {ℓ} {A : Type ℓ} where
  abbrev pub insert_by : (A → ℕ × ℕ) → A → List A → List A
  insert_by key a [] = a ∷ []
  insert_by key a (x ∷ xs) =
      let rest = insert_by key a xs in if pair_leb (key a) (key x) then a ∷ x ∷ xs else x ∷ rest

  abbrev pub sort_by : (A → ℕ × ℕ) → List A → List A
  sort_by key [] = []
  sort_by key (x ∷ xs) = insert_by key x (sort_by key xs)

  abbrev pub take : ℕ → List A → List A
  take zero xs = []
  take (suc n) [] = []
  take (suc n) (x ∷ xs) = x ∷ take n xs

  abbrev pub drop : ℕ → List A → List A
  drop zero xs = xs
  drop (suc n) [] = []
  drop (suc n) (x ∷ xs) = drop n xs

pub any-member :
    (p : ℕ → Bool) (xs : List ℕ) (a : ℕ) → member a xs ≡ true → p a ≡ true → any p xs ≡ true
any-member p [] a m h = cc
any-member p (x ∷ xs) a m h = ground (arith, any-member p xs a)

pub member-tail : (a x : ℕ) (xs : List ℕ) → member a xs ≡ true → member a (x ∷ xs) ≡ true
member-tail a x xs m = ground arith

pub all-of :
    (p : ℕ → Bool) (xs : List ℕ) → ((a : ℕ) → member a xs ≡ true → p a ≡ true) → all p xs ≡ true
all-of p [] h = refl
all-of p (x ∷ xs) h =
    ground (arith, h x (ground arith), all-of p xs (λ a m. h a (member-tail a x xs m)))

-- Membership among the keys of the elements that pass a test.
pub member-keys {ℓ} :
    {A : Type ℓ} (key : A → ℕ) (p : A → Bool) (j : ℕ) (xs : List A)
    → member j (map key (keep p xs)) ≡ any (λ a. key a == j && p a) xs
member-keys key p j [] = refl
member-keys key p j (x ∷ xs) = ground (arith, member-keys key p j xs)

module _ {ℓ κ} {A : Type ℓ} (P : A → Type κ) where
  pub All-keep : (p : A → Bool) (xs : List A) → All P xs → All (λ a. P a × (p a ≡ true)) (keep p xs)
  All-keep p [] h = tt
  All-keep p (x ∷ xs) h = elim (Bool-cases (p x)) [
    | inl e ↦ rw e ((h.0, e), All-keep p xs h.1)
    | inr e ↦ rw e (All-keep p xs h.1)
  ]

  pub All-++ : (xs ys : List A) → All P xs → All P ys → All P (xs ++ ys)
  All-++ [] ys h k = k
  All-++ (x ∷ xs) ys h k = (h.0, All-++ xs ys h.1 k)
