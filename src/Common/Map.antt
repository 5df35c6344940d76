-- ===== src/Common/Map.antt =====
-- A `BTreeMap` whose keys are numbers: an association list in the order of its keys.
use mathlib.Core.Option
use rack_ai.Common.Lists.{any}
use rack_ai.Common.Tests.{if◌then◌else◌, Bool-cases, ◌==◌, nat_eq}
use Prim.Native.Nat.{ℕ, compare, Ordering}
use mathlib.Core.Path.{◌≡◌, refl, subst, subst₂}
use mathlib.Core.Logic.{inl, inr}
use mathlib.Core.Bool.{Bool, true, false, ◌&&◌}
use mathlib.Core.Option.{Option, none, some}
use mathlib.Core.List.{List, [], ◌∷◌}
use native.Mathlib.Omega.{arith}

module _ {ℓ} {V : Type ℓ} where
  unfoldable pub lookup : ℕ → List (ℕ × V) → Option V
  lookup k [] = none
  lookup k ((j, v) ∷ m) = if k == j then some v else lookup k m

  unfoldable pub insert : ℕ → V → List (ℕ × V) → List (ℕ × V)
  insert k v [] = (k, v) ∷ []
  insert k v ((j, w) ∷ m) = elim (compare k j) [
    | Ordering.lt ↦ (k, v) ∷ (j, w) ∷ m
    | Ordering.eq ↦ (k, v) ∷ m
    | Ordering.gt ↦ (j, w) ∷ insert k v m
  ]

  -- `get_mut` and an assignment; a missing key changes nothing.
  unfoldable pub modify : ℕ → (V → V) → List (ℕ × V) → List (ℕ × V)
  modify k f [] = []
  modify k f ((j, v) ∷ m) = (j, if k == j then f v else v) ∷ modify k f m

  unfoldable pub remove : ℕ → List (ℕ × V) → List (ℕ × V)
  remove k [] = []
  remove k ((j, v) ∷ m) = if k == j then remove k m else (j, v) ∷ remove k m

  unfoldable pub retain : (V → Bool) → List (ℕ × V) → List (ℕ × V)
  retain p [] = []
  retain p ((j, v) ∷ m) = if p v then (j, v) ∷ retain p m else retain p m

  -- `for v in values_mut()`.
  unfoldable pub update_all : (V → V) → List (ℕ × V) → List (ℕ × V)
  update_all f [] = []
  update_all f ((j, v) ∷ m) = (j, f v) ∷ update_all f m

  unfoldable pub values : List (ℕ × V) → List V
  values [] = []
  values ((j, v) ∷ m) = v ∷ values m

  pub lookup-insert :
      (j k : ℕ) (v : V) (m : List (ℕ × V))
      → lookup j (insert k v m) ≡ (if j == k then some v else lookup j m)
  unfolding lookup insert
  lookup-insert j k v [] = refl
  lookup-insert j k v ((i, w) ∷ m) = ground (arith, lookup-insert j k v m)

  pub lookup-modify :
      (j k : ℕ) (f : V → V) (m : List (ℕ × V))
      → lookup j (modify k f m) ≡ (if j == k then Option.map f (lookup j m) else lookup j m)
  unfolding lookup modify
  lookup-modify j k f [] = ground arith
  lookup-modify j k f ((i, w) ∷ m) = ground (arith, lookup-modify j k f m)

  pub lookup-remove :
      (j k : ℕ) (m : List (ℕ × V)) → lookup j (remove k m) ≡ (if j == k then none else lookup j m)
  unfolding lookup remove
  lookup-remove j k [] = ground arith
  lookup-remove j k ((i, w) ∷ m) = ground (arith, lookup-remove j k m)

  pub lookup-update_all :
      (j : ℕ) (f : V → V) (m : List (ℕ × V)) → lookup j (update_all f m) ≡ Option.map f (lookup j m)
  unfolding lookup update_all
  lookup-update_all j f [] = refl
  lookup-update_all j f ((i, w) ∷ m) = ground (arith, lookup-update_all j f m)

-- A relation between key and value that holds of every entry.
abbrev pub Entries {ℓ κ} : {V : Type ℓ} → (ℕ → V → Type κ) → List (ℕ × V) → Type κ
Entries P [] = Unit
Entries P ((k, v) ∷ m) = P k v × Entries P m

module _ {ℓ κ} {V : Type ℓ} (P : ℕ → V → Type κ) where
  pub Entries-lookup :
      (k : ℕ) (m : List (ℕ × V)) {v : V} → Entries P m → lookup k m ≡ some v → P k v
  unfolding lookup
  Entries-lookup k [] h e = absurd (ground arith)
  Entries-lookup k ((j, w) ∷ m) {v} h e = elim (Bool-cases (k == j)) [
    | inl same ↦ subst₂ P (ground arith) (ground arith) h.0
    | inr other ↦ Entries-lookup k m h.1 (ground arith)
  ]

  pub Entries-insert :
      (k : ℕ) (v : V) (m : List (ℕ × V)) → P k v → Entries P m → Entries P (insert k v m)
  unfolding insert
  Entries-insert k v [] p h = (p, tt)
  Entries-insert k v ((j, w) ∷ m) p h =
      elim (compare k j)
        as (λ o. Entries P (elim o [
          | Ordering.lt ↦ (k, v) ∷ (j, w) ∷ m
          | Ordering.eq ↦ (k, v) ∷ m
          | Ordering.gt ↦ (j, w) ∷ insert k v m
        ])) [
          | Ordering.lt ↦ (p, h)
          | Ordering.eq ↦ (p, h.1)
          | Ordering.gt ↦ (h.0, Entries-insert k v m p h.1)
        ]

  pub Entries-retain :
      (f : V → Bool) (m : List (ℕ × V))
      → Entries (λ k v. f v ≡ true → P k v) m
      → Entries P (retain f m)
  unfolding retain
  Entries-retain f [] h = tt
  Entries-retain f ((j, w) ∷ m) h = elim (Bool-cases (f w)) [
    | inl e ↦ rw e (h.0 e, Entries-retain f m h.1)
    | inr e ↦ rw e (Entries-retain f m h.1)
  ]

pub Entries-map {ℓ κ} :
    {V : Type ℓ} (P Q : ℕ → V → Type κ) (m : List (ℕ × V))
    → ((k : ℕ) (v : V) → P k v → Q k v)
    → Entries P m
    → Entries Q m
Entries-map P Q [] f h = tt
Entries-map P Q ((k, v) ∷ m) f h = (f k v h.0, Entries-map P Q m f h.1)

-- A test that fails on all values fails on the value of a key.
pub any-values {ℓ} :
    {V : Type ℓ} (p : V → Bool) (k : ℕ) (m : List (ℕ × V)) {v : V}
    → any p (values m) ≡ false
    → lookup k m ≡ some v
    → p v ≡ false
unfolding lookup values
any-values p k [] a e = absurd (ground arith)
any-values p k ((j, w) ∷ m) {v} a e = elim (Bool-cases (k == j)) [
  | inl same ↦ let q : w ≡ v = ground arith in subst (λ u. p u ≡ false) q (ground arith)
  | inr other ↦ any-values p k m (ground arith) (ground arith)
]

-- Each key stands once in the list, as in every `BTreeMap`.
abbrev pub Unique {ℓ} : {V : Type ℓ} → List (ℕ × V) → Type ℓ
Unique [] = Unit
Unique ((k, v) ∷ m) = (lookup k m ≡ none) × Unique m

-- Where each value carries its key, a test on the values with one key is that of its value.
pub any-keyed {ℓ} :
    {V : Type ℓ} (key : V → ℕ) (p : V → Bool) (j : ℕ) (m : List (ℕ × V))
    → Unique m
    → Entries (λ k v. key v ≡ k) m
    → any (λ v. key v == j && p v) (values m) ≡ (elim (lookup j m) [ none ↦ false | some v ↦ p v ])
unfolding lookup values
any-keyed key p j [] u e = refl
any-keyed key p j ((k, w) ∷ m) u e = ground (arith, any-keyed key p j m u.1 e.1, u.0, e.0)
