-- ===== src/Common/Outcomes.antt =====
-- The result of a fallible operation, generic in its error.
use rack_ai.Common.Tests.{if◌then◌else◌}
use mathlib.Core.Path.{◌≡◌, refl}
use mathlib.Core.Bool.{Bool, true, false}
use mathlib.Core.Option.{Option, none, some}
use mathlib.Core.Logic.{◌⊎◌, inl, inr}

pub data Outcome {ℓ} (E : Type 0) (A : Type ℓ) : Type ℓ where
  ok : A → Outcome E A
  err : E → Outcome E A

infixl 5 ◌>>=◌ ◌>>◌
abbrev pub ◌>>=◌ {ℓ κ} :
    {E : Type 0} {A : Type ℓ} {B : Type κ} → Outcome E A → (A → Outcome E B) → Outcome E B
ok a >>= continue = continue a
err e >>= continue = err e

abbrev pub ok_or {ℓ} : {E : Type 0} {A : Type ℓ} → Option A → E → Outcome E A
ok_or none e = err e
ok_or (some a) e = ok a

abbrev pub ◌>>◌ {ℓ} : {E : Type 0} {B : Type ℓ} → Outcome E (Unit {0}) → Outcome E B → Outcome E B
first >> second = first >>= λ _. second

-- `if test { return Err(e) }`.
abbrev pub refuse_if : {E : Type 0} → Bool → E → Outcome E (Unit {0})
refuse_if true e = err e
refuse_if false e = ok tt

pub >>=-eq-ok {ℓ κ} :
    {E : Type 0} {A : Type ℓ} {B : Type κ} (first : Outcome E A) (next : A → Outcome E B) {r : B}
    → (first >>= next) ≡ ok r
    → (x : A) × (first ≡ ok x) × (next x ≡ ok r)
>>=-eq-ok (ok x) next h = (x, refl, h)
>>=-eq-ok (err e) next h = cc

pub ok_or-eq-ok {ℓ} :
    {E : Type 0} {A : Type ℓ} (o : Option A) (e : E) {a : A} → ok_or o e ≡ ok a → o ≡ some a
ok_or-eq-ok none e h = cc
ok_or-eq-ok (some b) e h = cc

pub refuse_if-eq-ok :
    {E : Type 0} (b : Bool) (e : E) {u : Unit {0}} → refuse_if b e ≡ ok u → b ≡ false
refuse_if-eq-ok true e h = cc
refuse_if-eq-ok false e h = refl

pub ok-injective {ℓ} :
    {E : Type 0} {A : Type ℓ} {a b : A} → ◌≡◌ {A = Outcome E A} (ok a) (ok b) → a ≡ b
ok-injective h = cc

-- A successful test is one of its branches.
pub branch {ℓ κ} :
    {E : Type 0} {A : Type ℓ} {G : Type κ} (b : Bool) (x y : Outcome E A) {r : A}
    → (if b then x else y) ≡ ok r
    → (b ≡ true → x ≡ ok r → G)
    → (b ≡ false → y ≡ ok r → G)
    → G
branch true x y h f g = f refl h
branch false x y h f g = g refl h

pub Outcome-cases :
    {E A : Type 0} (r : Outcome E A) → ((e : E) × (r ≡ err e)) ⊎ ((a : A) × (r ≡ ok a))
Outcome-cases (err e) = inl (e, refl)
Outcome-cases (ok a) = inr (a, refl)
