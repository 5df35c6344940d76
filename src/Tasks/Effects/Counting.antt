-- ===== src/Tasks/Effects/Counting.antt =====
-- How many calls of a kind a computation adds to the log.
use rack_ai.Common.{
  ℕ, Bool, true, false, ◌≡◌, refl, ◌∙◌, ok, err, ◌+◌, ◌≤◌, count_if, arith, if◌then◌else◌,
}
use rack_ai.Tasks.Specs.{Answer}
use rack_ai.Tasks.Effects.{
  Call, Calls, Log, perform, return, proceed, ◌>>=◌, ◌>>◌, succeeded, attempt_calls,
}

abbrev pub Kind : Type 0
Kind = Call × Bool → Bool

-- The calls of a selection, and those that settle a task after its execution.
abbrev pub is_selecting : Call → Bool
is_selecting (Call.complete t) = false
is_selecting (Call.requeue t) = false
is_selecting (Call.acquire r) = false
is_selecting (Call.release h) = false
is_selecting (Call.execute r) = false
is_selecting _ = true

abbrev pub is_settling : Call → Bool
is_settling Call.now = true
is_settling (Call.save r) = true
is_settling (Call.complete t) = true
is_settling (Call.requeue t) = true
is_settling _ = false

-- No call of the first kind is counted by the second.
abbrev pub Silent : Kind → (Call → Bool) → Type 0
Silent p kind = (c : Call) (b : Bool) → kind c ≡ true → p (c, b) ≡ false

pub record Quiet (p : Kind) {A : Type 0} (m : Calls A) : Type 0 where
  pub same : (log : Log) → count_if p (m log).1 ≡ count_if p log

-- At most so many are added.
pub record Within (p : Kind) (n : ℕ) {A : Type 0} (m : Calls A) : Type 0 where
  pub bound : (log : Log) → count_if p (m log).1 ≤ count_if p log + n

module _ (p : Kind) where
  pub perform-Quiet :
      {A : Type 0} (c : Call) (answer : Log → Answer A)
      → ((b : Bool) → p (c, b) ≡ false)
      → Quiet p (perform c answer)
  unfolding perform
  perform-Quiet c answer h = record { same = λ log. rw (h (succeeded (answer log))) refl }

  pub return-Quiet : {A : Type 0} (answer : Answer A) → Quiet p (return answer)
  unfolding return
  return-Quiet answer = record { same = λ log. refl }

  proceed-Quiet :
      {A B : Type 0} (answer : Answer A) (next : A → Calls B)
      → ((a : A) → Quiet p (next a))
      → Quiet p (proceed answer next)
  unfolding proceed
  proceed-Quiet (ok a) next h = record { same = (h a).same }
  proceed-Quiet (err e) next h = record { same = λ log. refl }

  pub >>=-Quiet :
      {A B : Type 0} {first : Calls A} {next : A → Calls B}
      → Quiet p first
      → ((a : A) → Quiet p (next a))
      → Quiet p (first >>= next)
  unfolding ◌>>=◌
  >>=-Quiet {first} {next} f n = record {
    same = λ log. (proceed-Quiet (first log).0 next n).same (first log).1 ∙ f.same log;
  }

  pub >>-Quiet :
      {A B : Type 0} {first : Calls A} {second : Calls B}
      → Quiet p first
      → Quiet p second
      → Quiet p (first >> second)
  unfolding ◌>>◌
  >>-Quiet f n = record { same = (>>=-Quiet f (λ a. n)).same }

  pub attempt_calls-Quiet : {A : Type 0} {m : Calls A} → Quiet p m → Quiet p (attempt_calls m)
  unfolding attempt_calls
  attempt_calls-Quiet q = record { same = q.same }

  pub if-Quiet :
      {A : Type 0} (b : Bool) {x y : Calls A} → Quiet p x → Quiet p y → Quiet p (if b then x else y)
  if-Quiet true f g = f
  if-Quiet false f g = g

  pub Quiet-Within : {n : ℕ} {A : Type 0} {m : Calls A} → Quiet p m → Within p n m
  Quiet-Within q = record { bound = λ log. omega (arith, q.same log) }

  pub perform-Within :
      {A : Type 0} (c : Call) (answer : Log → Answer A) → Within p 1 (perform c answer)
  unfolding perform
  perform-Within c answer = record { bound = λ log. ground arith }

  proceed-Within :
      (n : ℕ) {A B : Type 0} (answer : Answer A) (next : A → Calls B)
      → ((a : A) → Within p n (next a))
      → Within p n (proceed answer next)
  unfolding proceed
  proceed-Within n (ok a) next h = record { bound = (h a).bound }
  proceed-Within n (err e) next h = record { bound = λ log. omega arith }

  -- A bound on the last of two computations, the first of which is quiet.
  pub >>=-Within :
      {n : ℕ} {A B : Type 0} {first : Calls A} {next : A → Calls B}
      → Quiet p first
      → ((a : A) → Within p n (next a))
      → Within p n (first >>= next)
  unfolding ◌>>=◌
  >>=-Within {n} {first} {next} f h = record {
    bound = λ log.
        omega (arith, (proceed-Within n (first log).0 next h).bound (first log).1, f.same log);
  }

  pub >>-Within :
      {n : ℕ} {A B : Type 0} {first : Calls A} {second : Calls B}
      → Quiet p first
      → Within p n second
      → Within p n (first >> second)
  unfolding ◌>>◌
  >>-Within f h = record { bound = (>>=-Within f (λ a. h)).bound }

  -- And the other way round.
  pub Within->>= :
      {n : ℕ} {A B : Type 0} {first : Calls A} {next : A → Calls B}
      → Within p n first
      → ((a : A) → Quiet p (next a))
      → Within p n (first >>= next)
  unfolding ◌>>=◌
  Within->>= {first} {next} f h = record {
    bound =
        λ log. omega (arith, (proceed-Quiet (first log).0 next h).same (first log).1, f.bound log);
  }

  pub Within->> :
      {n : ℕ} {A B : Type 0} {first : Calls A} {second : Calls B}
      → Within p n first
      → Quiet p second
      → Within p n (first >> second)
  unfolding ◌>>◌
  Within->> f h = record { bound = (Within->>= f (λ a. h)).bound }

  pub if-Within :
      {n : ℕ} {A : Type 0} (b : Bool) {x y : Calls A}
      → Within p n x
      → Within p n y
      → Within p n (if b then x else y)
  if-Within true f g = f
  if-Within false f g = g
