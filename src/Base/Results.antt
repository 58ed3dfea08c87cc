-- ===== src/Base/Results.antt =====
-- What a call of a Rust function ends with. A panic is a value, so that "no panic" is a statement.
use mathlib.Core.Path.{◌≡◌, refl}
use mathlib.Core.Logic.{◌⊎◌, inl, inr}
use mathlib.Core.Bool.{Bool, true, false}
use mathlib.Core.Option.{Option, none, some}

-- A function that returns a plain value, or panics.
pub data Run {ℓ} (A : Type ℓ) : Type ℓ where
  returns : A → Run A
  panicked : Run A

-- A function that returns `Result<A, E>`, or panics.
pub data Outcome {ℓ} (E A : Type ℓ) : Type ℓ where
  ok : A → Outcome E A
  err : E → Outcome E A
  panic : Outcome E A

-- `?` on a result of the same error type.
infixl 5 ◌>>=◌ ◌>>◌
abbrev pub ◌>>=◌ {ℓ} : {E A B : Type ℓ} → Outcome E A → (A → Outcome E B) → Outcome E B
ok a >>= f = f a
err e >>= f = err e
panic >>= f = panic

abbrev pub ◌>>◌ {ℓ} : {E A B : Type ℓ} → Outcome E A → Outcome E B → Outcome E B
m >> k = m >>= λ _. k

-- A call whose value the rest of the function uses.
abbrev pub and_then {ℓ κ} : {A : Type ℓ} {B : Type κ} → Run A → (A → Run B) → Run B
and_then (returns a) f = f a
and_then panicked f = panicked

-- `Option::ok_or`.
abbrev pub ok_or {ℓ} : {E A : Type ℓ} → Option A → E → Outcome E A
ok_or none e = err e
ok_or (some a) e = ok a

-- `Result::map_err`, which `?` also does through `From`.
abbrev pub map_err {ℓ} : {E F A : Type ℓ} → (E → F) → Outcome E A → Outcome F A
map_err f (ok a) = ok a
map_err f (err e) = err (f e)
map_err f panic = panic

-- A plain call inside a function that returns a result.
abbrev pub call {ℓ} : {E A : Type ℓ} → Run A → Outcome E A
call (returns a) = ok a
call panicked = panic

-- `if test { return Err(e); }`.
abbrev pub reject_if {ℓ} : {E : Type ℓ} → Bool → E → Outcome E Unit
reject_if true e = err e
reject_if false e = ok tt

-- A method that computes the new state and its answer, and stores the state only when every check
-- has passed.
abbrev pub commit_with {ℓ} : {S E A : Type ℓ} → S → Outcome E (S × A) → S × Outcome E A
commit_with s (ok (t, a)) = (t, ok a)
commit_with s (err e) = (s, err e)
commit_with s panic = (s, panic)

abbrev pub commit {ℓ} : {S E : Type ℓ} → S → Outcome E S → S × Outcome E Unit
commit s (ok t) = (t, ok tt)
commit s (err e) = (s, err e)
commit s panic = (s, panic)

-- How a call ended, whatever it returned.
abbrev pub ending {ℓ} : {S E A : Type ℓ} → S × Outcome E A → S × Outcome E Unit
ending (s, ok a) = (s, ok tt)
ending (s, err e) = (s, err e)
ending (s, panic) = (s, panic)

pub ending-state {ℓ} : {S E A : Type ℓ} (r : S × Outcome E A) → (ending r).0 ≡ r.0
ending-state (s, ok a) = refl
ending-state (s, err e) = refl
ending-state (s, panic) = refl

pub ending-panic {ℓ} : {S E A : Type ℓ} (r : S × Outcome E A) → r.1 ≡ panic → (ending r).1 ≡ panic
ending-panic (s, ok a) h = cc
ending-panic (s, err e) h = cc
ending-panic (s, panic) h = refl

pub panic-ending {ℓ} : {S E A : Type ℓ} (r : S × Outcome E A) → (ending r).1 ≡ panic → r.1 ≡ panic
panic-ending (s, ok a) h = cc
panic-ending (s, err e) h = cc
panic-ending (s, panic) h = refl

pub map_err-panic {ℓ} :
    {E F A : Type ℓ} (f : E → F) (r : Outcome E A) → map_err f r ≡ panic → r ≡ panic
map_err-panic f (ok a) h = cc
map_err-panic f (err e) h = cc
map_err-panic f panic h = refl

-- To split on how a call ends, keeping the equation.
pub Outcome-cases {ℓ} :
    {E A : Type ℓ} (m : Outcome E A)
    → ((a : A) × (m ≡ ok a)) ⊎ ((e : E) × (m ≡ err e)) ⊎ (m ≡ panic)
Outcome-cases (ok a) = inl (a, refl)
Outcome-cases (err e) = inr (inl (e, refl))
Outcome-cases panic = inr (inr refl)

pub Run-cases {ℓ} : {A : Type ℓ} (m : Run A) → ((a : A) × (m ≡ returns a)) ⊎ (m ≡ panicked)
Run-cases (returns a) = inl (a, refl)
Run-cases panicked = inr refl
