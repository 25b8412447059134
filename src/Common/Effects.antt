-- ===== src/Common/Effects.antt =====
-- Python's exceptions and methods that change an object. What was written before a raise stays
-- written, so the state comes back beside the exception too.
use Prim.Native.Nat.{ℕ}
use mathlib.Core.Bool.{Bool, true, false}
use mathlib.Core.Logic.{◌⊎◌, inl, inr}
use mathlib.Core.Path.{◌≡◌, refl}
use native.Mathlib.Omega.{arith}

-- The classes of exceptions that the code tells apart, and those that it raises itself.
pub data Exc : Type 0 where
  runtime_error value_error key_error index_error assertion_error : Exc
  zero_division_error file_not_found other : Exc
  -- `HTTPException` with its status code
  http_exception : ℕ → Exc

pub data Result {ℓ} (A : Type ℓ) : Type ℓ where
  done : A → Result A
  raise : Exc → Result A

pub Result-cases {ℓ} :
    {A : Type ℓ} (r : Result A) → ((e : Exc) × (r ≡ raise e)) ⊎ ((a : A) × (r ≡ done a))
Result-cases (raise e) = inl (e, refl)
Result-cases (done a) = inr (a, refl)

-- What follows, where nothing was raised.
abbrev pub and_then {ℓ κ} : {A : Type ℓ} {B : Type κ} → Result A → (A → Result B) → Result B
and_then (raise e) f = raise e
and_then (done a) f = f a

-- One step, and what follows it.
pub and_then-step {ℓ κ} :
    {A : Type ℓ} {B : Type κ} (r : Result A) (f : A → Result B) (a : A) (b : B)
    → r ≡ done a
    → f a ≡ done b
    → and_then r f ≡ done b
and_then-step r f a b p q = rw p q

-- `Q` of the value, where there is one.
pub record Returns {ℓ κ} {A : Type ℓ} (Q : A → Type κ) (r : Result A) : Type (ℓ ⊔ κ) where
  pub at : (a : A) → r ≡ done a → Q a

pub Returns-and_then {ℓ κ ι} :
    {A : Type ℓ} {B : Type κ} (Q : B → Type ι) (r : Result A) (f : A → Result B)
    → ((a : A) → r ≡ done a → Returns Q (f a))
    → Returns Q (and_then r f)
Returns-and_then Q (done a) f h = h a refl
Returns-and_then Q (raise e) f h = record { at = λ b p. ground arith }

pub Returns-done {ℓ κ} : {A : Type ℓ} (Q : A → Type κ) (a : A) → Q a → Returns Q (done a)
Returns-done Q a h = record { at = λ b p. ground arith }

pub data Outcome {ℓ κ} (S : Type ℓ) (A : Type κ) : Type (ℓ ⊔ κ) where
  ok : A → S → Outcome S A
  raised : Exc → S → Outcome S A

abbrev pub Exec {ℓ κ} : Type ℓ → Type κ → Type (ℓ ⊔ κ)
Exec S A = S → Outcome S A

abbrev pub state_of {ℓ κ} : {S : Type ℓ} {A : Type κ} → Outcome S A → S
state_of (ok a s) = s
state_of (raised e s) = s

abbrev pub is_ok {ℓ κ} : {S : Type ℓ} {A : Type κ} → Outcome S A → Bool
is_ok (ok a s) = true
is_ok (raised e s) = false

module _ {ℓ κ} {S : Type ℓ} {A : Type κ} where
  abbrev pub pure : A → Exec S A
  pure a s = ok a s

  abbrev pub throw : Exc → Exec S A
  throw e s = raised e s

  abbrev pub lift : Result A → Exec S A
  lift (done a) s = ok a s
  lift (raise e) s = raised e s

  abbrev pub gets : (S → A) → Exec S A
  gets f s = ok (f s) s

  -- `try: m except E: h`, where `caught` says which exceptions are of the class `E`.
  abbrev pub recover : (Exc → Bool) → Outcome S A → Exec S A → Outcome S A
  recover caught (ok a s) h = ok a s
  recover caught (raised e s) h = elim (caught e) [ true ↦ h s | false ↦ raised e s ]

abbrev pub modify {ℓ} : {S : Type ℓ} → (S → S) → Exec S (Unit {0})
modify f s = ok tt (f s)

module _ {ℓ κ ι} {S : Type ℓ} {A : Type κ} {B : Type ι} where
  abbrev pub continue : Outcome S A → (A → Exec S B) → Outcome S B
  continue (ok a s) f = f a s
  continue (raised e s) f = raised e s

  infixl 5 ◌>>=◌ ◌>>◌
  abbrev pub ◌>>=◌ : Exec S A → (A → Exec S B) → Exec S B
  ◌>>=◌ m f s = continue (m s) f

  abbrev pub ◌>>◌ : Exec S A → Exec S B → Exec S B
  m >> n = m >>= λ _. n

abbrev pub every_exception : Exc → Bool
every_exception e = true

abbrev pub is_runtime_error : Exc → Bool
is_runtime_error Exc.runtime_error = true
is_runtime_error _ = false

abbrev pub is_value_error : Exc → Bool
is_value_error Exc.value_error = true
is_value_error _ = false
