-- ===== src/Errors.antt =====
-- pkg/apperrors/errors.go: the stable error codes. An error is modelled by its code; its message,
-- which nothing branches on, is left out.
pub mod Status
pub mod Examples
use mathlib.Core.Logic.{◌⊎◌, inl, inr}
use mathlib.Core.Path.{◌≡◌, refl}
use mathlib.Core.Bool.{Bool, true, false}
use mathlib.Core.Option.{Option, none, some}

pub data Code : Type 0 where
  internal invalid_argument not_found already_exists permission_denied unauthenticated : Code
  failed_precondition unavailable rate_limited : Code
  insufficient_balance idempotency_key_conflict idempotency_in_progress ledger_imbalance : Code
  currency_mismatch wallet_operation_denied : Code

-- What a Go function that returns a value and an error gives.
pub data Result {ℓ} (A : Type ℓ) : Type ℓ where
  ok : A → Result A
  err : Code → Result A

-- `if bad { return apperrors.New(code, …) }`
abbrev pub fail_if : Bool → Code → Result (Unit {0})
fail_if true c = err c
fail_if false c = ok tt

abbrev pub or_fail {ℓ} : {A : Type ℓ} → Option A → Code → Result A
or_fail none c = err c
or_fail (some a) c = ok a

-- `if err != nil { return err }`, and the steps that follow.
infixl 5 ◌>>=◌
abbrev pub ◌>>=◌ {ℓ κ} : {A : Type ℓ} {B : Type κ} → Result A → (A → Result B) → Result B
err c >>= next = err c
ok a >>= next = next a

-- Inversion of a bind that succeeds.
pub bind-eq-ok {ℓ κ} :
    {A : Type ℓ} {B : Type κ} (m : Result A) (next : A → Result B) {b : B}
    → (m >>= next) ≡ ok b
    → (a : A) × (m ≡ ok a) × (next a ≡ ok b)
bind-eq-ok (err c) next h = cc
bind-eq-ok (ok a) next h = (a, refl, h)

infixl 5 ◌>>◌
abbrev pub ◌>>◌ {ℓ} : {B : Type ℓ} → Result (Unit {0}) → Result B → Result B
check >> rest = check >>= λ u. rest

pub Result-cases {ℓ} :
    {A : Type ℓ} (m : Result A) → ((a : A) × (m ≡ ok a)) ⊎ ((c : Code) × (m ≡ err c))
Result-cases (ok a) = inl (a, refl)
Result-cases (err c) = inr (c, refl)

pub Code-discrete : Discrete Code
Code-discrete = hlevel

pub or_fail-some {ℓ} :
    {A : Type ℓ} (o : Option A) (c : Code) (a : A) → or_fail o c ≡ ok a → o ≡ some a
or_fail-some none c a e = cc
or_fail-some (some x) c a e = cc

pub fail_if-passes : (b : Bool) (c : Code) (u : Unit {0}) → fail_if b c ≡ ok u → b ≡ false
fail_if-passes true c u e = cc
fail_if-passes false c u e = refl
