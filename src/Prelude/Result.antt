-- ===== src/Prelude/Result.antt =====
-- `std::expected<T, std::error_code>` and `std::error_code`.
use Prim.Native.Nat.{ℕ}
use mathlib.Core.Path.{◌≡◌, refl}
use mathlib.Core.Logic.{◌⊎◌, inl, inr}

-- A value, or the error number that a failed call left in `errno`.
pub data Result {ℓ} (A : Type ℓ) : Type ℓ where
  ok : A → Result A
  err : ℕ → Result A

pub Result-cases {ℓ} :
    {A : Type ℓ} (r : Result A) → ((a : A) × (r ≡ ok a)) ⊎ ((e : ℕ) × (r ≡ err e))
Result-cases (ok a) = inl (a, refl)
Result-cases (err e) = inr (e, refl)

abbrev pub value_or {ℓ} : {A : Type ℓ} → Result A → A → A
value_or (ok a) d = a
value_or (err e) d = d

-- A default-constructed `std::error_code` tests as false; so does one that holds 0.
abbrev pub ErrorCode : Type 0
ErrorCode = ℕ

abbrev pub no_error : ErrorCode
no_error = 0

-- `return {}` after a call that succeeded, `{errno, std::generic_category()}` after one that failed.
abbrev pub error_code {ℓ} : {A : Type ℓ} → Result A → ErrorCode
error_code (ok a) = no_error
error_code (err e) = e
