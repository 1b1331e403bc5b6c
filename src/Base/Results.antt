-- ===== src/Base/Results.antt =====
-- `Result<A, E>` and its chaining.
use mathlib.Core.Path.{◌≡◌, refl}
use mathlib.Core.Logic.{◌⊎◌, inl, inr}
use mathlib.Core.Bool.{Bool, true, false}
use mathlib.Core.Option.{Option, none, some}

pub data Result (E A : Type 0) : Type 0 where
  err : E → Result E A
  ok : A → Result E A

-- `Result::is_ok`.
abbrev pub is_ok : {E A : Type 0} → Result E A → Bool
is_ok (err failure) = false
is_ok (ok value) = true

-- `Option::ok_or` and `Result::map_err`.
abbrev pub ok_or : {E A : Type 0} → Option A → E → Result E A
ok_or (some value) failure = ok value
ok_or none failure = err failure

abbrev pub map_err : {E F A : Type 0} → (E → F) → Result E A → Result F A
map_err convert (err failure) = err (convert failure)
map_err convert (ok value) = ok value

-- The operator `?`: what follows runs on a success.
infixl 5 ◌>>=◌
abbrev pub ◌>>=◌ : {E A B : Type 0} → Result E A → (A → Result E B) → Result E B
err failure >>= follow = err failure
ok value >>= follow = follow value

-- An early `return Err(failure)` unless the test holds.
abbrev pub guard : {E : Type 0} → Bool → E → Result E (Unit {0})
guard holds failure = elim holds [ false ↦ err failure | true ↦ ok tt ]

-- What follows a guard.
infixl 5 ◌>>◌
abbrev pub ◌>>◌ : {E B : Type 0} → Result E (Unit {0}) → Result E B → Result E B
err failure >> follow = err failure
ok done >> follow = follow

pub Result-cases :
    {E A : Type 0} (r : Result E A) → ((a : A) × (r ≡ ok a)) ⊎ ((e : E) × (r ≡ err e))
Result-cases (ok value) = inl (value, refl)
Result-cases (err failure) = inr (failure, refl)
