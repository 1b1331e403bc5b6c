-- ===== src/Base/Windows.antt =====
-- Events counted in a second, for the limits on a rate.
use Prim.Native.Nat.{ℕ, suc, ◌+◌, ◌≤◌}
use mathlib.Core.Path.{◌≡◌}
use mathlib.Core.Bool.{Bool, ◌&&◌}
use mathlib.Core.List.{List, [], ◌∷◌, ◌++◌}
use native.Mathlib.Omega.{arith}
use herdr_mobile.Base.Tests.{ltb, leb, if◌then◌else◌}
use herdr_mobile.Base.Lists.{length}

-- Whether `a` lies in the second that ends at `t`.
abbrev pub within : ℕ → ℕ → Bool
within t a = leb a t && ltb t (a + 1000000000)

abbrev pub count_within : ℕ → List ℕ → ℕ
count_within t [] = 0
count_within t (a ∷ as') = let rest = count_within t as' in if within t a then suc rest else rest

pub count_within-append :
    (t : ℕ) (xs ys : List ℕ) → count_within t (xs ++ ys) ≡ count_within t xs + count_within t ys
count_within-append t [] ys = omega arith
count_within-append t (x ∷ xs) ys = ground (arith, count_within-append t xs ys)

pub count_within-le : (t : ℕ) (xs : List ℕ) → count_within t xs ≤ length xs
count_within-le t [] = omega arith
count_within-le t (x ∷ xs) = ground (arith, count_within-le t xs)

abbrev pub one_if : Bool → ℕ
one_if Bool.true = 1
one_if Bool.false = 0
