-- ===== src/Base/Strings.antt =====
-- The `str` methods of the standard library that the crates use, on the bytes of a text.
use Prim.Native.Nat.{ℕ}
use mathlib.Core.Path.{◌≡◌, refl}
use mathlib.Core.Bool.{Bool, false}
use mathlib.Core.Option.{Option, none, some}
use mathlib.Core.List.{List, [], ◌∷◌, ◌++◌}
use native.Mathlib.Omega.{arith}
use herdr_mobile.Base.Tests.{◌==◌, if◌then◌else◌, ==_refl}
use herdr_mobile.Base.Lists.{any}
use herdr_mobile.Base.Texts.{Bytes}

-- `strip_prefix`.
unfoldable pub strip_prefix : Bytes → Bytes → Option Bytes
strip_prefix [] s = some s
strip_prefix (p ∷ ps) [] = none
strip_prefix (p ∷ ps) (x ∷ s) = let rest = strip_prefix ps s in if p == x then rest else none

abbrev cons_left : ℕ → Option (Bytes × Bytes) → Option (Bytes × Bytes)
cons_left x none = none
cons_left x (some (a, b)) = some (x ∷ a, b)

-- `split_once` at an ASCII character, and at a pattern that is not empty.
unfoldable pub split_once : ℕ → Bytes → Option (Bytes × Bytes)
split_once c [] = none
split_once c (x ∷ s) =
    let rest = split_once c s in if x == c then some ([], s) else cons_left x rest

abbrev or_else : Option Bytes → Option (Bytes × Bytes) → Option (Bytes × Bytes)
or_else (some s) rest = some ([], s)
or_else none rest = rest

unfoldable pub split_once_str : Bytes → Bytes → Option (Bytes × Bytes)
unfolding strip_prefix
split_once_str p [] = none
split_once_str p (x ∷ s) =
    let rest = cons_left x (split_once_str p s) in or_else (strip_prefix p (x ∷ s)) rest

abbrev pub cons_first : ℕ → List Bytes → List Bytes
cons_first x [] = (x ∷ []) ∷ []
cons_first x (p ∷ ps) = (x ∷ p) ∷ ps

-- `split` at an ASCII character.
unfoldable pub split : ℕ → Bytes → List Bytes
split c [] = [] ∷ []
split c (x ∷ s) = let rest = split c s in if x == c then [] ∷ rest else cons_first x rest

-- `contains`, of an ASCII character.
abbrev pub contains : ℕ → Bytes → Bool
contains c s = any (λ x. x == c) s

pub strip_prefix-append : (p s : Bytes) → strip_prefix p (p ++ s) ≡ some s
unfolding strip_prefix
strip_prefix-append [] s = refl
strip_prefix-append (x ∷ p) s = ground (arith, strip_prefix-append p s, ==_refl x)

pub split_once-append :
    (c : ℕ) (a b : Bytes) → contains c a ≡ false → split_once c (a ++ c ∷ b) ≡ some (a, b)
unfolding split_once
split_once-append c [] b h = ground (arith, ==_refl c)
split_once-append c (x ∷ a) b h = ground (arith, split_once-append c a b)

pub split-append :
    (c : ℕ) (a b : Bytes) → contains c a ≡ false → split c (a ++ c ∷ b) ≡ a ∷ split c b
unfolding split
split-append c [] b h = ground (arith, ==_refl c)
split-append c (x ∷ a) b h = ground (arith, split-append c a b)

pub split_single : (c : ℕ) (a : Bytes) → contains c a ≡ false → split c a ≡ a ∷ []
unfolding split
split_single c [] h = refl
split_single c (x ∷ a) h = ground (arith, split_single c a)

pub contains-append :
    (c : ℕ) (a b : Bytes)
    → contains c a ≡ false
    → contains c b ≡ false
    → contains c (a ++ b) ≡ false
contains-append c [] b h k = k
contains-append c (x ∷ a) b h k = ground (arith, contains-append c a b)
