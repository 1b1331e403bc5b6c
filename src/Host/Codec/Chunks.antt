-- ===== src/Host/Codec/Chunks.antt =====
-- The fragments of frame_codec.rs: how `split_into_fragments` cuts a record.
use herdr_mobile.Base.{
  All, Bool-cases, Bytes, List, [], ap, arith, drop, inl, inr, length, length-drop, length-take,
  ltb, ltb→lt, refl, suc, take, take-append-drop, zero, ℕ, ◌*◌, ◌++◌, ◌+◌, ◌<◌, ◌∷◌, ◌≡◌, ◌≤◌,
}
use herdr_mobile.Host.Codec.{chunks_fuel, chunks}

-- The bytes of the pieces, in order.
abbrev pub join : List Bytes → Bytes
join [] = []
join (c ∷ cs) = c ++ join cs

join-chunks_fuel :
    (fuel k : ℕ) (xs : Bytes) → length xs ≤ fuel → join (chunks_fuel fuel (suc k) xs) ≡ xs
unfolding chunks_fuel
join-chunks_fuel zero k [] h = refl
join-chunks_fuel zero k (x ∷ xs) h = absurd (omega arith)
join-chunks_fuel (suc fuel) k [] h = refl
join-chunks_fuel (suc fuel) k (x ∷ xs) h =
    rw (join-chunks_fuel fuel k (drop k xs) (omega (arith, length-drop k xs)))
      (ap (◌∷◌ x) (take-append-drop k xs))

-- Every piece holds between 1 and `n` bytes.
abbrev pub IsPiece : ℕ → Bytes → Type 0
IsPiece n c = (0 < length c) × (length c ≤ n)

chunks_fuel-All : (fuel k : ℕ) (xs : Bytes) → All (IsPiece (suc k)) (chunks_fuel fuel (suc k) xs)
unfolding chunks_fuel
chunks_fuel-All zero k xs = tt
chunks_fuel-All (suc fuel) k [] = tt
chunks_fuel-All (suc fuel) k (x ∷ xs) =
    ((omega arith, omega (arith, length-take k xs)), chunks_fuel-All fuel k (drop k xs))

eq_zero_of_mul_le : (m k : ℕ) → m * suc k ≤ k → m ≡ 0
eq_zero_of_mul_le zero k h = refl
eq_zero_of_mul_le (suc m) k h = absurd (omega arith)

length-chunks_fuel :
    (fuel k : ℕ) (xs : Bytes) → length (chunks_fuel fuel (suc k) xs) * suc k ≤ length xs + k
unfolding chunks_fuel
length-chunks_fuel zero k xs = omega arith
length-chunks_fuel (suc fuel) k [] = omega arith
length-chunks_fuel (suc fuel) k (x ∷ xs) = elim (Bool-cases (ltb k (length xs))) [
  | inl more ↦
      omega (arith, length-chunks_fuel fuel k (drop k xs), length-drop k xs, ltb→lt _ _ more)
  | inr last ↦
      let shorter : length xs ≤ k = ground (arith, last) in
      let one : length (chunks_fuel fuel (suc k) (drop k xs)) ≡ 0 =
        eq_zero_of_mul_le _ k
          (omega (arith, length-chunks_fuel fuel k (drop k xs), length-drop k xs)) in
      rw one (omega arith)
]

pub join-chunks : (k : ℕ) (xs : Bytes) → join (chunks (suc k) xs) ≡ xs
unfolding chunks
join-chunks k xs = join-chunks_fuel (length xs) k xs (omega arith)

pub chunks-All : (k : ℕ) (xs : Bytes) → All (IsPiece (suc k)) (chunks (suc k) xs)
unfolding chunks
chunks-All k xs = chunks_fuel-All (length xs) k xs

pub length-chunks-le : (k : ℕ) (xs : Bytes) → length (chunks (suc k) xs) * suc k ≤ length xs + k
unfolding chunks
length-chunks-le k xs = length-chunks_fuel (length xs) k xs

pub chunks-cons :
    (k x : ℕ) (xs : Bytes) → (cs : List Bytes) × (chunks (suc k) (x ∷ xs) ≡ (x ∷ take k xs) ∷ cs)
unfolding chunks
chunks-cons k x xs = (_, refl)
