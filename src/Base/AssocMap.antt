-- ===== src/Base/AssocMap.antt =====
-- `HashMap` as an association list over byte keys: routing handles, source addresses, device ids.
use herdr_mobile.Base.{
  Bool-cases, Bytes, List, Option, [], arith, beq, beq_iff, beq_refl, beq→eq, false, if◌then◌else◌,
  inl, inr, length, none, refl, some, subst, suc, ◌<◌, ◌∙◌, ◌∷◌, ◌≡◌, ◌≤◌,
}

abbrev pub Map {ℓ} : Type ℓ → Type ℓ
Map V = List (Bytes × V)

module _ {ℓ} {V : Type ℓ} where
  unfoldable pub get : Bytes → Map V → Option V
  get k [] = none
  get k ((j, v) ∷ m) = if beq j k then some v else get k m

  unfoldable pub insert : Bytes → V → Map V → Map V
  insert k v [] = (k, v) ∷ []
  insert k v ((j, w) ∷ m) = if beq j k then (k, v) ∷ m else (j, w) ∷ insert k v m

  unfoldable pub remove : Bytes → Map V → Map V
  remove k [] = []
  remove k ((j, w) ∷ m) = if beq j k then remove k m else (j, w) ∷ remove k m

module _ {ℓ} {V : Type ℓ} where
  pub get-insert :
      (k j : Bytes) (v : V) (m : Map V)
      → get j (insert k v m) ≡ (if beq k j then some v else get j m)
  unfolding get insert
  get-insert k j v [] = refl
  get-insert k j v ((i, w) ∷ m) =
      ground (arith, beq_iff k j, beq_iff i k, beq_iff i j, get-insert k j v m)

  pub get-remove :
      (k j : Bytes) (m : Map V) → get j (remove k m) ≡ (if beq k j then none else get j m)
  unfolding get remove
  get-remove k j [] = ground arith
  get-remove k j ((i, w) ∷ m) =
      ground (arith, beq_iff k j, beq_iff i k, beq_iff i j, get-remove k j m)

  pub get-insert_self : (k : Bytes) (v : V) (m : Map V) → get k (insert k v m) ≡ some v
  get-insert_self k v m = rw (get-insert k k v m, beq_refl k)

  pub get-remove_self : (k : Bytes) (m : Map V) → get k (remove k m) ≡ none
  get-remove_self k m = rw (get-remove k k m, beq_refl k)

  pub length-insert_new :
      (k : Bytes) (v : V) (m : Map V) → get k m ≡ none → length (insert k v m) ≡ suc (length m)
  unfolding get insert
  length-insert_new k v [] h = refl
  length-insert_new k v ((j, w) ∷ m) h = ground (arith, length-insert_new k v m)

  pub length-insert-le : (k : Bytes) (v : V) (m : Map V) → length (insert k v m) ≤ suc (length m)
  unfolding insert
  length-insert-le k v [] = omega arith
  length-insert-le k v ((j, w) ∷ m) = ground (arith, length-insert-le k v m)

  -- An entry that is there is replaced in place.
  pub length-insert_old :
      (k : Bytes) (v w : V) (m : Map V) → get k m ≡ some w → length (insert k v m) ≡ length m
  unfolding get insert
  length-insert_old k v w [] h = cc
  length-insert_old k v w ((j, u) ∷ m) h = ground (arith, length-insert_old k v w m)

  pub length-remove-le : (k : Bytes) (m : Map V) → length (remove k m) ≤ length m
  unfolding remove
  length-remove-le k [] = omega arith
  length-remove-le k ((j, w) ∷ m) = ground (arith, length-remove-le k m)

  pub length-remove_lt :
      (k : Bytes) (v : V) (m : Map V) → get k m ≡ some v → length (remove k m) < length m
  unfolding get remove
  length-remove_lt k v [] h = cc
  length-remove_lt k v ((j, w) ∷ m) h = ground (arith, length-remove_lt k v m, length-remove-le k m)

-- Every key has one entry.
abbrev pub Distinct {ℓ} : {V : Type ℓ} → Map V → Type ℓ
Distinct [] = Unit
Distinct ((k, v) ∷ m) = (get k m ≡ none) × Distinct m

module _ {ℓ} {V : Type ℓ} where
  pub insert-Distinct : (k : Bytes) (v : V) (m : Map V) → Distinct m → Distinct (insert k v m)
  unfolding insert get
  insert-Distinct k v [] d = (refl, tt)
  insert-Distinct k v ((j, w) ∷ m) d = elim (Bool-cases (beq j k)) [
    | inl same ↦ rw same (subst (λ i. get i m ≡ none) (beq→eq j k same) d.0, d.1)
    | inr differ ↦ rw differ (get-insert k j v m ∙ keep differ d.0, insert-Distinct k v m d.1)
  ]
    where
      keep : beq j k ≡ false → get j m ≡ none → (if beq k j then some v else get j m) ≡ none
      keep n e = ground (arith, n, e, beq_iff k j, beq_iff j k)

  pub remove-Distinct : (k : Bytes) (m : Map V) → Distinct m → Distinct (remove k m)
  unfolding remove
  remove-Distinct k [] d = tt
  remove-Distinct k ((j, w) ∷ m) d = elim (Bool-cases (beq j k)) [
    | inl same ↦ rw same (remove-Distinct k m d.1)
    | inr differ ↦ rw differ (get-remove k j m ∙ keep d.0, remove-Distinct k m d.1)
  ]
    where
      keep : get j m ≡ none → (if beq k j then none else get j m) ≡ none
      keep e = ground (arith, e)
