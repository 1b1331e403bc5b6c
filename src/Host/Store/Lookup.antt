-- ===== src/Host/Store/Lookup.antt =====
-- The list of store.rs as a map from device ids to entries.
use herdr_mobile.Base.{
  Bool-cases, Bytes, List, [], ap, arith, beq, beq_iff, beq→eq, false, if◌then◌else◌, inl, inr,
  is_some, none, refl, some, subst, suc, sym, true, ℕ, ◌++◌, ◌∙◌, ◌∷◌, ◌≡◌, ◌⊎◌,
}
use herdr_mobile.Host.Store.{PairedDevice, has_id, find_device, position, others, remove_at, set_at}

-- No two entries have one id.
abbrev pub Unique : List PairedDevice → Type 0
Unique [] = Unit
Unique (d ∷ ds) = (find_device d.device_id ds ≡ none) × Unique ds

pub find-others :
    (id key : Bytes) (ds : List PairedDevice)
    → find_device key (others id ds) ≡ (if beq id key then none else find_device key ds)
unfolding find_device others
find-others id key [] = ground arith
find-others id key (d ∷ ds) =
    ground (
      arith,
      find-others id key ds,
      beq_iff d.device_id id,
      beq_iff d.device_id key,
      beq_iff id key,
    )

pub others-Unique : (id : Bytes) (ds : List PairedDevice) → Unique ds → Unique (others id ds)
unfolding others
others-Unique id [] u = tt
others-Unique id (d ∷ ds) u = elim (Bool-cases (has_id id d)) [
  | inl same ↦ rw same (others-Unique id ds u.1)
  | inr other ↦
      rw other (find-others id d.device_id ds ∙ ground (arith, u.0), others-Unique id ds u.1)
]

pub find-append :
    (key : Bytes) (ds : List PairedDevice) (e : PairedDevice)
    → find_device key (ds ++ e ∷ []) ≡ (
        if is_some (find_device key ds)
        then find_device key ds
        else if beq e.device_id key
        then some e
        else none)
unfolding find_device
find-append key [] e = refl
find-append key (d ∷ ds) e = ground (arith, find-append key ds e)

pub append-Unique :
    (ds : List PairedDevice) (e : PairedDevice)
    → Unique ds
    → find_device e.device_id ds ≡ none
    → Unique (ds ++ e ∷ [])
unfolding find_device
append-Unique [] e u h = (refl, tt)
append-Unique (d ∷ ds) e u h = (
  find-append d.device_id ds e
      ∙ ground (arith, u.0, h, beq_iff d.device_id e.device_id, beq_iff e.device_id d.device_id),
  append-Unique ds e u.1 (ground (arith, h)),
)

-- The first entry with an id, at its index.
pub data At (id : Bytes) : List PairedDevice → ℕ → PairedDevice → Type 0 where
  here : {d : PairedDevice} {ds : List PairedDevice} → has_id id d ≡ true → At id (d ∷ ds) 0 d
  there :
      {d e : PairedDevice} {ds : List PairedDevice} {i : ℕ}
      → has_id id d ≡ false
      → At id ds i e
      → At id (d ∷ ds) (suc i) e

pub position-At :
    (id : Bytes) (ds : List PairedDevice)
    → ((position id ds ≡ none) × (find_device id ds ≡ none))
      ⊎ ((i : ℕ) × (d : PairedDevice) × (position id ds ≡ some (i, d)) × At id ds i d)
unfolding position find_device
position-At id [] = inl (refl, refl)
position-At id (d ∷ ds) = elim (Bool-cases (has_id id d)) [
  | inl same ↦ rw same (inr (0, d, refl, here same))
  | inr other ↦ elim (position-At id ds) [
    | inl (e, absent) ↦ rw (other, e) (inl (refl, absent))
    | inr (i, e, found, at) ↦ rw (other, found) (inr (suc i, e, refl, there other at))
  ]
]

others_absent : (id : Bytes) (ds : List PairedDevice) → find_device id ds ≡ none → others id ds ≡ ds
unfolding others find_device
others_absent id [] h = refl
others_absent id (d ∷ ds) h = elim (Bool-cases (has_id id d)) [
  | inl same ↦ absurd (present same h)
  | inr other ↦ rw other (ap (◌∷◌ d) (others_absent id ds (ground (arith, h, other))))
]
  where
    present : has_id id d ≡ true → find_device id (d ∷ ds) ≡ none → ⊥
    present e h = ground (arith, e, h)

pub remove_at-others :
    (id : Bytes) {ds : List PairedDevice} {i : ℕ} {d : PairedDevice}
    → At id ds i d
    → Unique ds
    → remove_at i ds ≡ others id ds
unfolding remove_at others
remove_at-others id (here {d = d} {ds = ds} same) u = rw same (
    sym
      (others_absent id ds (subst (λ k. find_device k ds ≡ none) (beq→eq d.device_id id same) u.0)))
remove_at-others id (there {d = d} other at) u = rw other (ap (◌∷◌ d) (remove_at-others id at u.1))

pub find-set_at :
    (id key now : Bytes) {ds : List PairedDevice} {i : ℕ} {d : PairedDevice}
    → At id ds i d
    → find_device key (set_at i (record d { last_seen = now }) ds)
      ≡ (if beq id key then some (record d { last_seen = now }) else find_device key ds)
unfolding find_device set_at
find-set_at id key now (here {d = d} {ds = ds} same) =
    rw (beq→eq d.device_id id same) (ground arith)
find-set_at id key now (there {d = d} {ds = ds} other at) = ground (
  arith,
  find-set_at id key now at,
  other,
  beq_iff d.device_id id,
  beq_iff d.device_id key,
  beq_iff id key,
)

pub find-At :
    (id : Bytes) {ds : List PairedDevice} {i : ℕ} {d : PairedDevice}
    → At id ds i d
    → find_device id ds ≡ some d
unfolding find_device
find-At id (here same) = rw same refl
find-At id (there other at) = rw other (find-At id at)

absent-set_at :
    (id key now : Bytes) {ds : List PairedDevice} {i : ℕ} {d : PairedDevice}
    → At id ds i d
    → find_device key ds ≡ none
    → find_device key (set_at i (record d { last_seen = now }) ds) ≡ none
unfolding find_device set_at
absent-set_at id key now (here {d = d} same) h = ground (arith, h)
absent-set_at id key now (there {d = d} other at) h = ground (arith, h, absent-set_at id key now at)

pub set_at-Unique :
    (id now : Bytes) {ds : List PairedDevice} {i : ℕ} {d : PairedDevice}
    → At id ds i d
    → Unique ds
    → Unique (set_at i (record d { last_seen = now }) ds)
unfolding set_at
set_at-Unique id now (here same) u = u
set_at-Unique id now (there {d = d} other at) u =
    (absent-set_at id d.device_id now at u.0, set_at-Unique id now at u.1)
