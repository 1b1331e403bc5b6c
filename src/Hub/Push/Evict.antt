-- ===== src/Hub/Push/Evict.antt =====
-- The eviction of routes/push.rs: the entry of the least generation makes room.
use herdr_mobile.Base.{
  Bool-cases, Option-cases, [], ap, arith, beq, beq_refl, beq→eq, inl, inr, is_some, leb, length,
  none, not, refl, some, subst, true, ℕ, ◌&&◌, ◌<◌, ◌==◌, ◌∷◌, ◌≡◌, ◌≢◌, ◌≤◌, ◌⊎◌,
}
use herdr_mobile.Base.AssocMap.{
  Map, get, remove, Distinct, get-remove, remove-Distinct, length-remove_lt,
}
use herdr_mobile.Hub.Session.{Handle}
use herdr_mobile.Hub.Push.{capacity, Entry, oldest, evict}

oldest-ne-none : (h : Handle) (e : Entry) (m : Map Entry) → oldest ((h, e) ∷ m) ≢ none
unfolding oldest
oldest-ne-none h e m = λ x. ground arith

get_of_oldest-none : (m : Map Entry) (j : Handle) → oldest m ≡ none → get j m ≡ none
unfolding get
get_of_oldest-none [] j h = refl
get_of_oldest-none ((i, f) ∷ m) j h = absurd (oldest-ne-none i f m h)

-- What `oldest` names is an entry, and of the least generation.
pub oldest-le :
    (m : Map Entry) (h : Handle) (g : ℕ) (j : Handle) (e : Entry)
    → oldest m ≡ some (h, g)
    → get j m ≡ some e
    → g ≤ e.generation
unfolding oldest get
oldest-le [] h g j e o x = cc
oldest-le ((i, f) ∷ m) h g j e o x = elim (Option-cases (oldest m)) [
  | inl empty ↦ ground (arith, empty, get_of_oldest-none m j empty)
  | inr ((h', g'), rest) ↦ ground (arith, rest, oldest-le m h' g' j e rest)
]

get_head : (i : Handle) (f : Entry) (m : Map Entry) → get i ((i, f) ∷ m) ≡ some f
unfolding get
get_head i f m = rw (beq_refl i) refl

get_tail :
    (i h : Handle) (f e : Entry) (m : Map Entry)
    → get i m ≡ none
    → get h m ≡ some e
    → get h ((i, f) ∷ m) ≡ some e
unfolding get
get_tail i h f e m n x = elim (Bool-cases (beq i h)) [
  | inl same ↦ absurd (clash (subst (λ k. get k m ≡ none) (beq→eq i h same) n))
  | inr differ ↦ rw differ x
]
  where
    clash : get h m ≡ none → ⊥
    clash n' = cc

pub oldest-get :
    (m : Map Entry) (h : Handle) (g : ℕ)
    → Distinct m
    → oldest m ≡ some (h, g)
    → (e : Entry) × (get h m ≡ some e) × (e.generation ≡ g)
unfolding oldest
oldest-get [] h g d o = cc
oldest-get ((i, f) ∷ m) h g d o = elim (Option-cases (oldest m)) [
  | inl empty ↦ is_head (ground (arith, empty))
  | inr ((h', g'), rest) ↦ elim (Bool-cases (leb f.generation g')) [
    | inl less ↦ is_head (ground (arith, rest, less))
    | inr more ↦
        let (e, x, y) = oldest-get m h g d.1 (ground (arith, rest, more)) in
        (e, get_tail i h f e m d.0 x, y)
  ]
]
  where
    is_head :
        ◌≡◌ {A = Handle × ℕ} (i, f.generation) (h, g)
        → (e : Entry) × (get h ((i, f) ∷ m) ≡ some e) × (e.generation ≡ g)
    is_head q = (
      f,
      subst (λ k. get k ((i, f) ∷ m) ≡ some f) (ap (λ a. a.0) q) (get_head i f m),
      ap (λ a. a.1) q,
    )

module _ (handle : Handle) (entries : Map Entry) where
  -- An eviction adds nothing.
  pub get-evict :
      (j : Handle) (e : Entry) → get j (evict handle entries) ≡ some e → get j entries ≡ some e
  unfolding evict
  get-evict j e h =
      elim (Bool-cases (length entries == capacity && not (is_some (get handle entries)))) [
        | inl full ↦ elim (Option-cases (oldest entries)) [
          | inl no_oldest ↦ rw (full, no_oldest) at h
          | inr ((h', g), o) ↦ still h' (rw (full, o) at h)
        ]
        | inr room ↦ rw room at h
      ]
    where
      still : (h' : Handle) → get j (remove h' entries) ≡ some e → get j entries ≡ some e
      still h' x = ground (arith, x, get-remove h' j entries)

  pub evict-Distinct : Distinct entries → Distinct (evict handle entries)
  unfolding evict
  evict-Distinct d =
      elim (Bool-cases (length entries == capacity && not (is_some (get handle entries)))) [
        | inl full ↦ elim (Option-cases (oldest entries)) [
          | inl no_oldest ↦ rw (full, no_oldest) d
          | inr ((h', g), o) ↦ rw (full, o) (remove-Distinct h' entries d)
        ]
        | inr room ↦ rw room d
      ]

  -- After an eviction there is room for the handle, or it is there already.
  pub length-evict :
      Distinct entries
      → length entries ≤ capacity
      → (length (evict handle entries) < capacity)
        ⊎ ((e : Entry) × (get handle (evict handle entries) ≡ some e)
            × (length (evict handle entries) ≤ capacity))
  unfolding evict
  length-evict d c = elim (Option-cases (get handle entries)) [
    | inr (e, x) ↦
        let same : evict handle entries ≡ entries = ground (arith, x) in rw same (inr (e, x, c))
    | inl absent ↦ elim (Option-cases (oldest entries)) [
      | inl no_oldest ↦ inl (ground (arith, absent, no_oldest, none_left entries no_oldest))
      | inr ((h', g), o) ↦
          let (e, x, _) = oldest-get entries h' g d o in
          inl (ground (arith, absent, o, length-remove_lt h' e entries x))
    ]
  ]
    where
      none_left : (m : Map Entry) → oldest m ≡ none → length m ≡ 0
      none_left [] h = refl
      none_left ((i, f) ∷ m) h = absurd (oldest-ne-none i f m h)

pub evict_drops :
    (handle : Handle) (entries : Map Entry) (j : Handle) (e : Entry)
    → get j entries ≡ some e
    → get j (evict handle entries) ≡ none
    → (length entries ≡ capacity)
      × (get handle entries ≡ none)
      × (g : ℕ) × (oldest entries ≡ some (j, g))
unfolding evict
evict_drops handle entries j e x dropped =
    elim (Bool-cases (length entries == capacity && not (is_some (get handle entries)))) [
      | inl full ↦ elim (Option-cases (oldest entries)) [
        | inl no_oldest ↦ absurd (clash (rw (full, no_oldest) at dropped))
        | inr ((h', g), o) ↦ named full h' g o (rw (full, o) at dropped)
      ]
      | inr room ↦ absurd (clash (rw room at dropped))
    ]
  where
    clash : get j entries ≡ none → ⊥
    clash n = cc

    named :
        (length entries == capacity && not (is_some (get handle entries))) ≡ true
        → (h' : Handle) (g : ℕ) → oldest entries ≡ some (h', g)
        → get j (remove h' entries) ≡ none
        → (length entries ≡ capacity)
          × (get handle entries ≡ none)
          × (g : ℕ) × (oldest entries ≡ some (j, g))
    named full h' g o n =
        let at_j : beq h' j ≡ true = ground (arith, n, get-remove h' j entries) in
        (
          ground (arith, full),
          ground (arith, full),
          g,
          subst (λ k. oldest entries ≡ some (k, g)) (beq→eq h' j at_j) o,
        )
