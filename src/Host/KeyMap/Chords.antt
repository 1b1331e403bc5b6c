-- ===== src/Host/KeyMap/Chords.antt =====
-- The accepted chords of key_map.rs against a list of them.
use herdr_mobile.Base.{
  Bool, Bytes, List, Option, [], ap, arith, beq, beq→eq, codes, false, if◌then◌else◌, is_empty,
  is_ok, none, ok, refl, some, true, ℕ, ◌↔◌, ◌∷◌, ◌≡◌,
}
use herdr_mobile.Host.KeyMap.{
  permitted_modifiers, contains_name, filter_names, names_equal, is_valid_base, validate_chord,
  validate_name, split_chord, validate_key, to_ascii_lowercase, lower_byte,
}

abbrev pub ctrl : Bytes
ctrl = codes "ctrl"

abbrev pub alt : Bytes
alt = codes "alt"

abbrev pub shift : Bytes
shift = codes "shift"

-- The seven ways to hold modifiers.
pub data IsHeld : List Bytes → Type 0 where
  only_ctrl : IsHeld (ctrl ∷ [])
  only_alt : IsHeld (alt ∷ [])
  only_shift : IsHeld (shift ∷ [])
  ctrl_alt : IsHeld (ctrl ∷ alt ∷ [])
  ctrl_shift : IsHeld (ctrl ∷ shift ∷ [])
  alt_shift : IsHeld (alt ∷ shift ∷ [])
  all_three : IsHeld (ctrl ∷ alt ∷ shift ∷ [])

names_equal→eq : (xs ys : List Bytes) → names_equal xs ys ≡ true → xs ≡ ys
unfolding names_equal
names_equal→eq [] [] h = refl
names_equal→eq [] (y ∷ ys) h = cc
names_equal→eq (x ∷ xs) [] h = cc
names_equal→eq (x ∷ xs) (y ∷ ys) h = ground (arith, names_equal→eq xs ys, beq→eq x y)

abbrev kept : Bool → Bool → Bool → List Bytes
kept a b c =
    let r3 : List Bytes = if c then shift ∷ [] else [] in
    let r2 : List Bytes = if b then alt ∷ r3 else r3 in if a then ctrl ∷ r2 else r2

IsHeld-kept : (a b c : Bool) → is_empty (kept a b c) ≡ false → IsHeld (kept a b c)
IsHeld-kept true true true h = all_three
IsHeld-kept true true false h = ctrl_alt
IsHeld-kept true false true h = ctrl_shift
IsHeld-kept true false false h = only_ctrl
IsHeld-kept false true true h = alt_shift
IsHeld-kept false true false h = only_alt
IsHeld-kept false false true h = only_shift
IsHeld-kept false false false h = cc

-- What the filter keeps of the three modifiers.
IsHeld-filter_names :
    (p : Bytes → Bool)
    → is_empty (filter_names p permitted_modifiers) ≡ false
    → IsHeld (filter_names p permitted_modifiers)
unfolding filter_names
IsHeld-filter_names p h = IsHeld-kept (p ctrl) (p alt) (p shift) h

validate_chord→held :
    (modifiers : List Bytes) (base raw : Bytes)
    → validate_chord modifiers base raw ≡ ok tt
    → IsHeld modifiers × (is_valid_base base ≡ true)
unfolding validate_chord
validate_chord→held modifiers base raw h =
    let kept = filter_names (λ m. contains_name modifiers m) permitted_modifiers in
    let (full, same, valid) = tests modifiers base raw h in
    let e = names_equal→eq modifiers kept same in
    (rw e (IsHeld-filter_names (λ m. contains_name modifiers m) (rw e at full)), valid)
  where
    tests :
        (modifiers : List Bytes) (base raw : Bytes)
        → validate_chord modifiers base raw ≡ ok tt
        → (is_empty modifiers ≡ false)
          × (names_equal modifiers
                (filter_names (λ m. contains_name modifiers m) permitted_modifiers)
              ≡ true)
          × (is_valid_base base ≡ true)
    tests modifiers base raw h = ground (arith, h)

validate_chord-held :
    (modifiers : List Bytes) (base raw : Bytes)
    → IsHeld modifiers
    → is_valid_base base ≡ true
    → validate_chord modifiers base raw ≡ ok tt
unfolding validate_chord filter_names names_equal beq
validate_chord-held _ [] raw held valid = cc
validate_chord-held _ (b ∷ base) raw only_ctrl valid = rw valid refl
validate_chord-held _ (b ∷ base) raw only_alt valid = rw valid refl
validate_chord-held _ (b ∷ base) raw only_shift valid = rw valid refl
validate_chord-held _ (b ∷ base) raw ctrl_alt valid = rw valid refl
validate_chord-held _ (b ∷ base) raw ctrl_shift valid = rw valid refl
validate_chord-held _ (b ∷ base) raw alt_shift valid = rw valid refl
validate_chord-held _ (b ∷ base) raw all_three valid = rw valid refl

-- A chord is accepted exactly when its modifiers are one of the seven lists, in the order `ctrl`,
-- `alt`, `shift` and without repetition, and its base is one character or a named key.
pub validate_chord_iff :
    (modifiers : List Bytes) (base raw : Bytes)
    → (validate_chord modifiers base raw ≡ ok tt) ↔ (IsHeld modifiers × (is_valid_base base ≡ true))
validate_chord_iff modifiers base raw = (
  validate_chord→held modifiers base raw,
  λ (held, valid). validate_chord-held modifiers base raw held valid,
)

lower_byte_idem : (b : ℕ) → lower_byte (lower_byte b) ≡ lower_byte b
lower_byte_idem b = ground arith

to_ascii_lowercase_idem :
    (s : Bytes) → to_ascii_lowercase (to_ascii_lowercase s) ≡ to_ascii_lowercase s
to_ascii_lowercase_idem [] = refl
to_ascii_lowercase_idem (b ∷ s) =
    rw (lower_byte_idem b) (ap (◌∷◌ (lower_byte b)) (to_ascii_lowercase_idem s))

-- The name as it was sent is only for the message.
validate_chord_raw :
    (modifiers : List Bytes) (base raw raw' : Bytes)
    → is_ok (validate_chord modifiers base raw) ≡ is_ok (validate_chord modifiers base raw')
unfolding validate_chord
validate_chord_raw modifiers base raw raw' = ground arith

validate_name_raw :
    (raw raw' lower : Bytes) (chord : Option (List Bytes × Bytes))
    → is_ok (validate_name raw lower chord) ≡ is_ok (validate_name raw' lower chord)
validate_name_raw raw raw' lower none = ground arith
validate_name_raw raw raw' lower (some (modifiers, base)) =
    validate_chord_raw modifiers base raw raw'

-- Whether a key is accepted does not depend on the case of its ASCII letters.
pub validate_key-to_ascii_lowercase :
    (raw : Bytes) → is_ok (validate_key raw) ≡ is_ok (validate_key (to_ascii_lowercase raw))
unfolding validate_key
validate_key-to_ascii_lowercase raw = rw (to_ascii_lowercase_idem raw) (
    validate_name_raw raw (to_ascii_lowercase raw) (to_ascii_lowercase raw)
      (split_chord (to_ascii_lowercase raw)))
