-- ===== src/Host/KeyMap.antt =====
-- The key names that `send_input` accepts: crates/herdr-relay/src/watch/key_map.rs, on the UTF-8
-- bytes of a name.
use herdr_mobile.Base.{
  Bool, Bytes, List, Option, Result, [], all, any, beq, codes, err, false, if◌then◌else◌, is_empty,
  is_some_and, leb, ltb, map, none, not, ok, some, suc, true, ℕ, ◌&&◌, ◌*◌, ◌+◌, ◌-◌, ◌==◌, ◌^◌,
  ◌||◌, ◌∷◌,
}
use herdr_mobile.Base.Strings.{strip_prefix, split, contains}
pub mod Chords

abbrev pub named_keys : List Bytes
named_keys =
    codes "up"
    ∷ codes "down"
    ∷ codes "left"
    ∷ codes "right"
    ∷ codes "enter"
    ∷ codes "return"
    ∷ codes "tab"
    ∷ codes "esc"
    ∷ codes "escape"
    ∷ codes "backspace"
    ∷ codes "space"
    ∷ []

abbrev pub permitted_modifiers : List Bytes
permitted_modifiers = codes "ctrl" ∷ codes "alt" ∷ codes "shift" ∷ []

abbrev pub forbidden_modifiers : List Bytes
forbidden_modifiers = codes "super" ∷ codes "cmd" ∷ codes "meta" ∷ []

pub data RejectedKey : Type 0 where
  rejected : Bytes → RejectedKey

abbrev pub lower_byte : ℕ → ℕ
lower_byte b = if leb 65 b && leb b 90 then b + 32 else b

abbrev pub to_ascii_lowercase : Bytes → Bytes
to_ascii_lowercase s = map lower_byte s

-- `contains` of a list of names.
abbrev pub contains_name : List Bytes → Bytes → Bool
contains_name names name = any (λ n. beq n name) names

abbrev is_digit : ℕ → Bool
is_digit b = leb 48 b && leb b 57

abbrev value_from : ℕ → Bytes → ℕ
value_from n [] = n
value_from n (d ∷ ds) = value_from (n * 10 + (d - 48)) ds

-- `parse::<u32>` of digits, which fails on a number that a `u32` does not hold.
abbrev parse_u32 : Bytes → Option ℕ
parse_u32 ds = if ltb (value_from 0 ds) (2 ^ 32) then some (value_from 0 ds) else none

abbrev is_number_to_99 : Option Bytes → Bool
is_number_to_99 none = false
is_number_to_99 (some rest) =
    if is_empty rest || not (all is_digit rest)
    then false
    else is_some_and (parse_u32 rest) (λ n. leb n 99)

unfoldable pub is_function_key : Bytes → Bool
unfolding strip_prefix
is_function_key lower = is_number_to_99 (strip_prefix (codes "f") lower)

-- The last of the parts is the base.
abbrev pub split_last : List Bytes → Option (List Bytes × Bytes)
split_last [] = none
split_last (p ∷ ps) = elim (split_last ps) [
  | none ↦ some ([], p)
  | some (front, last) ↦ some (p ∷ front, last)
]

unfoldable pub split_chord : Bytes → Option (List Bytes × Bytes)
unfolding split
split_chord lower = if contains 43 lower then split_last (split 43 lower) else none

unfoldable pub filter_names : (Bytes → Bool) → List Bytes → List Bytes
filter_names p [] = []
filter_names p (n ∷ ns) = let rest = filter_names p ns in if p n then n ∷ rest else rest

unfoldable pub names_equal : List Bytes → List Bytes → Bool
names_equal [] [] = true
names_equal (x ∷ xs) (y ∷ ys) = beq x y && names_equal xs ys
names_equal _ _ = false

-- The bytes that begin a character.
abbrev pub count_chars : Bytes → ℕ
count_chars [] = 0
count_chars (b ∷ bs) =
    let rest = count_chars bs in if leb 128 b && ltb b 192 then rest else suc rest

abbrev pub is_valid_base : Bytes → Bool
is_valid_base base = count_chars base == 1 || contains_name named_keys base

unfoldable pub validate_chord : List Bytes → Bytes → Bytes → Result RejectedKey Unit
validate_chord modifiers base raw =
    if is_empty modifiers || is_empty base
    then err (rejected raw)
    else if any
        (λ m. not (contains_name permitted_modifiers m) || contains_name forbidden_modifiers m)
        modifiers
    then err (rejected raw)
    else if not
        (names_equal modifiers (filter_names (λ m. contains_name modifiers m) permitted_modifiers))
    then err (rejected raw)
    else if is_valid_base base
    then ok tt
    else err (rejected raw)

abbrev pub validate_name : Bytes → Bytes → Option (List Bytes × Bytes) → Result RejectedKey Unit
validate_name raw lower (some (modifiers, base)) = validate_chord modifiers base raw
validate_name raw lower none =
    if contains_name named_keys lower || is_function_key lower then ok tt else err (rejected raw)

unfoldable pub validate_key : Bytes → Result RejectedKey Unit
validate_key raw = let lower = to_ascii_lowercase raw in validate_name raw lower (split_chord lower)
