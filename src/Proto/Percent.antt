-- ===== src/Proto/Percent.antt =====
-- Percent encoding: `percent_encode` and `percent_decode` of
-- crates/herdr-relay-proto/src/handle.rs, on the UTF-8 bytes of a text.
use herdr_mobile.Base.{
  Bool, Bytes, Option, [], false, if◌then◌else◌, leb, ltb, none, not, some, suc, true, zero, ℕ, ◌%◌,
  ◌&&◌, ◌*◌, ◌++◌, ◌+◌, ◌-◌, ◌/◌, ◌==◌, ◌||◌, ◌∷◌,
}
pub mod Roundtrip

abbrev pub percent : ℕ
percent = 37

-- The pattern of the bytes that stand for themselves.
abbrev pub is_unreserved : ℕ → Bool
is_unreserved b =
    (leb 65 b && leb b 90)
    || ((leb 97 b && leb b 122)
        || ((leb 48 b && leb b 57) || (b == 45 || (b == 46 || (b == 95 || b == 126)))))

-- One digit of the format `02X`.
abbrev pub upper_hex : ℕ → ℕ
upper_hex n = if ltb n 10 then n + 48 else n + 55

unfoldable pub percent_encode : Bytes → Bytes
percent_encode [] = []
percent_encode (b ∷ bs) =
    let rest = percent_encode bs in
    if is_unreserved b then b ∷ rest else percent ∷ upper_hex (b / 16) ∷ upper_hex (b % 16) ∷ rest

abbrev pub hex_value : ℕ → Option ℕ
hex_value c =
    if leb 48 c && leb c 57
    then some (c - 48)
    else if leb 65 c && leb c 70
    then some (c - 55)
    else if leb 97 c && leb c 102
    then some (c - 87)
    else none

abbrev two_digits : Option ℕ → Option ℕ → Option ℕ
two_digits (some high) (some low) = some (high * 16 + low)
two_digits _ _ = none

-- `u8::from_str_radix(_, 16)` of two characters: a leading `+` is allowed.
abbrev pub from_hex : ℕ → ℕ → Option ℕ
from_hex a b = if a == 43 then hex_value b else two_digits (hex_value a) (hex_value b)

-- What stands after a `%`: too little for a slice of two, a slice that does not end at a character
-- boundary, or a slice of two bytes with the value that it spells.
pub data Escape : Type 0 where
  too_short splits_character : Escape
  digits : Option ℕ → Escape

abbrev is_boundary : Bytes → Bool
is_boundary [] = true
is_boundary (b ∷ bs) = not (leb 128 b && ltb b 192)

abbrev pub escape : Bytes → Escape
escape (a ∷ b ∷ rest) = if is_boundary rest then digits (from_hex a b) else splits_character
escape _ = too_short

abbrev cons_some : ℕ → Option Bytes → Option Bytes
cons_some b none = none
cons_some b (some bs) = some (b ∷ bs)

-- The loop, `skip` bytes of an escape still to be passed over. `none` is the panic of the slice.
unfoldable pub decode_from : ℕ → Bytes → Option Bytes
decode_from skip [] = some []
decode_from (suc skip) (b ∷ bs) = decode_from skip bs
decode_from zero (b ∷ bs) = elim (b == percent) [
  | false ↦ cons_some b (decode_from 0 bs)
  | true ↦ elim (escape bs) [
    | too_short ↦ cons_some b (decode_from 0 bs)
    | splits_character ↦ none
    | digits none ↦ cons_some b (decode_from 0 bs)
    | digits (some value) ↦ cons_some value (decode_from 2 bs)
  ]
]

-- A UTF-8 sequence that is not complete: the range of its next byte, and how many follow that one.
pub record Pending : Type 0 where
  pub bytes : Bytes
  pub low : ℕ
  pub high : ℕ
  pub more : ℕ

abbrev replacement : Bytes
replacement = 239 ∷ 191 ∷ 189 ∷ []

abbrev pending : ℕ → ℕ → ℕ → ℕ → Bytes × Option Pending
pending b low high more =
    ([], some (record { bytes = b ∷ []; low = low; high = high; more = more }))

-- The first byte of a sequence.
abbrev lead : ℕ → Bytes × Option Pending
lead b =
    if ltb b 128
    then (b ∷ [], none)
    else if leb 194 b && leb b 223
    then pending b 128 191 0
    else if b == 224
    then pending b 160 191 1
    else if b == 237
    then pending b 128 159 1
    else if leb 225 b && leb b 239
    then pending b 128 191 1
    else if b == 240
    then pending b 144 191 2
    else if leb 241 b && leb b 243
    then pending b 128 191 2
    else if b == 244
    then pending b 128 143 2
    else (replacement, none)

abbrev next : Pending → ℕ → ℕ → Bytes × Option Pending
next p b zero = (p.bytes ++ b ∷ [], none)
next p b (suc more) =
    ([], some (record { bytes = p.bytes ++ b ∷ []; low = 128; high = 191; more = more }))

abbrev feed : Option Pending → ℕ → Bytes × Option Pending
feed none b = lead b
feed (some p) b =
    if leb p.low b && leb b p.high then next p b p.more else (replacement ++ (lead b).0, (lead b).1)

unfoldable pub lossy_from : Option Pending → Bytes → Bytes
lossy_from none [] = []
lossy_from (some p) [] = replacement
lossy_from p (b ∷ bs) = (feed p b).0 ++ lossy_from (feed p b).1 bs

-- `String::from_utf8_lossy`.
abbrev pub from_utf8_lossy : Bytes → Bytes
from_utf8_lossy bs = lossy_from none bs

abbrev map_lossy : Option Bytes → Option Bytes
map_lossy none = none
map_lossy (some bs) = some (from_utf8_lossy bs)

unfoldable pub percent_decode : Bytes → Option Bytes
unfolding decode_from lossy_from
percent_decode input = map_lossy (decode_from 0 input)
