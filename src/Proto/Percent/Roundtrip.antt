-- ===== src/Proto/Percent/Roundtrip.antt =====
-- `percent_decode` after `percent_encode`, of handle.rs.
use herdr_mobile.Base.{
  ==_iff, All, Bool-cases, Bytes, [], ap, arith, false, inl, inr, refl, some, true, ℕ, ◌%◌, ◌/◌,
  ◌<◌, ◌==◌, ◌∷◌, ◌≡◌,
}
use herdr_mobile.Base.Strings.{contains}
use herdr_mobile.Proto.Percent.{
  percent, is_unreserved, upper_hex, percent_encode, hex_value, from_hex, is_boundary, decode_from,
  percent_decode, from_utf8_lossy,
}

-- What `u8` can hold.
abbrev pub IsByte : ℕ → Type 0
IsByte b = b < 256

hex_value-upper_hex : (n : ℕ) → n < 16 → hex_value (upper_hex n) ≡ some n
hex_value-upper_hex n h = ground arith

from_hex-upper_hex : (b : ℕ) → b < 256 → from_hex (upper_hex (b / 16)) (upper_hex (b % 16)) ≡ some b
from_hex-upper_hex b h =
    rw
      (
        not_plus (b / 16) high,
        hex_value-upper_hex (b / 16) high,
        hex_value-upper_hex (b % 16) (omega arith),
      )
      (ap some (omega arith))
  where
    high : b / 16 < 16
    high = omega arith

    not_plus : (n : ℕ) → n < 16 → (upper_hex n == 43) ≡ false
    not_plus n h = ground arith

is_boundary-percent_encode : (bs : Bytes) → is_boundary (percent_encode bs) ≡ true
unfolding percent_encode
is_boundary-percent_encode [] = refl
is_boundary-percent_encode (b ∷ bs) = ground arith

unreserved-ne : (b : ℕ) → is_unreserved b ≡ true → (b == percent) ≡ false
unreserved-ne b h = ground arith

decode_from-percent_encode :
    (bs : Bytes) → All IsByte bs → decode_from 0 (percent_encode bs) ≡ some bs
unfolding percent_encode decode_from
decode_from-percent_encode [] h = refl
decode_from-percent_encode (b ∷ bs) (small, h) = elim (Bool-cases (is_unreserved b)) [
  | inl plain ↦
      rw plain (rw (unreserved-ne b plain, decode_from) (rw (decode_from-percent_encode bs h) refl))
  | inr coded ↦ rw coded (
      rw (is_boundary-percent_encode bs, decode_from)
        (rw (from_hex-upper_hex b small, decode_from) (rw (decode_from-percent_encode bs h) refl)))
]

-- Decoding what was encoded gives the text back, whatever its characters: there is no panic, and no
-- replacement character, if the bytes are UTF-8.
pub percent_decode-percent_encode :
    (bs : Bytes)
    → All IsByte bs
    → from_utf8_lossy bs ≡ bs
    → percent_decode (percent_encode bs) ≡ some bs
unfolding percent_decode
percent_decode-percent_encode bs h utf8 = rw (decode_from-percent_encode bs h) (ap some utf8)

-- The encoding keeps clear of every character that a query gives a meaning to.
pub contains-percent_encode :
    (c : ℕ) (bs : Bytes)
    → All IsByte bs
    → is_unreserved c ≡ false
    → (c == percent) ≡ false
    → contains c (percent_encode bs) ≡ false
unfolding percent_encode
contains-percent_encode c [] h k l = refl
contains-percent_encode c (b ∷ bs) (small, h) k l = elim (Bool-cases (is_unreserved b)) [
  | inl plain ↦ rw plain (ground (arith, contains-percent_encode c bs h k l, differ b plain))
  | inr coded ↦ rw coded (
      ground (
        arith,
        contains-percent_encode c bs h k l,
        differ (upper_hex (b / 16)) (digit (b / 16) (omega arith)),
        differ (upper_hex (b % 16)) (digit (b % 16) (omega arith)),
      ))
]
  where
    digit : (n : ℕ) → n < 16 → is_unreserved (upper_hex n) ≡ true
    digit n h = ground arith

    differ : (x : ℕ) → is_unreserved x ≡ true → (x == c) ≡ false
    differ x h = elim (Bool-cases (x == c)) [ inr e ↦ e | inl e ↦ absurd (clash x e h) ]
      where
        clash : (x : ℕ) → (x == c) ≡ true → is_unreserved x ≡ true → ⊥
        clash x e h = let same = ((==_iff x c).0 e) in cc
