-- ===== src/Proto/Samples.antt =====
-- Sample values for handle.rs and phrase.rs: a base64 engine, a handle, a pairing URI and a word list.
use herdr_mobile.Proto.Phrase.{contains_word, eff_wordlist_entry_count}
use herdr_mobile.Proto.Phrase.Segments.{Entry, whole, halves, IsUnambiguous}
use herdr_mobile.Base.{
  All, Bool-cases, Bytes, List, [], all, ap, arith, beq, beq→eq, codes, false, if◌then◌else◌, inl,
  inr, leb, length, ltb, refl, some, subst, suc, true, zero, ℕ, ◌%◌, ◌*◌, ◌+◌, ◌-◌, ◌/◌, ◌<◌, ◌==◌,
  ◌∷◌, ◌≡◌,
}
use herdr_mobile.Base.Strings.{contains}
use herdr_mobile.Proto.Percent.Roundtrip.{IsByte}
use herdr_mobile.Proto.PairingUri.{Base64, PairingUri}
use herdr_mobile.Proto.PairingUri.Roundtrip.{Base64Laws}

-- The URL-safe base64 of bytes, without padding.
abbrev character : ℕ → ℕ
character n =
    if ltb n 26
    then n + 65
    else if ltb n 52
    then n + 71
    else if ltb n 62
    then n - 4
    else if n == 62
    then 45
    else 95

abbrev value : ℕ → ℕ
value c =
    if c == 45
    then 62
    else if c == 95
    then 63
    else if leb c 57
    then c + 4
    else if leb c 90
    then c - 65
    else c - 71

unfoldable pub encode : Bytes → Bytes
encode [] = []
encode (a ∷ []) = character (a / 4) ∷ character (a % 4 * 16) ∷ []
encode (a ∷ b ∷ []) =
    character (a / 4) ∷ character (a % 4 * 16 + b / 16) ∷ character (b % 16 * 4) ∷ []
encode (a ∷ b ∷ c ∷ rest) =
    character (a / 4)
    ∷ character (a % 4 * 16 + b / 16)
    ∷ character (b % 16 * 4 + c / 64)
    ∷ character (c % 64)
    ∷ encode rest

unfoldable pub decode_values : Bytes → Bytes
decode_values (w ∷ x ∷ y ∷ z ∷ rest) =
    (value w * 4 + value x / 16)
    ∷ (value x % 16 * 16 + value y / 4)
    ∷ (value y % 4 * 64 + value z)
    ∷ decode_values rest
decode_values (w ∷ x ∷ y ∷ []) =
    (value w * 4 + value x / 16) ∷ (value x % 16 * 16 + value y / 4) ∷ []
decode_values (w ∷ x ∷ []) = (value w * 4 + value x / 16) ∷ []
decode_values _ = []

abbrev pub base64 : Base64
base64 = record { encode = encode; decode = λ c. some (decode_values c) }

value-character : (n : ℕ) → n < 64 → value (character n) ≡ n
value-character n h = ground arith

decode_values-encode : (h : Bytes) → All IsByte h → decode_values (encode h) ≡ h
unfolding encode decode_values
decode_values-encode [] h = refl
decode_values-encode (a ∷ []) (ha, _) =
    rw (value-character (a / 4) (omega arith), value-character (a % 4 * 16) (omega arith))
      (ap (λ k. k ∷ []) (omega arith))
decode_values-encode (a ∷ b ∷ []) (ha, (hb, _)) =
    rw
      (
        value-character (a / 4) (omega arith),
        value-character (a % 4 * 16 + b / 16) (omega arith),
        value-character (b % 16 * 4) (omega arith),
      )
      (cc (first_byte a b ha hb, last_byte a b hb))
  where
    first_byte : (a b : ℕ) → a < 256 → b < 256 → a / 4 * 4 + (a % 4 * 16 + b / 16) / 16 ≡ a
    first_byte a b ha hb = omega arith

    last_byte : (a b : ℕ) → b < 256 → (a % 4 * 16 + b / 16) % 16 * 16 + (b % 16 * 4) / 4 ≡ b
    last_byte a b hb = omega arith
decode_values-encode (a ∷ b ∷ c ∷ rest) (ha, (hb, (hc, h))) =
    rw
      (
        value-character (a / 4) (omega arith),
        value-character (a % 4 * 16 + b / 16) (omega arith),
        value-character (b % 16 * 4 + c / 64) (omega arith),
        value-character (c % 64) (omega arith),
      )
      (cc (one a b hb, two a b c hb hc, three b c hc, decode_values-encode rest h))
  where
    one : (a b : ℕ) → b < 256 → a / 4 * 4 + (a % 4 * 16 + b / 16) / 16 ≡ a
    one a b hb = omega arith

    two :
        (a b c : ℕ)
        → b < 256
        → c < 256
        → (a % 4 * 16 + b / 16) % 16 * 16 + (b % 16 * 4 + c / 64) / 4 ≡ b
    two a b c hb hc = omega arith

    three : (b c : ℕ) → c < 256 → (b % 16 * 4 + c / 64) % 4 * 64 + c % 64 ≡ c
    three b c hc = omega arith

length-encode_lem : (h : Bytes) → length (encode h) ≡ (4 * length h + 2) / 3
unfolding encode
length-encode_lem [] = omega arith
length-encode_lem (a ∷ []) = omega arith
length-encode_lem (a ∷ b ∷ []) = omega arith
length-encode_lem (a ∷ b ∷ c ∷ rest) = omega (arith, length-encode_lem rest)

not_ampersand : (n : ℕ) → n < 64 → (character n == 38) ≡ false
not_ampersand n h = ground arith

contains-encode : (h : Bytes) → All IsByte h → contains 38 (encode h) ≡ false
unfolding encode
contains-encode [] h = refl
contains-encode (a ∷ []) (ha, _) =
    rw (not_ampersand (a / 4) (omega arith), not_ampersand (a % 4 * 16) (omega arith)) refl
contains-encode (a ∷ b ∷ []) (ha, (hb, _)) =
    rw
      (
        not_ampersand (a / 4) (omega arith),
        not_ampersand (a % 4 * 16 + b / 16) (omega arith),
        not_ampersand (b % 16 * 4) (omega arith),
      )
      refl
contains-encode (a ∷ b ∷ c ∷ rest) (ha, (hb, (hc, h))) =
    rw
      (
        not_ampersand (a / 4) (omega arith),
        not_ampersand (a % 4 * 16 + b / 16) (omega arith),
        not_ampersand (b % 16 * 4 + c / 64) (omega arith),
        not_ampersand (c % 64) (omega arith),
      )
      (contains-encode rest h)

pub base64-Base64Laws : Base64Laws base64
base64-Base64Laws = record {
  decode-encode = λ h bytes size. ap some (decode_values-encode h bytes);
  length-encode = λ h size. omega (arith, length-encode_lem h, size);
  alphabet = contains-encode;
}

abbrev pub origin : Bytes
origin = codes "https://relay.example:8443"

abbrev pub a_handle : Bytes
a_handle =
    0 ∷ 17 ∷ 34 ∷ 51 ∷ 68 ∷ 85 ∷ 102 ∷ 119 ∷ 136 ∷ 153 ∷ 170 ∷ 187 ∷ 204 ∷ 221 ∷ 238 ∷ 255 ∷ []

abbrev pub a_uri : PairingUri
a_uri = record { relay_origin = origin; handle = a_handle; phrase = codes "alpha-bravo-t-shirt" }

pub all_bytes : (bs : Bytes) → all (λ b. ltb b 256) bs ≡ true → All IsByte bs
all_bytes [] h = tt
all_bytes (b ∷ bs) h = (ground arith, all_bytes bs (ground arith))

-- A list of 7776 words, one of which has a hyphen.
unfoldable pub repeat_word : ℕ → Bytes → List Bytes
repeat_word zero w = []
repeat_word (suc n) w = w ∷ repeat_word n w

unfoldable pub sample_words : List Bytes
sample_words = codes "t-shirt" ∷ codes "tan" ∷ repeat_word 7774 (codes "zoom")

length-repeat_word : (n : ℕ) (w : Bytes) → length (repeat_word n w) ≡ n
unfolding repeat_word
length-repeat_word zero w = refl
length-repeat_word (suc n) w = ap suc (length-repeat_word n w)

pub length-sample_words : length sample_words ≡ eff_wordlist_entry_count
unfolding sample_words
length-sample_words = omega (arith, length-repeat_word 7774 (codes "zoom"))

contains-repeat_word :
    (n : ℕ) (w v : Bytes) → beq w v ≡ false → contains_word (repeat_word n w) v ≡ false
unfolding repeat_word
contains-repeat_word zero w v h = refl
contains-repeat_word (suc n) w v h = rw h (contains-repeat_word n w v h)

pub sample_words-IsUnambiguous : IsUnambiguous sample_words
unfolding sample_words beq
sample_words-IsUnambiguous w known = elim (Bool-cases (beq (codes "t-shirt") w)) [
  | inl shirt ↦ subst (Entry sample_words) (beq→eq (codes "t-shirt") w shirt) (
      halves (codes "t") (codes "shirt") (refl, refl) (refl, refl)
        (contains-repeat_word 7774 (codes "zoom") (codes "t") refl))
  | inr other ↦ elim (Bool-cases (beq (codes "tan") w)) [
    | inl tan ↦ subst (Entry sample_words) (beq→eq (codes "tan") w tan) (whole (refl, refl))
    | inr another ↦ elim (Bool-cases (beq (codes "zoom") w)) [
      | inl zoom ↦ subst (Entry sample_words) (beq→eq (codes "zoom") w zoom) (whole (refl, refl))
      | inr last ↦ absurd (unknown other another last)
    ]
  ]
]
  where
    unknown :
        beq (codes "t-shirt") w ≡ false
        → beq (codes "tan") w ≡ false
        → beq (codes "zoom") w ≡ false
        → ⊥
    unknown a b c = cc (known, a, b, contains-repeat_word 7774 (codes "zoom") w c)
