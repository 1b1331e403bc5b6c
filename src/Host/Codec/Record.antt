-- ===== src/Host/Codec/Record.antt =====
-- The compression record of frame_codec.rs: `build_record` against `decode_record`.
use mathlib.Core.List.{append_assoc}
use herdr_mobile.Base.{
  ◌↔◌, ltb→lt, err, ◌⊎◌, ◌∷◌, ◌+◌, ℕ, ◌/◌, ◌%◌, ◌^◌, ◌≤◌, ◌<◌, ◌≡◌, refl, ap, ◌∙◌, ltb, Bytes,
  length, length-append, append_nil, [], ◌++◌, Option, none, some, ok, arith, Bool-cases,
  Option-cases, inl, inr,
}
use herdr_mobile.Host.Codec.{
  envelope_too_large, decode_body, choose_codec, build_record, to_be_bytes, decode_record,
  max_uncompressed_len, Zlib, Reads, finished, failed, chunk, decompress_loop,
  bounded_zlib_decompress, from_be_bytes,
}

-- The bytes that a run of reads yields, if it ends without an error.
unfoldable pub read_all : Reads → Option Bytes
read_all finished = some []
read_all failed = none
read_all (chunk c rest) = elim (read_all rest) [ none ↦ none | some d ↦ some (c ++ d) ]

-- zlib's contract: decompressing what was compressed gives it back.
pub record ZlibLaws (z : Zlib) : Type 0 where
  pub inflates : (bytes : Bytes) → read_all (z.reads (z.deflate bytes)) ≡ some bytes

decompress_loop_complete :
    (out : Bytes) (r : Reads) (d : Bytes)
    → read_all r ≡ some d
    → length (out ++ d) ≤ max_uncompressed_len
    → decompress_loop out r ≡ ok (out ++ d)
unfolding decompress_loop read_all
decompress_loop_complete out finished d h l = ground (arith, append_nil out)
decompress_loop_complete out failed d h l = cc
decompress_loop_complete out (chunk c rest) d h l = elim (Option-cases (read_all rest)) [
  | inl e ↦ ground (arith, e)
  | inr (d', e) ↦
      let whole : out ++ d ≡ (out ++ c) ++ d' = ground (arith, e, append_assoc out c d') in
      ground (
        arith,
        e,
        whole,
        ap length whole,
        length-append (out ++ c) d',
        decompress_loop_complete (out ++ c) rest d' e,
      )
]

decompress_loop_sound :
    (out : Bytes) (r : Reads) (b : Bytes)
    → length out ≤ max_uncompressed_len
    → decompress_loop out r ≡ ok b
    → (d : Bytes) × (read_all r ≡ some d) × (b ≡ out ++ d) × (length b ≤ max_uncompressed_len)
unfolding decompress_loop read_all
decompress_loop_sound out finished b l h =
    ([], refl, ground (arith, append_nil out), ground (arith, append_nil out))
decompress_loop_sound out failed b l h = cc
decompress_loop_sound out (chunk c rest) b l h =
    elim (Bool-cases (ltb max_uncompressed_len (length (out ++ c)))) [
      | inl over ↦ ground (arith, over)
      | inr fits ↦
          let (d, e, whole, bound) =
            decompress_loop_sound (out ++ c) rest b (ground arith) (ground (arith, fits)) in
          (c ++ d, rw e, whole ∙ append_assoc out c d, bound)
    ]

from_be_bytes-to_be_bytes :
    (n : ℕ)
    → n < 2 ^ 32
    → from_be_bytes (n / 2 ^ 24 % 256) (n / 2 ^ 16 % 256) (n / 2 ^ 8 % 256) (n % 256) ≡ n
unfolding from_be_bytes
from_be_bytes-to_be_bytes n h = omega arith

-- Decompression succeeds with `out` exactly when the decoder's reads end cleanly, yield `out`, and
-- `out` is at most 1 MiB.
pub bounded_zlib_decompress_iff :
    (z : Zlib) (body out : Bytes)
    → (bounded_zlib_decompress z body ≡ ok out)
      ↔ ((read_all (z.reads body) ≡ some out) × (length out ≤ max_uncompressed_len))
unfolding bounded_zlib_decompress
bounded_zlib_decompress_iff z body out = (
  λ h.
      let (d, e, whole, bound) = decompress_loop_sound [] (z.reads body) out (omega arith) h in
      (rw whole e, bound),
  λ h. decompress_loop_complete [] (z.reads body) out h.0 h.1,
)

decode-build_codec :
    (z : Zlib) (laws : ZlibLaws z) (envelope : Bytes)
    → length envelope ≤ max_uncompressed_len
    → decode_body z (choose_codec z envelope).0 (length envelope) (choose_codec z envelope).1
      ≡ ok envelope
unfolding decode_body choose_codec
decode-build_codec z laws envelope h =
    elim (Bool-cases (ltb (length (z.deflate envelope)) (length envelope))) [
      | inl shrinks ↦ ground (
        arith,
        shrinks,
        (bounded_zlib_decompress_iff z (z.deflate envelope) envelope).1 (laws.inflates envelope, h),
      )
      | inr grows ↦ ground (arith, grows)
    ]

-- The body that is chosen is never longer than the envelope.
length-choose_codec-le :
    (z : Zlib) (envelope : Bytes) → length (choose_codec z envelope).1 ≤ length envelope
unfolding choose_codec
length-choose_codec-le z envelope = ground arith

abbrev pub record_of : Zlib → Bytes → Bytes
record_of z envelope =
    (choose_codec z envelope).0
    ∷ (to_be_bytes (length envelope % 2 ^ 32) ++ (choose_codec z envelope).1)

pub build_record-record_of :
    (z : Zlib) (envelope : Bytes)
    → length envelope ≤ max_uncompressed_len
    → build_record z envelope ≡ ok (record_of z envelope)
unfolding build_record
build_record-record_of z envelope h = ground arith

pub length-record_of :
    (z : Zlib) (envelope : Bytes)
    → (5 ≤ length (record_of z envelope)) × (length (record_of z envelope) ≤ length envelope + 5)
unfolding to_be_bytes
length-record_of z envelope = omega (arith, length-choose_codec-le z envelope)

pub decode_record-record_of :
    (z : Zlib) (laws : ZlibLaws z) (envelope : Bytes)
    → length envelope ≤ max_uncompressed_len
    → decode_record z (record_of z envelope) ≡ ok envelope
unfolding decode_record to_be_bytes
decode_record-record_of z laws envelope h =
    rw (small, from_be_bytes-to_be_bytes (length envelope) (omega arith))
      (decode-build_codec z laws envelope h)
  where
    small : length envelope % 2 ^ 32 ≡ length envelope
    small = omega arith

-- An envelope of at most 1 MiB has a record, which decodes to the envelope; the sender's codec
-- choice never makes it more than five bytes longer. A longer envelope is refused.
pub decode_record-build_record :
    (z : Zlib) (envelope : Bytes)
    → ZlibLaws z
    → ((length envelope ≤ max_uncompressed_len)
        × (build_record z envelope ≡ ok (record_of z envelope))
        × (length (record_of z envelope) ≤ length envelope + 5)
        × (decode_record z (record_of z envelope) ≡ ok envelope))
      ⊎ ((max_uncompressed_len < length envelope)
          × (build_record z envelope ≡ err envelope_too_large))
unfolding build_record
decode_record-build_record z envelope laws =
    elim (Bool-cases (ltb max_uncompressed_len (length envelope))) [
      | inl over ↦ inr (ltb→lt _ _ over, ground (arith, over))
      | inr fits ↦
          let h : length envelope ≤ max_uncompressed_len = ground (arith, fits) in
          inl (
            h,
            build_record-record_of z envelope h,
            (length-record_of z envelope).1,
            decode_record-record_of z laws envelope h,
          )
    ]

-- Whatever a peer sends, a record that decodes yields at most 1 MiB.
pub length-decode_record :
    (z : Zlib) (r envelope : Bytes)
    → decode_record z r ≡ ok envelope
    → length envelope ≤ max_uncompressed_len
unfolding decode_record
length-decode_record z (c ∷ b0 ∷ b1 ∷ b2 ∷ b3 ∷ body) envelope h =
    body_bound c (from_be_bytes b0 b1 b2 b3) h
  where
    body_bound :
        (codec n : ℕ)
        → decode_body z codec n body ≡ ok envelope
        → length envelope ≤ max_uncompressed_len
    body_bound codec n h = ground (arith, (bounded_zlib_decompress_iff z body envelope).0)
length-decode_record z _ envelope h = cc
