-- ===== src/Host/Codec.antt =====
-- The frame codec between the JSON envelope and the Noise transport:
-- crates/herdr-relay/src/frame_codec.rs. Compression (flate2) is the parameter `Zlib`.
use herdr_mobile.Base.{
  ℕ, ◌+◌, ◌-◌, ◌*◌, ◌/◌, ◌%◌, ◌^◌, zero, suc, ltb, ◌==◌, if◌then◌else◌, not, ◌||◌, Bytes, length,
  take, drop, List, [], ◌∷◌, ◌++◌, Option, none, some, Result, ok, err, Bool, is_some_and, secs,
}
use Prim.Native.String.{String}
pub mod Record
pub mod Chunks
pub mod Reassembly
pub mod Transport
pub mod Roundtrip

abbrev pub max_uncompressed_len : ℕ
max_uncompressed_len = 1048576

abbrev pub max_compressed_record_len : ℕ
max_compressed_record_len = 1049641

-- `noise::MAX_MESSAGE_LEN` less the AEAD tag, less the fragment header.
abbrev pub noise_plaintext_ceiling : ℕ
noise_plaintext_ceiling = 65535 - 16

abbrev pub max_chunk_len : ℕ
max_chunk_len = noise_plaintext_ceiling - 2

abbrev pub max_frag_count : ℕ
max_frag_count = 40

abbrev pub inter_fragment_timeout : ℕ
inter_fragment_timeout = secs 10

pub data FrameCodecError : Type 0 where
  envelope_too_large : FrameCodecError
  protocol_error : String → FrameCodecError

-- What successive calls of the decoder's `read` return: bytes, the end, or an error.
pub data Reads : Type 0 where
  finished : Reads
  failed : Reads
  chunk : Bytes → Reads → Reads

-- flate2's encoder over a whole buffer, and its decoder as the reads that it answers.
pub record Zlib : Type 0 where
  pub deflate : Bytes → Bytes
  pub reads : Bytes → Reads

unfoldable pub zlib_compress : Zlib → Bytes → Bytes
zlib_compress z bytes = z.deflate bytes

-- The loop of `bounded_zlib_decompress`, over the buffer that it has filled.
unfoldable pub decompress_loop : Bytes → Reads → Result FrameCodecError Bytes
decompress_loop out finished = ok out
decompress_loop out failed = err (protocol_error "zlib decompression failed (R-11-234)")
decompress_loop out (chunk c rest) =
    let more = decompress_loop (out ++ c) rest in
    if ltb max_uncompressed_len (length (out ++ c))
    then err (protocol_error "decompressed output exceeds the 1 MiB cap")
    else more

unfoldable pub bounded_zlib_decompress : Zlib → Bytes → Result FrameCodecError Bytes
unfolding decompress_loop
bounded_zlib_decompress z body = decompress_loop [] (z.reads body)

unfoldable pub to_be_bytes : ℕ → Bytes
to_be_bytes n = (n / 2 ^ 24 % 256) ∷ (n / 2 ^ 16 % 256) ∷ (n / 2 ^ 8 % 256) ∷ (n % 256) ∷ []

unfoldable pub from_be_bytes : ℕ → ℕ → ℕ → ℕ → ℕ
from_be_bytes a b c d = a * 2 ^ 24 + b * 2 ^ 16 + c * 2 ^ 8 + d

-- The codec byte and the body: codec 1 only when it shrinks the payload.
unfoldable pub choose_codec : Zlib → Bytes → ℕ × Bytes
unfolding zlib_compress
choose_codec z envelope =
    let compressed = zlib_compress z envelope in
    if ltb (length compressed) (length envelope) then (1, compressed) else (0, envelope)

unfoldable pub build_record : Zlib → Bytes → Result FrameCodecError Bytes
unfolding choose_codec to_be_bytes
build_record z envelope =
    if ltb max_uncompressed_len (length envelope)
    then err envelope_too_large
    else (let (codec, body) = choose_codec z envelope in
        ok (codec ∷ (to_be_bytes (length envelope % 2 ^ 32) ++ body)))

unfoldable pub decode_body : Zlib → ℕ → ℕ → Bytes → Result FrameCodecError Bytes
unfolding bounded_zlib_decompress
decode_body z codec uncompressed_len body =
    if ltb max_uncompressed_len uncompressed_len
    then err (protocol_error "declared uncompressed_len exceeds the 1 MiB cap (R-11-234)")
    else if codec == 0
    then (if length body == uncompressed_len
        then ok body
        else err (protocol_error "codec 0's uncompressed_len does not match its body length"))
    else if codec == 1
    then bounded_zlib_decompress z body
    else err (protocol_error "unrecognised codec byte (R-11-231)")

-- The last clause is a record shorter than its header.
unfoldable pub decode_record : Zlib → Bytes → Result FrameCodecError Bytes
unfolding decode_body from_be_bytes
decode_record z (codec ∷ b0 ∷ b1 ∷ b2 ∷ b3 ∷ body) =
    decode_body z codec (from_be_bytes b0 b1 b2 b3) body
decode_record z _ = err (protocol_error "compression record shorter than its 5-byte header")

-- `slice::chunks`: consecutive pieces of `n`, the last one shorter. The fuel is the length.
unfoldable pub chunks_fuel : ℕ → ℕ → Bytes → List Bytes
chunks_fuel zero n xs = []
chunks_fuel (suc fuel) n [] = []
chunks_fuel (suc fuel) n (x ∷ xs) = take n (x ∷ xs) ∷ chunks_fuel fuel n (drop n (x ∷ xs))

unfoldable pub chunks : ℕ → Bytes → List Bytes
unfolding chunks_fuel
chunks n xs = chunks_fuel (length xs) n xs

-- The `enumerate().map(..)` of the split, from the index `i`.
unfoldable pub number_fragments : ℕ → ℕ → List Bytes → List Bytes
number_fragments count i [] = []
number_fragments count i (c ∷ cs) = ((i % 256) ∷ count ∷ c) ∷ number_fragments count (i + 1) cs

unfoldable pub split_into_fragments : Bytes → List Bytes
unfolding number_fragments
split_into_fragments r =
    let pieces = chunks max_chunk_len r in number_fragments (length pieces % 256) 0 pieces

pub record PartialRecord : Type 0 where
  pub frag_count : ℕ  -- u8
  pub next_index : ℕ  -- u8
  pub buffer : Bytes
  pub last_fragment_at : ℕ

pub record Reassembler : Type 0 where
  pub partial : Option PartialRecord

abbrev pub fresh : Reassembler
fresh = record { partial = none }

abbrev pub Accepted : Type 0
Accepted = Reassembler × Result FrameCodecError (Option Bytes)

-- Every error path leaves the partial buffer discarded.
abbrev refuse : String → Accepted
refuse why = (fresh, err (protocol_error why))

-- A record that is complete: decoded, with nothing kept.
unfoldable pub complete : Result FrameCodecError Bytes → Accepted
complete (ok envelope) = (fresh, ok (some envelope))
complete (err e) = (fresh, err e)

unfoldable pub accept_first : Zlib → ℕ → ℕ → Bytes → ℕ → Accepted
unfolding complete
accept_first z frag_index frag_count piece now =
    if not (frag_index == 0)
    then refuse "the first fragment of a record must be frag_index 0"
    else if frag_count == 0 || ltb max_frag_count frag_count
    then refuse "frag_count is zero or exceeds the maximum of 40 (R-11-236)"
    else if ltb max_compressed_record_len (length piece)
    then refuse "running fragment byte total exceeds the compression-record cap"
    else if frag_count == 1
    then complete (decode_record z piece)
    else (
      record {
        partial = some (record {
          frag_count = frag_count;
          next_index = 1;
          buffer = piece;
          last_fragment_at = now;
        });
      },
      ok none,
    )

unfoldable pub accept_next : Zlib → PartialRecord → ℕ → ℕ → Bytes → ℕ → Accepted
unfolding complete
accept_next z p frag_index frag_count piece now =
    let buffer = p.buffer ++ piece in
    if not (frag_count == p.frag_count)
    then refuse "frag_count changed within one record"
    else if not (frag_index == p.next_index)
    then refuse "out-of-order, repeated, or skipped frag_index (R-11-237)"
    else if ltb max_compressed_record_len (length buffer)
    then refuse "running fragment byte total exceeds the compression-record cap"
    else if frag_index == frag_count - 1
    then complete (decode_record z buffer)
    else (
      record {
        partial = some (record {
          frag_count = p.frag_count;
          next_index = p.next_index + 1;
          buffer = buffer;
          last_fragment_at = now;
        });
      },
      ok none,
    )

unfoldable pub accept_parsed : Zlib → Option PartialRecord → ℕ → ℕ → Bytes → ℕ → Accepted
unfolding accept_first accept_next
accept_parsed z none frag_index frag_count piece now =
    accept_first z frag_index frag_count piece now
accept_parsed z (some p) frag_index frag_count piece now =
    accept_next z p frag_index frag_count piece now

-- The two header bytes; the last clause is a plaintext shorter than them.
unfoldable pub accept_header : Zlib → Option PartialRecord → Bytes → ℕ → Accepted
unfolding accept_parsed
accept_header z partial (frag_index ∷ frag_count ∷ piece) now =
    accept_parsed z partial frag_index frag_count piece now
accept_header z partial _ now = refuse "fragment shorter than its 2-byte header (R-11-235)"

abbrev pub timed_out : Option PartialRecord → ℕ → Bool
timed_out partial now =
    is_some_and partial (λ p. ltb inter_fragment_timeout (now - p.last_fragment_at))

unfoldable pub accept_fragment : Zlib → Reassembler → Bytes → ℕ → Accepted
unfolding accept_header
accept_fragment z r plaintext now =
    if timed_out r.partial now
    then refuse "no fragment arrived within 10 seconds of the previous one (R-11-238)"
    else accept_header z r.partial plaintext now
