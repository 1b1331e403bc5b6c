-- ===== src/Host/Codec/Reassembly.antt =====
-- The receive side of frame_codec.rs: what every fragment, of whatever peer, does to a
-- `Reassembler`.
use herdr_mobile.Base.{
  false, [], is_ok, Bool-cases, Bytes, Option, Result, arith, err, inl, inr, length, none, ok, refl,
  some, ℕ, ◌++◌, ◌+◌, ◌<◌, ◌∷◌, ◌≡◌, ◌≤◌,
}
use herdr_mobile.Host.Codec.{
  max_uncompressed_len, max_compressed_record_len, max_frag_count, inter_fragment_timeout, Zlib,
  FrameCodecError, PartialRecord, Reassembler, fresh, Accepted, complete, decode_record,
  accept_first, accept_next, accept_header, accept_fragment, timed_out,
}
use herdr_mobile.Host.Codec.Record.{length-decode_record}

-- A record in progress has 2 to 40 fragments, has seen at least one and not all of them, and its
-- buffer is within the cap.
abbrev pub PartialIsValid : Option PartialRecord → Type 0
PartialIsValid none = Unit
PartialIsValid (some p) =
    (2 ≤ p.frag_count)
    × (p.frag_count ≤ max_frag_count)
    × (1 ≤ p.next_index)
    × (p.next_index < p.frag_count)
    × (length p.buffer ≤ max_compressed_record_len)

-- The buffer and the index that the next fragment continues.
abbrev pub buffer_of : Option PartialRecord → Bytes
buffer_of none = []
buffer_of (some p) = p.buffer

abbrev pub index_of : Option PartialRecord → ℕ
index_of none = 0
index_of (some p) = p.next_index

-- A fragment that continues the record in progress: the one with the next index, of the same count.
abbrev pub Continues : Option PartialRecord → ℕ → ℕ → Type 0
Continues none i n = i ≡ 0
Continues (some p) i n = (i ≡ p.next_index) × (n ≡ p.frag_count)

-- The fragment at the index `i` of `n` is kept at the end of what was there.
abbrev Keeps : Option PartialRecord → ℕ → ℕ → Bytes → ℕ → Reassembler → Type 0
Keeps before i n piece now r =
    Continues before i n
    × (i + 1 < n)
    × (r.partial
        ≡ some (record {
          frag_count = n;
          next_index = i + 1;
          buffer = buffer_of before ++ piece;
          last_fragment_at = now;
        }))
    × PartialIsValid r.partial

-- The fragment is the last of its record, which is decoded.
abbrev Completes : Zlib → Option PartialRecord → ℕ → ℕ → Bytes → Reassembler → Bytes → Type 0
Completes z before i n piece r envelope =
    Continues before i n
    × (i + 1 ≡ n)
    × (decode_record z (buffer_of before ++ piece) ≡ ok envelope)
    × (r.partial ≡ none)
    × (length envelope ≤ max_uncompressed_len)

-- What one fragment may lead to: it is kept, it completes its record, or a failure has discarded
-- the buffer.
abbrev pub IsSound : Zlib → Option PartialRecord → ℕ → ℕ → Bytes → ℕ → Accepted → Type 0
IsSound z before i n piece now (r, err e) = r.partial ≡ none
IsSound z before i n piece now (r, ok none) = Keeps before i n piece now r
IsSound z before i n piece now (r, ok (some envelope)) = Completes z before i n piece r envelope

-- The same of a plaintext, whose first two bytes are the index and the count.
abbrev pub IsSoundFor : Zlib → Option PartialRecord → Bytes → ℕ → Accepted → Type 0
IsSoundFor z before (i ∷ n ∷ piece) now accepted = IsSound z before i n piece now accepted
IsSoundFor z before _ now (r, answer) = (r.partial ≡ none) × (is_ok answer ≡ false)

complete-IsSound :
    (z : Zlib) (before : Option PartialRecord) (i n : ℕ) (piece : Bytes) (now : ℕ)
    → Continues before i n
    → i + 1 ≡ n
    → IsSound z before i n piece now (complete (decode_record z (buffer_of before ++ piece)))
unfolding complete
complete-IsSound z before i n piece now next last =
    go (decode_record z (buffer_of before ++ piece)) refl
  where
    go :
        (d : Result FrameCodecError Bytes)
        → decode_record z (buffer_of before ++ piece) ≡ d
        → IsSound z before i n piece now (complete d)
    go (ok envelope) e =
        (next, last, e, refl, length-decode_record z (buffer_of before ++ piece) envelope e)
    go (err x) e = refl

accept_first-IsSound :
    (z : Zlib) (i n : ℕ) (piece : Bytes) (now : ℕ)
    → IsSound z none i n piece now (accept_first z i n piece now)
unfolding accept_first
accept_first-IsSound z i n piece now = ground (arith, complete-IsSound z none i n piece now)

accept_next-IsSound :
    (z : Zlib) (p : PartialRecord) (i n : ℕ) (piece : Bytes) (now : ℕ)
    → PartialIsValid (some p)
    → IsSound z (some p) i n piece now (accept_next z p i n piece now)
unfolding accept_next
accept_next-IsSound z p i n piece now v = ground (arith, complete-IsSound z (some p) i n piece now)

accept_header-IsSound :
    (z : Zlib) (partial : Option PartialRecord) (plaintext : Bytes) (now : ℕ)
    → PartialIsValid partial
    → IsSoundFor z partial plaintext now (accept_header z partial plaintext now)
unfolding accept_header
accept_header-IsSound z none (i ∷ n ∷ piece) now v = accept_first-IsSound z i n piece now
accept_header-IsSound z (some p) (i ∷ n ∷ piece) now v = accept_next-IsSound z p i n piece now v
accept_header-IsSound z partial (i ∷ []) now v = (refl, refl)
accept_header-IsSound z partial [] now v = (refl, refl)

discarded :
    (z : Zlib) (before : Option PartialRecord) (plaintext : Bytes) (now : ℕ) (e : FrameCodecError)
    → IsSoundFor z before plaintext now (fresh, err e)
discarded z before (i ∷ n ∷ piece) now e = refl
discarded z before (i ∷ []) now e = (refl, refl)
discarded z before [] now e = (refl, refl)

-- From a valid reassembler, every fragment at any time, sent by any peer, ends in one of three
-- ways. It is kept: it is the fragment that continues the record in progress or opens one, it is
-- not the last, its piece is appended to the buffer, the next index and the time of arrival are
-- noted, and the record is still within its bounds (at most 40 fragments, the running total within
-- the cap). It is the last: the record, decoded, is an envelope of at most 1 MiB, and nothing is
-- kept. Or it is refused, as is a plaintext of fewer than two bytes, and the buffer is discarded.
pub accept_fragment-IsSound :
    (z : Zlib) (r : Reassembler) (plaintext : Bytes) (now : ℕ)
    → PartialIsValid r.partial
    → IsSoundFor z r.partial plaintext now (accept_fragment z r plaintext now)
unfolding accept_fragment
accept_fragment-IsSound z r plaintext now v = elim (Bool-cases (timed_out r.partial now)) [
  | inl late ↦ rw late (discarded z r.partial plaintext now _)
  | inr timely ↦ rw timely (accept_header-IsSound z r.partial plaintext now v)
]

abbrev pub in_progress : ℕ → ℕ → Bytes → ℕ → Reassembler
in_progress frag_count next_index buffer at = record {
  partial = some (record {
    frag_count = frag_count;
    next_index = next_index;
    buffer = buffer;
    last_fragment_at = at;
  });
}

module _ (z : Zlib) (n : ℕ) (piece : Bytes) (now : ℕ) where
  pub accept_single :
      n ≡ 1
      → length piece ≤ max_compressed_record_len
      → accept_fragment z fresh (0 ∷ n ∷ piece) now ≡ complete (decode_record z piece)
  unfolding accept_fragment accept_first
  accept_single h b = ground arith

  pub accept_opening :
      2 ≤ n
      → n ≤ max_frag_count
      → length piece ≤ max_compressed_record_len
      → accept_fragment z fresh (0 ∷ n ∷ piece) now ≡ (in_progress n 1 piece now, ok none)
  unfolding accept_fragment accept_first
  accept_opening h m b = ground arith

  module _ (i at : ℕ) (buffer : Bytes) (timely : now ≤ at + inter_fragment_timeout)
      (fits : length (buffer ++ piece) ≤ max_compressed_record_len) where
    pub accept_middle :
        i + 1 < n
        → accept_fragment z (in_progress n i buffer at) (i ∷ n ∷ piece) now
          ≡ (in_progress n (i + 1) (buffer ++ piece) now, ok none)
    unfolding accept_fragment accept_next
    accept_middle h = ground arith

    pub accept_last :
        i + 1 ≡ n
        → accept_fragment z (in_progress n i buffer at) (i ∷ n ∷ piece) now
          ≡ complete (decode_record z (buffer ++ piece))
    unfolding accept_fragment accept_next
    accept_last h = ground arith
