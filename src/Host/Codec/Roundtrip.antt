-- ===== src/Host/Codec/Roundtrip.antt =====
-- What one end encodes, the other receives: frame_codec.rs end to end, over a Noise session.
use mathlib.Core.List.{append_assoc}
use herdr_mobile.Base.{
  All, Bytes, List, [], ap, append_nil, arith, length, length-append, none, ok, refl, some, sym, ℕ,
  ◌%◌, ◌++◌, ◌+◌, ◌<◌, ◌∙◌, ◌∷◌, ◌≡◌, ◌≤◌,
}
use herdr_mobile.Host.Codec.{
  max_uncompressed_len, max_compressed_record_len, max_chunk_len, max_frag_count,
  inter_fragment_timeout, Zlib, Reassembler, fresh, complete, chunks, number_fragments,
  split_into_fragments, decode_record, accept_fragment,
}
use herdr_mobile.Host.Codec.Record.{
  ZlibLaws, record_of, build_record-record_of, length-record_of, decode_record-record_of,
}
use herdr_mobile.Host.Codec.Chunks.{join, IsPiece, join-chunks, chunks-All, length-chunks-le}
use herdr_mobile.Host.Codec.Reassembly.{
  in_progress, accept_single, accept_opening, accept_middle, accept_last,
}
use herdr_mobile.Host.Codec.Transport.{
  Snow, NoiseLaws, WsEvent, binary, encrypt_all, encode_frame, decode_fragment, receive_frame,
}

-- Ciphertexts with the times at which they arrive.
abbrev pub stamped : List Bytes → List ℕ → List WsEvent
stamped [] ts = []
stamped (c ∷ cs) [] = []
stamped (c ∷ cs) (t ∷ ts) = binary c t ∷ stamped cs ts

-- Each arrival is within 10 seconds of the one before it.
abbrev pub Timely : ℕ → List ℕ → Type 0
Timely at [] = Unit
Timely at (t ∷ ts) = (t ≤ at + inter_fragment_timeout) × Timely t ts

abbrev pub TimelyAll : List ℕ → Type 0
TimelyAll [] = Unit
TimelyAll (t ∷ ts) = Timely t ts

module _ (z : Zlib) (N : Snow) (noise : NoiseLaws N) where
  -- The sender's ciphertexts and the receiver's outcome for a run of fragments.
  abbrev pub Delivered :
      N.State → N.State → List Bytes → Reassembler → List ℕ → List WsEvent → Bytes → Type 0
  Delivered s r fragments from ts rest envelope =
      (s' : N.State) × (r' : N.State) × (cs : List Bytes) × (encrypt_all N s fragments
        ≡ (s', ok cs))
      × (receive_frame N z from r (stamped cs ts ++ rest) ≡ (fresh, r', rest, ok envelope))
      × noise.Paired s' r'

  deliver_step :
      (s r : N.State) (f : Bytes) (fs : List Bytes) (from next : Reassembler) (t : ℕ) (ts : List ℕ)
      (rest : List WsEvent) (envelope : Bytes)
      → noise.Paired s r
      → length f ≤ 65519
      → accept_fragment z from f t ≡ (next, ok none)
      → ((s' r' : N.State) → noise.Paired s' r' → Delivered s' r' fs next ts rest envelope)
      → Delivered s r (f ∷ fs) from (t ∷ ts) rest envelope
  unfolding encrypt_all receive_frame decode_fragment
  deliver_step s r f fs from next t ts rest envelope paired fits accepted later =
      let (s1, r1, c, w, d, paired1) = noise.delivers s r f paired fits in
      let (s2, r2, cs, ws, ds, paired2) = later s1 r1 paired1 in
      (s2, r2, c ∷ cs, rw (w, ws) refl, rw (d, accepted) ds, paired2)

  deliver_last :
      (s r : N.State) (f : Bytes) (from : Reassembler) (t : ℕ) (ts : List ℕ) (rest : List WsEvent)
      (envelope : Bytes)
      → noise.Paired s r
      → length f ≤ 65519
      → accept_fragment z from f t ≡ (fresh, ok (some envelope))
      → Delivered s r (f ∷ []) from (t ∷ ts) rest envelope
  unfolding encrypt_all receive_frame decode_fragment
  deliver_last s r f from t ts rest envelope paired fits accepted =
      let (s1, r1, c, w, d, paired1) = noise.delivers s r f paired fits in
      (s1, r1, c ∷ [], rw w refl, rw (d, accepted) refl, paired1)

  deliver_rest :
      (n i at : ℕ) (buffer c : Bytes) (cs : List Bytes) (ts : List ℕ) (rest : List WsEvent)
      (envelope : Bytes) (s r : N.State)
      → noise.Paired s r
      → i + length (c ∷ cs) ≡ n
      → n ≤ max_frag_count
      → All (IsPiece max_chunk_len) (c ∷ cs)
      → length (buffer ++ join (c ∷ cs)) ≤ max_compressed_record_len
      → decode_record z (buffer ++ join (c ∷ cs)) ≡ ok envelope
      → length ts ≡ length (c ∷ cs)
      → Timely at ts
      → Delivered s r (number_fragments n i (c ∷ cs)) (in_progress n i buffer at) ts rest envelope
  unfolding number_fragments
  deliver_rest n i at buffer c cs [] rest envelope s r p count small pieces fits decodes m timely =
      absurd (omega arith)
  deliver_rest n i at buffer c [] (t ∷ ts) rest envelope s r p count small pieces fits decodes m
        timely =
      let byte : i % 256 ≡ i = omega arith in
      let whole : buffer ++ (c ++ []) ≡ buffer ++ c = ap (◌++◌ buffer) (append_nil c) in
      deliver_last s r ((i % 256) ∷ n ∷ c) (in_progress n i buffer at) t ts rest envelope p
        (omega arith)
        (rw
          (
            byte,
            accept_last z n c t i at buffer timely.0 (rw whole at fits) (omega arith),
            rw whole at decodes,
          )
          (unfold complete in refl))
  deliver_rest n i at buffer c (c' ∷ cs) (t ∷ ts) rest envelope s r p count small pieces fits
        decodes m timely =
      let byte : i % 256 ≡ i = omega arith in
      let whole : buffer ++ join (c ∷ c' ∷ cs) ≡ (buffer ++ c) ++ join (c' ∷ cs) =
        sym (append_assoc buffer c (join (c' ∷ cs))) in
      deliver_step s r ((i % 256) ∷ n ∷ c) _ (in_progress n i buffer at)
        (in_progress n (i + 1) (buffer ++ c) t) t ts rest envelope p (omega arith)
        (rw byte (
          accept_middle z n c t i at buffer timely.0
            (omega (arith, ap length whole, length-append (buffer ++ c) (join (c' ∷ cs))))
            (omega arith)))
        (λ s' r' p'.
          deliver_rest n (i + 1) t (buffer ++ c) c' cs ts rest envelope s' r' p' (omega arith) small
            pieces.1 (rw whole at fits) (rw whole at decodes) (omega arith) timely.1)

  deliver_pieces :
      (n : ℕ) (pieces : List Bytes) (body envelope : Bytes) (ts : List ℕ) (rest : List WsEvent)
      (s r : N.State)
      → noise.Paired s r
      → join pieces ≡ body
      → 0 < length body
      → length body ≤ max_compressed_record_len
      → length pieces ≤ max_frag_count
      → All (IsPiece max_chunk_len) pieces
      → decode_record z body ≡ ok envelope
      → length ts ≡ length pieces
      → TimelyAll ts
      → length pieces ≡ n
      → Delivered s r (number_fragments n 0 pieces) fresh ts rest envelope
  unfolding number_fragments
  deliver_pieces n [] body envelope ts rest s r p joined some_body fits small pieces decodes m
        timely count =
      absurd (omega (arith, ap length joined))
  deliver_pieces n (c ∷ cs) body envelope [] rest s r p joined some_body fits small pieces decodes m
        timely count =
      absurd (omega arith)
  deliver_pieces n (c ∷ []) body envelope (t ∷ ts) rest s r p joined some_body fits small pieces
        decodes m timely count =
      let same : c ≡ body = sym (append_nil c) ∙ joined in
      deliver_last s r (0 ∷ n ∷ c) fresh t ts rest envelope p (omega arith) (
        rw (accept_single z n c t (sym count) (omega (arith, ap length same)), same, decodes)
          (unfold complete in refl))
  deliver_pieces n (c ∷ c' ∷ cs) body envelope (t ∷ ts) rest s r p joined some_body fits small
        pieces decodes m timely count =
      let size : length c + length (join (c' ∷ cs)) ≡ length body =
        sym (length-append c (join (c' ∷ cs))) ∙ ap length joined in
      deliver_step s r (0 ∷ n ∷ c) _ fresh (in_progress n 1 c t) t ts rest envelope p (omega arith)
        (accept_opening z n c t (omega arith) (omega arith) (omega arith))
        (λ s' r' p'.
          deliver_rest n 1 t c c' cs ts rest envelope s' r' p' (omega arith) (omega arith) pieces.1
            (rw joined fits) (rw joined decodes) (omega arith) timely)

length-number_fragments : (n i : ℕ) (cs : List Bytes) → length (number_fragments n i cs) ≡ length cs
unfolding number_fragments
length-number_fragments n i [] = refl
length-number_fragments n i (c ∷ cs) = omega (arith, length-number_fragments n (i + 1) cs)

number_fragments-All :
    (n i : ℕ) (cs : List Bytes)
    → All (IsPiece max_chunk_len) cs
    → All (λ f. length f ≤ 65519) (number_fragments n i cs)
unfolding number_fragments
number_fragments-All n i [] a = tt
number_fragments-All n i (c ∷ cs) a = (omega arith, number_fragments-All n (i + 1) cs a.1)

module _ (z : Zlib) (envelope : Bytes) (h : length envelope ≤ max_uncompressed_len) where
  abbrev pieces_of : List Bytes
  pieces_of = chunks max_chunk_len (record_of z envelope)

  length-pieces_of : (1 ≤ length pieces_of) × (length pieces_of ≤ 17)
  length-pieces_of = (
    some_piece pieces_of (join-chunks 65516 (record_of z envelope)),
    omega (arith, length-chunks-le 65516 (record_of z envelope), length-record_of z envelope),
  )
    where
      some_piece : (cs : List Bytes) → join cs ≡ record_of z envelope → 1 ≤ length cs
      some_piece [] e = absurd (omega (arith, ap length e, length-record_of z envelope))
      some_piece (c ∷ cs) e = omega arith

  -- An envelope of at most 1 MiB is cut into at least one and at most 17 fragments, and each, with
  -- its header, fits into one Noise message.
  pub split_into_fragments_bounds :
      (1 ≤ length (split_into_fragments (record_of z envelope)))
      × (length (split_into_fragments (record_of z envelope)) ≤ 17)
      × All (λ f. length f ≤ 65519) (split_into_fragments (record_of z envelope))
  unfolding split_into_fragments
  split_into_fragments_bounds =
      let same = length-number_fragments (length pieces_of % 256) 0 pieces_of in
      (
        rw same length-pieces_of.0,
        rw same length-pieces_of.1,
        number_fragments-All _ 0 pieces_of (chunks-All 65516 (record_of z envelope)),
      )

-- An envelope of at most 1 MiB, encoded at one end of a Noise session, is encoded without an error,
-- and the other end, whose reassembler is empty, receives exactly that envelope from the
-- ciphertexts, provided that each arrives within 10 seconds of the one before. Nothing is kept in
-- the reassembler, the events after the last ciphertext are left unread, and the two ends are
-- paired again.
pub receive_frame-encode_frame :
    (z : Zlib) (N : Snow) (noise : NoiseLaws N) (envelope : Bytes) (ts : List ℕ)
    (rest : List WsEvent) (s r : N.State)
    → ZlibLaws z
    → noise.Paired s r
    → length envelope ≤ max_uncompressed_len
    → length ts ≡ length (split_into_fragments (record_of z envelope))
    → TimelyAll ts
    → (s' : N.State) × (r' : N.State) × (cs : List Bytes) × (encode_frame N z s envelope
        ≡ (s', ok cs))
      × (receive_frame N z fresh r (stamped cs ts ++ rest) ≡ (fresh, r', rest, ok envelope))
      × noise.Paired s' r'
unfolding encode_frame split_into_fragments
receive_frame-encode_frame z N noise envelope ts rest s r laws p h m timely =
    let pieces = chunks max_chunk_len (record_of z envelope) in
    let count = length-pieces_of z envelope h in
    let byte : length pieces % 256 ≡ length pieces = omega (arith, count) in
    let size = length-record_of z envelope in
    let sent =
      deliver_pieces z N noise (length pieces) pieces (record_of z envelope) envelope ts rest s r p
        (join-chunks 65516 (record_of z envelope)) (omega (arith, size)) (omega (arith, size))
        (omega (arith, count)) (chunks-All 65516 (record_of z envelope))
        (decode_record-record_of z laws envelope h)
        (m ∙ length-number_fragments (length pieces % 256) 0 pieces) timely refl in
    rw (build_record-record_of z envelope h, encode_frame) (rw byte sent)
