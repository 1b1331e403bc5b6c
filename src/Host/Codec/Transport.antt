-- ===== src/Host/Codec/Transport.antt =====
-- The codec over a Noise session: `encode_frame` and `decode_fragment` of frame_codec.rs,
-- `Transport` of crates/herdr-relay/src/noise.rs, and `receive_frame` of
-- crates/herdr-relay/src/relay/connection.rs. The `snow` crate's transport state is a parameter.
use herdr_mobile.Base.{
  Bytes, List, Option, Result, [], err, length, none, ok, ok_or, some, ℕ, ◌∷◌, ◌≡◌, ◌≤◌,
}
use herdr_mobile.Host.Codec.{
  Zlib, FrameCodecError, protocol_error, Reassembler, build_record, split_into_fragments,
  accept_fragment,
}

-- `snow::TransportState`: each call returns the new state, and nothing where it fails.
pub record Snow : Type 1 where
  pub State : Type 0
  pub write_message : State → Bytes → State × Option Bytes
  pub read_message : State → Bytes → State × Option Bytes

pub data SessionError : Type 0 where
  io closed : SessionError
  codec : FrameCodecError → SessionError

-- What the WebSocket yields: a binary message with the time of its arrival, a close frame, a
-- transport error, or another message.
pub data WsEvent : Type 0 where
  binary : Bytes → ℕ → WsEvent
  close_frame failure other : WsEvent

-- `From<NoiseError> for FrameCodecError`.
abbrev pub noise_error : FrameCodecError
noise_error = protocol_error "Noise transport error while encoding or decoding a fragment"

module _ (N : Snow) where
  open N use {State, write_message, read_message}

  unfoldable pub encrypt : State → Bytes → State × Result FrameCodecError Bytes
  encrypt s plaintext = let (s', c) = write_message s plaintext in (s', ok_or c noise_error)

  unfoldable pub decrypt : State → Bytes → State × Result FrameCodecError Bytes
  decrypt s ciphertext = let (s', p) = read_message s ciphertext in (s', ok_or p noise_error)

  abbrev prepend :
      Bytes
      → State × Result FrameCodecError (List Bytes)
      → State × Result FrameCodecError (List Bytes)
  prepend c (s, ok cs) = (s, ok (c ∷ cs))
  prepend c (s, err e) = (s, err e)

  -- `collect` into a `Result` stops at the first error.
  abbrev continue_with :
      State × Result FrameCodecError Bytes
      → (State → State × Result FrameCodecError (List Bytes))
      → State × Result FrameCodecError (List Bytes)
  continue_with (s, ok c) k = prepend c (k s)
  continue_with (s, err e) k = (s, err e)

  unfoldable pub encrypt_all : State → List Bytes → State × Result FrameCodecError (List Bytes)
  unfolding encrypt
  encrypt_all s [] = (s, ok [])
  encrypt_all s (f ∷ fs) = continue_with (encrypt s f) (λ s'. encrypt_all s' fs)

  unfoldable pub encode_frame : Zlib → State → Bytes → State × Result FrameCodecError (List Bytes)
  unfolding encrypt_all
  encode_frame z s envelope = elim (build_record z envelope) [
    | ok r ↦ encrypt_all s (split_into_fragments r)
    | err e ↦ (s, err e)
  ]

  abbrev pub Decoded : Type 0
  Decoded = Reassembler × State × Result FrameCodecError (Option Bytes)

  abbrev accept_decrypted : Zlib → Reassembler → State × Result FrameCodecError Bytes → ℕ → Decoded
  accept_decrypted z r (s, ok p) now = let (r', o) = accept_fragment z r p now in (r', s, o)
  accept_decrypted z r (s, err e) now = (r, s, err e)

  unfoldable pub decode_fragment : Zlib → Reassembler → State → Bytes → ℕ → Decoded
  unfolding decrypt
  decode_fragment z r s ciphertext now = accept_decrypted z r (decrypt s ciphertext) now

  -- The reassembler, the Noise state, the events not read yet, and the envelope.
  abbrev pub Received : Type 0
  Received = Reassembler × State × List WsEvent × Result SessionError Bytes

  abbrev after_fragment : Decoded → List WsEvent → (Reassembler → State → Received) → Received
  after_fragment (r, s, ok (some envelope)) events k = (r, s, events, ok envelope)
  after_fragment (r, s, ok none) events k = k r s
  after_fragment (r, s, err e) events k = (r, s, events, err (codec e))

  -- The loop of `receive_frame`, over the events that arrive; the stream may end.
  unfoldable pub receive_frame : Zlib → Reassembler → State → List WsEvent → Received
  receive_frame z r s [] = (r, s, [], err closed)
  receive_frame z r s (binary bytes now ∷ events) =
      after_fragment (decode_fragment z r s bytes now) events
        (λ r' s'. receive_frame z r' s' events)
  receive_frame z r s (close_frame ∷ events) = (r, s, events, err closed)
  receive_frame z r s (failure ∷ events) = (r, s, events, err io)
  receive_frame z r s (other ∷ events) = receive_frame z r s events

-- What a Noise session promises: while the two ends are paired, a message of at most 65519 bytes
-- that one writes is read by the other, and they are paired after it.
pub record NoiseLaws (N : Snow) : Type 1 where
  pub Paired : N.State → N.State → Type 0
  pub delivers :
      (s r : N.State) (p : Bytes)
      → Paired s r
      → length p ≤ 65519
      → (s' : N.State) × (r' : N.State) × (c : Bytes) × (N.write_message s p ≡ (s', some c))
        × (N.read_message r c ≡ (r', some p))
        × Paired s' r'
