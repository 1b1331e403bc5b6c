-- ===== src/EndToEnd/Tests.antt =====
-- A concrete frame on its way from the Device over the relay to the Host.
use herdr_mobile.Base.{Bytes, List, [], arith, beq, ok, refl, secs, true, ℕ, ◌++◌, ◌∷◌, ◌≡◌}
use herdr_mobile.Host.Codec
use herdr_mobile.Host.Codec.{
  fresh, split_into_fragments, chunks, number_fragments, choose_codec, build_record,
}
use herdr_mobile.Host.Codec.Transport.{close_frame, encode_frame, encrypt_all, receive_frame}
use herdr_mobile.Host.Codec.Roundtrip.{stamped}
use herdr_mobile.Host.Tests.{stored, stored-ZlibLaws, counting, counting-NoiseLaws, hello}
use herdr_mobile.Hub.Limits.{new_frame_limiter, allow_frame, roll}
use herdr_mobile.Hub.Session.{peer_of}
use herdr_mobile.Hub.Pump.{Shared, Event, binary, ping_due, new_pump, run, step, on_binary, forward}
use herdr_mobile.Hub.Pump.Forwarding.{handed, deliverable}
use herdr_mobile.Hub.Tests.{phone, shared}
use herdr_mobile.EndToEnd.{queue, receive_frame-run}
use herdr_mobile.Base.AssocMap.{get}

-- The counter of the session, the fragment's header, the record's header, and the text.
abbrev ciphertext : Bytes
ciphertext = 4 ∷ 0 ∷ 1 ∷ 0 ∷ 0 ∷ 0 ∷ 0 ∷ 13 ∷ hello

abbrev events : List (Shared × Event)
events = (shared, ping_due true 6) ∷ (shared, binary ciphertext 7) ∷ []

encode_lem : encode_frame counting stored 4 hello ≡ (5, ok (ciphertext ∷ []))
unfolding encode_frame split_into_fragments chunks number_fragments choose_codec build_record
    encrypt_all Codec.to_be_bytes
encode_lem = refl

receive_frame-run_example :
    (handed (run phone (new_pump 60 0) events).0 ≡ (0, ciphertext) ∷ [])
    × (r' : ℕ) × (receive_frame counting stored fresh 4 (
          stamped (queue 0 (handed (run phone (new_pump 60 0) events).0)) (secs 3 ∷ [])
          ++ close_frame ∷ [])
        ≡ (fresh, r', close_frame ∷ [], ok hello))
    × (5 ≡ r')
unfolding run step on_binary forward new_pump new_frame_limiter allow_frame roll peer_of get beq
    deliverable split_into_fragments chunks number_fragments choose_codec counting-NoiseLaws
    Codec.to_be_bytes
receive_frame-run_example =
    receive_frame-run stored counting counting-NoiseLaws hello (secs 3 ∷ []) (close_frame ∷ []) 4 5
      4 phone 0 (new_pump 60 0) events stored-ZlibLaws refl (omega arith) refl tt encode_lem refl
      ((refl, refl), ((refl, refl), tt)) refl
