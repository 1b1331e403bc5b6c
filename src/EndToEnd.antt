-- ===== src/EndToEnd.antt =====
-- A frame of the codec through the relay's pump to the Host: frame_codec.rs and relay/connection.rs of
-- crates/herdr-relay with relay.rs of crates/herdr-relay-hub.
use herdr_mobile.Base.{
  ==_refl, All, Bytes, List, [], ap, false, length, map, none, ok, refl, subst, sym, ℕ, ◌++◌, ◌∙◌,
  ◌∷◌, ◌≡◌, ◌≤◌, if◌then◌else◌, ◌==◌, some, true, Bool,
}
use herdr_mobile.Host.Codec.{Zlib, fresh, max_uncompressed_len, split_into_fragments}
use herdr_mobile.Host.Codec.Record.{ZlibLaws, record_of}
use herdr_mobile.Host.Codec.Transport.{Snow, NoiseLaws, WsEvent, encode_frame, receive_frame}
use herdr_mobile.Host.Codec.Roundtrip.{stamped, TimelyAll, receive_frame-encode_frame}
use herdr_mobile.Hub.Session.{Tx, host, device}
use herdr_mobile.Hub.Session.Slots.{Holds}
use herdr_mobile.Hub.Pump.{
  Connection, Shared, Event, Pump, run, binary, text_frame, pong, ping, ended, close_frame,
  outgoing, ping_due, pong_overdue,
}
use herdr_mobile.Hub.Pump.Forwarding.{handed, to_some, listener, deliverable}
use herdr_mobile.Hub.Pump.Completeness.{handed-run_complete}
mod Tests

-- The binary frames that arrive on a connection.
abbrev pub binaries : List (Shared × Event) → List Bytes
binaries [] = []
binaries ((shared, binary bytes now) ∷ events) = bytes ∷ binaries events
binaries ((shared, _) ∷ events) = binaries events

-- What one connection's queue gets.
abbrev pub queue : Tx → List (Tx × Bytes) → List Bytes
queue tx [] = []
queue tx ((t, bytes) ∷ rest) = let later = queue tx rest in if t == tx then bytes ∷ later else later

-- The Host's connection `tx` holds its slot under the handle, and its receiver is there.
abbrev pub HostIsThere : Connection → Tx → Shared × Event → Type 0
HostIsThere c tx (shared, event) = Holds shared.rooms c.handle host tx × (shared.closed tx ≡ false)

queue-map : (tx : Tx) (cs : List Bytes) → queue tx (map (λ bytes. (tx, bytes)) cs) ≡ cs
queue-map tx [] = refl
queue-map tx (c ∷ cs) = rw (==_refl tx) (ap (◌∷◌ c) (queue-map tx cs))

listener_lem :
    (c : Connection) (tx : Tx) (shared : Shared) (event : Event)
    → c.role ≡ device
    → HostIsThere c tx (shared, event)
    → listener c shared ≡ some tx
listener_lem c tx shared event as_device (there, reads) = rw as_device (rw there (rw reads refl))

deliverable_lem :
    (c : Connection) (tx : Tx) (events : List (Shared × Event))
    → c.role ≡ device
    → All (HostIsThere c tx) events
    → deliverable c events ≡ map (λ bytes. (tx, bytes)) (binaries events)
unfolding deliverable
deliverable_lem c tx [] as_device there = refl
deliverable_lem c tx ((shared, binary bytes now) ∷ events) as_device (first, there) =
    ap (λ peer. to_some peer bytes (deliverable c events))
      (listener_lem c tx shared (binary bytes now) as_device first)
    ∙ ap (◌∷◌ (tx, bytes)) (deliverable_lem c tx events as_device there)
deliverable_lem c tx ((shared, text_frame bytes now sent) ∷ events) as_device (first, there) =
    deliverable_lem c tx events as_device there
deliverable_lem c tx ((shared, pong) ∷ events) as_device (first, there) =
    deliverable_lem c tx events as_device there
deliverable_lem c tx ((shared, ping) ∷ events) as_device (first, there) =
    deliverable_lem c tx events as_device there
deliverable_lem c tx ((shared, ended) ∷ events) as_device (first, there) =
    deliverable_lem c tx events as_device there
deliverable_lem c tx ((shared, close_frame frame) ∷ events) as_device (first, there) =
    deliverable_lem c tx events as_device there
deliverable_lem c tx ((shared, outgoing message sent) ∷ events) as_device (first, there) =
    deliverable_lem c tx events as_device there
deliverable_lem c tx ((shared, ping_due sent now) ∷ events) as_device (first, there) =
    deliverable_lem c tx events as_device there
deliverable_lem c tx ((shared, pong_overdue) ∷ events) as_device (first, there) =
    deliverable_lem c tx events as_device there

-- A connection that joined as the Device, while the Host's connection `tx` holds its slot and has
-- not dropped its receiver: when the binary frames that arrive are the ciphertexts of an envelope of
-- at most 1 MiB, made as `encode_frame` of the codec makes them, and the pump's run has not ended,
-- then, whatever else the pump handles in between, it has enqueued exactly these ciphertexts, in
-- order and all for `tx`; and the Host, whose reassembler is empty, reads the envelope from that
-- queue, each frame arriving within ten seconds of the one before. What follows is left unread and
-- the two ends of the Noise session stay paired.
pub receive_frame-run :
    (z : Zlib) (N : Snow) (noise : NoiseLaws N) (envelope : Bytes) (ts : List ℕ)
    (rest : List WsEvent) (s s' r : N.State) (c : Connection) (tx : Tx) (p : Pump)
    (events : List (Shared × Event))
    → ZlibLaws z
    → noise.Paired s r
    → length envelope ≤ max_uncompressed_len
    → length ts ≡ length (split_into_fragments (record_of z envelope))
    → TimelyAll ts
    → encode_frame N z s envelope ≡ (s', ok (binaries events))
    → c.role ≡ device
    → All (HostIsThere c tx) events
    → (run c p events).2 ≡ none
    → (handed (run c p events).0 ≡ map (λ bytes. (tx, bytes)) (binaries events))
      × (r' : N.State) × (receive_frame N z fresh r
            (stamped (queue tx (handed (run c p events).0)) ts ++ rest)
          ≡ (fresh, r', rest, ok envelope))
      × noise.Paired s' r'
receive_frame-run z N noise envelope ts rest s s' r c tx p events laws pair small size timely made
      as_device there on =
    let (s2, r', cs2, made2, read, pair') =
      receive_frame-encode_frame z N noise envelope ts rest s r laws pair small size timely in
    let whole = handed-run_complete c p events on ∙ deliverable_lem c tx events as_device there in
    let sent : cs2 ≡ binaries events = cc (made, made2) in
    let same : cs2 ≡ queue tx (handed (run c p events).0) =
      sent ∙ sym (ap (queue tx) whole ∙ queue-map tx (binaries events)) in
    let same_state : s2 ≡ s' = cc (made, made2) in
    (
      whole,
      r',
      subst
          (λ xs. receive_frame N z fresh r (stamped xs ts ++ rest) ≡ (fresh, r', rest, ok envelope))
          same read,
      subst (λ x. noise.Paired x r') same_state pair',
    )
