-- ===== src/Hub/Pump/Forwarding.antt =====
-- What the byte pump of relay.rs forwards, and how a run of it ends.
use herdr_mobile.Base.{
  ◌∙◌, if◌then◌else◌, All, Bool, Bool-cases, Bytes, List, Option, Result-cases, [], ap, arith,
  false, inl, inr, length, ltb, none, refl, some, true, ℕ, ◌++◌, ◌∷◌, ◌≡◌, ◌≤◌, ◌⊎◌,
}
use herdr_mobile.Hub.Limits.{allow_frame}
use herdr_mobile.Base.AssocMap.{get}
use herdr_mobile.Hub.Session.{Tx, Handle, Rooms, Role, host, device, Room, peer_slot, peer_of}
use herdr_mobile.Hub.Session.Slots.{slot_in}
use herdr_mobile.Hub.Push.{receive}
use herdr_mobile.Hub.Connection.{max_frame_bytes}
use herdr_mobile.Hub.Pump.{
  Event, binary, text_frame, pong, ping, ended, close_frame, outgoing, ping_due, pong_overdue,
  Output, to_peer, send_close, Shared, Pump, Connection, Next, continues, breaks, send_to_peer,
  forward, on_binary, on_text, step, resume, Ended, run,
}

-- What is handed to the peer's queue.
abbrev pub handed : List Output → List (Tx × Bytes)
handed [] = []
handed (to_peer peer bytes ∷ rest) = (peer, bytes) ∷ handed rest
handed (_ ∷ rest) = handed rest

abbrev pub to_some : Option Tx → Bytes → List (Tx × Bytes) → List (Tx × Bytes)
to_some none bytes rest = rest
to_some (some peer) bytes rest = (peer, bytes) ∷ rest

abbrev pub other : Role → Role
other host = device
other device = host

abbrev open_only : (Tx → Bool) → Option Tx → Option Tx
open_only closed none = none
open_only closed (some t) = if closed t then none else some t

-- The connection that holds the other role's slot under the handle, if its receiver is there.
abbrev pub listener : Connection → Shared → Option Tx
listener c shared = open_only shared.closed (slot_in (get c.handle shared.rooms) (other c.role))

-- The binary frames that arrive while the other role's connection is there, each with it.
unfoldable pub deliverable : Connection → List (Shared × Event) → List (Tx × Bytes)
deliverable c [] = []
deliverable c ((shared, binary bytes now) ∷ events) =
    to_some (listener c shared) bytes (deliverable c events)
deliverable c ((shared, _) ∷ events) = deliverable c events

abbrev pub IsSmall : Tx × Bytes → Type 0
IsSmall (peer, bytes) = length bytes ≤ max_frame_bytes

pub handed-append : (xs ys : List Output) → handed (xs ++ ys) ≡ handed xs ++ handed ys
handed-append [] ys = refl
handed-append (to_peer peer bytes ∷ xs) ys = ap (◌∷◌ (peer, bytes)) (handed-append xs ys)
handed-append (Output.to_socket m ∷ xs) ys = handed-append xs ys
handed-append (Output.send_ping ∷ xs) ys = handed-append xs ys
handed-append (send_close code why ∷ xs) ys = handed-append xs ys
handed-append (Output.error_frame n m ∷ xs) ys = handed-append xs ys
handed-append (Output.record_error code ∷ xs) ys = handed-append xs ys
handed-append (Output.log_error a n m ∷ xs) ys = handed-append xs ys
handed-append (Output.record_forward r n ∷ xs) ys = handed-append xs ys
handed-append (Output.push_handled h ∷ xs) ys = handed-append xs ys
handed-append (Output.record_session_duration d ∷ xs) ys = handed-append xs ys
handed-append (Output.log_disconnected r h a f b d ∷ xs) ys = handed-append xs ys
handed-append (Output.session_effects e ∷ xs) ys = handed-append xs ys

-- The peer of a connection holds the other role's slot.
peer_of_lem :
    (rooms : Rooms) (handle : Handle) (role : Role)
    → peer_of rooms handle role ≡ slot_in (get handle rooms) (other role)
unfolding peer_of
peer_of_lem rooms handle role = go (get handle rooms) role
  where
    go :
        (o : Option Room) (role : Role)
        → elim o [ none ↦ none | some room ↦ peer_slot role room ] ≡ slot_in o (other role)
    go none role = refl
    go (some room) host = refl
    go (some room) device = refl

handed-send_to_peer :
    (closed : Tx → Bool) (peer : Option Tx) (bytes : Bytes)
    → handed (send_to_peer closed peer bytes) ≡ to_some (open_only closed peer) bytes []
handed-send_to_peer closed none bytes = refl
handed-send_to_peer closed (some t) bytes = elim (Bool-cases (closed t)) [
  | inl gone ↦ rw gone refl
  | inr there ↦ rw there refl
]

handed-forward :
    (c : Connection) (shared : Shared) (bytes : Bytes)
    → handed (forward shared c.handle c.role bytes) ≡ to_some (listener c shared) bytes []
unfolding forward
handed-forward c shared bytes =
    handed-send_to_peer shared.closed (peer_of shared.rooms c.handle c.role) bytes
    ∙ ap (λ peer. to_some (open_only shared.closed peer) bytes [])
        (peer_of_lem shared.rooms c.handle c.role)

-- One turn on a binary frame: it is refused and the loop breaks, or it is small and enqueued for the
-- listener, if there is one.
pub on_binary_outcomes :
    (c : Connection) (shared : Shared) (p : Pump) (bytes : Bytes) (now : ℕ)
    → ((handed (on_binary c shared p bytes now).0 ≡ [])
        × ((on_binary c shared p bytes now).1 ≡ breaks none))
      ⊎ ((length bytes ≤ max_frame_bytes)
          × (handed (on_binary c shared p bytes now).0 ≡ to_some (listener c shared) bytes [])
          × ((p' : Pump) × ((on_binary c shared p bytes now).1 ≡ continues p')))
unfolding on_binary
on_binary_outcomes c shared p bytes now = elim (Bool-cases (ltb max_frame_bytes (length bytes))) [
  | inl big ↦ inl (rw big refl, rw big refl)
  | inr small ↦ rw small (elim (Bool-cases (allow_frame p.limiter now).1) [
    | inr fast ↦ rw fast (inl (refl, refl))
    | inl within ↦ rw within (inr (ground (arith, small), handed-forward c shared bytes, (_, refl)))
  ])
]

pub handed-on_text :
    (c : Connection) (shared : Shared) (p : Pump) (bytes : Bytes) (now : ℕ) (sent : Bool)
    → handed (on_text c shared p bytes now sent).0 ≡ []
unfolding on_text
handed-on_text c shared p bytes now sent = elim (Bool-cases (ltb max_frame_bytes (length bytes))) [
  | inl big ↦ rw big refl
  | inr small ↦ rw small (elim (Bool-cases (allow_frame p.limiter now).1) [
    | inr fast ↦ rw fast refl
    | inl within ↦
        rw within
          (elim (Result-cases (
            receive c.from_json c.providers shared.closed shared.rooms shared.push bytes c.handle
              c.role now)) [ inl (h, e) ↦ rw e refl | inr (x, e) ↦ rw e refl ])
  ])
]

-- What a run hands over is a first part of `due`, and small.
abbrev IsFirstPart : List (Tx × Bytes) → List (Tx × Bytes) → Type 0
IsFirstPart due xs = ((rest : List (Tx × Bytes)) × (due ≡ xs ++ rest)) × All IsSmall xs

-- A turn that hands nothing over.
IsFirstPart-resume :
    (p : Pump) (turn : List Output × Next) (later : Pump → Ended) (due : List (Tx × Bytes))
    → handed turn.0 ≡ []
    → ((p' : Pump) → IsFirstPart due (handed (later p').0))
    → IsFirstPart due (handed (resume p turn later).0)
IsFirstPart-resume p (outputs, breaks frame) later due quiet h = rw quiet ((due, refl), tt)
IsFirstPart-resume p (outputs, continues p') later due quiet h =
    rw (handed-append outputs (later p').0, quiet) (h p')

IsFirstPart-to_some :
    (peer : Option Tx) (bytes : Bytes) (due xs : List (Tx × Bytes))
    → length bytes ≤ max_frame_bytes
    → IsFirstPart due xs
    → IsFirstPart (to_some peer bytes due) (to_some peer bytes [] ++ xs)
IsFirstPart-to_some none bytes due xs small h = h
IsFirstPart-to_some (some peer) bytes due xs small ((rest, e), all_small) =
    ((rest, ap (◌∷◌ (peer, bytes)) e), (small, all_small))

IsFirstPart-binary :
    (c : Connection) (shared : Shared) (p : Pump) (bytes : Bytes) (now : ℕ) (later : Pump → Ended)
    (due : List (Tx × Bytes))
    → ((p' : Pump) → IsFirstPart due (handed (later p').0))
    → IsFirstPart
        (to_some (listener c shared) bytes due)
        (handed (resume p (on_binary c shared p bytes now) later).0)
IsFirstPart-binary c shared p bytes now later due h =
    let peer = listener c shared in
    elim (on_binary_outcomes c shared p bytes now) [
      | inl (quiet, stop) ↦ rw stop (rw quiet ((to_some peer bytes due, refl), tt))
      | inr (small, given, (p', on)) ↦ rw on (
          rw (handed-append (on_binary c shared p bytes now).0 (later p').0, given)
            (IsFirstPart-to_some peer bytes due (handed (later p').0) small (h p')))
    ]

-- Frames are forwarded verbatim and in order: what a run hands to the peer is a first part of the
-- binary frames that arrived while the other role's connection was there, each to that connection, and none of them is longer than 1 MiB.
pub handed-run :
    (c : Connection) (p : Pump) (events : List (Shared × Event))
    → ((rest : List (Tx × Bytes)) × (deliverable c events ≡ handed (run c p events).0 ++ rest))
      × All IsSmall (handed (run c p events).0)
unfolding run step deliverable
handed-run c p [] = (([], refl), tt)
handed-run c p ((shared, binary bytes now) ∷ events) =
    IsFirstPart-binary c shared p bytes now (λ p'. run c p' events) (deliverable c events)
      (λ p'. handed-run c p' events)
handed-run c p ((shared, text_frame bytes now sent) ∷ events) =
    IsFirstPart-resume p (on_text c shared p bytes now sent) (λ p'. run c p' events)
      (deliverable c events) (handed-on_text c shared p bytes now sent)
      (λ p'. handed-run c p' events)
handed-run c p ((shared, pong) ∷ events) = handed-run c _ events
handed-run c p ((shared, ping) ∷ events) = handed-run c p events
handed-run c p ((shared, ended) ∷ events) = ((deliverable c events, refl), tt)
handed-run c p ((shared, close_frame frame) ∷ events) = ((deliverable c events, refl), tt)
handed-run c p ((shared, outgoing message true) ∷ events) = handed-run c p events
handed-run c p ((shared, outgoing message false) ∷ events) = ((deliverable c events, refl), tt)
handed-run c p ((shared, ping_due true now) ∷ events) = handed-run c _ events
handed-run c p ((shared, ping_due false now) ∷ events) = ((deliverable c events, refl), tt)
handed-run c p ((shared, pong_overdue) ∷ events) = ((deliverable c events, refl), tt)
