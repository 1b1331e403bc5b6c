-- ===== src/Hub/Session.antt =====
-- The handle map of the relay: crates/herdr-relay-hub/src/session.rs. A tokio channel is its identity; whether
-- it is closed, the channel that `mpsc::channel` makes and the clock are arguments, and what
-- `try_send` is handed is returned.
use Prim.Native.String.{String}
use herdr_mobile.Base.{
  Bool, Bytes, List, Option, Result, [], err, false, if◌then◌else◌, is_some, is_some_and, leb,
  length, ltb, map, none, not, ok, secs, some, true, ℕ, ◌&&◌, ◌++◌, ◌-◌, ◌==◌, ◌∷◌,
}
use herdr_mobile.Base.AssocMap.{Map, get, insert, remove}
use herdr_mobile.Proto.Codes.{CloseCode, close_code}
use herdr_mobile.Hub.Limits.{IpAddr, IpRateLimiter, allow}
pub mod Registration
pub mod Disconnect
pub mod Slots
pub mod World
pub mod Kept

-- The 16 bytes of a handle.
abbrev pub Handle : Type 0
Handle = Bytes

-- `OutboundTx`: `same_channel` is equality.
abbrev pub Tx : Type 0
Tx = ℕ

abbrev pub pairing_window : ℕ
pairing_window = secs 600

pub data Role : Type 0 where
  host device : Role

pub data RegisterError : Type 0 where
  handle_taken host_in_use handle_unknown pairing_expired : RegisterError
  handle_rate_limited too_many_handles : RegisterError

pub record Room : Type 0 where
  pub host_tx : Option Tx
  pub device_tx : Option Tx
  pub host_registered_at : ℕ
  pub pairing : Bool

pub record CloseFrame : Type 0 where
  pub code : ℕ
  pub reason : String

-- What a call hands to a peer's queue, and the line that it logs.
pub data Effect : Type 0 where
  send_close : Tx → CloseFrame → Effect
  log_handle_expired : Handle → ℕ → Effect

abbrev pub Rooms : Type 0
Rooms = Map Room

unfoldable pub active_handles : Rooms → ℕ
active_handles rooms = length rooms

unfoldable pub new_room : Tx → Bool → ℕ → Room
new_room tx pairing now = record {
  host_tx = some tx;
  device_tx = none;
  host_registered_at = now;
  pairing = pairing;
}

unfoldable pub closed_role : (Tx → Bool) → Room → Option Role
closed_role closed room =
    if is_some_and room.host_tx closed
    then some host
    else if is_some_and room.device_tx closed
    then some device
    else none

-- The slot that a role occupies, and the one of its peer.
abbrev pub slot : Role → Room → Option Tx
slot host room = room.host_tx
slot device room = room.device_tx

abbrev pub peer_slot : Role → Room → Option Tx
peer_slot host room = room.device_tx
peer_slot device room = room.host_tx

abbrev pub gone_reason : Role → String
gone_reason host = "the Host is gone"
gone_reason device = "the Device is gone"

abbrev pub going_away_frame : Role → CloseFrame
going_away_frame gone = record { code = close_code CloseCode.going_away; reason = gone_reason gone }

unfoldable pub close_peer : Tx → Role → List Effect
close_peer peer gone = send_close peer (going_away_frame gone) ∷ []

abbrev pub close_if_some : Option Tx → Role → List Effect
close_if_some none gone = []
close_if_some (some peer) gone = close_peer peer gone

-- A room with a closed slot is lost: the teardown is finished before the call is answered.
unfoldable pub finish_teardown : (Tx → Bool) → Handle → Rooms → Rooms × List Effect
unfolding close_peer
finish_teardown closed handle rooms = elim (get handle rooms) [
  | none ↦ (rooms, [])
  | some room ↦ elim (closed_role closed room) [
    | none ↦ (rooms, [])
    | some gone ↦ (remove handle rooms, close_if_some (peer_slot gone room) gone)
  ]
]

-- The map, the limiter and the answer of one registration: whether the handle is new.
abbrev pub Answer : Type 0
Answer = Rooms × IpRateLimiter × Result RegisterError Bool

unfoldable pub register_host : Rooms → Handle → IpAddr → IpRateLimiter → ℕ → Bool → Tx → ℕ → Answer
unfolding new_room
register_host rooms handle ip limiter max_handles pairing tx now = elim (get handle rooms) [
  | some room ↦ (rooms, limiter, err handle_taken)
  | none ↦
      let (limiter', allowed) = allow limiter ip now in
      if not allowed
      then (rooms, limiter', err handle_rate_limited)
      else if leb max_handles (length rooms)
      then (rooms, limiter', err too_many_handles)
      else (insert handle (new_room tx pairing now) rooms, limiter', ok true)
]

unfoldable pub register_device : Rooms → Handle → IpRateLimiter → Tx → ℕ → Answer
register_device rooms handle limiter tx now = elim (get handle rooms) [
  | none ↦ (rooms, limiter, err handle_unknown)
  | some room ↦
      if room.pairing && ltb pairing_window (now - room.host_registered_at)
      then (rooms, limiter, err pairing_expired)
      else if is_some room.device_tx
      then (rooms, limiter, err host_in_use)
      else (insert handle (record room { device_tx = some tx }) rooms, limiter, ok false)
]

pub record Registered : Type 0 where
  pub rooms : Rooms
  pub limiter : IpRateLimiter
  pub effects : List Effect
  pub answer : Result RegisterError Bool

unfoldable pub register_as :
    Role → Rooms → Handle → IpAddr → IpRateLimiter → ℕ → Bool → Tx → ℕ → Answer
register_as host rooms handle ip limiter max_handles pairing tx now =
    register_host rooms handle ip limiter max_handles pairing tx now
register_as device rooms handle ip limiter max_handles pairing tx now =
    register_device rooms handle limiter tx now

unfoldable pub register :
    (Tx → Bool) → Rooms → Handle → Role → IpAddr → IpRateLimiter → ℕ → Bool → Tx → ℕ → Registered
unfolding register_as
register closed rooms handle role ip limiter max_handles pairing tx now =
    let (rooms', effects) = finish_teardown closed handle rooms in
    let (rooms'', limiter', answer) =
      register_as role rooms' handle ip limiter max_handles pairing tx now in
    record { rooms = rooms''; limiter = limiter'; effects = effects; answer = answer }

unfoldable pub peer_of : Rooms → Handle → Role → Option Tx
peer_of rooms handle role = elim (get handle rooms) [
  | none ↦ none
  | some room ↦ peer_slot role room
]

unfoldable pub owns_slot : Rooms → Handle → Role → Tx → Bool
owns_slot rooms handle role mine =
    is_some_and (get handle rooms) (λ room. is_some_and (slot role room) (λ tx. tx == mine))

-- An application code of the leaving peer reaches the survivor as it is.
abbrev pub is_application_close : CloseFrame → Bool
is_application_close frame = leb 4000 frame.code && leb frame.code 4999

unfoldable pub survivor_close : Option CloseFrame → Role → Tx → List Effect
unfolding close_peer
survivor_close none role peer = close_peer peer role
survivor_close (some frame) role peer =
    if is_application_close frame then send_close peer frame ∷ [] else close_peer peer role

abbrev pub survivor_effects : Option Tx → Option CloseFrame → Role → List Effect
survivor_effects none peer_close role = []
survivor_effects (some peer) peer_close role = survivor_close peer_close role peer

abbrev pub peer_slot_of : Option Room → Role → Option Tx
peer_slot_of none role = none
peer_slot_of (some room) role = peer_slot role room

unfoldable pub disconnect : Rooms → Handle → Role → Tx → Option CloseFrame → Rooms × List Effect
disconnect rooms handle role mine peer_close =
    let rooms' = remove handle rooms in
    if not (owns_slot rooms handle role mine) then (rooms, []) else (
      rooms',
      survivor_effects (peer_slot_of (get handle rooms) role) peer_close role
          ++ log_handle_expired handle (active_handles rooms') ∷ [],
    )
