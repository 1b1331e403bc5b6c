-- ===== src/Hub/Connection.antt =====
-- One connection up to its registration: crates/herdr-relay-hub/src/routes/connection.rs and
-- routes/registration.rs. What it sends, counts and logs is returned in order. The JSON parser,
-- the channel that a registration makes and the clock are arguments.
use Prim.Native.String.{String}
use herdr_mobile.Base.{
  Bool, Bytes, List, Option, [], beq, codes, err, false, if◌then◌else◌, length, ltb, none, not, ok,
  some, true, ℕ, ◌&&◌, ◌++◌, ◌==◌, ◌∷◌,
}
use herdr_mobile.Proto.Codes.{CloseCode}
use herdr_mobile.Hub.Limits.{IpAddr, IpRateLimiter, allow}
use herdr_mobile.Hub.Session
use herdr_mobile.Hub.Session.{
  Handle, Tx, Role, host, device, RegisterError, handle_unknown, pairing_expired,
  handle_rate_limited, too_many_handles, Rooms, Registered, register, active_handles,
}
pub mod Outcomes

abbrev pub max_frame_bytes : ℕ
max_frame_bytes = 1048576

pub data RejectReason : Type 0 where
  rate_limited handle_malformed handle_taken host_in_use : RejectReason

-- The plaintext frames of registration.rs, before they are written as JSON.
pub data TextFrame : Type 0 where
  session_joined : Role → TextFrame
  error_frame : String → String → TextFrame

pub data Output : Type 0 where
  send_text : TextFrame → Output
  send_close : CloseCode → String → Output
  record_error : CloseCode → Output
  record_rejected : RejectReason → Output
  record_handle_created : Output
  log_error : ℕ → String → String → Output
  log_handle_expired : Handle → ℕ → Output
  log_connected : Role → Handle → ℕ → Output
  session_effects : List Session.Effect → Output

pub record AppState : Type 0 where
  pub rooms : Rooms
  pub connections : IpRateLimiter
  pub handles : IpRateLimiter
  pub max_handles : ℕ

pub record RegisterFrame : Type 0 where
  pub kind : Bytes
  pub protocol : ℕ
  pub pairing : Bool

-- The first message: a text, another kind of message, or none (the wait timed out, the stream
-- ended or failed).
pub data FirstMessage : Type 0 where
  text : Bytes → FirstMessage
  other_message nothing : FirstMessage

abbrev pub expected_type : Role → Bytes
expected_type host = codes "host_register"
expected_type device = codes "device_register"

abbrev check_registration : Role → Option RegisterFrame → Option Bool
check_registration role none = none
check_registration role (some frame) =
    if beq frame.kind (expected_type role) && frame.protocol == 1 then some frame.pairing else none

unfoldable pub wait_for_registration :
    (Bytes → Option RegisterFrame) → FirstMessage → Role → Option Bool
wait_for_registration from_json (text bytes) role =
    if ltb max_frame_bytes (length bytes) then none else check_registration role (from_json bytes)
wait_for_registration from_json other_message role = none
wait_for_registration from_json nothing role = none

-- The error frame, then the close frame, then the metric and the log line.
unfoldable pub close_with_error : Rooms → CloseCode → String → String → List Output
close_with_error rooms code name message =
    send_text (error_frame name message)
    ∷ send_close code message
    ∷ record_error code
    ∷ log_error (active_handles rooms) name message
    ∷ []

abbrev pub Rejection : Type 0
Rejection = CloseCode × String × String × Option RejectReason

unfoldable pub describe_register_error : RegisterError → Rejection
describe_register_error RegisterError.handle_taken = (
  CloseCode.handle_taken,
  "handle_taken",
  "A Host is already registered under this handle",
  some RejectReason.handle_taken,
)
describe_register_error RegisterError.host_in_use = (
  CloseCode.host_in_use,
  "host_in_use",
  "A Device is already active on this Host",
  some RejectReason.host_in_use,
)
describe_register_error handle_unknown =
    (CloseCode.handle_unknown, "handle_unknown", "No Host is registered under this handle", none)
describe_register_error pairing_expired =
    (CloseCode.pairing_expired, "pairing_expired", "The pairing window has expired", none)
describe_register_error handle_rate_limited = (
  CloseCode.rate_limited,
  "rate_limited",
  "handle registration rate limit exceeded",
  some RejectReason.rate_limited,
)
describe_register_error too_many_handles = (
  CloseCode.rate_limited,
  "rate_limited",
  "handle registration rate limit exceeded",
  some RejectReason.rate_limited,
)

abbrev count_rejected : Option RejectReason → List Output
count_rejected none = []
count_rejected (some reason) = record_rejected reason ∷ []

abbrev log_if_expired : RegisterError → Handle → Rooms → List Output
log_if_expired pairing_expired handle rooms = log_handle_expired handle (active_handles rooms) ∷ []
log_if_expired _ handle rooms = []

-- What a refused registration is told, counted and logged.
unfoldable pub reject_registration : Rooms → Handle → RegisterError → List Output
unfolding close_with_error describe_register_error
reject_registration rooms handle error =
    let (code, name, message, reason) = describe_register_error error in
    close_with_error rooms code name message
    ++ (count_rejected reason ++ log_if_expired error handle rooms)

unfoldable pub announce_and_log_joined : Rooms → Handle → Role → List Output
announce_and_log_joined rooms handle role =
    send_text (session_joined role) ∷ log_connected role handle (active_handles rooms) ∷ []

-- The state, what was put out, and whether the byte pump starts.
abbrev pub Driven : Type 0
Driven = AppState × List Output × Bool

abbrev pub refused : AppState → List Output → Driven
refused state outputs = (state, outputs, false)

abbrev joined : AppState → List Output → Handle → Role → Bool → Driven
joined state outputs handle role is_new =
    let created : List Output = if is_new then record_handle_created ∷ [] else [] in
    (state, outputs ++ (created ++ announce_and_log_joined state.rooms handle role), true)

unfoldable pub register_or_reject : AppState → Registered → Handle → Role → Driven
unfolding reject_registration announce_and_log_joined
register_or_reject state r handle role =
    let state' : AppState = record state { rooms = r.rooms; handles = r.limiter } in
    let outputs : List Output = session_effects r.effects ∷ [] in
    elim (r.answer) [
      | ok is_new ↦ joined state' outputs handle role is_new
      | err e ↦ refused state' (outputs ++ reject_registration r.rooms handle e)
    ]

abbrev on_registration :
    AppState → (Tx → Bool) → IpAddr → Handle → Role → Tx → ℕ → Option Bool → Driven
on_registration state closed ip handle role tx now none = refused state (
    close_with_error state.rooms CloseCode.protocol_error "protocol_error"
      "missing or malformed registration frame")
on_registration state closed ip handle role tx now (some pairing) =
    register_or_reject state
      (register closed state.rooms handle role ip state.handles state.max_handles pairing tx now)
      handle role

abbrev on_handle :
    (Bytes → Option RegisterFrame)
    → AppState
    → (Tx → Bool)
    → IpAddr
    → Role
    → FirstMessage
    → Tx
    → (AppState → AppState)
    → ℕ
    → Option Handle
    → Driven
on_handle from_json state closed ip role message tx meanwhile later none = refused state (
    close_with_error state.rooms CloseCode.protocol_error "protocol_error"
      "malformed routing handle"
    ++ record_rejected handle_malformed ∷ [])
on_handle from_json state closed ip role message tx meanwhile later (some handle) =
    on_registration (meanwhile state) closed ip handle role tx later
      (wait_for_registration from_json message role)

-- The checks in their order: the connection rate, the subprotocol, the handle, the registration
-- frame, the registration itself. While the connection waits for its registration frame, the others
-- change the shared state by `meanwhile`, and the clock moves on from `now` to `later`.
unfoldable pub drive_connection :
    (Bytes → Option RegisterFrame)
    → AppState
    → (Tx → Bool)
    → IpAddr
    → Bool
    → Option Handle
    → Role
    → FirstMessage
    → Tx
    → ℕ
    → (AppState → AppState)
    → ℕ
    → Driven
unfolding close_with_error wait_for_registration register_or_reject
drive_connection from_json state closed ip protocol_ok handle role message tx now meanwhile later =
    let (connections', within_rate) = allow state.connections ip now in
    let state' : AppState = record state { connections = connections' } in
    if not within_rate
    then refused state' (
        close_with_error state.rooms CloseCode.rate_limited "rate_limited"
          "connection rate limit exceeded"
        ++ record_rejected RejectReason.rate_limited ∷ [])
    else if not protocol_ok
    then refused state' (
        close_with_error state.rooms CloseCode.protocol_error "protocol_error"
          "missing or unsupported subprotocol")
    else on_handle from_json state' closed ip role message tx meanwhile later handle
