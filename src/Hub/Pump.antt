-- ===== src/Hub/Pump.antt =====
-- The byte pump of a joined connection: `run_peer` of crates/herdr-relay-hub/src/relay.rs, over the
-- events that its `select!` takes. What it sends, counts and logs is returned in order. The handle
-- map, the push state and which receivers are dropped, which other connections change too, come with
-- each event.
use Prim.Native.String.{String}
use herdr_mobile.Base.{
  Bool, Bytes, List, Option, Result, [], err, false, guard, if◌then◌else◌, length, ltb, map, none,
  not, ok, some, true, ℕ, ◌%◌, ◌++◌, ◌+◌, ◌^◌, ◌∷◌,
}
use herdr_mobile.Proto.Codes.{CloseCode, name}
use herdr_mobile.Hub.Limits.{FrameRateLimiter, new_frame_limiter, allow_frame}
use herdr_mobile.Hub.Session
use herdr_mobile.Hub.Session.{
  Handle, Tx, Role, host, device, Rooms, CloseFrame, peer_of, disconnect, active_handles,
}
use herdr_mobile.Hub.Push.{RelayMessage, Providers, Push, Handled, receive}
use herdr_mobile.Hub.Connection.{max_frame_bytes}
pub mod Forwarding
pub mod Completeness

-- A message of the connection's own queue: a frame of the peer, or the relay's close.
pub data Outgoing : Type 0 where
  peer_frame : Bytes → Outgoing
  peer_gone : CloseFrame → Outgoing

-- A message from the socket, with its arrival where the clock is read; a message for the socket;
-- or the heartbeat. A `Bool` says whether the send that the event leads to succeeds.
pub data Event : Type 0 where
  binary : Bytes → ℕ → Event
  text_frame : Bytes → ℕ → Bool → Event
  pong ping ended : Event
  close_frame : Option CloseFrame → Event
  outgoing : Outgoing → Bool → Event
  ping_due : Bool → ℕ → Event
  pong_overdue : Event

pub data Output : Type 0 where
  to_peer : Tx → Bytes → Output
  to_socket : Outgoing → Output
  send_ping : Output
  send_close : CloseCode → String → Output
  error_frame : String → String → Output
  record_error : CloseCode → Output
  log_error : ℕ → String → String → Output
  record_forward : Role → ℕ → Output
  push_handled : Handled → Output
  record_session_duration : ℕ → Output
  log_disconnected : Role → Handle → ℕ → ℕ → ℕ → ℕ → Output
  session_effects : List Session.Effect → Output

pub record Shared : Type 0 where
  pub rooms : Rooms
  pub push : Push
  pub closed : Tx → Bool

pub record Pump : Type 0 where
  pub limiter : FrameRateLimiter
  pub frames_forwarded : ℕ
  pub bytes_forwarded : ℕ
  pub awaiting_pong_since : Option ℕ

-- The connection, and what it asks of the rest.
pub record Connection : Type 0 where
  pub handle : Handle
  pub role : Role
  pub from_json : Bytes → Option RelayMessage
  pub providers : Providers

unfoldable pub new_pump : ℕ → ℕ → Pump
new_pump frame_rate_per_sec now = record {
  limiter = new_frame_limiter frame_rate_per_sec now;
  frames_forwarded = 0;
  bytes_forwarded = 0;
  awaiting_pong_since = none;
}

-- The loop goes on, or breaks with the peer's close frame.
pub data Next : Type 0 where
  continues : Pump → Next
  breaks : Option CloseFrame → Next

abbrev unwrap_name : Option String → String
unwrap_name none = ""
unwrap_name (some n) = n

-- A guard of the binary branch that fails.
abbrev pub refuse : Rooms → CloseCode → String → List Output
refuse rooms code why =
    send_close code why
    ∷ record_error code
    ∷ log_error (active_handles rooms) (unwrap_name (name code)) why
    ∷ []

-- The send fails when the peer's task has dropped its receiver, and the frame is dropped silently.
abbrev pub send_to_peer : (Tx → Bool) → Option Tx → Bytes → List Output
send_to_peer closed none bytes = []
send_to_peer closed (some peer) bytes = if closed peer then [] else to_peer peer bytes ∷ []

unfoldable pub forward : Shared → Handle → Role → Bytes → List Output
forward shared handle role bytes =
    send_to_peer shared.closed (peer_of shared.rooms handle role) bytes

unfoldable pub on_binary : Connection → Shared → Pump → Bytes → ℕ → List Output × Next
on_binary c shared p bytes now =
    let (limiter', within_rate) = allow_frame p.limiter now in
    if ltb max_frame_bytes (length bytes)
    then (
      refuse shared.rooms CloseCode.frame_too_large "frame exceeds the 1 MiB limit",
      breaks none,
    )
    else if not within_rate
    then (refuse shared.rooms CloseCode.rate_limited "frame rate limit exceeded", breaks none)
    else (
      record_forward c.role (length bytes) ∷ forward shared c.handle c.role bytes,
      continues (record p {
        limiter = limiter';
        frames_forwarded = (p.frames_forwarded + 1) % 2 ^ 64;
        bytes_forwarded = (p.bytes_forwarded + length bytes) % 2 ^ 64;
      }),
    )

abbrev pub after_send : Bool → Pump → Next
after_send true p = continues p
after_send false p = breaks none

abbrev on_push : Pump → Bool → Result Unit Handled → List Output × Next
on_push p sent (ok handled) = (push_handled handled ∷ [], continues p)
on_push p sent (err e) = (error_frame "invalid_frame" "invalid push frame" ∷ [], after_send sent p)

unfoldable pub on_text : Connection → Shared → Pump → Bytes → ℕ → Bool → List Output × Next
on_text c shared p bytes now sent =
    let (limiter', within_rate) = allow_frame p.limiter now in
    if ltb max_frame_bytes (length bytes)
    then (
      send_close CloseCode.frame_too_large "frame exceeds 1 MiB limit"
          ∷ record_error CloseCode.frame_too_large
          ∷ [],
      breaks none,
    )
    else if not within_rate
    then (
      send_close CloseCode.rate_limited "frame rate limit exceeded"
          ∷ record_error CloseCode.rate_limited
          ∷ [],
      breaks none,
    )
    else on_push (record p { limiter = limiter' }) sent
        (receive c.from_json c.providers shared.closed shared.rooms shared.push bytes c.handle
          c.role now)

-- One turn of the loop.
unfoldable pub step : Connection → Shared → Pump → Event → List Output × Next
unfolding on_binary on_text
step c shared p (binary bytes now) = on_binary c shared p bytes now
step c shared p (text_frame bytes now sent) = on_text c shared p bytes now sent
step c shared p pong = ([], continues (record p { awaiting_pong_since = none }))
step c shared p ping = ([], continues p)
step c shared p ended = ([], breaks none)
step c shared p (close_frame frame) = ([], breaks frame)
step c shared p (outgoing message sent) = (to_socket message ∷ [], after_send sent p)
step c shared p (ping_due sent now) =
    (send_ping ∷ [], after_send sent (record p { awaiting_pong_since = some now }))
step c shared p pong_overdue = ([], breaks none)

-- The outputs of a run, with the counters at its end and the close frame it ended with; `none`
-- where the events end first.
abbrev pub Ended : Type 0
Ended = List Output × Pump × Option (Option CloseFrame)

abbrev pub prepend : List Output → Ended → Ended
prepend outputs (rest, p, e) = (outputs ++ rest, p, e)

abbrev pub resume : Pump → List Output × Next → (Pump → Ended) → Ended
resume p (outputs, breaks frame) later = (outputs, p, some frame)
resume p (outputs, continues p') later = prepend outputs (later p')

unfoldable pub run : Connection → Pump → List (Shared × Event) → Ended
run c p [] = ([], p, none)
run c p ((shared, event) ∷ events) = resume p (step c shared p event) (λ p'. run c p' events)

-- After the loop: the receiver is dropped, the session is logged, and the slot is given up.
unfoldable pub leave : Connection → Rooms → Pump → Tx → Option CloseFrame → ℕ → Rooms × List Output
leave c rooms p my_tx peer_close duration_ms =
    let (rooms', effects) = disconnect rooms c.handle c.role my_tx peer_close in
    (
      rooms',
      record_session_duration duration_ms
          ∷ log_disconnected c.role c.handle (active_handles rooms) p.frames_forwarded
              p.bytes_forwarded duration_ms
          ∷ session_effects effects
          ∷ [],
    )
