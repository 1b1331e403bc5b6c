-- ===== src/Host/Bridge/Deferred.antt =====
-- The held submits of a bridge: crates/herdr-relay/src/watch/held_input.rs.
use herdr_mobile.Base.{
  Bool, Bytes, List, Option, Result, [], any, beq, codes, err, false, if◌then◌else◌, is_some,
  is_some_and, none, not, ok, some, true, ℕ, ◌&&◌, ◌++◌, ◌||◌, ◌∷◌,
}
use herdr_mobile.Host.Input.{
  Env, SendInput, SendInputAck, Defer, until_idle, cancel, WatchError, invalid_input,
  eq_ignore_ascii_case,
}
use herdr_mobile.Host.Bridge.{
  Bridge, PendingInput, bypasses, cancel_pending_inputs, input_ack, keys_of, require_watched,
  send_input, validate_send_input,
}

-- `session.snapshot` of Herdr: the agents, each with its pane and its status, or a failure.
abbrev pub Snapshot : Type 0
Snapshot = Option (List (Bytes × Bytes))

abbrev pub is_working : List (Bytes × Bytes) → Bytes → Bool
is_working agents pane_id =
    any (λ (pane, status). beq pane pane_id && beq status (codes "working")) agents

abbrev pub is_pending_on : Option PendingInput → Bytes → Bool
is_pending_on pending pane_id = is_some_and pending (λ p. beq p.pane_id pane_id)

abbrev pub undeferred : SendInput → SendInput
undeferred request = record request { defer = none }

unfoldable pub cancel_deferred : Bridge → SendInput → Bridge × Result WatchError SendInputAck
unfolding input_ack
cancel_deferred b request =
    if is_some request.line || (is_some request.text || is_some request.keys)
    then (b, err invalid_input)
    else (
      if is_pending_on b.pending_input request.pane_id then cancel_pending_inputs b else b,
      ok (input_ack request.pane_id true false),
    )

-- What follows the snapshot.
unfoldable pub hold :
    Env → Bridge → SendInput → Option Bytes → Snapshot → ℕ → Bridge × Result WatchError SendInputAck
hold env b request corr none now = (b, ok (input_ack request.pane_id false false))
hold env b request corr (some agents) now =
    let b' = cancel_pending_inputs b in
    if is_working agents request.pane_id
    then (
      record b' {
        pending_input =
            some (record { pane_id = request.pane_id; keys = keys_of request; corr = corr });
      },
      ok (input_ack request.pane_id true true),
    )
    else send_input env b' (undeferred request) now

abbrev pub is_malformed : SendInput → Bool
is_malformed request =
    is_some request.line
    || (is_some request.text
        || not (any (λ key. eq_ignore_ascii_case key (codes "Enter")) (keys_of request)))

unfoldable pub until_idle_deferred :
    Env → Bridge → SendInput → Option Bytes → Snapshot → ℕ → Bridge × Result WatchError SendInputAck
until_idle_deferred env b request corr snapshot now = elim (require_watched b request.pane_id) [
  | err e ↦ (b, err e)
  | ok passed ↦
      if is_malformed request
      then (b, err invalid_input)
      else elim (validate_send_input (undeferred request)) [
        | err e ↦ (b, err e)
        | ok valid ↦ hold env b request corr snapshot now
      ]
]

unfoldable pub by_defer :
    Env
    → Bridge
    → SendInput
    → Option Bytes
    → Snapshot
    → ℕ
    → Option Defer
    → Bridge × Result WatchError SendInputAck
by_defer env b request corr snapshot now none = send_input env b request now
by_defer env b request corr snapshot now (some cancel) = cancel_deferred b request
by_defer env b request corr snapshot now (some until_idle) =
    until_idle_deferred env b request corr snapshot now

unfoldable pub dispatch :
    Env → Bridge → SendInput → Option Bytes → Snapshot → ℕ → Bridge × Result WatchError SendInputAck
dispatch env b request corr snapshot now =
    if bypasses request
    then send_input env b request now
    else by_defer env b request corr snapshot now request.defer

abbrev pub unwrap_or : Result WatchError SendInputAck → SendInputAck → SendInputAck
unwrap_or (ok ack) other = ack
unwrap_or (err e) other = other

unfoldable pub take_input_replies : Bridge → Bridge × List (SendInputAck × Option Bytes)
take_input_replies b = (record b { input_replies = [] }, b.input_replies)

-- The snapshot and the instant are those that the handler would read.
unfoldable pub handle_deferred_input :
    Env
    → Bridge
    → SendInput
    → Option Bytes
    → Snapshot
    → ℕ
    → Bridge × List (SendInputAck × Option Bytes)
handle_deferred_input env b request corr snapshot now =
    let (b', result) = dispatch env b request corr snapshot now in
    let reply = unwrap_or result (input_ack request.pane_id false false) in
    take_input_replies (record b' { input_replies = b'.input_replies ++ (reply, corr) ∷ [] })

-- The request of a held submit.
abbrev pub held_request : PendingInput → SendInput
held_request pending = record {
  pane_id = pending.pane_id;
  bypass_line = none;
  line = none;
  text = none;
  keys = some pending.keys;
  defer = none;
}

unfoldable pub release_pending : Env → Bridge → PendingInput → ℕ → Bridge
release_pending env b pending now =
    let (b', result) =
      send_input env (record b { pending_input = none }) (held_request pending) now in
    let reply = unwrap_or result (input_ack pending.pane_id false false) in
    record b' { input_replies = b'.input_replies ++ (reply, pending.corr) ∷ [] }

unfoldable pub release_on : Env → Bridge → Bytes → ℕ → Option PendingInput → Bridge
release_on env b pane_id now none = b
release_on env b pane_id now (some pending) =
    if beq pending.pane_id pane_id then release_pending env b pending now else b

-- `session_active` is the flag that the transport clears, when there is one.
unfoldable pub release_pending_input : Env → Bridge → Option Bool → Bytes → ℕ → Bridge
release_pending_input env b session_active pane_id now =
    if is_some_and session_active not
    then cancel_pending_inputs b
    else release_on env b pane_id now b.pending_input
