-- ===== src/Host/Bridge.antt =====
-- The input side of a Device's bridge: `send_input`, `require_watched` and `validate_send_input` of
-- crates/herdr-relay/src/watch/input.rs, and `cancel_pending_inputs` of held_input.rs.
use herdr_mobile.Base.{
  Bool, Bytes, List, Option, Result, [], all, any, beq, codes, err, false, if◌then◌else◌, is_empty,
  is_ok, is_some, is_some_and, length, none, not, ok, some, true, ℕ, ◌&&◌, ◌++◌, ◌==◌, ◌>>◌, ◌||◌,
  ◌∷◌,
}
use herdr_mobile.Base.AssocMap.{Map, get, insert}
use herdr_mobile.Host.KeyMap.{validate_key}
use herdr_mobile.Host.Scheduler.{PaneScheduler, on_input_sent}
use herdr_mobile.Host.Input.{
  Env, Calls, SendInput, SendInputAck, Defer, until_idle, cancel, WatchError, not_watching,
  invalid_input, eq_ignore_ascii_case, forward_input, reconcile_line, Outcome, all_sent,
  send_failed, out_of_fuel,
}
pub mod Checks
pub mod Edits
pub mod Lines
pub mod Held
pub mod Settled
pub mod Replies
pub mod Deferred
mod Tests

pub record PendingInput : Type 0 where
  pub pane_id : Bytes
  pub keys : List Bytes
  pub corr : Option Bytes

pub record WatchedPane : Type 0 where
  pub pane_id : Bytes
  pub last_revision : ℕ
  pub viewport_rows : ℕ
  pub width : ℕ
  pub last_frame_hash : ℕ

-- The calls of Herdr that were made are part of the state. The lines are shared by the bridges of all
-- Devices, under one lock; a run of one bridge has no other's writes in between.
pub record Bridge : Type 0 where
  pub watched : Option WatchedPane
  pub scheduler : Option PaneScheduler
  pub input_lines : Map Bytes
  pub pending_input : Option PendingInput
  pub input_replies : List (SendInputAck × Option Bytes)
  pub calls : Calls

unfoldable pub require_watched : Bridge → Bytes → Result WatchError Unit
require_watched b pane_id =
    if is_some_and b.watched (λ w. beq w.pane_id pane_id) then ok tt else err (not_watching pane_id)

abbrev is_true : Option Bool → Bool
is_true none = false
is_true (some b) = b

abbrev pub bypasses : SendInput → Bool
bypasses request = is_true request.bypass_line

abbrev pub keys_of : SendInput → List Bytes
keys_of request = elim request.keys [ none ↦ [] | some keys ↦ keys ]

abbrev pub each_valid : List Bytes → Bool
each_valid keys = all (λ key. is_ok (validate_key key)) keys

unfoldable pub validate_send_input : SendInput → Result WatchError Unit
validate_send_input request =
    if bypasses request && (is_some request.line || is_some request.defer)
    then err invalid_input
    else if is_some request.defer
    then err invalid_input
    else if is_some request.line
    then (if is_some request.text || is_some request.keys then err invalid_input else ok tt)
    else if not (is_some request.text) && is_empty (keys_of request)
    then err invalid_input
    else if each_valid (keys_of request)
    then ok tt
    else err invalid_input

unfoldable pub input_ack : Bytes → Bool → Bool → SendInputAck
input_ack pane_id accepted queued = record {
  pane_id = pane_id;
  accepted = accepted;
  queued = queued;
}

unfoldable pub cancel_pending_inputs : Bridge → Bridge
unfolding input_ack
cancel_pending_inputs b = elim b.pending_input [
  | none ↦ b
  | some pending ↦ record b {
    pending_input = none;
    input_replies = b.input_replies ++ (input_ack pending.pane_id false false, pending.corr) ∷ [];
  }
]

abbrev pub interrupts : List Bytes → Bool
interrupts keys =
    any (λ k. eq_ignore_ascii_case k (codes "Enter") || eq_ignore_ascii_case k (codes "ctrl+c"))
      keys

abbrev pub line_or_default : Option Bytes → Bytes
line_or_default none = []
line_or_default (some line) = line

abbrev pub line_of : Bridge → Bytes → Bytes
line_of b pane_id = line_or_default (get pane_id b.input_lines)

abbrev pub is_sent : Outcome → Bool
is_sent all_sent = true
is_sent send_failed = false
is_sent out_of_fuel = false

-- The calls, the line that is kept, and whether the request was accepted.
unfoldable pub edit_by : Env → Calls → SendInput → Bytes → Option Bytes → Calls × Bytes × Bool
edit_by env calls request old (some line) =
    let (calls', kept, outcome) = reconcile_line env calls request.pane_id old line in
    (calls', if is_sent outcome then line else kept, is_sent outcome)
edit_by env calls request old none =
    let (calls', shadow, sent) = forward_input env calls request (some old) in
    (calls', line_or_default shadow, sent)

unfoldable pub edit_line : Env → Calls → SendInput → Bytes → Calls × Bytes × Bool
unfolding edit_by
edit_line env calls request old = edit_by env calls request old request.line

-- The writing under the lock of the lines: accepted, and whether the line's length changed.
unfoldable pub write : Env → Bridge → SendInput → Bridge × Bool × Bool
write env b request =
    if bypasses request
    then (let (calls', shadow, sent) = forward_input env b.calls request none in
        (record b { calls = calls' }, sent, false))
    else (let old = line_of b request.pane_id in
        let (calls', line, accepted) = edit_line env b.calls request old in
        (
          record b { calls = calls'; input_lines = insert request.pane_id line b.input_lines },
          accepted,
          not (length line == length old),
        ))

abbrev pub restart : Option PaneScheduler → ℕ → Option PaneScheduler
restart none now = none
restart (some s) now = some (on_input_sent s now)

abbrev pub before_write : Bridge → SendInput → Bridge
before_write b request =
    if not (bypasses request) && interrupts (keys_of request) then cancel_pending_inputs b else b

abbrev pub after_write : Bridge × Bool × Bool → ℕ → Bridge
after_write (b, accepted, changed) now =
    if accepted || changed then record b { scheduler = restart b.scheduler now } else b

-- What follows the checks.
unfoldable pub send_checked : Env → Bridge → SendInput → ℕ → Bridge × Result WatchError SendInputAck
send_checked env b request now =
    let written = write env (before_write b request) request in
    (after_write written now, ok (input_ack request.pane_id written.1 false))

unfoldable pub send_input : Env → Bridge → SendInput → ℕ → Bridge × Result WatchError SendInputAck
send_input env b request now =
    elim (require_watched b request.pane_id >> validate_send_input request) [
      | err e ↦ (b, err e)
      | ok passed ↦ send_checked env b request now
    ]
