-- ===== src/Host/Input.antt =====
-- `send_input` of the bridge: crates/herdr-relay/src/watch/input.rs, on the UTF-8 bytes of its texts.
-- The segmentation of a text into graphemes, which calls of Herdr succeed and the readings of the
-- clock are arguments; the calls that were made are kept in order.
use herdr_mobile.Base.{
  Bool, Bytes, List, Option, [], all, any, beq, codes, drop, false, if◌then◌else◌, is_empty, length,
  min, none, some, suc, take, true, zero, ℕ, ◌++◌, ◌+◌, ◌-◌, ◌==◌, ◌||◌, ◌∷◌,
}
use herdr_mobile.Base.Strings.{contains}
use herdr_mobile.Base.AssocMap.{Map, get, insert}
use herdr_mobile.Host.KeyMap.{to_ascii_lowercase, validate_key, RejectedKey}
use herdr_mobile.Host.Scheduler.{PaneScheduler, on_input_sent}
pub mod Editor
pub mod Delete
pub mod Reconcile

pub data Defer : Type 0 where
  until_idle cancel : Defer

pub record SendInput : Type 0 where
  pub pane_id : Bytes
  pub bypass_line : Option Bool
  pub line : Option Bytes
  pub text : Option Bytes
  pub keys : Option (List Bytes)
  pub defer : Option Defer

pub record SendInputAck : Type 0 where
  pub pane_id : Bytes
  pub accepted : Bool
  pub queued : Bool

pub data WatchError : Type 0 where
  not_watching pane_not_in_snapshot : Bytes → WatchError
  invalid_input herdr_error : WatchError

-- The calls of Herdr, on a pane.
pub data Call : Type 0 where
  pane_send_text : Bytes → Bytes → Call
  pane_send_input : Bytes → Option Bytes → Option (List Bytes) → Call

-- The calls that were made, and whether each succeeded.
abbrev pub Calls : Type 0
Calls = List (Call × Bool)

-- Which calls succeed may depend on those before.
pub record Env : Type 0 where
  pub graphemes : Bytes → List Bytes
  pub herdr : Calls → Call → Bool

unfoldable pub call : Env → Calls → Call → Calls × Bool
call env calls c = let sent = env.herdr calls c in (calls ++ (c, sent) ∷ [], sent)

abbrev pub typed_call : Bytes → Bytes → Call
typed_call pane_id text =
    if contains 10 text
    then pane_send_input pane_id (some text) none
    else pane_send_text pane_id text

unfoldable pub send_typed_text : Env → Calls → Bytes → Bytes → Calls × Bool
send_typed_text env calls pane_id text = call env calls (typed_call pane_id text)

abbrev pub eq_ignore_ascii_case : Bytes → Bytes → Bool
eq_ignore_ascii_case a b = beq (to_ascii_lowercase a) (to_ascii_lowercase b)

-- The sequences of the unnamed keys.
abbrev pub is_key_sequence : Bytes → Bool
is_key_sequence text =
    any (λ rest. beq text (27 ∷ rest))
      (codes "[H" ∷ codes "[F" ∷ codes "[5~" ∷ codes "[6~" ∷ codes "[3~" ∷ codes "[2~" ∷ [])

abbrev pub is_submit : Bytes → Bool
is_submit key =
    eq_ignore_ascii_case key (codes "Enter")
    || (eq_ignore_ascii_case key (codes "Return") || eq_ignore_ascii_case key (codes "ctrl+c"))

-- Where the last grapheme starts, 0 when there is none.
unfoldable pub last_start : List Bytes → ℕ
last_start [] = 0
last_start (g ∷ []) = 0
last_start (g ∷ h ∷ gs) = length g + last_start (h ∷ gs)

-- The loop over the keys, and `truncate` at the last grapheme.
unfoldable pub press_keys : Env → Bytes → List Bytes → Bytes
press_keys env shadow [] = shadow
press_keys env shadow (key ∷ keys) =
    press_keys env
      (if eq_ignore_ascii_case key (codes "Backspace")
        then take (last_start (env.graphemes shadow)) shadow
        else shadow)
      keys

abbrev pub push_typed : Option Bytes → Bytes → Option Bytes
push_typed none text = none
push_typed (some shadow) text = some (if is_key_sequence text then shadow else shadow ++ text)

abbrev pub push_keys : Env → Option Bytes → List Bytes → Option Bytes
push_keys env none keys = none
push_keys env (some shadow) keys =
    some (if any is_submit keys then [] else press_keys env shadow keys)

unfoldable pub forward_text : Env → Calls → SendInput → Option Bytes → Calls × Option Bytes × Bool
forward_text env calls request shadow = elim request.text [
  | none ↦ (calls, shadow, true)
  | some text ↦
      let (calls', sent) = send_typed_text env calls request.pane_id text in
      (calls', if sent then push_typed shadow text else shadow, sent)
]

unfoldable pub forward_keys : Env → Calls → SendInput → Option Bytes → Calls × Option Bytes × Bool
forward_keys env calls request shadow = elim request.keys [
  | none ↦ (calls, shadow, true)
  | some keys ↦
      let (calls', sent) = call env calls (pane_send_input request.pane_id none (some keys)) in
      (calls', if sent then push_keys env shadow keys else shadow, sent)
]

-- The calls, the shadow as it is left, and whether all succeeded.
unfoldable pub forward_input : Env → Calls → SendInput → Option Bytes → Calls × Option Bytes × Bool
forward_input env calls request shadow =
    let (calls', shadow', sent) = forward_text env calls request shadow in
    if sent then forward_keys env calls' request shadow' else (calls', shadow', false)

-- The bytes of the graphemes that both texts begin with.
unfoldable pub common_prefix : List Bytes → List Bytes → ℕ
common_prefix [] hs = 0
common_prefix (g ∷ gs) [] = 0
common_prefix (g ∷ gs) (h ∷ hs) =
    let rest = common_prefix gs hs in if beq g h then length g + rest else 0

abbrev pub sum_lengths : List Bytes → ℕ
sum_lengths [] = 0
sum_lengths (g ∷ gs) = length g + sum_lengths gs

-- `rev` of an iterator.
unfoldable pub reverse : List Bytes → List Bytes
reverse [] = []
reverse (g ∷ gs) = reverse gs ++ g ∷ []

unfoldable pub repeat : ℕ → Bytes → List Bytes
repeat zero key = []
repeat (suc n) key = key ∷ repeat n key

abbrev pub backspaces : ℕ → List Bytes
backspaces count = repeat count (codes "Backspace")

-- `truncate` by the last graphemes.
unfoldable pub truncate_last : Env → ℕ → Bytes → Bytes
truncate_last env count old =
    take (length old - sum_lengths (take count (reverse (env.graphemes old)))) old

-- How a sequence of calls ends.
pub data Outcome : Type 0 where
  all_sent send_failed out_of_fuel : Outcome

-- The loop `while remaining != 0`, with at most `limit` keys in a call.
unfoldable pub delete_loop : ℕ → Env → Calls → Bytes → ℕ → ℕ → Bytes → Calls × Bytes × Outcome
delete_loop zero env calls pane_id limit remaining old =
    (calls, old, if remaining == 0 then all_sent else out_of_fuel)
delete_loop (suc fuel) env calls pane_id limit remaining old =
    let count = min remaining limit in
    let (calls', sent) = call env calls (pane_send_input pane_id none (some (backspaces count))) in
    let rest =
      delete_loop fuel env calls' pane_id limit (remaining - count) (truncate_last env count old) in
    if remaining == 0
    then (calls, old, all_sent)
    else if sent
    then rest
    else (calls', old, send_failed)

abbrev pub outcome_of : Bool → Outcome
outcome_of sent = if sent then all_sent else send_failed

unfoldable pub send_tail : Env → Calls × Bytes × Outcome → Bytes → Bytes → Calls × Bytes × Outcome
send_tail env (calls, old, send_failed) pane_id tail = (calls, old, send_failed)
send_tail env (calls, old, out_of_fuel) pane_id tail = (calls, old, out_of_fuel)
send_tail env (calls, old, all_sent) pane_id tail =
    let (calls', sent) = send_typed_text env calls pane_id tail in
    if is_empty tail then (calls, old, all_sent) else (calls', old, outcome_of sent)

-- The calls, the shadow as it is left, and how the calls end.
unfoldable pub reconcile_line : Env → Calls → Bytes → Bytes → Bytes → Calls × Bytes × Outcome
reconcile_line env calls pane_id old line =
    let prefix_bytes = common_prefix (env.graphemes old) (env.graphemes line) in
    let remove = length (env.graphemes (drop prefix_bytes old)) in
    send_tail env (delete_loop remove env calls pane_id (min remove 64) remove old) pane_id
      (drop prefix_bytes line)
