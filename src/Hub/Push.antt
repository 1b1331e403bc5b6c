-- ===== src/Hub/Push.antt =====
-- Content-free push delivery: crates/herdr-relay-hub/src/routes/push.rs, and the messages of
-- crates/herdr-relay-proto/src/frame.rs that reach it. The JSON parser and the push providers are
-- parameters; the clock is an argument.
use herdr_mobile.Base.{
  Bool, Bytes, Option, Result, [], err, false, if◌then◌else◌, is_empty, is_some, is_some_and, leb,
  length, ltb, none, not, ok, secs, some, true, ℕ, ◌&&◌, ◌+◌, ◌-◌, ◌==◌, ◌∷◌,
}
use herdr_mobile.Base.AssocMap.{Map, get, insert, remove}
use herdr_mobile.Hub.Session.{Handle, Tx, Role, host, device, Rooms, peer_of}
pub mod Evict
pub mod Store
pub mod Wake
pub mod Receive

abbrev pub capacity : ℕ
capacity = 4096

abbrev pub collapse : ℕ
collapse = secs 30

pub data Platform : Type 0 where
  ios android : Platform

pub data RelayMessage : Type 0 where
  push_register : Platform → Bytes → RelayMessage
  push_unregister push_wake : RelayMessage

pub record Entry : Type 0 where
  pub platform : Platform
  pub token : Bytes
  pub generation : ℕ
  pub last_sent : Option ℕ

pub record PushStore : Type 0 where
  pub entries : Map Entry
  pub generation : ℕ

abbrev pub empty_store : PushStore
empty_store = record { entries = []; generation = 0 }

-- `min_by_key` on the generation: the first of the least.
abbrev pub older : Handle × ℕ → Option (Handle × ℕ) → Option (Handle × ℕ)
older a none = some a
older a (some b) = if leb a.1 b.1 then some a else some b

unfoldable pub oldest : Map Entry → Option (Handle × ℕ)
oldest [] = none
oldest ((h, e) ∷ m) = older (h, e.generation) (oldest m)

abbrev pub remove_oldest : Option (Handle × ℕ) → Map Entry → Map Entry
remove_oldest none m = m
remove_oldest (some (h, g)) m = remove h m

abbrev pub last_sent_of : Option Entry → Option ℕ
last_sent_of none = none
last_sent_of (some e) = e.last_sent

-- The entries after the eviction that a new handle may need.
unfoldable pub evict : Handle → Map Entry → Map Entry
evict handle entries =
    if length entries == capacity && not (is_some (get handle entries))
    then remove_oldest (oldest entries) entries
    else entries

unfoldable pub register : PushStore → Handle → Platform → Bytes → PushStore
register s handle platform token =
    let generation = s.generation + 1 in
    let entry : Entry = record {
      platform = platform;
      token = token;
      generation = generation;
      last_sent = last_sent_of (get handle s.entries);
    } in
    record { entries = insert handle entry (evict handle s.entries); generation = generation }

abbrev pub Delivery : Type 0
Delivery = Platform × Bytes × ℕ

unfoldable pub take_wake : PushStore → Handle → ℕ → PushStore × Option Delivery
take_wake s handle now = elim (get handle s.entries) [
  | none ↦ (s, none)
  | some entry ↦
      if is_some_and entry.last_sent (λ last. ltb (now - last) collapse) then (s, none) else (
        record s { entries = insert handle (record entry { last_sent = some now }) s.entries },
        some (entry.platform, entry.token, entry.generation),
      )
]

unfoldable pub remove_generation : PushStore → Handle → ℕ → PushStore
remove_generation s handle generation =
    if is_some_and (get handle s.entries) (λ entry. entry.generation == generation)
    then record s { entries = remove handle s.entries }
    else s

-- The providers, and the counters of each platform.
pub record Providers : Type 0 where
  pub enabled : Bool
  pub supports : Platform → Bool

pub record Counters : Type 0 where
  pub ios_count : ℕ
  pub android_count : ℕ

unfoldable pub count_one : Platform → Counters → Counters
count_one ios c = record c { ios_count = c.ios_count + 1 }
count_one android c = record c { android_count = c.android_count + 1 }

pub record Push : Type 0 where
  pub store : PushStore
  pub sent : Counters
  pub failed : Counters

-- Who may send which message.
unfoldable pub check_sender : Role → RelayMessage → Bool
check_sender device (push_register platform token) = not (is_empty token) && leb (length token) 4096
check_sender device push_unregister = true
check_sender host push_wake = true
check_sender _ _ = false

abbrev pub when_sent_by : Role → Option RelayMessage → Option RelayMessage
when_sent_by role none = none
when_sent_by role (some frame) = if check_sender role frame then some frame else none

unfoldable pub parse : (Bytes → Option RelayMessage) → Bytes → Role → Option RelayMessage
unfolding check_sender
parse from_json text role = when_sent_by role (from_json text)

-- The push after a frame, and the delivery that it starts.
abbrev pub Handled : Type 0
Handled = Push × Option Delivery

unfoldable pub device_present : (Tx → Bool) → Rooms → Handle → Bool
device_present closed rooms handle = is_some_and (peer_of rooms handle host) (λ tx. not (closed tx))

unfoldable pub apply_frame :
    Providers → (Tx → Bool) → Rooms → Push → Handle → ℕ → RelayMessage → Handled
unfolding device_present
apply_frame providers closed rooms p handle now (push_register platform token) =
    if providers.supports platform
    then (record p { store = register p.store handle platform token }, none)
    else (p, none)
apply_frame providers closed rooms p handle now push_unregister =
    (record p { store = record (p.store) { entries = remove handle (p.store.entries) } }, none)
apply_frame providers closed rooms p handle now push_wake =
    let (store', delivery) = take_wake p.store handle now in
    if device_present closed rooms handle
    then (p, none)
    else (record p { store = store' }, delivery)

abbrev pub handle_frame :
    Providers
    → (Tx → Bool)
    → Rooms
    → Push
    → Handle
    → ℕ
    → Option RelayMessage
    → Result (Unit {0}) Handled
handle_frame providers closed rooms p handle now none = err tt
handle_frame providers closed rooms p handle now (some frame) =
    if not providers.enabled
    then ok (p, none)
    else ok (apply_frame providers closed rooms p handle now frame)

unfoldable pub receive :
    (Bytes → Option RelayMessage)
    → Providers
    → (Tx → Bool)
    → Rooms
    → Push
    → Bytes
    → Handle
    → Role
    → ℕ
    → Result (Unit {0}) Handled
unfolding apply_frame parse
receive from_json providers closed rooms p text handle role now =
    handle_frame providers closed rooms p handle now (parse from_json text role)

-- How a provider answers: sent, failed, or failed because the token is gone (`Err(true)`).
pub data Sending : Type 0 where
  sent_ok failed_again token_gone : Sending

-- The task that `receive` spawns, once the provider has answered.
unfoldable pub delivered : Push → Handle → Delivery → Sending → Push
unfolding count_one
delivered p handle (platform, token, generation) sent_ok = record p {
  sent = count_one platform p.sent;
}
delivered p handle (platform, token, generation) failed_again = record p {
  failed = count_one platform p.failed;
}
delivered p handle (platform, token, generation) token_gone = record p {
  store = remove_generation p.store handle generation;
  failed = count_one platform p.failed;
}
