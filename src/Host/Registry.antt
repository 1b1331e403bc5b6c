-- ===== src/Host/Registry.antt =====
-- The Host's live sessions by routing handle: crates/herdr-relay/src/relay/registry.rs. A session's
-- receiver is a number, and whether it still listens is an argument.
use herdr_mobile.Base.{
  Bool, Bytes, List, Option, [], all, any, beq, if◌then◌else◌, is_some_and, length, none, some, ℕ,
  ◌||◌, ◌∷◌,
}
use herdr_mobile.Base.AssocMap.{Map, get, insert, remove}
pub mod Revocation

abbrev pub Handle : Type 0
Handle = Bytes

abbrev pub Receiver : Type 0
Receiver = ℕ

pub record RegisteredSession : Type 0 where
  pub device_id : Option Bytes
  pub close : Receiver

abbrev pub SessionRegistry : Type 0
SessionRegistry = Map RegisteredSession

unfoldable pub register : SessionRegistry → Handle → Option Bytes → Receiver → SessionRegistry
register sessions handle device_id rx =
    insert handle (record { device_id = device_id; close = rx }) sessions

abbrev pub set_if_some :
    SessionRegistry → Handle → Bytes → Option RegisteredSession → SessionRegistry
set_if_some sessions handle device_id none = sessions
set_if_some sessions handle device_id (some session) =
    insert handle (record session { device_id = some device_id }) sessions

unfoldable pub set_device_id : SessionRegistry → Handle → Bytes → SessionRegistry
set_device_id sessions handle device_id =
    set_if_some sessions handle device_id (get handle sessions)

unfoldable pub unregister : SessionRegistry → Handle → SessionRegistry
unregister sessions handle = remove handle sessions

pub record RevokeResult : Type 0 where
  pub all : Bool
  pub revoked : List Bytes

abbrev pub is_revoked : RevokeResult → RegisteredSession → Bool
is_revoked result session =
    result.all
    || is_some_and session.device_id (λ id. any (λ revoked. beq revoked id) result.revoked)

-- The handles of the sessions to close.
unfoldable pub to_close : RevokeResult → SessionRegistry → List Handle
to_close result [] = []
to_close result ((handle, session) ∷ sessions) =
    let rest = to_close result sessions in if is_revoked result session then handle ∷ rest else rest

-- A session is removed, and its receiver told to close if it listens.
abbrev close_one : (Receiver → Bool) → Option RegisteredSession → List Receiver → List Receiver
close_one listens none signalled = signalled
close_one listens (some session) signalled =
    if listens session.close then session.close ∷ signalled else signalled

-- The loop over the handles: the sessions left, and the receivers that were told.
unfoldable pub close_all :
    (Receiver → Bool) → List Handle → SessionRegistry → SessionRegistry × List Receiver
close_all listens [] sessions = (sessions, [])
close_all listens (handle ∷ handles) sessions =
    let (left, signalled) = close_all listens handles (remove handle sessions) in
    (left, close_one listens (get handle sessions) signalled)

-- The sessions left, the receivers told to close, and how many they are.
unfoldable pub close_for_revocation :
    (Receiver → Bool) → SessionRegistry → RevokeResult → SessionRegistry × List Receiver × ℕ
close_for_revocation listens sessions result =
    let (left, signalled) = close_all listens (to_close result sessions) sessions in
    (left, signalled, length signalled)
