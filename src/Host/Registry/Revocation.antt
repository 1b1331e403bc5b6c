-- ===== src/Host/Registry/Revocation.antt =====
-- What a revocation leaves registered: `close_for_revocation` of relay/registry.rs.
use herdr_mobile.Base.{
  Bool, Bool-cases, Bytes, List, Option, [], any, arith, beq, beq→eq, if◌then◌else◌, inl, inr,
  is_some_and, none, refl, some, subst, ◌∙◌, ◌∷◌, ◌≡◌,
}
use herdr_mobile.Base.AssocMap.{get, remove, get-remove, Distinct, insert-Distinct, remove-Distinct}
use herdr_mobile.Host.Registry.{
  set_if_some, Handle, Receiver, RegisteredSession, SessionRegistry, register, set_device_id,
  unregister, RevokeResult, is_revoked, to_close, close_all, close_for_revocation,
}

abbrev is_listed : List Handle → Handle → Bool
is_listed handles j = any (λ h. beq h j) handles

get-close_all :
    (listens : Receiver → Bool) (handles : List Handle) (sessions : SessionRegistry) (j : Handle)
    → get j (close_all listens handles sessions).0
      ≡ (if is_listed handles j then none else get j sessions)
unfolding close_all
get-close_all listens [] sessions j = refl
get-close_all listens (h ∷ handles) sessions j =
    get-close_all listens handles (remove h sessions) j
    ∙ rw (get-remove h j sessions) (ground arith)

is_listed-to_close :
    (result : RevokeResult) (sessions : SessionRegistry) (j : Handle)
    → Distinct sessions
    → is_listed (to_close result sessions) j ≡ is_some_and (get j sessions) (is_revoked result)
unfolding to_close get
is_listed-to_close result [] j d = refl
is_listed-to_close result ((h, s) ∷ sessions) j d = elim (Bool-cases (beq h j)) [
  | inl same ↦
      let e = is_listed-to_close result sessions j d.1 in
      let gone = subst (λ k. get k sessions ≡ none) (beq→eq h j same) d.0 in
      ground (arith, same, e, gone)
  | inr differ ↦ ground (arith, differ, is_listed-to_close result sessions j d.1)
]

-- The session that stays, if it is not one of the revoked.
abbrev pub unless_revoked : RevokeResult → Option RegisteredSession → Option RegisteredSession
unless_revoked result none = none
unless_revoked result (some session) = if is_revoked result session then none else some session

-- After a revocation exactly the sessions of the revoked devices are gone, or all of them when all
-- are revoked: every other handle keeps its session as it was, one whose device is not yet known
-- included. Each handle has one entry before.
pub get-close_for_revocation :
    (listens : Receiver → Bool) (sessions : SessionRegistry) (result : RevokeResult) (j : Handle)
    → Distinct sessions
    → get j (close_for_revocation listens sessions result).0
      ≡ unless_revoked result (get j sessions)
unfolding close_for_revocation
get-close_for_revocation listens sessions result j d =
    get-close_all listens (to_close result sessions) sessions j
    ∙ rw (is_listed-to_close result sessions j d) (kept (get j sessions))
  where
    kept :
        (o : Option RegisteredSession)
        → (if is_some_and o (is_revoked result) then none else o) ≡ unless_revoked result o
    kept none = refl
    kept (some s) = refl

Distinct-close_all :
    (listens : Receiver → Bool) (handles : List Handle) (sessions : SessionRegistry)
    → Distinct sessions
    → Distinct (close_all listens handles sessions).0
unfolding close_all
Distinct-close_all listens [] sessions d = d
Distinct-close_all listens (h ∷ handles) sessions d =
    Distinct-close_all listens handles (remove h sessions) (remove-Distinct h sessions d)

-- Every operation of the registry keeps one entry for each handle.
pub registry-Distinct :
    (sessions : SessionRegistry) (handle : Handle) (device_id : Option Bytes) (known : Bytes)
    (rx : Receiver) (listens : Receiver → Bool) (result : RevokeResult)
    → Distinct sessions
    → Distinct (register sessions handle device_id rx)
      × Distinct (set_device_id sessions handle known)
      × Distinct (unregister sessions handle)
      × Distinct (close_for_revocation listens sessions result).0
unfolding register set_device_id unregister close_for_revocation
registry-Distinct sessions handle device_id known rx listens result d = (
  insert-Distinct handle _ sessions d,
  set_Distinct (get handle sessions),
  remove-Distinct handle sessions d,
  Distinct-close_all listens (to_close result sessions) sessions d,
)
  where
    set_Distinct : (o : Option RegisteredSession) → Distinct (set_if_some sessions handle known o)
    set_Distinct none = d
    set_Distinct (some s) = insert-Distinct handle _ sessions d
