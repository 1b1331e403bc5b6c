-- ===== src/Hub/Connection/Outcomes.antt =====
-- What a connection is told, and when it joins: `drive_connection` of routes/connection.rs.
use herdr_mobile.Base.{
  is_ok, Result-cases, Bool, Bool-cases, Bytes, List, Option, Option-cases, [], arith, false, inl,
  inr, is_some_and, refl, some, suc, true, ℕ, ◌&&◌, ◌+◌, ◌∷◌, ◌≡◌,
}
use herdr_mobile.Base.Windows.{one_if}
use herdr_mobile.Proto.Codes.{name}
use herdr_mobile.Hub.Limits.{IpAddr, allow}
use herdr_mobile.Hub.Session.{Handle, Tx, Role, RegisterError, Rooms, Registered, register}
use herdr_mobile.Hub.Connection.{
  error_frame, Output, send_text, send_close, AppState, RegisterFrame, FirstMessage,
  wait_for_registration, close_with_error, describe_register_error, reject_registration, Driven,
  announce_and_log_joined, register_or_reject, drive_connection,
}

-- An error frame is followed at once by its close frame, which has the same text and the code that
-- the frame names, and there is no other close frame.
abbrev pub WellTold : List Output → Type 0
WellTold [] = Unit
WellTold (send_text (error_frame told message) ∷ send_close code text ∷ rest) =
    (name code ≡ some told) × (text ≡ message) × WellTold rest
WellTold (send_text (error_frame told message) ∷ rest) = ⊥
WellTold (send_close code text ∷ rest) = ⊥
WellTold (_ ∷ rest) = WellTold rest

abbrev pub closes : List Output → ℕ
closes [] = 0
closes (send_close code text ∷ rest) = suc (closes rest)
closes (_ ∷ rest) = closes rest

-- The outputs of a connection that joined have no close, those of a refused one have one.
abbrev AsTold : Driven → Type 0
AsTold d = WellTold d.1 × (closes d.1 + one_if d.2 ≡ 1)

reject_registration_told :
    (rooms : Rooms) (handle : Handle) (e : RegisterError)
    → WellTold (reject_registration rooms handle e)
      × (closes (reject_registration rooms handle e) ≡ 1)
unfolding reject_registration describe_register_error close_with_error name
reject_registration_told rooms handle RegisterError.handle_taken = ((refl, refl, tt), refl)
reject_registration_told rooms handle RegisterError.host_in_use = ((refl, refl, tt), refl)
reject_registration_told rooms handle RegisterError.handle_unknown = ((refl, refl, tt), refl)
reject_registration_told rooms handle RegisterError.pairing_expired = ((refl, refl, tt), refl)
reject_registration_told rooms handle RegisterError.handle_rate_limited = ((refl, refl, tt), refl)
reject_registration_told rooms handle RegisterError.too_many_handles = ((refl, refl, tt), refl)

register_or_reject_told :
    (state : AppState) (r : Registered) (handle : Handle) (role : Role)
    → AsTold (register_or_reject state r handle role)
unfolding register_or_reject announce_and_log_joined
register_or_reject_told state r handle role = elim (Result-cases r.answer) [
  | inl (true, e) ↦ rw e (tt, refl)
  | inl (false, e) ↦ rw e (tt, refl)
  | inr (x, e) ↦
      let (told, once) = reject_registration_told r.rooms handle x in
      rw e (told, omega (arith, once))
]

register_or_reject_joins :
    (state : AppState) (r : Registered) (handle : Handle) (role : Role)
    → (register_or_reject state r handle role).2 ≡ is_ok r.answer
unfolding register_or_reject
register_or_reject_joins state r handle role = elim (Result-cases r.answer) [
  | inl (is_new, e) ↦ rw e refl
  | inr (x, e) ↦ rw e refl
]

module _ (from_json : Bytes → Option RegisterFrame) (state : AppState) (closed : Tx → Bool)
    (ip : IpAddr) (protocol_ok : Bool) (handle : Option Handle) (role : Role)
    (message : FirstMessage) (tx now : ℕ) (meanwhile : AppState → AppState) (later : ℕ) where
  abbrev driven : Driven
  driven =
      drive_connection from_json state closed ip protocol_ok handle role message tx now meanwhile
        later

  abbrev rated : AppState
  rated = record state { connections = (allow state.connections ip now).0 }

  -- The shared state when the registration frame has come.
  abbrev waited : AppState
  waited = meanwhile rated

  abbrev answered : Handle → Bool → Registered
  answered k pairing =
      register closed waited.rooms k role ip waited.handles waited.max_handles pairing tx later

  -- Whatever a peer sends, and whatever the other connections do to the shared state while it is
  -- waited for, either the connection joins and no close frame is sent, or it does not
  -- join and exactly one close frame is sent, directly after an error frame with the same message
  -- whose name is that of the close code.
  pub drive_connection_told : WellTold driven.1 × (closes driven.1 + one_if driven.2 ≡ 1)
  unfolding drive_connection close_with_error name
  drive_connection_told = elim (Bool-cases (allow state.connections ip now).1) [
    | inr e ↦ rw e ((refl, refl, tt), refl)
    | inl e ↦ rw e (elim (Bool-cases protocol_ok) [
      | inr p ↦ rw p ((refl, refl, tt), refl)
      | inl p ↦ rw p (elim (Option-cases handle) [
        | inl h ↦ rw h ((refl, refl, tt), refl)
        | inr (k, h) ↦ rw h (elim (Option-cases (wait_for_registration from_json message role)) [
          | inl w ↦ rw w ((refl, refl, tt), refl)
          | inr (pairing, w) ↦ rw w (register_or_reject_told waited (answered k pairing) k role)
        ])
      ])
    ])
  ]

  -- A connection joins exactly when its address is within the connection rate, the subprotocol is
  -- the relay's, the handle is well formed, the first message is a registration frame of the role,
  -- and the registration is accepted by the shared state as the others have left it by then.
  pub drive_connection-joins : driven.2 ≡ (
      (allow state.connections ip now).1
      && (protocol_ok
          && is_some_and handle (λ k.
            is_some_and
              (wait_for_registration from_json message role)
              (λ pairing. is_ok (answered k pairing).answer))))
  unfolding drive_connection
  drive_connection-joins = elim (Bool-cases (allow state.connections ip now).1) [
    | inr e ↦ rw e refl
    | inl e ↦ rw e (elim (Bool-cases protocol_ok) [
      | inr p ↦ rw p refl
      | inl p ↦ rw p (elim (Option-cases handle) [
        | inl h ↦ rw h refl
        | inr (k, h) ↦ rw h (elim (Option-cases (wait_for_registration from_json message role)) [
          | inl w ↦ rw w refl
          | inr (pairing, w) ↦ rw w (register_or_reject_joins waited (answered k pairing) k role)
        ])
      ])
    ])
  ]
