-- ===== src/Hub/Session/Disconnect.antt =====
-- `SessionMap::disconnect` of session.rs: symmetric peer loss, and disconnects that come late.
use herdr_mobile.Base.{
  ==_refl, Bool-cases, List, Option, [], beq, false, if◌then◌else◌, inl, inr, none, refl, some,
  true, ◌++◌, ◌∷◌, ◌≡◌,
}
use herdr_mobile.Base.AssocMap.{get, remove, get-remove}
use herdr_mobile.Hub.Session.{
  Handle, Tx, Role, Room, Rooms, CloseFrame, Effect, send_close, log_handle_expired, slot,
  peer_slot, going_away_frame, close_peer, owns_slot, is_application_close, survivor_close,
  survivor_effects, peer_slot_of, disconnect, active_handles,
}

-- The close frame that the survivor is due when `role` leaves: the leaving peer's own, if it
-- carries an application code, and `going_away` otherwise.
abbrev pub due_frame : Role → Option CloseFrame → CloseFrame
due_frame role none = going_away_frame role
due_frame role (some frame) = if is_application_close frame then frame else going_away_frame role

abbrev pub close_of : Option Tx → CloseFrame → List Effect
close_of none frame = []
close_of (some peer) frame = send_close peer frame ∷ []

survivor_effects-close_of :
    (peer : Option Tx) (peer_close : Option CloseFrame) (role : Role)
    → survivor_effects peer peer_close role ≡ close_of peer (due_frame role peer_close)
unfolding survivor_close close_peer
survivor_effects-close_of none peer_close role = refl
survivor_effects-close_of (some peer) none role = refl
survivor_effects-close_of (some peer) (some frame) role =
    elim (Bool-cases (is_application_close frame)) [ inl h ↦ rw h refl | inr h ↦ rw h refl ]

module _ (rooms : Rooms) (handle : Handle) (role : Role) (mine : Tx)
    (peer_close : Option CloseFrame) where
  abbrev left : Rooms × List Effect
  left = disconnect rooms handle role mine peer_close

  -- A disconnect from a connection that does not hold its slot changes nothing and sends nothing.
  pub disconnect_stale : owns_slot rooms handle role mine ≡ false → left ≡ (rooms, [])
  unfolding disconnect
  disconnect_stale h = rw h refl

  pub disconnect_of_owns_slot :
      owns_slot rooms handle role mine ≡ true
      → left ≡ (
        remove handle rooms,
        survivor_effects (peer_slot_of (get handle rooms) role) peer_close role
            ++ log_handle_expired handle (active_handles (remove handle rooms)) ∷ [],
      )
  unfolding disconnect
  disconnect_of_owns_slot h = rw h refl

  pub owns_slot_of :
      (room : Room)
      → get handle rooms ≡ some room
      → slot role room ≡ some mine
      → owns_slot rooms handle role mine ≡ true
  unfolding owns_slot
  owns_slot_of room e m = rw (e, m) (==_refl mine)

  -- When the connection that holds its slot goes, the whole room is discarded, no other handle is
  -- touched, and the peer, if there is one, is sent one close frame: the leaving peer's own, if
  -- its code lies in 4000 to 4999, and otherwise `going_away`, which names the side that is gone.
  -- The number of handles left is logged.
  pub disconnect_owner :
      (room : Room) (j : Handle)
      → get handle rooms ≡ some room
      → slot role room ≡ some mine
      → (get j left.0 ≡ (if beq handle j then none else get j rooms))
        × (left.1
            ≡ close_of (peer_slot role room) (due_frame role peer_close)
              ++ log_handle_expired handle (active_handles left.0) ∷ [])
  disconnect_owner room j e m = rw (disconnect_of_owns_slot (owns_slot_of room e m)) (
    get-remove handle j rooms,
    rw (e, survivor_effects-close_of (peer_slot role room) peer_close role) refl,
  )
