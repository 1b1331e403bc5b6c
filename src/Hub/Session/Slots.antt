-- ===== src/Hub/Session/Slots.antt =====
-- Which connections hold the slots of the handle map of session.rs.
use herdr_mobile.Base.{Option, none, some, ◌≡◌}
use herdr_mobile.Base.AssocMap.{get}
use herdr_mobile.Hub.Session.{Handle, Tx, Role, Room, Rooms, slot}

abbrev pub slot_in : Option Room → Role → Option Tx
slot_in none role = none
slot_in (some room) role = slot role room

-- The connection `t` holds the slot of a role under a handle.
abbrev pub Holds : Rooms → Handle → Role → Tx → Type 0
Holds rooms handle role t = slot_in (get handle rooms) role ≡ some t
