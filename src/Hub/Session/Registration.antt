-- ===== src/Hub/Session/Registration.antt =====
-- `SessionMap::register` of session.rs, on every branch.
use herdr_mobile.Base.{
  Bool, Option, Option-cases, arith, beq, beq_iff, beq_refl, err, false, if◌then◌else◌, inl, inr,
  is_some, length, ltb, none, ok, refl, some, true, ℕ, ◌&&◌, ◌-◌, ◌<◌, ◌∙◌, ◌≡◌, ◌≤◌, ◌⊎◌,
}
use herdr_mobile.Base.AssocMap.{
  get, get-insert, get-insert_self, get-remove, length-insert_new, length-insert_old,
  length-remove-le,
}
use herdr_mobile.Hub.Limits.{IpAddr, IpRateLimiter, allow}
use herdr_mobile.Hub.Session.{
  Handle, Tx, pairing_window, Role, host, device, handle_taken, host_in_use, handle_unknown,
  pairing_expired, handle_rate_limited, too_many_handles, Room, Rooms, new_room, closed_role,
  finish_teardown, Answer, register_host, register_device, register, Registered,
}

-- The room of a handle, if both of its connections are still there.
unfoldable pub live : (Tx → Bool) → Handle → Rooms → Option Room
live closed handle rooms = elim (get handle rooms) [
  | none ↦ none
  | some room ↦ elim (closed_role closed room) [ none ↦ some room | some gone ↦ none ]
]

module _ (closed : Tx → Bool) (rooms : Rooms) (handle : Handle) where
  -- After the teardown the handle's room is the live one, and no other handle is touched.
  get-finish_teardown :
      (j : Handle)
      → get j (finish_teardown closed handle rooms).0
        ≡ (if beq handle j then live closed handle rooms else get j rooms)
  unfolding finish_teardown live
  get-finish_teardown j = elim (Option-cases (get handle rooms)) [
    | inl e ↦ rw (e, finish_teardown) (rw (e, live) (ground (arith, beq_iff handle j, e)))
    | inr (room, e) ↦ elim (Option-cases (closed_role closed room)) [
      | inl open' ↦
          rw (e, finish_teardown) (rw (e, live) (rw open' (ground (arith, beq_iff handle j, e))))
      | inr (gone, shut) ↦
          rw (e, finish_teardown) (rw (e, live) (rw shut (get-remove handle j rooms)))
    ]
  ]

  length-finish_teardown-le : length (finish_teardown closed handle rooms).0 ≤ length rooms
  unfolding finish_teardown
  length-finish_teardown-le = ground (arith, length-remove-le handle rooms)

pub get-finish_teardown_self :
    (closed : Tx → Bool) (rooms : Rooms) (handle : Handle)
    → get handle (finish_teardown closed handle rooms).0 ≡ live closed handle rooms
get-finish_teardown_self closed rooms handle =
    rw (get-finish_teardown closed rooms handle handle, beq_refl handle)

-- The outcomes over the rooms that the teardown has left.
module _ (rooms : Rooms) (handle : Handle) (ip : IpAddr) (limiter : IpRateLimiter) (max_handles : ℕ)
    (pairing : Bool) (tx now : ℕ) where
  abbrev as_host : Answer
  as_host = register_host rooms handle ip limiter max_handles pairing tx now

  abbrev as_device : Answer
  as_device = register_device rooms handle limiter tx now

  as_host_outcomes :
      ((as_host.2 ≡ ok true)
        × (get handle rooms ≡ none)
        × ((allow limiter ip now).1 ≡ true)
        × (length rooms < max_handles)
        × (get handle as_host.0 ≡ some (new_room tx pairing now)))
      ⊎ (((as_host.2 ≡ err handle_taken)
            × (is_some (get handle rooms) ≡ true)
            × (get handle as_host.0 ≡ get handle rooms))
          ⊎ (((as_host.2 ≡ err handle_rate_limited)
                × (get handle rooms ≡ none)
                × ((allow limiter ip now).1 ≡ false)
                × (get handle as_host.0 ≡ none))
              ⊎ ((as_host.2 ≡ err too_many_handles)
                  × (get handle rooms ≡ none)
                  × ((allow limiter ip now).1 ≡ true)
                  × (max_handles ≤ length rooms)
                  × (get handle as_host.0 ≡ none))))
  unfolding register_host
  as_host_outcomes = ground (arith, get-insert_self handle (new_room tx pairing now) rooms)

  as_device_outcomes :
      ((as_device.2 ≡ err handle_unknown) × (get handle rooms ≡ none) × (as_device.0 ≡ rooms))
      ⊎ ((room : Room) × (get handle rooms ≡ some room)
          × (((as_device.2 ≡ err pairing_expired)
                × (room.pairing ≡ true)
                × (pairing_window < now - room.host_registered_at)
                × (as_device.0 ≡ rooms))
              ⊎ (((as_device.2 ≡ err host_in_use)
                    × (is_some room.device_tx ≡ true)
                    × ((room.pairing && ltb pairing_window (now - room.host_registered_at)) ≡ false)
                    × (as_device.0 ≡ rooms))
                  ⊎ ((as_device.2 ≡ ok false)
                      × (room.device_tx ≡ none)
                      × ((room.pairing && ltb pairing_window (now - room.host_registered_at))
                          ≡ false)
                      × (get handle as_device.0 ≡ some (record room { device_tx = some tx }))))))
  unfolding register_device
  as_device_outcomes = elim (Option-cases (get handle rooms)) [
    | inl e ↦ inl (rw (e, register_device) refl, e, rw (e, register_device) refl)
    | inr (room, e) ↦ inr (
      room,
      e,
      ground (arith, e, get-insert_self handle (record room { device_tx = some tx }) rooms),
    )
  ]

  as_host-get_ne : (j : Handle) → beq handle j ≡ false → get j as_host.0 ≡ get j rooms
  unfolding register_host
  as_host-get_ne j differ =
      ground (arith, differ, get-insert handle j (new_room tx pairing now) rooms)

  as_device-get_ne : (j : Handle) → beq handle j ≡ false → get j as_device.0 ≡ get j rooms
  unfolding register_device
  as_device-get_ne j differ = elim (Option-cases (get handle rooms)) [
    | inl e ↦ rw (e, register_device) refl
    | inr (room, e) ↦
        ground (arith, e, differ, get-insert handle j (record room { device_tx = some tx }) rooms)
  ]

  length-as_host-le : length rooms ≤ max_handles → length as_host.0 ≤ max_handles
  unfolding register_host
  length-as_host-le h = ground (arith, length-insert_new handle (new_room tx pairing now) rooms)

  length-as_device : length as_device.0 ≡ length rooms
  unfolding register_device
  length-as_device = elim (Option-cases (get handle rooms)) [
    | inl e ↦ rw (e, register_device) refl
    | inr (room, e) ↦
        ground (arith, e, length-insert_old handle (record room { device_tx = some tx }) room rooms)
  ]

module _ (closed : Tx → Bool) (rooms : Rooms) (handle : Handle) (ip : IpAddr)
    (limiter : IpRateLimiter) (max_handles : ℕ) (pairing : Bool) (tx now : ℕ) where
  abbrev answer_host : Registered
  answer_host = register closed rooms handle host ip limiter max_handles pairing tx now

  abbrev answer_device : Registered
  answer_device = register closed rooms handle device ip limiter max_handles pairing tx now

  abbrev settled : Rooms
  settled = (finish_teardown closed handle rooms).0

  -- A Host's registration has exactly one of four outcomes. It is accepted, as a new handle with a
  -- fresh room of its own, when no live room has the handle, the address is within its rate, and
  -- the map is below the cap. Otherwise the handle is taken by a live room, which stays as it is;
  -- or the rate is exceeded; or the cap is reached; and in these two cases no room is made.
  pub register_host_outcomes :
      ((answer_host.answer ≡ ok true)
        × (live closed handle rooms ≡ none)
        × ((allow limiter ip now).1 ≡ true)
        × (length settled < max_handles)
        × (get handle answer_host.rooms ≡ some (new_room tx pairing now)))
      ⊎ (((answer_host.answer ≡ err handle_taken)
            × (is_some (live closed handle rooms) ≡ true)
            × (get handle answer_host.rooms ≡ live closed handle rooms))
          ⊎ (((answer_host.answer ≡ err handle_rate_limited)
                × (live closed handle rooms ≡ none)
                × ((allow limiter ip now).1 ≡ false)
                × (get handle answer_host.rooms ≡ none))
              ⊎ ((answer_host.answer ≡ err too_many_handles)
                  × (live closed handle rooms ≡ none)
                  × ((allow limiter ip now).1 ≡ true)
                  × (max_handles ≤ length settled)
                  × (get handle answer_host.rooms ≡ none))))
  unfolding register
  register_host_outcomes =
      rw (← get-finish_teardown_self closed rooms handle)
        (as_host_outcomes settled handle ip limiter max_handles pairing tx now)

  pub register_device_outcomes :
      ((answer_device.answer ≡ err handle_unknown)
        × (live closed handle rooms ≡ none)
        × (answer_device.rooms ≡ settled))
      ⊎ ((room : Room) × (live closed handle rooms ≡ some room)
          × (((answer_device.answer ≡ err pairing_expired)
                × (room.pairing ≡ true)
                × (pairing_window < now - room.host_registered_at)
                × (answer_device.rooms ≡ settled))
              ⊎ (((answer_device.answer ≡ err host_in_use)
                    × (is_some room.device_tx ≡ true)
                    × ((room.pairing && ltb pairing_window (now - room.host_registered_at)) ≡ false)
                    × (answer_device.rooms ≡ settled))
                  ⊎ ((answer_device.answer ≡ ok false)
                      × (room.device_tx ≡ none)
                      × ((room.pairing && ltb pairing_window (now - room.host_registered_at))
                          ≡ false)
                      × (get handle answer_device.rooms
                          ≡ some (record room { device_tx = some tx }))))))
  unfolding register
  register_device_outcomes =
      rw (← get-finish_teardown_self closed rooms handle)
        (as_device_outcomes settled handle ip limiter max_handles pairing tx now)

-- No registration, whatever its role and outcome, touches the room of another handle.
pub get-register_ne :
    (closed : Tx → Bool) (rooms : Rooms) (handle : Handle) (role : Role) (ip : IpAddr)
    (limiter : IpRateLimiter) (max_handles : ℕ) (pairing : Bool) (tx now : ℕ) (j : Handle)
    → beq handle j ≡ false
    → get j (register closed rooms handle role ip limiter max_handles pairing tx now).rooms
      ≡ get j rooms
unfolding register
get-register_ne closed rooms handle host ip limiter max_handles pairing tx now j differ =
    as_host-get_ne _ handle ip limiter max_handles pairing tx now j differ
    ∙ get-finish_teardown closed rooms handle j
    ∙ rw differ refl
get-register_ne closed rooms handle device ip limiter max_handles pairing tx now j differ =
    as_device-get_ne _ handle ip limiter max_handles pairing tx now j differ
    ∙ get-finish_teardown closed rooms handle j
    ∙ rw differ refl

-- The map never holds more rooms than the cap, if it did not before.
pub length-register-le :
    (closed : Tx → Bool) (rooms : Rooms) (handle : Handle) (role : Role) (ip : IpAddr)
    (limiter : IpRateLimiter) (max_handles : ℕ) (pairing : Bool) (tx now : ℕ)
    → length rooms ≤ max_handles
    → length (register closed rooms handle role ip limiter max_handles pairing tx now).rooms
      ≤ max_handles
unfolding register
length-register-le closed rooms handle host ip limiter max_handles pairing tx now h =
    length-as_host-le _ handle ip limiter max_handles pairing tx now
      (omega (arith, length-finish_teardown-le closed rooms handle))
length-register-le closed rooms handle device ip limiter max_handles pairing tx now h = omega (
  arith,
  length-as_device (finish_teardown closed handle rooms).0 handle ip limiter max_handles pairing tx
      now,
  length-finish_teardown-le closed rooms handle,
)
