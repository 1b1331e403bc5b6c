-- ===== src/Hub/Session/Kept.antt =====
-- That no call of session.rs takes a room or a slot away while its connections are there.
use herdr_mobile.Base.{
  ==_iff, Bool, Bool-cases, Option, beq, beq→eq, inl, inr, is_some_and, none, refl, some, subst,
  sym, true, ℕ, ◌==◌, ◌∙◌, ◌≡◌, ◌⊎◌, ap,
}
use herdr_mobile.Base.AssocMap.{get, get-remove}
use herdr_mobile.Hub.Limits.{IpAddr, IpRateLimiter}
use herdr_mobile.Hub.Session.{
  Handle, Tx, Role, host, device, Room, Rooms, CloseFrame, closed_role, slot, register, owns_slot,
  disconnect, finish_teardown,
}
use herdr_mobile.Hub.Session.Registration.{
  live, register_host_outcomes, register_device_outcomes, get-register_ne, get-finish_teardown_self,
}
use herdr_mobile.Hub.Session.Disconnect.{disconnect_of_owns_slot, disconnect_stale}
use herdr_mobile.Hub.Session.World.{
  World, Step, registers, drops, disconnects, joins, Reach, here, next,
}

-- The room is the same, but for a Device that may have taken the free slot.
abbrev pub Extends : Room → Room → Type 0
Extends room room' =
    (room'.host_tx ≡ room.host_tx)
    × (room'.host_registered_at ≡ room.host_registered_at)
    × (room'.pairing ≡ room.pairing)
    × ((room.device_tx ≡ none) ⊎ (room'.device_tx ≡ room.device_tx))

Extends-refl : (room : Room) → Extends room room
Extends-refl room = (refl, refl, refl, inr refl)

Extends-trans : (a b c : Room) → Extends a b → Extends b c → Extends a c
Extends-trans a b c (host_ab, at_ab, for_ab, device_ab) (host_bc, at_bc, for_bc, device_bc) =
    (host_bc ∙ host_ab, at_bc ∙ at_ab, for_bc ∙ for_ab, joined device_ab device_bc)
  where
    joined :
        (a.device_tx ≡ none) ⊎ (b.device_tx ≡ a.device_tx)
        → (b.device_tx ≡ none) ⊎ (c.device_tx ≡ b.device_tx)
        → (a.device_tx ≡ none) ⊎ (c.device_tx ≡ a.device_tx)
    joined (inl free) _ = inl free
    joined (inr same) (inl free) = inl (sym same ∙ free)
    joined (inr same) (inr same') = inr (same' ∙ same)

-- The room of a handle is there with what it had.
abbrev pub Stays : Rooms → Handle → Room → Type 0
Stays rooms j room = (room' : Room) × (get j rooms ≡ some room') × Extends room room'

-- A connection of the room has closed.
abbrev pub HasClosed : (Tx → Bool) → Room → Type 0
HasClosed closed room =
    (t : Tx) × (closed t ≡ true) × ((room.host_tx ≡ some t) ⊎ (room.device_tx ≡ some t))

HasClosed-slot :
    (closed : Tx → Bool) (room : Room) (role : Role) (t : Tx)
    → closed t ≡ true
    → slot role room ≡ some t
    → HasClosed closed room
HasClosed-slot closed room host t shut e = (t, shut, inl e)
HasClosed-slot closed room device t shut e = (t, shut, inr e)

closed_role-HasClosed :
    (closed : Tx → Bool) (room : Room) → (closed_role closed room ≡ none) ⊎ HasClosed closed room
unfolding closed_role
closed_role-HasClosed closed room = go room.host_tx room.device_tx refl refl
  where
    go :
        (h d : Option Tx)
        → room.host_tx ≡ h
        → room.device_tx ≡ d
        → (closed_role closed room ≡ none) ⊎ HasClosed closed room
    go none none eh ed = inl (rw (eh, ed) refl)
    go none (some t) eh ed = elim (Bool-cases (closed t)) [
      | inl shut ↦ inr (t, shut, inr ed)
      | inr there ↦ inl (rw (eh, ed) (rw there refl))
    ]
    go (some t) none eh ed = elim (Bool-cases (closed t)) [
      | inl shut ↦ inr (t, shut, inl eh)
      | inr there ↦ inl (rw (eh, ed) (rw there refl))
    ]
    go (some t) (some u) eh ed = elim (Bool-cases (closed t)) [
      | inl shut ↦ inr (t, shut, inl eh)
      | inr there ↦ elim (Bool-cases (closed u)) [
        | inl shut ↦ inr (u, shut, inr ed)
        | inr there' ↦ inl (rw (eh, ed) (rw (there, there') refl))
      ]
    ]

live_lem :
    (closed : Tx → Bool) (rooms : Rooms) (j : Handle) (room : Room)
    → get j rooms ≡ some room
    → closed_role closed room ≡ none
    → live closed j rooms ≡ some room
unfolding live
live_lem closed rooms j room e there = rw (e, live) (rw there refl)

some-none : {room : Room} → some room ≡ none → ⊥
some-none e = cc

some_injective : {a b : Room} → some a ≡ some b → a ≡ b
some_injective e = cc

module _ (closed : Tx → Bool) (rooms : Rooms) (j : Handle) (ip : IpAddr) (limiter : IpRateLimiter)
    (max_handles : ℕ) (pairing : Bool) (tx now : ℕ) (room : Room)
    (alive : live closed j rooms ≡ some room) where
  abbrev after : Role → Rooms
  after role = (register closed rooms j role ip limiter max_handles pairing tx now).rooms

  Stays-register_host : Stays (after host) j room
  Stays-register_host =
      elim (register_host_outcomes closed rooms j ip limiter max_handles pairing tx now) [
        | inl (_, gone, _, _, _) ↦ absurd (some-none (sym alive ∙ gone))
        | inr (inl (_, _, e)) ↦ (room, e ∙ alive, Extends-refl room)
        | inr (inr (inl (_, gone, _, _))) ↦ absurd (some-none (sym alive ∙ gone))
        | inr (inr (inr (_, gone, _, _, _))) ↦ absurd (some-none (sym alive ∙ gone))
      ]

  Stays-register_device : Stays (after device) j room
  Stays-register_device =
      elim (register_device_outcomes closed rooms j ip limiter max_handles pairing tx now) [
        | inl (_, gone, _) ↦ absurd (some-none (sym alive ∙ gone))
        | inr (_, _, inl (_, _, _, e)) ↦ settled e
        | inr (_, _, inr (inl (_, _, _, e))) ↦ settled e
        | inr (room', e', inr (inr (_, free, _, e))) ↦
            let same = some_injective (sym e' ∙ alive) in
            subst (Stays (after device) j) same
              (record room' { device_tx = some tx }, e, (refl, refl, refl, inl free))
      ]
    where
      settled : after device ≡ (finish_teardown closed j rooms).0 → Stays (after device) j room
      settled e =
          (room, ap (get j) e ∙ get-finish_teardown_self closed rooms j ∙ alive, Extends-refl room)

  Stays-register_self : (role : Role) → Stays (after role) j room
  Stays-register_self host = Stays-register_host
  Stays-register_self device = Stays-register_device

owned :
    (rooms : Rooms) (j : Handle) (role : Role) (mine : Tx) (room : Room)
    → get j rooms ≡ some room
    → owns_slot rooms j role mine ≡ true
    → slot role room ≡ some mine
unfolding owns_slot
owned rooms j role mine room e owns = go (slot role room) (rw e at owns)
  where
    go : (o : Option Tx) → is_some_and o (λ t. t == mine) ≡ true → o ≡ some mine
    go none h = cc
    go (some t) h = ap some ((==_iff t mine).0 h)

module _ (max_handles : ℕ) where
  Stays-register :
      (w : World) (handle : Handle) (role : Role) (ip : IpAddr) (pairing : Bool) (now : ℕ)
      (j : Handle) (room : Room)
      → get j w.rooms ≡ some room
      → closed_role w.closed room ≡ none
      → Stays (joins max_handles w handle role ip pairing now).rooms j room
  Stays-register w handle role ip pairing now j room e there = elim (Bool-cases (beq handle j)) [
    | inl same ↦
        subst (λ k. Stays (joins max_handles w k role ip pairing now).rooms j room)
          (sym (beq→eq handle j same))
          (Stays-register_self w.closed w.rooms j ip w.limiter max_handles pairing w.next now room
            (live_lem w.closed w.rooms j room e there) role)
    | inr differ ↦ (
      room,
      get-register_ne w.closed w.rooms handle role ip w.limiter max_handles pairing w.next now j
            differ
          ∙ e,
      Extends-refl room,
    )
  ]

  -- A disconnect removes the room only for a connection of its own, which has closed.
  Stays-disconnect :
      (w : World) (handle : Handle) (role : Role) (mine : Tx) (peer_close : Option CloseFrame)
      (j : Handle) (room : Room)
      → w.closed mine ≡ true
      → get j w.rooms ≡ some room
      → Stays (disconnect w.rooms handle role mine peer_close).0 j room ⊎ HasClosed w.closed room
  Stays-disconnect w handle role mine peer_close j room shut e =
      elim (Bool-cases (owns_slot w.rooms handle role mine)) [
        | inr stale ↦ inl (
            rw (disconnect_stale w.rooms handle role mine peer_close stale)
              (room, e, Extends-refl room))
        | inl owner ↦ elim (Bool-cases (beq handle j)) [
          | inl same ↦
              let owns =
                subst (λ k. owns_slot w.rooms k role mine ≡ true) (beq→eq handle j same) owner in
              inr (
                HasClosed-slot w.closed room role mine shut (owned w.rooms j role mine room e owns))
          | inr differ ↦ inl (
            room,
            ap (λ left. get j left.0)
                  (disconnect_of_owns_slot w.rooms handle role mine peer_close owner)
                ∙ get-remove handle j w.rooms
                ∙ rw differ e,
            Extends-refl room,
          )
        ]
      ]

  -- One step keeps the room, unless one of its connections has closed.
  Step-Stays :
      {v w : World} (j : Handle) (room : Room)
      → Step max_handles v w
      → get j v.rooms ≡ some room
      → Stays w.rooms j room ⊎ HasClosed v.closed room
  Step-Stays j room (registers v handle role ip pairing now) e =
      elim (closed_role-HasClosed v.closed room) [
        | inl there ↦ inl (Stays-register v handle role ip pairing now j room e there)
        | inr gone ↦ inr gone
      ]
  Step-Stays j room (drops v t) e = inl (room, e, Extends-refl room)
  Step-Stays j room (disconnects v handle role mine peer_close shut) e =
      Stays-disconnect v handle role mine peer_close j room shut e

  -- On the way from `u` to `w`, the room was still there, extended, when one of its connections
  -- had closed.
  abbrev pub ClosedBetween : World → World → Handle → Room → Type 0
  ClosedBetween u w j room =
      (v : World) × Reach max_handles u v
      × Reach max_handles v w
      × (room' : Room) × (get j v.rooms ≡ some room')
      × Extends room room'
      × HasClosed v.closed room'

  -- No call takes a room or a slot away from connections that are there: through any interleaving
  -- of registrations, dropped receivers and disconnects, the room of a handle stays with the Host,
  -- the instant and the kind that it was registered with, and with its Device once it has one,
  -- unless a connection of the room, whose Device may have joined in between, has closed on the
  -- way.
  pub Reach-Stays :
      (u w : World) (j : Handle) (room : Room)
      → Reach max_handles u w
      → get j u.rooms ≡ some room
      → Stays w.rooms j room ⊎ ClosedBetween u w j room
  Reach-Stays u _ j room here e = inl (room, e, Extends-refl room)
  Reach-Stays u w j room (next {u = v} reach step) e = elim (Reach-Stays u v j room reach e) [
    | inr (x, before, after', r, e', extends, closed) ↦
        inr (x, before, next after' step, r, e', extends, closed)
    | inl (room', e', extends) ↦ elim (Step-Stays j room' step e') [
      | inl (last, e2, extends') ↦ inl (last, e2, Extends-trans room room' last extends extends')
      | inr gone ↦ inr (v, reach, next here step, room', e', extends, gone)
    ]
  ]
