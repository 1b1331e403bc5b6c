-- ===== src/Hub/Tests.antt =====
-- Concrete runs of the relay's limiters, handle map, push store and connections.
use herdr_mobile.Base.{
  ◌⊎◌, Bool, Bytes, List, Option, [], arith, beq, codes, false, if◌then◌else◌, inl, inr, none, ok,
  refl, secs, some, true, ℕ, ◌++◌, ◌+◌, ◌∷◌, ◌≡◌, ◌≤◌,
}
use herdr_mobile.Base.AssocMap.{get, insert, remove}
use herdr_mobile.Base.Windows.{count_within, one_if}
use herdr_mobile.Hub.Limits.{
  IpAddr, IpRateLimiter, FrameRateLimiter, new_ip_limiter, new_frame_limiter, pop_expired,
  allow_frame, roll, allow,
}
use herdr_mobile.Hub.Limits.Sliding.{allowed, count_within-allowed}
use herdr_mobile.Hub.Limits.Frames.{count_frames, count_frames_burst}
use herdr_mobile.Hub.Session
use herdr_mobile.Hub.Session.{
  Handle, Tx, Role, host, device, Room, Rooms, CloseFrame, new_room, disconnect, owns_slot,
  log_handle_expired, peer_slot, active_handles, peer_of,
}
use herdr_mobile.Hub.Session.Registration.{register_host_outcomes}
use herdr_mobile.Hub.Session.Disconnect.{due_frame, close_of, disconnect_owner}
use herdr_mobile.Hub.Session.Kept.{Stays, ClosedBetween, Reach-Stays}
use herdr_mobile.Hub.Session.World as Worlds
use herdr_mobile.Hub.Session.World.{World, start, joins, Reach, here, next, active_handles-le}
use herdr_mobile.Hub.Push.{
  capacity, Platform, ios, android, RelayMessage, push_register, push_wake, Entry, PushStore,
  empty_store, Providers, Counters, Push, Delivery, parse, device_present, take_wake,
  remove_generation, receive,
}
use herdr_mobile.Hub.Push
use herdr_mobile.Hub.Push.Store.{StoreInv, register-StoreInv}
use herdr_mobile.Hub.Push.Wake.{
  Call, registers, unregisters, wakes, calls, take_wake-collapse, remove_generation-register,
}
use herdr_mobile.Hub.Push.Receive.{push_after, receive-StoreInv, receive_delivers}
use herdr_mobile.Hub.Pump.{
  Event, binary, ping_due, Shared, Connection, new_pump, on_binary, forward, step, run,
}
use herdr_mobile.Hub.Pump.Forwarding.{handed, deliverable}
use herdr_mobile.Hub.Pump.Completeness.{handed-run_complete}
use herdr_mobile.Hub.Connection.{
  AppState, RegisterFrame, text, Driven, drive_connection, wait_for_registration,
}
use herdr_mobile.Hub.Connection.Outcomes.{
  WellTold, closes, drive_connection_told, drive_connection-joins,
}

abbrev limiter : IpRateLimiter
limiter = new_ip_limiter 2

abbrev home : IpAddr
home = 10 ∷ 0 ∷ 0 ∷ 7 ∷ []

abbrev h1 : Handle
h1 = codes "handle-1"

abbrev h2 : Handle
h2 = codes "handle-2"

abbrev attempts : List (IpAddr × ℕ)
attempts = (home, secs 1) ∷ (home, secs 1 + 5) ∷ (home, secs 1 + 9) ∷ (home, secs 2) ∷ []

count_within-allowed_example : count_within (secs 2) (allowed home (new_ip_limiter 2) attempts) ≤ 2
count_within-allowed_example =
    count_within-allowed 2 (secs 2) home attempts
      (omega arith, (omega arith, (omega arith, (omega arith, tt))))

abbrev frames : FrameRateLimiter
frames = new_frame_limiter 2 0

-- Four frames within three nanoseconds, at a limit of two.
count_frames_burst_example :
    (count_frames (new_frame_limiter 2 0) (999999998 ∷ 999999999 ∷ 1000000000 ∷ 1000000001 ∷ [])).0
    ≡ 2 + 2
count_frames_burst_example =
    count_frames_burst 2 0 (999999998 ∷ 999999999 ∷ []) (1000000001 ∷ []) 1000000000 (omega arith)
      (omega arith, (omega arith, tt)) refl (omega arith) (omega arith, tt) refl

-- A Host and a Device under one handle.
abbrev a_room : Room
a_room = record { host_tx = some 0; device_tx = some 1; host_registered_at = 0; pairing = false }

abbrev rooms : Rooms
rooms = (h1, a_room) ∷ []

abbrev all_open : Tx → Bool
all_open t = false

disconnect_owner_example :
    (get h2 (disconnect rooms h1 device 1 none).0 ≡ (if beq h1 h2 then none else get h2 rooms))
    × ((disconnect rooms h1 device 1 none).1
        ≡ close_of (peer_slot device a_room) (due_frame device none)
          ++ log_handle_expired h1 (active_handles (disconnect rooms h1 device 1 none).0) ∷ [])
unfolding get beq
disconnect_owner_example = disconnect_owner rooms h1 device 1 none a_room h2 refl refl

-- A Host registers, then a Device of the same handle.
abbrev w1 : World
w1 = joins 8 (start limiter) h1 host home true (secs 1)

abbrev w2 : World
w2 = joins 8 w1 h1 device home false (secs 5)

reach_w2 : Reach 8 (start limiter) w2
reach_w2 =
    next (next here (Worlds.registers (start limiter) h1 host home true (secs 1)))
      (Worlds.registers w1 h1 device home false (secs 5))

active_handles-le_example : active_handles w2.rooms ≤ 8
active_handles-le_example = active_handles-le 8 limiter w2 reach_w2

-- Another Host tries the same handle.
abbrev w3 : World
w3 = joins 8 w2 h1 host home true (secs 9)

reach_w3 : Reach 8 w1 w3
reach_w3 =
    next (next here (Worlds.registers w1 h1 device home false (secs 5)))
      (Worlds.registers w2 h1 host home true (secs 9))

abbrev first_room : Room
first_room = new_room 0 true (secs 1)

Reach-Stays_example : Stays w3.rooms h1 first_room ⊎ ClosedBetween 8 w1 w3 h1 first_room
unfolding Session.register Session.register_as Session.register_host Session.finish_teardown get
    allow new_ip_limiter insert pop_expired beq
Reach-Stays_example = Reach-Stays 8 w1 w3 h1 first_room reach_w3 refl

register_host_outcomes_example :
    (Session.register all_open [] h1 host home limiter 8 true 0 (secs 1)).answer ≡ ok true
unfolding Session.register Session.register_as Session.register_host Session.finish_teardown get
    allow new_ip_limiter pop_expired
register_host_outcomes_example =
    elim (register_host_outcomes all_open [] h1 home limiter 8 true 0 (secs 1)) [
      | inl (accepted, _, _, _, _) ↦ accepted
      | inr other ↦ refl
    ]

empty_store-StoreInv : StoreInv empty_store
unfolding get
empty_store-StoreInv = record {
  distinct = tt;
  capped = omega arith;
  given = λ j e h. cc;
  unshared = λ i j e f h k s. cc;
}

abbrev token : Bytes
token = codes "token"

abbrev store1 : PushStore
store1 = Push.register empty_store h1 ios token

abbrev both : Providers
both = record { enabled = true; supports = λ platform. true }

abbrev push1 : Push
push1 = record {
  store = store1;
  sent = record { ios_count = 0; android_count = 0 };
  failed = record { ios_count = 0; android_count = 0 };
}

-- The parser, of a frame that asks for a wake.
abbrev wake_json : Bytes → Option RelayMessage
wake_json bytes = some push_wake

receive-StoreInv_example :
    StoreInv (push_after push1 (receive wake_json both all_open [] push1 [] h1 host (secs 9))).store
receive-StoreInv_example =
    receive-StoreInv wake_json both all_open [] push1 [] h1 host (secs 9)
      (register-StoreInv empty_store h1 ios token empty_store-StoreInv)

receive_delivers_example :
    (host ≡ host)
    × (parse wake_json [] host ≡ some push_wake)
    × (both.enabled ≡ true)
    × (device_present all_open [] h1 ≡ false)
    × (e : Entry) × (get h1 store1.entries ≡ some e)
    × (◌≡◌ {A = Delivery} (ios, token, 1) (e.platform, e.token, e.generation))
unfolding Push.register Push.evict get insert beq take_wake receive parse Push.apply_frame
    Push.check_sender device_present peer_of
receive_delivers_example =
    receive_delivers wake_json both all_open [] push1 [] h1 host (secs 9) (ios, token, 1) refl

-- The entry that the Device has registered.
abbrev entry1 : Entry
entry1 = record { platform = ios; token = token; generation = 1; last_sent = none }

remove_generation-register_example :
    remove_generation (Push.register store1 h1 android token) h1 1
    ≡ Push.register store1 h1 android token
unfolding Push.register Push.evict get insert beq
remove_generation-register_example =
    remove_generation-register store1 h1 entry1 android token
      (register-StoreInv empty_store h1 ios token empty_store-StoreInv) refl

abbrev woken : PushStore
woken = (take_wake store1 h1 (secs 9)).0

-- The Device renews its token, another one registers, and a wake comes too early.
abbrev between : List Call
between = registers h1 ios (codes "newer") ∷ registers h2 android token ∷ wakes h1 (secs 15) ∷ []

take_wake-collapse_example : (take_wake (calls woken between) h1 (secs 20)).1 ≡ none
unfolding Push.register Push.evict get insert beq take_wake
take_wake-collapse_example =
    take_wake-collapse store1 woken h1 (secs 9) (secs 20) (ios, token, 1) between refl (omega arith)
      (tt, (tt, (omega arith, tt))) (refl, (refl, (refl, tt)))

-- An unregistration in between, and the second wake goes out after eleven seconds.
woken_twice :
    (take_wake (calls woken (unregisters h1 ∷ registers h1 ios token ∷ [])) h1 (secs 20)).1
    ≡ some (ios, token, 2)
unfolding Push.register Push.evict get insert remove beq take_wake
woken_twice = refl

abbrev state : AppState
state = record {
  rooms = [];
  connections = new_ip_limiter 8;
  handles = new_ip_limiter 2;
  max_handles = 8;
}

abbrev host_json : Bytes → Option RegisterFrame
host_json bytes = some (record { kind = codes "host_register"; protocol = 1; pairing = true })

-- While the Host's registration frame is waited for, another Host registers.
abbrev meanwhile : AppState → AppState
meanwhile s = record s { rooms = (h2, new_room 7 false 0) ∷ [] }

abbrev driven : Driven
driven =
    drive_connection host_json state all_open home true (some h1) host (text []) 0 (secs 1)
      meanwhile (secs 3)

drive_connection_told_example : WellTold driven.1 × (closes driven.1 + one_if driven.2 ≡ 1)
drive_connection_told_example =
    drive_connection_told host_json state all_open home true (some h1) host (text []) 0 (secs 1)
      meanwhile (secs 3)

drive_connection-joins_example : driven.2 ≡ true
unfolding Session.register Session.register_as Session.register_host Session.finish_teardown get
    allow new_ip_limiter pop_expired wait_for_registration beq
drive_connection-joins_example =
    drive_connection-joins host_json state all_open home true (some h1) host (text []) 0 (secs 1)
      meanwhile (secs 3)

-- A Device's pump, and three of its events: two frames, and a ping that is due.
abbrev pub phone : Connection
phone = record { handle = h1; role = device; from_json = wake_json; providers = both }

abbrev pub shared : Shared
shared = record { rooms = rooms; push = push1; closed = all_open }

abbrev pumped : List (Shared × Event)
pumped =
    (shared, binary (1 ∷ 2 ∷ []) 5) ∷ (shared, ping_due true 6) ∷ (shared, binary (3 ∷ []) 7) ∷ []

handed-run_complete_example : handed (run phone (new_pump 60 0) pumped).0 ≡ deliverable phone pumped
unfolding run step on_binary forward new_pump new_frame_limiter allow_frame roll
handed-run_complete_example = handed-run_complete phone (new_pump 60 0) pumped refl

handed-run_of_pumped :
    handed (run phone (new_pump 60 0) pumped).0 ≡ (0, 1 ∷ 2 ∷ []) ∷ (0, 3 ∷ []) ∷ []
unfolding run step on_binary forward new_pump new_frame_limiter allow_frame roll peer_of get beq
handed-run_of_pumped = refl
