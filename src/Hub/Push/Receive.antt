-- ===== src/Hub/Push/Receive.antt =====
-- `Push::receive` of routes/push.rs: who may send what, and when a delivery starts.
use herdr_mobile.Base.{
  Bool, Bool-cases, Bytes, Option, Result, arith, beq, beq→eq, err, false, inl, inr, none, ok, refl,
  some, subst, true, ℕ, ◌≡◌, ◌≢◌,
}
use herdr_mobile.Base.AssocMap.{
  get, insert, remove, get-insert, get-remove, insert-Distinct, remove-Distinct, length-insert_old,
  length-remove-le,
}
use herdr_mobile.Hub.Session.{Handle, Tx, Role, host, device, Rooms}
use herdr_mobile.Hub.Push.{
  RelayMessage, push_register, push_unregister, push_wake, Entry, PushStore, Providers, Push,
  Delivery, take_wake, check_sender, when_sent_by, parse, Handled, device_present, apply_frame,
  handle_frame, receive,
}
use herdr_mobile.Hub.Push.Store.{StoreInv, register-StoreInv}
use herdr_mobile.Hub.Push.Wake.{take_wake_outcomes}

-- A change of an entry that keeps its generation keeps what the store keeps.
stamp-StoreInv :
    (s : PushStore) (handle : Handle) (e e' : Entry)
    → get handle s.entries ≡ some e
    → e'.generation ≡ e.generation
    → StoreInv s
    → StoreInv (record s { entries = insert handle e' s.entries })
stamp-StoreInv s handle e e' x same inv = record {
  distinct = insert-Distinct handle e' s.entries inv.distinct;
  capped = omega (arith, length-insert_old handle e' e s.entries x, inv.capped);
  given = λ j f h. let (g, k, q) = before j f h in omega (arith, inv.given j g k);
  unshared = λ i j f g h k q.
      let (f', h', p) = before i f h in
      let (g', k', r) = before j g k in inv.unshared i j f' g' h' k' (omega arith);
}
  where
    before :
        (j : Handle) (f : Entry)
        → get j (insert handle e' s.entries) ≡ some f
        → (g : Entry) × (get j s.entries ≡ some g) × (g.generation ≡ f.generation)
    before j f h = elim (Bool-cases (beq handle j)) [
      | inl at_j ↦ (
        e,
        subst (λ k. get k s.entries ≡ some e) (beq→eq handle j at_j) x,
        ground (arith, get-insert handle j e' s.entries, at_j),
      )
      | inr other ↦ (f, ground (arith, get-insert handle j e' s.entries, other), refl)
    ]

remove-StoreInv :
    (s : PushStore) (handle : Handle)
    → StoreInv s
    → StoreInv (record s { entries = remove handle s.entries })
remove-StoreInv s handle inv = record {
  distinct = remove-Distinct handle s.entries inv.distinct;
  capped = omega (arith, length-remove-le handle s.entries, inv.capped);
  given = λ j f h. inv.given j f (before j f h);
  unshared = λ i j f g h k q. inv.unshared i j f g (before i f h) (before j g k) q;
}
  where
    before :
        (j : Handle) (f : Entry)
        → get j (remove handle s.entries) ≡ some f
        → get j s.entries ≡ some f
    before j f h = ground (arith, get-remove handle j s.entries)

take_wake-StoreInv :
    (s : PushStore) (handle : Handle) (now : ℕ) → StoreInv s → StoreInv (take_wake s handle now).0
take_wake-StoreInv s handle now inv = elim (take_wake_outcomes s handle now) [
  | inl q ↦ rw q inv
  | inr (e, x, q) ↦ rw q (stamp-StoreInv s handle e (record e { last_sent = some now }) x refl inv)
]

module _ (providers : Providers) (closed : Tx → Bool) (rooms : Rooms) (p : Push) (handle : Handle)
    (now : ℕ) where
  apply_frame-StoreInv :
      (frame : RelayMessage)
      → StoreInv p.store
      → StoreInv (apply_frame providers closed rooms p handle now frame).0.store
  unfolding apply_frame
  apply_frame-StoreInv (push_register platform token) inv =
      elim (Bool-cases (providers.supports platform)) [
        | inl served ↦ rw served (register-StoreInv p.store handle platform token inv)
        | inr unserved ↦ rw unserved inv
      ]
  apply_frame-StoreInv push_unregister inv = remove-StoreInv p.store handle inv
  apply_frame-StoreInv push_wake inv = elim (Bool-cases (device_present closed rooms handle)) [
    | inl present ↦ rw present inv
    | inr absent ↦ rw absent (take_wake-StoreInv p.store handle now inv)
  ]

-- The push after a call, whether the frame was accepted or not.
abbrev pub push_after : Push → Result (Unit {0}) Handled → Push
push_after p (ok (p', delivery)) = p'
push_after p (err e) = p

abbrev pub delivery_of : Result (Unit {0}) Handled → Option Delivery
delivery_of (ok (p', delivery)) = delivery
delivery_of (err e) = none

module _ (providers : Providers) (closed : Tx → Bool) (rooms : Rooms) (p : Push) (handle : Handle)
    (now : ℕ) where
  wake_delivers :
      (d : Delivery)
      → (apply_frame providers closed rooms p handle now push_wake).1 ≡ some d
      → (device_present closed rooms handle ≡ false)
        × ((e : Entry) × (get handle p.store.entries ≡ some e)
            × (d ≡ (e.platform, e.token, e.generation)))
  unfolding apply_frame
  wake_delivers d x = elim (Bool-cases (device_present closed rooms handle)) [
    | inl present ↦ absurd (nothing (rw present at x))
    | inr absent ↦ (absent, taken (rw absent at x))
  ]
    where
      nothing : ◌≡◌ {A = Option Delivery} none (some d) → ⊥
      nothing z = cc

      taken :
          (take_wake p.store handle now).1 ≡ some d
          → (e : Entry) × (get handle p.store.entries ≡ some e)
            × (d ≡ (e.platform, e.token, e.generation))
      taken y = elim (take_wake_outcomes p.store handle now) [
        | inl q ↦ absurd (nothing (rw q at y))
        | inr (e, found, q) ↦ (e, found, same e (rw q at y))
      ]
        where
          same :
              (e : Entry)
              → ◌≡◌ {A = Option Delivery} (some (e.platform, e.token, e.generation)) (some d)
              → d ≡ (e.platform, e.token, e.generation)
          same e z = ground (arith, z)

  only_wakes_deliver :
      (frame : RelayMessage)
      → frame ≢ push_wake
      → (d : Delivery)
      → delivery_of (handle_frame providers closed rooms p handle now (some frame)) ≡ some d
      → ⊥
  unfolding apply_frame
  only_wakes_deliver (push_register platform token) n d x = ground (arith, x)
  only_wakes_deliver push_unregister n d x = ground (arith, x)
  only_wakes_deliver push_wake n d x = absurd (n refl)

device_wake : (frame : Option RelayMessage) → when_sent_by device frame ≡ some push_wake → ⊥
unfolding check_sender
device_wake none h = cc
device_wake (some (push_register platform token)) h = ground (arith, h)
device_wake (some push_unregister) h = cc
device_wake (some push_wake) h = cc

wake_parsed :
    (from_json : Bytes → Option RelayMessage) (text : Bytes) (role : Role)
    → parse from_json text role ≡ some push_wake
    → role ≡ host
unfolding parse
wake_parsed from_json text host h = refl
wake_parsed from_json text device h = absurd (device_wake (from_json text) h)

module _ (from_json : Bytes → Option RelayMessage) (providers : Providers) (closed : Tx → Bool)
    (rooms : Rooms) (p : Push) (text : Bytes) (handle : Handle) (role : Role) (now : ℕ) where
  abbrev received : Result (Unit {0}) Handled
  received = receive from_json providers closed rooms p text handle role now

  -- A text frame, whatever it holds and whoever sends it, keeps the store's invariant: at most
  -- 4096 entries, one for a handle, each with a generation of its own.
  pub receive-StoreInv : StoreInv p.store → StoreInv (push_after p received).store
  unfolding receive
  receive-StoreInv inv = kept (parse from_json text role)
    where
      kept :
          (frame : Option RelayMessage)
          → StoreInv (push_after p (handle_frame providers closed rooms p handle now frame)).store
      kept none = inv
      kept (some frame) = elim (Bool-cases providers.enabled) [
        | inl on ↦ rw on (apply_frame-StoreInv providers closed rooms p handle now frame inv)
        | inr off ↦ rw off inv
      ]

  -- A delivery starts only when the Host asks for one, push is configured, and no Device is in the
  -- handle's room with its connection open; and it carries the platform, the token and the
  -- generation of the handle's entry.
  pub receive_delivers :
      (d : Delivery)
      → delivery_of received ≡ some d
      → (role ≡ host)
        × (parse from_json text role ≡ some push_wake)
        × (providers.enabled ≡ true)
        × (device_present closed rooms handle ≡ false)
        × (e : Entry) × (get handle p.store.entries ≡ some e)
        × (d ≡ (e.platform, e.token, e.generation))
  unfolding receive
  receive_delivers d h = go (parse from_json text role) refl h
    where
      sent :
          parse from_json text role ≡ some push_wake
          → providers.enabled ≡ true
          → (apply_frame providers closed rooms p handle now push_wake).1 ≡ some d
          → (role ≡ host)
            × (parse from_json text role ≡ some push_wake)
            × (providers.enabled ≡ true)
            × (device_present closed rooms handle ≡ false)
            × (e : Entry) × (get handle p.store.entries ≡ some e)
            × (d ≡ (e.platform, e.token, e.generation))
      sent q on x =
          let (absent, started) = wake_delivers providers closed rooms p handle now d x in
          let (e, found, same) = started in
          (wake_parsed from_json text role q, q, on, absent, e, found, same)

      go :
          (frame : Option RelayMessage)
          → parse from_json text role ≡ frame
          → delivery_of (handle_frame providers closed rooms p handle now frame) ≡ some d
          → (role ≡ host)
            × (parse from_json text role ≡ some push_wake)
            × (providers.enabled ≡ true)
            × (device_present closed rooms handle ≡ false)
            × (e : Entry) × (get handle p.store.entries ≡ some e)
            × (d ≡ (e.platform, e.token, e.generation))
      go none q x = cc
      go (some (push_register platform token)) q x = absurd (
          only_wakes_deliver providers closed rooms p handle now (push_register platform token)
            (λ e. cc) d x)
      go (some push_unregister) q x =
          absurd
            (only_wakes_deliver providers closed rooms p handle now push_unregister (λ e. cc) d x)
      go (some push_wake) q x = elim (Bool-cases providers.enabled) [
        | inl on ↦ sent q on (rw on at x)
        | inr off ↦ absurd (nothing (rw off at x))
      ]
        where
          nothing : ◌≡◌ {A = Option Delivery} none (some d) → ⊥
          nothing z = cc
