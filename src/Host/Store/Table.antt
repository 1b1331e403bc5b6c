-- ===== src/Host/Store/Table.antt =====
-- The calls of store.rs as updates of a map from device ids to entries.
use mathlib.Core.Path.{fun_ext}
use herdr_mobile.Base.{
  Bool-cases, Bytes, List, Option, Result, [], ap, arith, beq, beq_refl, beq→eq, err, false,
  if◌then◌else◌, inl, inr, is_ok, is_some, none, ok, refl, some, subst, sym, true, ℕ, ◌++◌, ◌∙◌,
  ◌∷◌, ◌≡◌,
}
use herdr_mobile.Host.Store.{
  StoreError, PairedDevice, Codec, Disk, Io, save, DeviceStore, find_device, find, others,
  remove_at, set_at, without_index, commit, Enrolment, entry_of, add, revoke_at, revoke, clear_all,
  touch_at, touch_last_seen,
}
use herdr_mobile.Host.Store.Saved.{run, Operation, enrol, revoked, cleared, touched, perform}
use herdr_mobile.Host.Store.Lookup.{
  Unique, At, others-Unique, find-others, find-append, append-Unique, position-At, remove_at-others,
  find-set_at, find-At, set_at-Unique,
}

-- The map that a call makes of a map.
abbrev pub stamp : Bytes → Option PairedDevice → Option PairedDevice
stamp now none = none
stamp now (some d) = some (record d { last_seen = now })

abbrev pub update : Operation → (Bytes → Option PairedDevice) → Bytes → Option PairedDevice
update (enrol e now) table key = if beq e.device_id key then some (entry_of e now) else table key
update (revoked id) table key = if beq id key then none else table key
update cleared table key = none
update (touched id now) table key = if beq id key then stamp now (table key) else table key

-- What a call that succeeds leaves of a list.
abbrev Updates : DeviceStore → Operation → List PairedDevice → Type 0
Updates store operation ds =
    Unique ds × ((key : Bytes) → find_device key ds ≡ update operation (find store) key)

Updates-enrol :
    (store : DeviceStore) (e : Enrolment) (now : Bytes)
    → Unique store.devices
    → Updates store (enrol e now) (others e.device_id store.devices ++ entry_of e now ∷ [])
unfolding find
Updates-enrol store e now u = (
  append-Unique (others e.device_id store.devices) (entry_of e now)
      (others-Unique e.device_id store.devices u)
      (find-others e.device_id e.device_id store.devices ∙ rw (beq_refl e.device_id) refl),
  λ key. find-append key (others e.device_id store.devices) (entry_of e now) ∙ each key,
)
  where
    each :
        (key : Bytes)
        → (let rest = find_device key (others e.device_id store.devices) in
            if is_some rest
            then rest
            else if beq e.device_id key
            then some (entry_of e now)
            else none)
          ≡ (if beq e.device_id key then some (entry_of e now) else find_device key store.devices)
    each key =
        rw (find-others e.device_id key store.devices) (elim (Bool-cases (beq e.device_id key)) [
          | inl same ↦ rw same refl
          | inr other ↦ rw other (ground arith)
        ])

Updates-revoked :
    (store : DeviceStore) (id : Bytes) {i : ℕ} {d : PairedDevice}
    → At id store.devices i d
    → Unique store.devices
    → Updates store (revoked id) (remove_at i store.devices)
unfolding find
Updates-revoked store id at u =
    rw (remove_at-others id at u)
      (others-Unique id store.devices u, λ key. find-others id key store.devices)

Updates-touched :
    (store : DeviceStore) (id now : Bytes) {i : ℕ} {d : PairedDevice}
    → At id store.devices i d
    → Unique store.devices
    → Updates store (touched id now) (set_at i (record d { last_seen = now }) store.devices)
unfolding find
Updates-touched store id now {d = d} at u =
    (set_at-Unique id now at u, λ key. find-set_at id key now at ∙ each key)
  where
    each :
        (key : Bytes)
        → (if beq id key
            then some (record d { last_seen = now })
            else find_device key store.devices)
          ≡ (if beq id key
              then stamp now (find_device key store.devices)
              else find_device key store.devices)
    each key = elim (Bool-cases (beq id key)) [
      | inl same ↦ rw same (
          sym (
            ap (stamp now) (
              subst (λ k. find_device k store.devices ≡ some d) (beq→eq id key same)
                (find-At id at))))
      | inr other ↦ rw other refl
    ]

-- A call on an id that is not there succeeds without a change.
absent_same :
    (store : DeviceStore) (id : Bytes) (a : Option PairedDevice → Option PairedDevice)
    → find store id ≡ none
    → a none ≡ none
    → (key : Bytes) → find store key ≡ (if beq id key then a (find store key) else find store key)
absent_same store id a absent none_stays key = elim (Bool-cases (beq id key)) [
  | inl same ↦ rw same (
      let gone : find store key ≡ none =
        subst (λ k. find store k ≡ none) (beq→eq id key same) absent in
      rw (gone, none_stays) refl)
  | inr other ↦ rw other refl
]

-- A call that fails leaves the list, one that succeeds updates it.
abbrev Performs :
    {A : Type 0} → DeviceStore → Operation → DeviceStore × Disk × Result StoreError A → Type 0
Performs store operation (store', disk', result) =
    (is_ok result ≡ true → Updates store operation store'.devices)
    × (is_ok result ≡ false → store' ≡ store)

commit-Performs :
    {A : Type 0} (store : DeviceStore) (operation : Operation)
    (saved : Disk × Result StoreError Unit) (new : DeviceStore) (a : A)
    → Updates store operation new.devices
    → Performs store operation (commit store saved new a)
commit-Performs store operation (disk, err e) new a u = (λ done. absurd (cc done), λ fails. refl)
commit-Performs store operation (disk, ok tt) new a u = (λ done. u, λ fails. absurd (cc fails))

perform-Performs :
    (codec : Codec) (store : DeviceStore) (disk : Disk) (io : Io) (operation : Operation)
    → Unique store.devices
    → (let (store', disk', done) = perform codec store disk io operation in
        (done ≡ true → Updates store operation store'.devices) × (done ≡ false → store' ≡ store))
unfolding perform add revoke clear_all touch_last_seen revoke_at touch_at find_device find
perform-Performs codec store disk io (enrol e now) u =
    let devices = others e.device_id store.devices ++ entry_of e now ∷ [] in
    commit-Performs store (enrol e now) (save codec disk io devices) (record { devices = devices })
      tt (Updates-enrol store e now u)
perform-Performs codec store disk io (revoked id) u = elim (position-At id store.devices) [
  | inl (e, absent) ↦
      rw e (λ done. (u, absent_same store id (λ found. none) absent refl), λ fails. refl)
  | inr (i, d, e, at) ↦ rw e (
      commit-Performs store (revoked id) (save codec disk io (without_index i 0 store.devices))
        (record { devices = remove_at i store.devices }) (some d) (Updates-revoked store id at u))
]
perform-Performs codec store disk io cleared u =
    commit-Performs store cleared (save codec disk io []) (record { devices = [] }) store.devices
      (tt, λ key. refl)
perform-Performs codec store disk io (touched id now) u = elim (position-At id store.devices) [
  | inl (e, absent) ↦
      rw e (λ done. (u, absent_same store id (stamp now) absent refl), λ fails. refl)
  | inr (i, d, e, at) ↦
      let devices = set_at i (record d { last_seen = now }) store.devices in
      rw e (
        commit-Performs store (touched id now) (save codec disk io devices)
          (record { devices = devices }) true (Updates-touched store id now at u))
]

-- The calls of a run that succeed, in order.
unfoldable pub succeeded : Codec → DeviceStore → Disk → List (Operation × Io) → List Operation
succeeded codec store disk [] = []
succeeded codec store disk ((operation, io) ∷ operations) =
    let (store', disk', done) = perform codec store disk io operation in
    let rest = succeeded codec store' disk' operations in if done then operation ∷ rest else rest

unfoldable pub update_all :
    List Operation → (Bytes → Option PairedDevice) → Bytes → Option PairedDevice
update_all [] table = table
update_all (operation ∷ operations) table = update_all operations (update operation table)

-- After any calls, whichever calls of the file system fail: the ids of the devices are distinct, and
-- a look-up of any id finds what a map holds that the calls that succeeded have updated, in order,
-- from the devices at the start: an enrolment replaces its id's entry, a revocation removes it, a
-- clearing removes all, and a handshake stamps its device only.
pub find-run :
    (codec : Codec) (store : DeviceStore) (disk : Disk) (operations : List (Operation × Io))
    → Unique store.devices
    → (let (store', disk') = run codec store disk operations in
        Unique store'.devices
        × ((key : Bytes)
            → find store' key
              ≡ update_all (succeeded codec store disk operations) (find store) key))
unfolding run succeeded update_all
find-run codec store disk [] u = (u, λ key. refl)
find-run codec store disk ((operation, io) ∷ operations) u =
    let (store', disk', done) = perform codec store disk io operation in
    let (succeeds, fails) = perform-Performs codec store disk io operation u in
    elim (Bool-cases (perform codec store disk io operation).2) [
      | inl e ↦
          let (unique, found) = succeeds e in
          let (unique', each) = find-run codec store' disk' operations unique in
          (
            unique',
            λ key. rw e (
                each key
                ∙ ap (λ table. update_all (succeeded codec store' disk' operations) table key)
                    (fun_ext (λ k. unfold find in found k))),
          )
      | inr e ↦
          let (unique', each) = find-run codec store' disk' operations (rw (fails e) u) in
          (
            unique',
            λ key. rw e (
                each key
                ∙ ap (λ s. update_all (succeeded codec store' disk' operations) (find s) key)
                    (fails e)),
          )
    ]
