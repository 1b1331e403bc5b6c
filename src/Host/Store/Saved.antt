-- ===== src/Host/Store/Saved.antt =====
-- The file of store.rs against the list in memory.
use herdr_mobile.Base.{
  Bool, Bool-cases, Bytes, List, Option, Result, [], ap, arith, err, false, inl, inr, is_ok, none,
  ok, refl, some, suc, true, zero, ℕ, ◌&&◌, ◌++◌, ◌+◌, ◌<◌, ◌==◌, ◌∷◌, ◌≡◌, ◌⊎◌,
}
use herdr_mobile.Host.Store.{
  PairedDevice, Codec, Disk, Io, StoreError, serialize, write_error, write_restricted_file,
  replace_saved, discard, save_json, save, DeviceStore, load, position, others, remove_at, set_at,
  without_index, commit, Enrolment, entry_of, add, revoke_at, revoke, clear_all, touch_at,
  touch_last_seen,
}

-- The documented behaviour of the codec: what it writes it reads.
pub record CodecLaws (codec : Codec) : Type 0 where
  pub from_str-to_vec_pretty :
      (devices : List PairedDevice) (json : Bytes)
      → codec.to_vec_pretty devices ≡ some json
      → codec.from_str json ≡ some devices

without_index_lem :
    (index n m : ℕ) (devices : List PairedDevice)
    → index ≡ n + m
    → without_index index n devices ≡ remove_at m devices
unfolding without_index remove_at
without_index_lem index n m [] e = refl
without_index_lem index n zero (d ∷ ds) e =
    let here : (n == index) ≡ true = ground (arith, e) in
    rw here (past index (suc n) ds (omega (arith, e)))
  where
    past :
        (index n : ℕ) (devices : List PairedDevice)
        → index < n
        → without_index index n devices ≡ devices
    past index n [] h = refl
    past index n (d ∷ ds) h =
        let other : (n == index) ≡ false = ground arith in
        rw other (ap (◌∷◌ d) (past index (suc n) ds (omega arith)))
without_index_lem index n (suc m) (d ∷ ds) e =
    let other : (n == index) ≡ false = ground (arith, e) in
    rw other (ap (◌∷◌ d) (without_index_lem index (suc n) m ds (omega (arith, e))))

-- The calls of a store.
pub data Operation : Type 0 where
  enrol : Enrolment → Bytes → Operation
  revoked : Bytes → Operation
  cleared : Operation
  touched : Bytes → Bytes → Operation

abbrev forget : {A : Type 0} → DeviceStore × Disk × Result StoreError A → DeviceStore × Disk × Bool
forget (store, disk, result) = (store, disk, is_ok result)

-- The store, the disk and whether the call succeeded.
unfoldable pub perform : Codec → DeviceStore → Disk → Io → Operation → DeviceStore × Disk × Bool
perform codec store disk io (enrol e now) = forget (add codec store disk io e now)
perform codec store disk io (revoked id) = forget (revoke codec store disk io id)
perform codec store disk io cleared = forget (clear_all codec store disk io)
perform codec store disk io (touched id now) = forget (touch_last_seen codec store disk io id now)

unfoldable pub run : Codec → DeviceStore → Disk → List (Operation × Io) → DeviceStore × Disk
run codec store disk [] = (store, disk)
run codec store disk ((operation, io) ∷ operations) =
    let (store', disk', done) = perform codec store disk io operation in
    run codec store' disk' operations

module _ (codec : Codec) (laws : CodecLaws codec) where
  -- The file reads back as the list in memory.
  abbrev pub Synced : DeviceStore → Disk → Type 0
  Synced store disk = load codec disk true ≡ ok store

  -- A save writes the list, or leaves the saved file as it was.
  abbrev Saves : Disk → List PairedDevice → Disk × Result StoreError Unit → Type 0
  Saves disk devices (disk', result) =
      ((result ≡ ok tt) × (load codec disk' true ≡ ok (record { devices = devices })))
      ⊎ ((e : StoreError) × (result ≡ err e) × (disk'.saved ≡ disk.saved))

  discarded : (disk : Disk) (io : Io) → (discard (disk, false) io).saved ≡ disk.saved
  unfolding discard
  discarded disk io = elim (Bool-cases io.remove_file) [ inl e ↦ rw e refl | inr e ↦ rw e refl ]

  save_json_lem :
      (disk : Disk) (io : Io) (devices : List PairedDevice) (json : Option Bytes)
      → codec.to_vec_pretty devices ≡ json
      → Saves disk devices (save_json disk io json)
  unfolding save_json write_restricted_file replace_saved
  save_json_lem disk io devices none e = inr (serialize, refl, refl)
  save_json_lem disk io devices (some json) e = elim (Bool-cases io.create_dir) [
    | inr c ↦ rw c (inr (write_error, refl, discarded disk io))
    | inl c ↦ elim (Bool-cases io.write_file) [
      | inr w ↦
          rw (c, w) (inr (write_error, refl, discarded (record disk { temporary = io.partial }) io))
      | inl w ↦ elim (Bool-cases (io.restrict && io.rename)) [
        | inr r ↦
            rw (c, w, r)
              (inr (write_error, refl, discarded (record disk { temporary = some json }) io))
        | inl r ↦
            rw (c, w, r)
              (inl
                (refl, unfold discard load in rw (laws.from_str-to_vec_pretty devices json e) refl))
      ]
    ]
  ]

  save_lem :
      (disk : Disk) (io : Io) (devices : List PairedDevice)
      → Saves disk devices (save codec disk io devices)
  unfolding save
  save_lem disk io devices = save_json_lem disk io devices (codec.to_vec_pretty devices) refl

  -- A commit leaves the file and the list in step, and both as they were when it fails.
  abbrev Commits :
      {A : Type 0} → DeviceStore → Disk → DeviceStore × Disk × Result StoreError A → Type 0
  Commits store disk (store', disk', result) =
      Synced store' disk' × (is_ok result ≡ false → (store' ≡ store) × (disk'.saved ≡ disk.saved))

  commit_lem :
      {A : Type 0} (store : DeviceStore) (disk : Disk) (new : DeviceStore) (a : A)
      (saved : Disk × Result StoreError Unit)
      → Synced store disk
      → Saves disk new.devices saved
      → Commits store disk (commit store saved new a)
  commit_lem store disk new a (disk', result) synced (inl (e, reads)) =
      rw e (reads, λ fails. absurd (cc fails))
  commit_lem store disk new a (disk', result) synced (inr (x, e, same)) =
      rw e (unfold load in rw same (unfold load in synced), λ fails. (refl, same))

  revoke_at_lem :
      (store : DeviceStore) (disk : Disk) (io : Io) (found : Option (ℕ × PairedDevice))
      → Synced store disk
      → Commits store disk (revoke_at codec store disk io found)
  unfolding revoke_at
  revoke_at_lem store disk io none synced = (synced, λ fails. (refl, refl))
  revoke_at_lem store disk io (some (index, device)) synced =
      let devices = remove_at index store.devices in
      let same : without_index index 0 store.devices ≡ devices =
        without_index_lem index 0 index store.devices (omega arith) in
      rw same (
        commit_lem store disk (record { devices = devices }) (some device)
          (save codec disk io devices) synced (save_lem disk io devices))

  touch_at_lem :
      (store : DeviceStore) (disk : Disk) (io : Io) (now : Bytes)
      (found : Option (ℕ × PairedDevice))
      → Synced store disk
      → Commits store disk (touch_at codec store disk io now found)
  unfolding touch_at
  touch_at_lem store disk io now none synced = (synced, λ fails. (refl, refl))
  touch_at_lem store disk io now (some (index, device)) synced =
      let devices = set_at index (record device { last_seen = now }) store.devices in
      commit_lem store disk (record { devices = devices }) true (save codec disk io devices) synced
        (save_lem disk io devices)

  -- One call of the store, whatever fails: the file reads back as the list in memory afterwards, and
  -- a call that fails changes neither.
  perform_lem :
      (store : DeviceStore) (disk : Disk) (io : Io) (operation : Operation)
      → Synced store disk
      → (let (store', disk', done) = perform codec store disk io operation in
          Synced store' disk' × (done ≡ false → (store' ≡ store) × (disk'.saved ≡ disk.saved)))
  unfolding perform add revoke clear_all touch_last_seen
  perform_lem store disk io (enrol e now) synced =
      let devices = others e.device_id store.devices ++ entry_of e now ∷ [] in
      commit_lem store disk (record { devices = devices }) tt (save codec disk io devices) synced
        (save_lem disk io devices)
  perform_lem store disk io (revoked id) synced =
      revoke_at_lem store disk io (position id store.devices) synced
  perform_lem store disk io cleared synced =
      commit_lem store disk (record { devices = [] }) store.devices (save codec disk io []) synced
        (save_lem disk io [])
  perform_lem store disk io (touched id now) synced =
      touch_at_lem store disk io now (position id store.devices) synced

  -- After any calls, whichever of their writes, permission changes, renames and removals fail, a
  -- load of the file gives exactly the list in memory, with a codec that reads what it writes.
  pub load-run :
      (store : DeviceStore) (disk : Disk) (operations : List (Operation × Io))
      → load codec disk true ≡ ok store
      → (let (store', disk') = run codec store disk operations in load codec disk' true ≡ ok store')
  unfolding run
  load-run store disk [] synced = synced
  load-run store disk ((operation, io) ∷ operations) synced =
      let (store', disk', done) = perform codec store disk io operation in
      load-run store' disk' operations (perform_lem store disk io operation synced).0
