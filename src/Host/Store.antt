-- ===== src/Host/Store.antt =====
-- The list of paired devices and its file: crates/herdr-relay/src/store.rs, with
-- `write_restricted_file` of crates/herdr-relay/src/config.rs. The JSON codec, the time stamps and
-- which calls of the file system succeed are arguments.
use herdr_mobile.Base.{
  Bool, Bytes, List, Option, Result, [], beq, err, false, if◌then◌else◌, none, not, ok, some, suc,
  true, zero, ℕ, ◌&&◌, ◌++◌, ◌==◌, ◌∷◌,
}
pub mod Saved
pub mod Lookup
pub mod Table
mod Tests

pub data Platform : Type 0 where
  ios android : Platform

pub record PairedDevice : Type 0 where
  pub host_id : Bytes
  pub handle : Bytes
  pub device_id : Bytes
  pub device_name : Bytes
  pub platform : Platform
  pub os_version : Bytes
  pub static_public_key : Bytes
  pub paired_at : Bytes
  pub last_seen : Bytes

pub data StoreError : Type 0 where
  read_error parse_error serialize write_error : StoreError

-- `serde_json` on the list.
pub record Codec : Type 0 where
  pub to_vec_pretty : List PairedDevice → Option Bytes
  pub from_str : Bytes → Option (List PairedDevice)

-- The file of the list and the staged file beside it, where they exist.
pub record Disk : Type 0 where
  pub saved : Option Bytes
  pub temporary : Option Bytes

-- Which calls of one save succeed, and what a write that fails leaves behind.
pub record Io : Type 0 where
  pub create_dir : Bool
  pub write_file : Bool
  pub partial : Option Bytes
  pub restrict : Bool
  pub rename : Bool
  pub remove_file : Bool

unfoldable pub write_restricted_file : Disk → Io → Bytes → Disk × Bool
write_restricted_file disk io contents =
    if not io.create_dir
    then (disk, false)
    else if not io.write_file
    then (record disk { temporary = io.partial }, false)
    else (record disk { temporary = some contents }, io.restrict)

-- The rename puts the staged file in the place of the saved one.
unfoldable pub replace_saved : Disk × Bool → Io → Disk × Bool
replace_saved (disk, written) io =
    if written && io.rename
    then (record { saved = disk.temporary; temporary = none }, true)
    else (disk, false)

unfoldable pub discard : Disk × Bool → Io → Disk
discard (disk, done) io =
    if not done && io.remove_file then record disk { temporary = none } else disk

unfoldable pub save_json : Disk → Io → Option Bytes → Disk × Result StoreError Unit
unfolding write_restricted_file replace_saved discard
save_json disk io none = (disk, err serialize)
save_json disk io (some json) =
    let written = replace_saved (write_restricted_file disk io json) io in
    (discard written io, if written.1 then ok tt else err write_error)

unfoldable pub save : Codec → Disk → Io → List PairedDevice → Disk × Result StoreError Unit
save codec disk io devices = save_json disk io (codec.to_vec_pretty devices)

pub record DeviceStore : Type 0 where
  pub devices : List PairedDevice

abbrev to_store : Option (List PairedDevice) → Result StoreError DeviceStore
to_store none = err parse_error
to_store (some devices) = ok (record { devices = devices })

abbrev pub read_devices : Codec → Option Bytes → Result StoreError DeviceStore
read_devices codec none = ok (record { devices = [] })
read_devices codec (some text) = to_store (codec.from_str text)

-- The read fails, or finds the file or none.
unfoldable pub load : Codec → Disk → Bool → Result StoreError DeviceStore
load codec disk readable = if not readable then err read_error else read_devices codec disk.saved

abbrev pub has_id : Bytes → PairedDevice → Bool
has_id id device = beq device.device_id id

-- `iter().find` and `iter().position`.
unfoldable pub find_device : Bytes → List PairedDevice → Option PairedDevice
find_device id [] = none
find_device id (d ∷ ds) = if has_id id d then some d else find_device id ds

unfoldable pub find : DeviceStore → Bytes → Option PairedDevice
find store id = find_device id store.devices

abbrev after : Option (ℕ × PairedDevice) → Option (ℕ × PairedDevice)
after none = none
after (some (i, d)) = some (suc i, d)

-- The index of the device and the device there.
unfoldable pub position : Bytes → List PairedDevice → Option (ℕ × PairedDevice)
position id [] = none
position id (d ∷ ds) = let rest = position id ds in if has_id id d then some (0, d) else after rest

unfoldable pub others : Bytes → List PairedDevice → List PairedDevice
others id [] = []
others id (d ∷ ds) = let rest = others id ds in if has_id id d then rest else d ∷ rest

-- `Vec::remove`, and the list with another element at an index.
unfoldable pub remove_at : ℕ → List PairedDevice → List PairedDevice
remove_at i [] = []
remove_at zero (d ∷ ds) = ds
remove_at (suc i) (d ∷ ds) = d ∷ remove_at i ds

unfoldable pub set_at : ℕ → PairedDevice → List PairedDevice → List PairedDevice
set_at i e [] = []
set_at zero e (d ∷ ds) = e ∷ ds
set_at (suc i) e (d ∷ ds) = d ∷ set_at i e ds

-- The elements whose index is another, from an index on.
unfoldable pub without_index : ℕ → ℕ → List PairedDevice → List PairedDevice
without_index index from [] = []
without_index index from (d ∷ ds) =
    let rest = without_index index (suc from) ds in if from == index then rest else d ∷ rest

-- The list in memory changes only when the save succeeds. It is computed apart from the list that
-- is saved.
abbrev pub commit :
    {A : Type 0}
    → DeviceStore
    → Disk × Result StoreError Unit
    → DeviceStore
    → A
    → DeviceStore × Disk × Result StoreError A
commit old (disk, err e) new a = (old, disk, err e)
commit old (disk, ok done) new a = (new, disk, ok a)

-- The fields that `add` is given.
pub record Enrolment : Type 0 where
  pub host_id : Bytes
  pub handle : Bytes
  pub device_id : Bytes
  pub device_name : Bytes
  pub platform : Platform
  pub os_version : Bytes
  pub static_public_key : Bytes

abbrev pub entry_of : Enrolment → Bytes → PairedDevice
entry_of e now = record {
  host_id = e.host_id;
  handle = e.handle;
  device_id = e.device_id;
  device_name = e.device_name;
  platform = e.platform;
  os_version = e.os_version;
  static_public_key = e.static_public_key;
  paired_at = now;
  last_seen = now;
}

unfoldable pub add :
    Codec
    → DeviceStore
    → Disk
    → Io
    → Enrolment
    → Bytes
    → DeviceStore × Disk × Result StoreError Unit
add codec store disk io enrolment now =
    let entry = entry_of enrolment now in
    commit store (save codec disk io (others enrolment.device_id store.devices ++ entry ∷ []))
      (record { devices = others enrolment.device_id store.devices ++ entry ∷ [] }) tt

unfoldable pub revoke_at :
    Codec
    → DeviceStore
    → Disk
    → Io
    → Option (ℕ × PairedDevice)
    → DeviceStore × Disk × Result StoreError (Option PairedDevice)
revoke_at codec store disk io none = (store, disk, ok none)
revoke_at codec store disk io (some (index, device)) =
    commit store (save codec disk io (without_index index 0 store.devices))
      (record { devices = remove_at index store.devices }) (some device)

unfoldable pub revoke :
    Codec
    → DeviceStore
    → Disk
    → Io
    → Bytes
    → DeviceStore × Disk × Result StoreError (Option PairedDevice)
revoke codec store disk io id = revoke_at codec store disk io (position id store.devices)

unfoldable pub clear_all :
    Codec → DeviceStore → Disk → Io → DeviceStore × Disk × Result StoreError (List PairedDevice)
clear_all codec store disk io =
    commit store (save codec disk io []) (record { devices = [] }) store.devices

unfoldable pub touch_at :
    Codec
    → DeviceStore
    → Disk
    → Io
    → Bytes
    → Option (ℕ × PairedDevice)
    → DeviceStore × Disk × Result StoreError Bool
touch_at codec store disk io now none = (store, disk, ok false)
touch_at codec store disk io now (some (index, device)) =
    let updated : PairedDevice = record device { last_seen = now } in
    commit store (save codec disk io (set_at index updated store.devices))
      (record {
        devices = set_at index (record device { last_seen = updated.last_seen }) store.devices;
      })
      true

unfoldable pub touch_last_seen :
    Codec → DeviceStore → Disk → Io → Bytes → Bytes → DeviceStore × Disk × Result StoreError Bool
touch_last_seen codec store disk io id now =
    touch_at codec store disk io now (position id store.devices)
