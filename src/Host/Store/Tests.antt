-- ===== src/Host/Store/Tests.antt =====
-- Concrete runs of the device list of store.rs.
use herdr_mobile.Base.{
  Bytes, List, Option, [], ap, beq, codes, drop, false, length, none, ok, refl, some, suc, take,
  true, zero, ℕ, ◌++◌, ◌∙◌, ◌∷◌, ◌≡◌,
}
use herdr_mobile.Host.Store.{
  Platform, ios, android, PairedDevice, Codec, Disk, Io, DeviceStore, Enrolment, entry_of, find,
  load, save, save_json, write_restricted_file, replace_saved, position, others, remove_at,
  without_index, set_at, add, revoke, revoke_at, touch_last_seen, touch_at,
}
use herdr_mobile.Host.Store.Saved.{
  CodecLaws, Operation, enrol, revoked, touched, perform, run, load-run,
}
use herdr_mobile.Host.Store.Lookup.{Unique}
use herdr_mobile.Host.Store.Table.{update_all, succeeded, find-run}

-- A codec that writes the number of entries, each with its nine fields one after the other.
unfoldable field : Bytes → Bytes → Bytes
field f rest = length f ∷ (f ++ rest)

unfoldable read_field : Bytes → Bytes × Bytes
read_field [] = ([], [])
read_field (n ∷ s) = (take n s, drop n s)

take_field : (f rest : Bytes) → take (length f) (f ++ rest) ≡ f
take_field [] rest = refl
take_field (x ∷ f) rest = ap (◌∷◌ x) (take_field f rest)

drop_field : (f rest : Bytes) → drop (length f) (f ++ rest) ≡ rest
drop_field [] rest = refl
drop_field (x ∷ f) rest = drop_field f rest

read_field-field : (f rest : Bytes) → read_field (field f rest) ≡ (f, rest)
unfolding read_field field
read_field-field f rest = rw (take_field f rest, drop_field f rest) refl

abbrev platform_field : Platform → Bytes
platform_field ios = 0 ∷ []
platform_field android = []

abbrev read_platform : Bytes → Platform
read_platform [] = android
read_platform (n ∷ s) = ios

platform_lem : (p : Platform) → read_platform (platform_field p) ≡ p
platform_lem ios = refl
platform_lem android = refl

write_device : PairedDevice → Bytes → Bytes
write_device d rest = field d.host_id (
    field d.handle (
      field d.device_id (
        field d.device_name (
          field (platform_field d.platform) (
            field d.os_version
              (field d.static_public_key (field d.paired_at (field d.last_seen rest))))))))

read_device : Bytes → PairedDevice × Bytes
read_device s =
    let (host_id, s1) = read_field s in
    let (handle, s2) = read_field s1 in
    let (device_id, s3) = read_field s2 in
    let (device_name, s4) = read_field s3 in
    let (platform, s5) = read_field s4 in
    let (os_version, s6) = read_field s5 in
    let (static_public_key, s7) = read_field s6 in
    let (paired_at, s8) = read_field s7 in
    let (last_seen, s9) = read_field s8 in
    (
      record {
        host_id = host_id;
        handle = handle;
        device_id = device_id;
        device_name = device_name;
        platform = read_platform platform;
        os_version = os_version;
        static_public_key = static_public_key;
        paired_at = paired_at;
        last_seen = last_seen;
      },
      s9,
    )

read_device-write_device :
    (d : PairedDevice) (rest : Bytes) → read_device (write_device d rest) ≡ (d, rest)
unfolding read_device write_device
read_device-write_device d rest =
    let s9 = field d.last_seen rest in
    let s8 = field d.paired_at s9 in
    let s7 = field d.static_public_key s8 in
    let s6 = field d.os_version s7 in
    let s5 = field (platform_field d.platform) s6 in
    let s4 = field d.device_name s5 in
    let s3 = field d.device_id s4 in
    let s2 = field d.handle s3 in
    rw
      (
        read_field-field d.host_id s2,
        read_field-field d.handle s3,
        read_field-field d.device_id s4,
        read_field-field d.device_name s5,
        read_field-field (platform_field d.platform) s6,
        read_field-field d.os_version s7,
        read_field-field d.static_public_key s8,
        read_field-field d.paired_at s9,
        read_field-field d.last_seen rest,
        platform_lem d.platform,
      )
      refl

write_all : List PairedDevice → Bytes
write_all [] = []
write_all (d ∷ ds) = write_device d (write_all ds)

read_all : ℕ → Bytes → List PairedDevice
read_all zero s = []
read_all (suc n) s = let (d, rest) = read_device s in d ∷ read_all n rest

read_all-write_all : (ds : List PairedDevice) → read_all (length ds) (write_all ds) ≡ ds
unfolding read_all write_all
read_all-write_all [] = refl
read_all-write_all (d ∷ ds) =
    rw (read_device-write_device d (write_all ds)) (ap (◌∷◌ d) (read_all-write_all ds))

abbrev read_counted : Bytes → Option (List PairedDevice)
read_counted [] = none
read_counted (n ∷ s) = some (read_all n s)

abbrev counted : Codec
counted = record { to_vec_pretty = λ ds. some (length ds ∷ write_all ds); from_str = read_counted }

counted-CodecLaws : CodecLaws counted
counted-CodecLaws = record {
  from_str-to_vec_pretty = λ devices json e.
      ap read_counted (json_lem devices json e) ∙ ap some (read_all-write_all devices);
}
  where
    json_lem :
        (devices : List PairedDevice) (json : Bytes)
        → some (length devices ∷ write_all devices) ≡ some json
        → json ≡ length devices ∷ write_all devices
    json_lem devices json e = cc e

abbrev healthy : Io
healthy = record {
  create_dir = true;
  write_file = true;
  partial = none;
  restrict = true;
  rename = true;
  remove_file = true;
}

abbrev phone : Enrolment
phone = record {
  host_id = codes "host";
  handle = codes "handle";
  device_id = codes "phone";
  device_name = codes "Phone";
  platform = android;
  os_version = codes "15";
  static_public_key = 7 ∷ [];
}

abbrev tablet : Enrolment
tablet = record phone { device_id = codes "tablet"; platform = ios }

abbrev no_devices : DeviceStore
no_devices = record { devices = [] }

abbrev empty_disk : Disk
empty_disk = record { saved = none; temporary = none }

-- Two enrolments, of which the second fails once at the rename, a handshake and a revocation.
abbrev operations : List (Operation × Io)
operations =
    (enrol phone (codes "1"), healthy)
    ∷ (enrol tablet (codes "2"), record healthy { rename = false })
    ∷ (enrol tablet (codes "3"), healthy)
    ∷ (touched (codes "tablet") (codes "4"), healthy)
    ∷ (revoked (codes "phone"), healthy)
    ∷ []

load-run_example :
    load counted (run counted no_devices empty_disk operations).1 true
    ≡ ok (run counted no_devices empty_disk operations).0
unfolding load
load-run_example = load-run counted counted-CodecLaws no_devices empty_disk operations refl

find-run_example :
    Unique (run counted no_devices empty_disk operations).0.devices
    × ((key : Bytes)
        → find (run counted no_devices empty_disk operations).0 key
          ≡ update_all (succeeded counted no_devices empty_disk operations) (find no_devices) key)
find-run_example = find-run counted no_devices empty_disk operations tt

tablet_is_left :
    (run counted no_devices empty_disk operations).0.devices
    ≡ record (entry_of tablet (codes "3")) { last_seen = codes "4" } ∷ []
unfolding run perform add revoke touch_last_seen revoke_at touch_at save save_json
    write_restricted_file replace_saved others position without_index remove_at set_at beq
tablet_is_left = refl
