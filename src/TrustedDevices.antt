-- ===== src/TrustedDevices.antt =====
-- koreader-plugin/internal/storage/trusted_devices.go. `added_at` is a number of seconds since the
-- epoch, which is not negative in a file that the store wrote. JSON and SHA-256 in hexadecimal are
-- functions.
pub mod Oldest
pub mod Eviction
pub mod Saving
use pdf_to_epub.Disk.{Disk, Faults}
use pdf_to_epub.FilePath.{join}
use pdf_to_epub.Prelude.{
  ℕ, Bool, true, false, not, ◌||◌, Option, none, some, List, [], ◌∷◌, ◌++◌, ltb, leb, if◌then◌else◌,
  Str, codes, str_eq, length, map,
}
use pdf_to_epub.Prelude.Map.{Map, lookup, insert, delete, has}
use pdf_to_epub.Session.Body.{max_int64}
use pdf_to_epub.Session.Save.{mkdir_all}

abbrev pub max_trusted_devices : ℕ
max_trusted_devices = 100

pub record TrustedDevice : Type 0 where
  pub alias : Str
  pub public_key : Str
  pub added_at : ℕ

pub record TrustedDeviceStore : Type 0 where
  pub config_dir : Str
  pub devices : Map TrustedDevice

-- What the store uses of the world: the hash, JSON both ways, and the calls on the temporary file
-- that fail, with what is in it then.
pub record Env : Type 0 where
  pub sha256_hex : Str → Str
  pub to_json : Map TrustedDevice → Str
  pub from_json : Str → Option (Map TrustedDevice)
  pub faults : Faults
  pub read_fails : Str → Bool
  pub encode_fails : Str → Bool
  pub sync_fails : Str → Bool
  pub close_fails : Str → Bool
  pub rename_fails : Str → Bool
  pub left : Str → Str

unfoldable pub get_fingerprint : Env → Str → Str
get_fingerprint env public_key = env.sha256_hex public_key

-- The loop of `evictOldest`, with `oldestKey` and `oldestTime`.
unfoldable pub oldest : Str × ℕ → Map TrustedDevice → Str × ℕ
oldest best [] = best
oldest best ((key, device) ∷ m) =
    oldest (if ltb device.added_at best.1 then (key, device.added_at) else best) m

unfoldable pub evict_oldest : Map TrustedDevice → Map TrustedDevice
evict_oldest devices =
    let key = (oldest ([], max_int64) devices).0 in
    if str_eq key [] then devices else delete key devices

-- The devices after `Add`, which it then saves.
unfoldable pub add_device : Env → Map TrustedDevice → TrustedDevice → Map TrustedDevice
add_device env devices device =
    let fingerprint = get_fingerprint env device.public_key in
    insert fingerprint device (
      if not (has fingerprint devices)
      then (if leb max_trusted_devices (length devices) then evict_oldest devices else devices)
      else devices)

abbrev pub file_name : Str
file_name = codes "trusted_devices.json"

abbrev pub file_path : TrustedDeviceStore → Str
file_path s = join s.config_dir file_name

abbrev pub temp_path : TrustedDeviceStore → Str
temp_path s = file_path s ++ codes ".tmp"

-- The temporary file after a failed call, and after it is removed, if it can be.
abbrev pub drop_temp : Env → Disk → Str → Str → Disk
drop_temp env disk temp content =
    if env.faults.remove temp
    then record disk { files = insert temp (env.left content) disk.files }
    else record disk { files = delete temp disk.files }

-- `save` from the open temporary file on: whether it succeeds.
abbrev pub write_temp : Env → Disk → Str → Str → Str → Disk × Bool
write_temp env disk path temp content =
    if env.encode_fails temp || env.sync_fails temp || env.close_fails temp
    then (drop_temp env disk temp content, false)
    else if env.rename_fails temp
    then (record disk { files = insert temp content disk.files }, false)
    else (record disk { files = insert path content (delete temp disk.files) }, true)

unfoldable pub save : Env → TrustedDeviceStore → Disk → Disk × Bool
save env s disk = elim (mkdir_all disk env.faults s.config_dir) [
  | none ↦ (disk, false)
  | some disk' ↦
      if env.faults.create (temp_path s)
      then (disk', false)
      else write_temp env disk' (file_path s) (temp_path s) (env.to_json s.devices)
]

unfoldable pub add :
    Env → TrustedDeviceStore → Disk → TrustedDevice → TrustedDeviceStore × Disk × Bool
add env s disk device =
    let s' = record s { devices = add_device env s.devices device } in
    let (disk', ok) = save env s' disk in (s', disk', ok)

-- `Remove`
unfoldable pub remove_device :
    Env → TrustedDeviceStore → Disk → Str → TrustedDeviceStore × Disk × Bool
remove_device env s disk fingerprint =
    let s' = record s { devices = delete fingerprint s.devices } in
    let (disk', ok) = save env s' disk in (s', disk', ok)

unfoldable pub is_trusted : Env → TrustedDeviceStore → Str → Bool
is_trusted env s public_key = has (get_fingerprint env public_key) s.devices

unfoldable pub get_public_key : TrustedDeviceStore → Str → Option Str
get_public_key s fingerprint = elim (lookup fingerprint s.devices) [
  | none ↦ none
  | some device ↦ some device.public_key
]

unfoldable pub list_devices : TrustedDeviceStore → List TrustedDevice
list_devices s = map (λ e. e.1) s.devices

unfoldable pub list_public_keys : TrustedDeviceStore → Map Str
list_public_keys s = map (λ e. (e.0, e.1.public_key)) s.devices

-- `load` and the constructor: no file is no device; `none` is an error.
unfoldable pub new_trusted_device_store : Env → Disk → Str → Option TrustedDeviceStore
new_trusted_device_store env disk config_dir =
    let s : TrustedDeviceStore = record { config_dir = config_dir; devices = [] } in
    if env.read_fails (file_path s) then none else elim (lookup (file_path s) disk.files) [
      | none ↦ some s
      | some content ↦ elim (env.from_json content) [
        | none ↦ none
        | some devices ↦ some (record s { devices = devices })
      ]
    ]
