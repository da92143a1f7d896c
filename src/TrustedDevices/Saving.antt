-- ===== src/TrustedDevices/Saving.antt =====
-- What storage/trusted_devices.go leaves on the disk.
use mathlib.Core.Path.{subst}
use pdf_to_epub.Disk.{Disk, Faults}
use pdf_to_epub.Prelude.{
  Bool, false, Option, some, ◌++◌, if◌then◌else◌, Str, codes, length, length-append, ◌≡◌, ◌≢◌, refl,
  ap, inl, inr, arith, Option-cases, Bool-cases,
}
use pdf_to_epub.Prelude.Map.{lookup, delete, lookup-insert, lookup-delete, lookup-insert_self}
use pdf_to_epub.Session.Save.{mkdir_all}
use pdf_to_epub.TrustedDevices.{
  Env, TrustedDeviceStore, save, write_temp, file_path, temp_path, new_trusted_device_store,
}

temp-ne-path : (p : Str) → (p ++ codes ".tmp") ≢ p
temp-ne-path p e = omega (arith, ap length e, length-append p (codes ".tmp"))

-- The file after a save that succeeds or fails.
abbrev pub Outcome : Option Str → Str → Str → Disk × Bool → Type 0
Outcome before path content (disk', ok) =
    lookup path disk'.files ≡ (if ok then some content else before)

write_temp-Outcome :
    (env : Env) (disk : Disk) (path temp content : Str)
    → temp ≢ path
    → Outcome (lookup path disk.files) path content (write_temp env disk path temp content)
write_temp-Outcome env disk path temp content n = ground (
  arith,
  n,
  lookup-insert temp path (env.left content) disk.files,
  lookup-insert temp path content disk.files,
  lookup-delete temp path disk.files,
  lookup-insert_self path content (delete temp disk.files),
)

mkdir_all-files :
    (disk : Disk) (faults : Faults) (d : Str) (disk' : Disk)
    → mkdir_all disk faults d ≡ some disk'
    → disk'.files ≡ disk.files
unfolding mkdir_all
mkdir_all-files disk faults d disk' h = ground arith

save-Outcome :
    (env : Env) (s : TrustedDeviceStore) (disk : Disk)
    → Outcome
        (lookup (file_path s) disk.files)
        (file_path s)
        (env.to_json s.devices)
        (save env s disk)
unfolding save
save-Outcome env s disk = elim (Option-cases (mkdir_all disk env.faults s.config_dir)) [
  | inl e ↦ rw (e, save) refl
  | inr (disk', e) ↦
      let f = mkdir_all-files disk env.faults s.config_dir disk' e in
      let w =
        write_temp-Outcome env disk' (file_path s) (temp_path s) (env.to_json s.devices)
          (temp-ne-path (file_path s)) in
      elim (Bool-cases (env.faults.create (temp_path s))) [
        | inl c ↦ rw (e, save) (rw c (ap (lookup (file_path s)) f))
        | inr c ↦
            rw (e, save)
              (rw c (
                subst
                  (λ fs.
                    Outcome (lookup (file_path s) fs) (file_path s) (env.to_json s.devices)
                      (write_temp env disk' (file_path s) (temp_path s) (env.to_json s.devices)))
                  f w))
      ]
]

-- A store that is opened after a save has the saved devices where the save succeeded, and is as it
-- would have been before the save where it failed at any point, if the devices' JSON is read back as it
-- was written and the file can be read.
pub new_trusted_device_store-save :
    (env : Env) (s : TrustedDeviceStore) (disk : Disk)
    → env.from_json (env.to_json s.devices) ≡ some s.devices
    → env.read_fails (file_path s) ≡ false
    → new_trusted_device_store env (save env s disk).0 s.config_dir
      ≡ (if (save env s disk).1 then some s else new_trusted_device_store env disk s.config_dir)
unfolding new_trusted_device_store
new_trusted_device_store-save env s disk j r = ground (arith, save-Outcome env s disk, j, r)
