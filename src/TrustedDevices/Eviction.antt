-- ===== src/TrustedDevices/Eviction.antt =====
-- Which device storage/trusted_devices.go gives up for a new one.
use mathlib.Core.Path.{subst}
use pdf_to_epub.Prelude.{
  ◌+◌, ◌≤◌, ◌<◌, true, none, some, [], ◌∷◌, leb, Str, str_eq, length, ◌≡◌, ◌≢◌, ◌⊎◌, inl, inr, sym,
  arith, All, Option-cases, Bool-cases, Str-discrete,
}
use pdf_to_epub.Prelude.Map.{
  Map, lookup, insert, delete, has, IsDistinct, lookup-insert, lookup-delete, lookup-insert_self,
  length-insert, delete_absent, insert-IsDistinct, delete-IsDistinct, length-delete-le,
}
use pdf_to_epub.Session.Body.{max_int64}
use pdf_to_epub.TrustedDevices.{
  Env, TrustedDevice, evict_oldest, add_device, max_trusted_devices, get_fingerprint,
}
use pdf_to_epub.TrustedDevices.Oldest.{IsValid, evicts}

-- A device under its key: the key is not empty, and the time is below the largest int64.
pub record Inv (devices : Map TrustedDevice) : Type 0 where
  pub distinct : IsDistinct devices
  pub bounded : length devices ≤ max_trusted_devices
  pub valid : All IsValid devices

IsValid-delete : (k : Str) (m : Map TrustedDevice) → All IsValid m → All IsValid (delete k m)
unfolding delete
IsValid-delete k [] v = tt
IsValid-delete k ((j, d) ∷ m) v = ground (arith, IsValid-delete k m v.1)

IsValid-insert :
    (k : Str) (d : TrustedDevice) (m : Map TrustedDevice)
    → IsValid (k, d)
    → All IsValid m
    → All IsValid (insert k d m)
unfolding insert
IsValid-insert k d [] n v = (n, tt)
IsValid-insert k d ((j, x) ∷ m) n v = ground (arith, IsValid-insert k d m n v.1)

length-delete_present :
    (k : Str) (d : TrustedDevice) (m : Map TrustedDevice)
    → IsDistinct m
    → lookup k m ≡ some d
    → length (delete k m) + 1 ≡ length m
unfolding delete lookup
length-delete_present k d [] i h = absurd (ground arith)
length-delete_present k d ((j, x) ∷ m) i h = elim (Bool-cases (str_eq j k)) [
  | inl t ↦ ground (arith, delete_absent k m)
  | inr t ↦ ground (arith, length-delete_present k d m i.1)
]

-- The new device goes into a map with room for it.
insert-Inv :
    (k : Str) (d : TrustedDevice) (m : Map TrustedDevice)
    → Inv m
    → IsValid (k, d)
    → ((has k m ≡ true) ⊎ (length m < max_trusted_devices))
    → Inv (insert k d m)
insert-Inv k d m v n r = record {
  distinct = insert-IsDistinct k d m v.distinct;
  bounded = ground (arith, r, v.bounded, length-insert k d m);
  valid = IsValid-insert k d m n v.valid;
}

delete-Inv : (k : Str) (m : Map TrustedDevice) → Inv m → Inv (delete k m)
delete-Inv k m v = record {
  distinct = delete-IsDistinct k m v.distinct;
  bounded = omega (arith, v.bounded, length-delete-le k m);
  valid = IsValid-delete k m v.valid;
}

-- What became of the device under a key that is not the new one: it is as before, or the store was
-- full, the new key is not of an old device, and this device, no younger than any other, was given up.
abbrev pub Kept : Map TrustedDevice → Map TrustedDevice → Str → Str → Type 0
Kept before after new_key key =
    (lookup key after ≡ lookup key before)
    ⊎ (device : TrustedDevice) × (lookup key before ≡ some device)
      × (lookup key after ≡ none)
      × (lookup new_key before ≡ none)
      × (max_trusted_devices ≤ length before)
      × All (λ (e : Str × TrustedDevice). device.added_at ≤ e.1.added_at) before

-- What `Add` does to a map of devices.
abbrev Added : Map TrustedDevice → Map TrustedDevice → Str → TrustedDevice → Str → Type 0
Added before after fp device key =
    Inv after × (lookup fp after ≡ some device) × Kept before after fp key

Added-in_place :
    (fp : Str) (device : TrustedDevice) (m : Map TrustedDevice) (key : Str)
    → Inv m
    → IsValid (fp, device)
    → ((has fp m ≡ true) ⊎ (length m < max_trusted_devices))
    → fp ≢ key
    → Added m (insert fp device m) fp device key
Added-in_place fp device m key v n r ne = (
  insert-Inv fp device m v n r,
  lookup-insert_self fp device m,
  inl (ground (arith, lookup-insert fp key device m)),
)

Added-full :
    (fp : Str) (device : TrustedDevice) (m : Map TrustedDevice) (key : Str)
    → Inv m
    → IsValid (fp, device)
    → lookup fp m ≡ none
    → max_trusted_devices ≤ length m
    → fp ≢ key
    → Added m (insert fp device (evict_oldest m)) fp device key
Added-full fp device [] key v n a l ne = absurd (omega (arith, l))
Added-full fp device (e ∷ m) key v n a l ne =
    let g = evicts e m v.distinct v.valid in
    let d = length-delete_present g.key g.device (e ∷ m) v.distinct g.present in
    rw g.gone (
      insert-Inv fp device (delete g.key (e ∷ m)) (delete-Inv g.key (e ∷ m) v) n
          (inr (omega (arith, d, v.bounded))),
      lookup-insert_self fp device (delete g.key (e ∷ m)),
      elim (Str-discrete g.key key) [
        | yes q ↦ inr (
          g.device,
          ground (arith, q, g.present),
          ground (
            arith,
            q,
            lookup-insert fp key device (delete g.key (e ∷ m)),
            lookup-delete g.key key (e ∷ m),
          ),
          a,
          l,
          g.least,
        )
        | no q ↦ inl (
            ground (
              arith,
              lookup-insert fp key device (delete g.key (e ∷ m)),
              lookup-delete g.key key (e ∷ m),
            ))
      ],
    )

-- `Add` keeps the invariant of the store, at most 100 devices included, for a device whose fingerprint
-- is not empty and whose time is below the largest int64. Afterwards the device is trusted; any
-- other is as before, unless the store was full, the device was new, and this other, no younger than
-- any, was given up for it.
pub add_device-Kept :
    (env : Env) (m : Map TrustedDevice) (device : TrustedDevice) (key : Str)
    → Inv m
    → get_fingerprint env device.public_key ≢ []
    → device.added_at < max_int64
    → get_fingerprint env device.public_key ≢ key
    → Inv (add_device env m device)
      × (lookup (get_fingerprint env device.public_key) (add_device env m device) ≡ some device)
      × Kept m (add_device env m device) (get_fingerprint env device.public_key) key
unfolding add_device
add_device-Kept env m device key v f t ne =
    let fp = get_fingerprint env device.public_key in
    let to : (after : Map TrustedDevice)
        → add_device env m device ≡ after
        → Added m after fp device key
        → Added m (add_device env m device) fp device key =
      λ after q a. subst (λ x. Added m x fp device key) (sym q) a in
    elim (Option-cases (lookup fp m)) [
      | inr (x, e) ↦
          to (insert fp device m) (ground (arith, e))
            (Added-in_place fp device m key v (f, t) (inl (ground (arith, e))) ne)
      | inl e ↦ elim (Bool-cases (leb max_trusted_devices (length m))) [
        | inl b ↦
            to (insert fp device (evict_oldest m)) (ground (arith, e, b))
              (Added-full fp device m key v (f, t) e (ground arith) ne)
        | inr b ↦
            to (insert fp device m) (ground (arith, e, b))
              (Added-in_place fp device m key v (f, t) (inr (ground arith)) ne)
      ]
    ]
