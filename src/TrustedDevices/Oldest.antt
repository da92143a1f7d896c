-- ===== src/TrustedDevices/Oldest.antt =====
-- The loop of evictOldest in storage/trusted_devices.go.
use mathlib.Core.Path.{subst}
use pdf_to_epub.Prelude.{
  ℕ, ◌≤◌, ◌<◌, none, some, [], ◌∷◌, ltb, if◌then◌else◌, Str, str_eq, ◌≡◌, ◌≢◌, ◌⊎◌, inl, inr, refl,
  sym, arith, All, Bool-cases,
}
use pdf_to_epub.Prelude.Map.{Map, lookup, delete, IsDistinct}
use pdf_to_epub.Session.Body.{max_int64}
use pdf_to_epub.TrustedDevices.{TrustedDevice, oldest, evict_oldest}

abbrev pub IsValid : Str × TrustedDevice → Type 0
IsValid e = (e.0 ≢ []) × (e.1.added_at < max_int64)

-- The outcome of the loop: an entry of the map or what it began with, and the least time.
abbrev pub Found : Str × ℕ → Map TrustedDevice → Str × ℕ → Type 0
Found best m r =
    ((r ≡ best) ⊎ (d : TrustedDevice) × (lookup r.0 m ≡ some d) × (d.added_at ≡ r.1))
    × (r.1 ≤ best.1)
    × All (λ (e : Str × TrustedDevice). r.1 ≤ e.1.added_at) m

lookup-tail :
    (k j : Str) (d e : TrustedDevice) (m : Map TrustedDevice)
    → lookup k m ≡ none
    → lookup j m ≡ some e
    → lookup j ((k, d) ∷ m) ≡ some e
unfolding lookup
lookup-tail k j d e m n h = ground arith

lookup-head : (k : Str) (d : TrustedDevice) (m : Map TrustedDevice) → lookup k ((k, d) ∷ m) ≡ some d
unfolding lookup
lookup-head k d m = ground arith

Found-cons :
    (best best' : Str × ℕ) (key : Str) (device : TrustedDevice) (m : Map TrustedDevice)
    (r : Str × ℕ)
    → lookup key m ≡ none
    → best' ≡ (if ltb device.added_at best.1 then (key, device.added_at) else best)
    → Found best' m r
    → Found best ((key, device) ∷ m) r
Found-cons best best' key device m r n e (f, b, a) = (
  elim f [
    | inr (x, l, q) ↦ inr (x, lookup-tail key r.0 device x m n l, q)
    | inl q ↦ elim (Bool-cases (ltb device.added_at best.1)) [
      | inl t ↦
          inr (device, ground (arith, q, e, t, lookup-head key device m), ground (arith, q, e, t))
      | inr t ↦ inl (ground (arith, q, e, t))
    ]
  ],
  ground (arith, b, e),
  (ground (arith, b, e), a),
)

oldest-Found :
    (m : Map TrustedDevice) (best : Str × ℕ) → IsDistinct m → Found best m (oldest best m)
unfolding oldest
oldest-Found [] best d = (inl refl, omega arith, tt)
oldest-Found ((key, device) ∷ m) best d =
    let best' = if ltb device.added_at best.1 then (key, device.added_at) else best in
    Found-cons best best' key device m (oldest best' m) d.0 refl (oldest-Found m best' d.1)

-- The device that is given up, no younger than any other.
pub record Evicted (m : Map TrustedDevice) : Type 0 where
  pub key : Str
  pub device : TrustedDevice
  pub present : lookup key m ≡ some device
  pub gone : evict_oldest m ≡ delete key m
  pub least : All (λ (e : Str × TrustedDevice). device.added_at ≤ e.1.added_at) m

All-lookup :
    (P : Str × TrustedDevice → Type 0) (k : Str) (d : TrustedDevice) (m : Map TrustedDevice)
    → All P m
    → lookup k m ≡ some d
    → P (k, d)
unfolding lookup
All-lookup P k d [] a h = absurd (ground arith)
All-lookup P k d ((j, x) ∷ m) a h = elim (Bool-cases (str_eq j k)) [
  | inl t ↦ subst P (ground arith) a.0
  | inr t ↦ All-lookup P k d m a.1 (ground arith)
]

pub evicts :
    (e : Str × TrustedDevice) (m : Map TrustedDevice)
    → IsDistinct (e ∷ m)
    → All IsValid (e ∷ m)
    → Evicted (e ∷ m)
unfolding evict_oldest
evicts e m d v =
    let r = oldest ([], max_int64) (e ∷ m) in
    let (f, b, a) = oldest-Found (e ∷ m) ([], max_int64) d in
    elim f [
      | inl q ↦ absurd (ground (arith, q, a.0, v.0.1))
      | inr (x, l, q) ↦
          let n = All-lookup IsValid r.0 x (e ∷ m) v l in
          record {
            key = r.0;
            device = x;
            present = l;
            gone = ground (arith, n.0);
            least =
                subst (λ n. All (λ (y : Str × TrustedDevice). n ≤ y.1.added_at) (e ∷ m)) (sym q) a;
          }
    ]
