-- ===== src/Discovery/Bounds.antt =====
-- How many devices koreader-plugin/internal/localsend/scan.go keeps.
use pdf_to_epub.Discovery.{
  Announcement, DiscoveryEntry, max_discovered_devices, oldest_entry, make_room, put_discovered,
  register_device, fingerprint_or_host, cleanup_stale_discovered_at, update_entry,
}
use pdf_to_epub.Prelude.{
  ℕ, suc, ◌≤◌, ◌<◌, true, false, ◌||◌, List, [], ◌∷◌, ltb, Str, str_eq, length, ◌≡◌, refl, ◌⊎◌, inl,
  inr, arith, Bool-cases, if_cases,
}
use pdf_to_epub.Prelude.Map.{Map, lookup, delete, has, length-insert, length-delete-le}

-- The outcome of the loop is what it began with or a key of the map.
oldest_entry-has :
    (best : Str × ℕ) (m : Map DiscoveryEntry)
    → ((oldest_entry best m).0 ≡ best.0) ⊎ (has (oldest_entry best m).0 m ≡ true)
unfolding oldest_entry lookup
oldest_entry-has best [] = inl refl
oldest_entry-has best ((k, e) ∷ m) =
    elim (Bool-cases (str_eq best.0 [] || ltb e.last_seen best.1)) [
      | inl t ↦ ground (arith, t, oldest_entry-has (k, e.last_seen) m)
      | inr t ↦ ground (arith, t, oldest_entry-has best m)
    ]

-- In a map that is not empty the loop finds one of its keys.
first_entry-has :
    (k : Str) (e : DiscoveryEntry) (m : Map DiscoveryEntry)
    → has (oldest_entry ([], 0) ((k, e) ∷ m)).0 ((k, e) ∷ m) ≡ true
unfolding oldest_entry lookup
first_entry-has k e m = ground (arith, oldest_entry-has (k, e.last_seen) m)

length-delete-lt :
    (k : Str) (m : Map DiscoveryEntry) → has k m ≡ true → suc (length (delete k m)) ≤ length m
unfolding lookup delete
length-delete-lt k [] h = absurd (ground (arith, h))
length-delete-lt k ((j, e) ∷ m) h = ground (arith, h, length-delete-le k m, length-delete-lt k m)

-- With room made, the map has a place for the device.
make_room-lt :
    (fingerprint : Str) (m : Map DiscoveryEntry)
    → length m ≤ max_discovered_devices
    → has fingerprint (make_room fingerprint m) ≡ false
    → length (make_room fingerprint m) < max_discovered_devices
unfolding make_room
make_room-lt fingerprint [] l h = ground (arith, l, h)
make_room-lt fingerprint ((k, e) ∷ m) l h = ground (
  arith,
  l,
  h,
  length-delete-lt (oldest_entry ([], 0) ((k, e) ∷ m)).0 ((k, e) ∷ m) (first_entry-has k e m),
)

make_room_le :
    (fingerprint : Str) (m : Map DiscoveryEntry)
    → length m ≤ max_discovered_devices
    → length (make_room fingerprint m) ≤ max_discovered_devices
unfolding make_room
make_room_le fingerprint m l = ground (arith, l, length-delete-le (oldest_entry ([], 0) m).0 m)

put_discovered_le :
    (now : ℕ) (ip : Str) (anno : Announcement) (m : Map DiscoveryEntry)
    → length m ≤ max_discovered_devices
    → length (put_discovered now ip anno m) ≤ max_discovered_devices
unfolding put_discovered
put_discovered_le now ip anno m l =
    let f = fingerprint_or_host ip anno in
    let room = make_room f m in
    let size = length-insert f (update_entry now ip anno (lookup f room)) room in
    elim (Bool-cases (has f room)) [
      | inl t ↦ ground (arith, make_room_le f m l, size, t)
      | inr t ↦ ground (arith, make_room-lt f m l t, size, t)
    ]

cleanup_le :
    (now : ℕ) (m : Map DiscoveryEntry) → length (cleanup_stale_discovered_at now m) ≤ length m
unfolding cleanup_stale_discovered_at
cleanup_le now [] = omega arith
cleanup_le now ((k, e) ∷ m) = ground (arith, cleanup_le now m)

-- What happens to the devices.
pub data Event : Type 0 where
  found : ℕ → Str → Announcement → Event
  registered : ℕ → Announcement → Event
  cleaned : ℕ → Event

abbrev pub step : Event → Map DiscoveryEntry → Map DiscoveryEntry
step (found now ip anno) m = put_discovered now ip anno m
step (registered now anno) m = register_device now anno m
step (cleaned now) m = cleanup_stale_discovered_at now m

unfoldable pub run : List Event → Map DiscoveryEntry → Map DiscoveryEntry
run [] m = m
run (e ∷ events) m = run events (step e m)

step_le :
    (e : Event) (m : Map DiscoveryEntry)
    → length m ≤ max_discovered_devices
    → length (step e m) ≤ max_discovered_devices
unfolding register_device
step_le (found now ip anno) m l = put_discovered_le now ip anno m l
step_le (registered now anno) m l =
    if_cases (λ (m' : Map DiscoveryEntry). length m' ≤ max_discovered_devices)
      (str_eq anno.info.ip []) _ _ (λ _. l) (λ _. put_discovered_le now anno.info.ip anno m l)
step_le (cleaned now) m l = omega (arith, l, cleanup_le now m)

-- From a map of at most 512 devices, no sequence of devices that are found or registered, and of
-- cleanups, in any order and at any times, leads to more than 512 devices.
pub run_le :
    (events : List Event) (m : Map DiscoveryEntry)
    → length m ≤ max_discovered_devices
    → length (run events m) ≤ max_discovered_devices
unfolding run
run_le [] m l = l
run_le (e ∷ events) m l = run_le events (step e m) (step_le e m l)
