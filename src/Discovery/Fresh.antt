-- ===== src/Discovery/Fresh.antt =====
-- What a device that is found changes in the map of koreader-plugin/internal/localsend/scan.go, and what
-- a cleanup leaves.
use pdf_to_epub.Discovery.{
  Announcement, DiscoveryChannel, DiscoveryEntry, discovery_ttl, max_discovered_devices, is_stale,
  oldest_entry, make_room, put_discovered, fingerprint_or_host, drop_stale, update_entry,
  cleanup_stale_discovered_at,
}
use pdf_to_epub.Prelude.{
  Str-discrete, ℕ, ◌-◌, ◌≤◌, Bool, not, ◌&&◌, ◌||◌, Option, none, some, [], ◌∷◌, ltb, leb, ◌==◌,
  if◌then◌else◌, Str, str_eq, length, ◌≡◌, ◌≢◌, refl, arith, All, if_cases, ◌∙◌,
}
use pdf_to_epub.Prelude.Map.{Map, lookup, has, IsDistinct, lookup-delete, lookup-insert}

-- Whether a device makes another one go.
abbrev pub is_full : Str → Map DiscoveryEntry → Bool
is_full fingerprint m = not (has fingerprint m) && leb max_discovered_devices (length m)

oldest_entry-le :
    (best : Str × ℕ) (m : Map DiscoveryEntry)
    → best.0 ≢ []
    → All (λ (e : Str × DiscoveryEntry). e.0 ≢ []) m
    → ((oldest_entry best m).1 ≤ best.1)
      × All (λ (e : Str × DiscoveryEntry). (oldest_entry best m).1 ≤ e.1.last_seen) m
unfolding oldest_entry
oldest_entry-le best [] n v = (omega arith, tt)
oldest_entry-le best ((k, e) ∷ m) n v =
    if_cases
      (λ (b : Str × ℕ).
        let r = oldest_entry b m in
        (r.1 ≤ best.1)
        × ((r.1 ≤ e.last_seen) × All (λ (x : Str × DiscoveryEntry). r.1 ≤ x.1.last_seen) m))
      (str_eq best.0 [] || ltb e.last_seen best.1) (k, e.last_seen) best
      (λ t.
        let (h, all) = oldest_entry-le (k, e.last_seen) m v.0 v.1 in
        (ground (arith, h, t, n), (h, all)))
      (λ t. let (h, all) = oldest_entry-le best m n v.1 in (h, (ground (arith, h, t, n), all)))

lookup-make_room :
    (fingerprint other : Str) (m : Map DiscoveryEntry)
    → lookup other (make_room fingerprint m) ≡ (
        if is_full fingerprint m && str_eq (oldest_entry ([], 0) m).0 other
        then none
        else lookup other m)
unfolding make_room
lookup-make_room fingerprint other m =
    ground (arith, lookup-delete (oldest_entry ([], 0) m).0 other m)

lookup-make_room_self :
    (fingerprint : Str) (m : Map DiscoveryEntry)
    → lookup fingerprint (make_room fingerprint m) ≡ lookup fingerprint m
lookup-make_room_self fingerprint m = ground (arith, lookup-make_room fingerprint fingerprint m)

-- In a map whose keys are not empty, the loop finds a time that no device was seen before.
least_seen :
    (m : Map DiscoveryEntry)
    → All (λ (e : Str × DiscoveryEntry). e.0 ≢ []) m
    → All (λ (e : Str × DiscoveryEntry). (oldest_entry ([], 0) m).1 ≤ e.1.last_seen) m
unfolding oldest_entry Str-discrete
least_seen [] v = tt
least_seen ((k, e) ∷ m) v = oldest_entry-le (k, e.last_seen) m v.0 v.1

-- A device that is found has, under its fingerprint, the entry with the new channel, and the other
-- channels of its earlier entry, those on other hosts; another device stays as it was, but where the
-- device is new and there are 512 already, the one that the loop for the least time finds goes, and
-- this time is no later than the one at which any device was seen, if no key is empty.
lookup-put_discovered :
    (now : ℕ) (ip other : Str) (anno : Announcement) (m : Map DiscoveryEntry)
    → All (λ (e : Str × DiscoveryEntry). e.0 ≢ []) m
    → (let fingerprint = fingerprint_or_host ip anno in
        let oldest = oldest_entry ([], 0) m in
        (lookup other (put_discovered now ip anno m) ≡ (
          if str_eq fingerprint other
          then some (update_entry now ip anno (lookup fingerprint m))
          else if is_full fingerprint m && str_eq oldest.0 other
          then none
          else lookup other m))
        × All (λ (e : Str × DiscoveryEntry). oldest.1 ≤ e.1.last_seen) m)
unfolding put_discovered
lookup-put_discovered now ip other anno m v =
    let f = fingerprint_or_host ip anno in
    let room = make_room f m in
    (
      lookup-insert f other (update_entry now ip anno (lookup f room)) room
          ∙ rw (lookup-make_room_self f m, lookup-make_room f other m) refl,
      least_seen m v,
    )

-- What a cleanup leaves of an entry.
abbrev pub cleaned_entry : ℕ → DiscoveryEntry → Option DiscoveryEntry
cleaned_entry now entry =
    if length (drop_stale now entry.channels) == 0 || is_stale now entry.last_seen
    then none
    else some (record entry { channels = drop_stale now entry.channels })

abbrev pub cleaned_known : ℕ → Option DiscoveryEntry → Option DiscoveryEntry
cleaned_known now none = none
cleaned_known now (some entry) = cleaned_entry now entry

lookup-cleanup_none :
    (now : ℕ) (k : Str) (m : Map DiscoveryEntry)
    → lookup k m ≡ none
    → lookup k (cleanup_stale_discovered_at now m) ≡ none
unfolding cleanup_stale_discovered_at lookup
lookup-cleanup_none now k [] h = refl
lookup-cleanup_none now k ((j, e) ∷ m) h = ground (arith, h, lookup-cleanup_none now k m)

lookup-cleanup :
    (now : ℕ) (k : Str) (m : Map DiscoveryEntry)
    → IsDistinct m
    → lookup k (cleanup_stale_discovered_at now m) ≡ cleaned_known now (lookup k m)
unfolding cleanup_stale_discovered_at lookup
lookup-cleanup now k [] d = refl
lookup-cleanup now k ((j, e) ∷ m) d =
    ground (arith, lookup-cleanup_none now k m, lookup-cleanup now k m d.1)

-- A channel that was seen within the time to live.
abbrev pub IsSeen : ℕ → Str × DiscoveryChannel → Type 0
IsSeen now c = now - c.1.last_seen ≤ discovery_ttl

drop_stale-IsSeen : (now : ℕ) (m : Map DiscoveryChannel) → All (IsSeen now) (drop_stale now m)
unfolding drop_stale
drop_stale-IsSeen now [] = tt
drop_stale-IsSeen now ((k, c) ∷ m) =
    if_cases (All (IsSeen now)) (is_stale now c.last_seen) _ _ (λ _. drop_stale-IsSeen now m)
      (λ f. (ground (arith, f), drop_stale-IsSeen now m))

-- After a cleanup of a map in which each key stands once, a device is there with the channels that were
-- seen within five minutes before, if there are such and the device itself was seen within that time,
-- and is gone otherwise; all channels that the cleanup leaves of an entry were seen within that time.
lookup-cleanup_stale_discovered_at :
    (now : ℕ) (fingerprint : Str) (m : Map DiscoveryEntry)
    → IsDistinct m
    → (lookup fingerprint (cleanup_stale_discovered_at now m)
        ≡ cleaned_known now (lookup fingerprint m))
      × ((entry : DiscoveryEntry) → All (IsSeen now) (drop_stale now entry.channels))
lookup-cleanup_stale_discovered_at now fingerprint m d =
    (lookup-cleanup now fingerprint m d, λ entry. drop_stale-IsSeen now entry.channels)
