-- ===== src/Discovery.antt =====
-- koreader-plugin/internal/localsend/scan.go: the devices that discovery keeps, and the addresses of a
-- address of IPv6 in a host, are arguments. The mutex makes each of the functions one step.
pub mod Bounds
pub mod Fresh
pub mod Channels
pub mod Targets
pub mod Reached
use pdf_to_epub.FilePath.{contains}
use pdf_to_epub.Prelude.{
  ℕ, zero, suc, ◌+◌, ◌-◌, ◌*◌, Bool, true, false, not, ◌&&◌, ◌||◌, Option, none, some, List, [],
  ◌∷◌, ◌++◌, ◌==◌, ltb, leb, if◌then◌else◌, Str, codes, str_eq, length,
}
use pdf_to_epub.Prelude.Int.{ℤ, pos, negsuc}
use pdf_to_epub.Prelude.Map.{Map, lookup, insert, delete, has}
use pdf_to_epub.UniqueFile.Decimal.{decimal}

pub record DeviceInfo : Type 0 where
  pub ip : Str
  pub alias : Str
  pub version : Str
  pub device_model : Str
  pub device_type : Str
  pub fingerprint : Str
  pub token : Str
  pub download : Bool
  pub has_web_interface : Bool

pub record Announcement : Type 0 where
  pub info : DeviceInfo
  pub protocol : Str
  pub port : ℤ
  pub announce : Bool

pub record DiscoveryChannel : Type 0 where
  pub host : Str
  pub protocol : Str
  pub port : ℤ
  pub last_seen : ℕ

pub record DiscoveryEntry : Type 0 where
  pub anno : Announcement
  pub channels : Map DiscoveryChannel
  pub last_seen : ℕ

-- discoveryTTL
abbrev pub discovery_ttl : ℕ
discovery_ttl = 5 * 60 * 1_000_000_000

abbrev pub max_discovered_devices : ℕ
max_discovered_devices = 512

abbrev pub valid_device_types : List Str
valid_device_types =
    codes "mobile" ∷ codes "desktop" ∷ codes "web" ∷ codes "headless" ∷ codes "server" ∷ []

unfoldable pub normalize_device_type : Str → Str
normalize_device_type t = if contains valid_device_types t then t else codes "desktop"

-- `strconv.Itoa`
abbrev pub itoa : ℤ → Str
itoa (pos n) = decimal n
itoa (negsuc n) = b'-' ∷ decimal (n + 1)

unfoldable pub discovery_channel_key : Str → Str → ℤ → Str
discovery_channel_key host protocol port = host ++ (b'|' ∷ protocol ++ (b'|' ∷ itoa port))

-- `now.Sub(seen) > discoveryTTL`
abbrev pub is_stale : ℕ → ℕ → Bool
is_stale now seen = ltb discovery_ttl (now - seen)

unfoldable pub drop_stale : ℕ → Map DiscoveryChannel → Map DiscoveryChannel
drop_stale now [] = []
drop_stale now ((key, channel) ∷ m) =
    let rest = drop_stale now m in
    if is_stale now channel.last_seen then rest else (key, channel) ∷ rest

unfoldable pub cleanup_stale_discovered_at : ℕ → Map DiscoveryEntry → Map DiscoveryEntry
cleanup_stale_discovered_at now [] = []
cleanup_stale_discovered_at now ((fingerprint, entry) ∷ m) =
    let rest = cleanup_stale_discovered_at now m in
    let channels = drop_stale now entry.channels in
    if length channels == 0 || is_stale now entry.last_seen
    then rest
    else (fingerprint, record entry { channels = channels }) ∷ rest

-- The loop for the entry that was not seen for the longest time.
unfoldable pub oldest_entry : Str × ℕ → Map DiscoveryEntry → Str × ℕ
oldest_entry best [] = best
oldest_entry best ((candidate, entry) ∷ m) =
    oldest_entry
      (if str_eq best.0 [] || ltb entry.last_seen best.1
        then (candidate, entry.last_seen)
        else best)
      m

unfoldable pub make_room : Str → Map DiscoveryEntry → Map DiscoveryEntry
make_room fingerprint m =
    if not (has fingerprint m) && leb max_discovered_devices (length m)
    then delete (oldest_entry ([], 0) m).0 m
    else m

-- The channels of other hosts.
unfoldable pub drop_host : Str → Map DiscoveryChannel → Map DiscoveryChannel
drop_host ip [] = []
drop_host ip ((key, channel) ∷ m) =
    let rest = drop_host ip m in if str_eq channel.host ip then rest else (key, channel) ∷ rest

abbrev pub normalize : Announcement → Announcement
normalize anno = record anno {
  info = record anno.info { device_type = normalize_device_type anno.info.device_type };
}

-- The channels of an entry, if there is one.
abbrev pub known_channels : Option DiscoveryEntry → Map DiscoveryChannel
known_channels none = []
known_channels (some entry) = entry.channels

abbrev pub new_channel : ℕ → Str → Announcement → DiscoveryChannel
new_channel now ip anno = record {
  host = ip;
  protocol = anno.protocol;
  port = anno.port;
  last_seen = now;
}

abbrev pub fingerprint_or_host : Str → Announcement → Str
fingerprint_or_host ip anno =
    if str_eq anno.info.fingerprint [] then codes "host:" ++ ip else anno.info.fingerprint

abbrev pub update_entry : ℕ → Str → Announcement → Option DiscoveryEntry → DiscoveryEntry
update_entry now ip anno known = record {
  anno = normalize anno;
  channels =
      insert (discovery_channel_key ip anno.protocol anno.port) (new_channel now ip anno)
        (drop_host ip (known_channels known));
  last_seen = now;
}

unfoldable pub put_discovered : ℕ → Str → Announcement → Map DiscoveryEntry → Map DiscoveryEntry
put_discovered now ip anno m =
    let fingerprint = fingerprint_or_host ip anno in
    let room = make_room fingerprint m in
    insert fingerprint (update_entry now ip anno (lookup fingerprint room)) room

unfoldable pub register_device : ℕ → Announcement → Map DiscoveryEntry → Map DiscoveryEntry
register_device now anno m =
    if str_eq anno.info.ip [] then m else put_discovered now anno.info.ip anno m

-- `<` on Go strings.
unfoldable pub str_lt : Str → Str → Bool
str_lt s [] = false
str_lt [] (d ∷ t) = true
str_lt (c ∷ s) (d ∷ t) = ltb c d || (c == d && str_lt s t)

-- The choice between a channel and the best one so far.
abbrev pub better : (Str → Bool) → DiscoveryChannel → DiscoveryChannel → DiscoveryChannel
better is_v6 best channel =
    if is_v6 channel.host && not (is_v6 best.host)
    then channel
    else if not (is_v6 channel.host) && is_v6 best.host
    then best
    else if ltb best.last_seen channel.last_seen
        || (channel.last_seen == best.last_seen && str_lt channel.host best.host)
    then channel
    else best

unfoldable pub best_of : (Str → Bool) → DiscoveryChannel → Map DiscoveryChannel → DiscoveryChannel
best_of is_v6 best [] = best
best_of is_v6 best ((key, channel) ∷ m) = best_of is_v6 (better is_v6 best channel) m

unfoldable pub best_discovery_channel :
    (Str → Bool) → Map DiscoveryChannel → Option DiscoveryChannel
best_discovery_channel is_v6 [] = none
best_discovery_channel is_v6 ((key, channel) ∷ m) = some (best_of is_v6 channel m)

-- The loop over the entries, with the map by host so far.
abbrev pub add_best : Announcement → Option DiscoveryChannel → Map Announcement → Map Announcement
add_best anno none result = result
add_best anno (some channel) result =
    insert channel.host (record anno { protocol = channel.protocol; port = channel.port }) result

unfoldable pub get_all_loop :
    (Str → Bool) → Map DiscoveryEntry → Map Announcement → Map Announcement
get_all_loop is_v6 [] result = result
get_all_loop is_v6 ((fingerprint, entry) ∷ m) result =
    get_all_loop is_v6 m (add_best entry.anno (best_discovery_channel is_v6 entry.channels) result)

unfoldable pub get_all_discovered : (Str → Bool) → Map DiscoveryEntry → Map Announcement
get_all_discovered is_v6 m = get_all_loop is_v6 m []
