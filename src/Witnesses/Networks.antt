-- ===== src/Witnesses/Networks.antt =====
-- localsend/scan.go at three devices, and webrtc/signaling/client.go at two peers and an offer.
use pdf_to_epub.Discovery.{
  DeviceInfo, Announcement, DiscoveryChannel, DiscoveryEntry, max_discovered_devices,
}
use pdf_to_epub.Discovery.Bounds.{found, cleaned, run_le}
use pdf_to_epub.Discovery.Bounds
use pdf_to_epub.Discovery.Reached.{is_target, contains-build_subnet_targets}
use pdf_to_epub.Discovery.Targets.{ipv4, no_ipv4, build_subnet_targets}
use pdf_to_epub.FilePath.{contains}
use pdf_to_epub.Prelude.{
  ℕ, ◌≤◌, Bool, true, false, not, ◌&&◌, Option, none, some, List, [], ◌∷◌, ◌++◌, if◌then◌else◌, Str,
  codes, str_eq, length, ◌≡◌, ◌≢◌, refl, arith, All, Str-discrete,
}
use pdf_to_epub.Prelude.Int.{pos}
use pdf_to_epub.Prelude.Map.{Map, lookup, IsDistinct}
use pdf_to_epub.Signaling.Offers.{run-offers}
use pdf_to_epub.Signaling.Peers.{wait_for_hello-run_le}
use pdf_to_epub.Signaling.Steps.{Step, read, take_offer, run, start}
use pdf_to_epub.Signaling.{
  ClientInfo, WsServerMessage, SignalingClient, wait_for_hello, max_peers, subscribe_offers,
}

abbrev info : Str → DeviceInfo
info fingerprint = record {
  ip = [];
  alias = codes "Phone";
  version = codes "2.2";
  device_model = [];
  device_type = codes "mobile";
  fingerprint = fingerprint;
  token = [];
  download = false;
  has_web_interface = false;
}

abbrev anno : Str → Announcement
anno fingerprint = record {
  info = info fingerprint;
  protocol = codes "https";
  port = pos 53317;
  announce = true;
}

run_le_example :
    length (
      Bounds.run
        (found 3 (codes "10.0.0.2") (anno (codes "a"))
          ∷ cleaned 9
          ∷ found 9 (codes "::1") (anno [])
          ∷ [])
        [])
    ≤ max_discovered_devices
run_le_example =
    run_le
      (found 3 (codes "10.0.0.2") (anno (codes "a"))
        ∷ cleaned 9
        ∷ found 9 (codes "::1") (anno [])
        ∷ [])
      [] (omega arith)

abbrev channel : Str → ℕ → DiscoveryChannel
channel host seen = record {
  host = host;
  protocol = codes "https";
  port = pos 53317;
  last_seen = seen;
}

abbrev channels : Map DiscoveryChannel
channels = (codes "k", channel (codes "10.0.0.2") 3) ∷ (codes "l", channel (codes "::1") 1) ∷ []

abbrev phone : DiscoveryEntry
phone = record { anno = anno (codes "a"); channels = channels; last_seen = 3 }

abbrev devices : Map DiscoveryEntry
devices = (codes "a", phone) ∷ []

keys_named : All (λ (e : Str × DiscoveryEntry). e.0 ≢ []) devices
keys_named = (λ e. ground arith, tt)

devices-IsDistinct : IsDistinct devices
unfolding lookup
devices-IsDistinct = (refl, tt)

abbrev is_v6 : Str → Bool
is_v6 host = str_eq host (codes "::1")

contains-build_subnet_targets_example :
    contains
      (build_subnet_targets (ipv4 10 0 0 2 ∷ no_ipv4 ∷ ipv4 10 0 0 7 ∷ []))
      (codes "10.0.0.9")
    ≡ is_target (ipv4 10 0 0 2 ∷ no_ipv4 ∷ ipv4 10 0 0 7 ∷ []) (codes "10.0.0.9")
contains-build_subnet_targets_example =
    contains-build_subnet_targets (ipv4 10 0 0 2 ∷ no_ipv4 ∷ ipv4 10 0 0 7 ∷ []) (codes "10.0.0.9")

abbrev peer : Str → ClientInfo
peer id = record {
  id = id;
  alias = codes "Phone";
  version = codes "2.3";
  device_model = [];
  device_type = [];
  token = [];
}

abbrev message : Str → WsServerMessage
message type = record {
  type = type;
  client = some (peer (codes "me"));
  peers = some (peer (codes "x") ∷ []);
  peer = some (peer (codes "y"));
  peer_id = none;
  session_id = codes "s";
  sdp = [];
}

abbrev client : SignalingClient
client = record {
  client = peer (codes "me");
  peers = (codes "x", peer (codes "x")) ∷ [];
  messages = [];
  offers = [];
  offer_subscribed = false;
  to_send = [];
  done = false;
  on_answer = [];
  answered = [];
}

hello_read : wait_for_hello (message (codes "HELLO")) ≡ some client
unfolding wait_for_hello Str-discrete pdf_to_epub.Signaling.add_peers pdf_to_epub.Prelude.Map.insert
hello_read = refl

abbrev steps : List Step
steps = read (message (codes "JOIN")) ∷ read (message (codes "OFFER")) ∷ take_offer ∷ []

wait_for_hello-run_le_example : length (run steps (start client)).client.peers ≤ max_peers
wait_for_hello-run_le_example =
    wait_for_hello-run_le (message (codes "HELLO")) steps client hello_read

abbrev subscribed : SignalingClient
subscribed = record client { offer_subscribed = true }

run-offers_example :
    (let t = run steps (start subscribed) in
      t.taken ++ t.client.offers ≡ subscribed.offers ++ t.seen)
run-offers_example = run-offers steps subscribed refl refl refl
