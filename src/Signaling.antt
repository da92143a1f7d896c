-- ===== src/Signaling.antt =====
-- koreader-plugin/internal/webrtc/signaling/client.go and messages.go: what a client of the signaling
-- server keeps, and the messages that it reads. A UUID is a text, a time a number of nanoseconds. The
-- channels are queues, first in first out; what is waited for on a full one is `none`.
pub mod Steps
pub mod Peers
pub mod Offers
use pdf_to_epub.Prelude.{
  ℕ, ◌+◌, ◌-◌, ◌*◌, Bool, true, false, not, ◌&&◌, Option, none, some, List, [], ◌∷◌, ◌++◌, ltb, leb,
  if◌then◌else◌, Str, codes, str_eq, length, take, map,
}
use pdf_to_epub.Prelude.Map.{Map, lookup, insert, delete, has}

pub record ClientInfo : Type 0 where
  pub id : Str
  pub alias : Str
  pub version : Str
  pub device_model : Str
  pub device_type : Str
  pub token : Str

-- The code of an ERROR is left out.
pub record WsServerMessage : Type 0 where
  pub type : Str
  pub client : Option ClientInfo
  pub peers : Option (List ClientInfo)
  pub peer : Option ClientInfo
  pub peer_id : Option Str
  pub session_id : Str
  pub sdp : Str

pub record WsClientMessage : Type 0 where
  pub type : Str
  pub session_id : Str
  pub target : Str
  pub sdp : Str

-- MaxPeers
abbrev pub max_peers : ℕ
max_peers = 500

-- answerCallbackTTL
abbrev pub answer_callback_ttl : ℕ
answer_callback_ttl = 60 * 1_000_000_000

-- The sizes of the channels.
abbrev pub message_capacity : ℕ
message_capacity = 16

abbrev pub offer_capacity : ℕ
offer_capacity = 32

abbrev pub send_capacity : ℕ
send_capacity = 16

-- `on_answer` says when each callback was registered, `answered` which ones were called and with what,
-- last first.
pub record SignalingClient : Type 0 where
  pub client : ClientInfo
  pub peers : Map ClientInfo
  pub messages : List WsServerMessage
  pub offers : List WsServerMessage
  pub offer_subscribed : Bool
  pub to_send : List WsClientMessage
  pub done : Bool
  pub on_answer : Map ℕ
  pub answered : List (Str × WsServerMessage)

-- The first message, `waitForHello`: the client, or an error.
unfoldable pub add_peers : List ClientInfo → Map ClientInfo → Map ClientInfo
add_peers [] m = m
add_peers (peer ∷ peers) m = add_peers peers (insert peer.id peer m)

abbrev pub hello_peers : Option (List ClientInfo) → Map ClientInfo
hello_peers none = []
hello_peers (some peers) =
    add_peers (if ltb max_peers (length peers) then take max_peers peers else peers) []

abbrev pub new_client : WsServerMessage → ClientInfo → SignalingClient
new_client msg client = record {
  client = client;
  peers = hello_peers msg.peers;
  messages = [];
  offers = [];
  offer_subscribed = false;
  to_send = [];
  done = false;
  on_answer = [];
  answered = [];
}

unfoldable pub wait_for_hello : WsServerMessage → Option SignalingClient
wait_for_hello msg =
    if not (str_eq msg.type (codes "HELLO"))
    then none
    else elim msg.client [ none ↦ none | some client ↦ some (new_client msg client) ]

abbrev pub join : Option ClientInfo → Map ClientInfo → Map ClientInfo
join none m = m
join (some peer) m = if leb max_peers (length m) then m else insert peer.id peer m

abbrev pub update : Option ClientInfo → Map ClientInfo → Map ClientInfo
update none m = m
update (some peer) m = if has peer.id m then insert peer.id peer m else m

abbrev pub leave : Option Str → Map ClientInfo → Map ClientInfo
leave none m = m
leave (some id) m = delete id m

unfoldable pub handle_peer_update : WsServerMessage → Map ClientInfo → Map ClientInfo
handle_peer_update msg m =
    if str_eq msg.type (codes "JOIN")
    then join msg.peer m
    else if str_eq msg.type (codes "UPDATE")
    then update msg.peer m
    else if str_eq msg.type (codes "LEFT")
    then leave msg.peer_id m
    else m

-- A message that is not waited for.
abbrev pub push_message : WsServerMessage → SignalingClient → SignalingClient
push_message msg c =
    if leb message_capacity (length c.messages)
    then c
    else record c { messages = c.messages ++ (msg ∷ []) }

-- An offer: for a client that subscribed to offers the loop waits for a place, until the client is done.
abbrev pub push_offer : WsServerMessage → SignalingClient → Option SignalingClient
push_offer msg c =
    if not (leb offer_capacity (length c.offers))
    then some (record c { offers = c.offers ++ (msg ∷ []) })
    else if c.offer_subscribed && not c.done
    then none
    else some c

abbrev pub is_type : Str → WsServerMessage → Bool
is_type t msg = str_eq msg.type t

abbrev pub deliver : WsServerMessage → SignalingClient → Option SignalingClient
deliver msg c = if is_type (codes "OFFER") msg then push_offer msg c else some (push_message msg c)

-- An answer for which there is a callback goes to the callback, once.
abbrev pub call_answer : WsServerMessage → SignalingClient → Option SignalingClient
call_answer msg c =
    if is_type (codes "ANSWER") msg
      && not (str_eq msg.session_id [])
      && has msg.session_id c.on_answer
    then some (record c {
      on_answer = delete msg.session_id c.on_answer;
      answered = (msg.session_id, msg) ∷ c.answered;
    })
    else deliver msg c

-- One round of `readLoop`.
unfoldable pub read_message : WsServerMessage → SignalingClient → Option SignalingClient
read_message msg c = call_answer msg (record c { peers = handle_peer_update msg c.peers })

unfoldable pub read_loop : List WsServerMessage → SignalingClient → Option SignalingClient
read_loop [] c = some c
read_loop (msg ∷ msgs) c = elim (read_message msg c) [ none ↦ none | some c' ↦ read_loop msgs c' ]

-- One round of `answerCallbackCleanupLoop`.
unfoldable pub drop_stale_callbacks : ℕ → Map ℕ → Map ℕ
drop_stale_callbacks now [] = []
drop_stale_callbacks now ((id, created_at) ∷ m) =
    let rest = drop_stale_callbacks now m in
    if ltb answer_callback_ttl (now - created_at) then rest else (id, created_at) ∷ rest

-- `OnAnswer`, `Offers` and `Close`.
unfoldable pub on_answer : ℕ → Str → SignalingClient → SignalingClient
on_answer now session_id c = record c { on_answer = insert session_id now c.on_answer }

unfoldable pub subscribe_offers : SignalingClient → SignalingClient
subscribe_offers c = record c { offer_subscribed = true }

unfoldable pub close : SignalingClient → SignalingClient
close c = if c.done then c else record c { done = true; on_answer = [] }

unfoldable pub get_peers : SignalingClient → List ClientInfo
get_peers c = map (λ p. p.1) c.peers

unfoldable pub get_peer : Str → SignalingClient → Option ClientInfo
get_peer id c = lookup id c.peers

-- `enqueue`: an error for a client that is done, otherwise a wait for a place.
pub data Enqueued : Type 0 where
  queued : SignalingClient → Enqueued
  connection_closed waits : Enqueued

unfoldable pub enqueue : WsClientMessage → SignalingClient → Enqueued
enqueue msg c =
    if c.done
    then connection_closed
    else if leb send_capacity (length c.to_send)
    then waits
    else queued (record c { to_send = c.to_send ++ (msg ∷ []) })

-- `SendOffer` and `SendAnswer` behind `CompressSDP`.
unfoldable pub send_offer : Str → Str → Str → SignalingClient → Enqueued
send_offer session_id target sdp c =
    enqueue (record { type = codes "OFFER"; session_id = session_id; target = target; sdp = sdp }) c

unfoldable pub send_answer : Str → Str → Str → SignalingClient → Enqueued
send_answer session_id target sdp c =
    enqueue (record { type = codes "ANSWER"; session_id = session_id; target = target; sdp = sdp })
      c
