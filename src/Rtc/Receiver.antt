-- ===== src/Rtc/Receiver.antt =====
-- The state of an RTCReceiver (webrtc/transfer/receiver.go), what it sends, and how it cleans up.
-- The four maps of a file that is being written, which the code keeps under the same keys, are one map
-- of writers; the bytes in a writer are on the disk when it is flushed. `blocked_peers` is the
-- package's map. The mutex makes each of the functions one step. The hook for tests is left out.
use pdf_to_epub.Crypto.Token.{VerifyingKey, SigningKey}
use pdf_to_epub.Disk.{Disk, Faults}
use pdf_to_epub.Errors.{pin_block_duration}
use pdf_to_epub.Prelude.{
  ℕ, suc, ◌+◌, Bool, true, false, not, Option, none, some, List, [], ◌∷◌, ◌==◌, ltb, if◌then◌else◌,
  Str,
}
use pdf_to_epub.Prelude.Int.{ℤ}
use pdf_to_epub.Prelude.Map.{Map, lookup, insert, delete}
use pdf_to_epub.Rtc.{RtcFile, Decoded}
use pdf_to_epub.TrustedDevices.{TrustedDeviceStore}
use pdf_to_epub.TrustedDevices
use pdf_to_epub.UniqueFile.{Hint}

pub data HandshakeState : Type 0 where
  wait_nonce wait_token wait_pin wait_file_list wait_pair_response : HandshakeState
  wait_files receiving_files done : HandshakeState

-- A file that is being written; `failed` is the error that a bufio.Writer keeps.
pub record Writer : Type 0 where
  pub path : Str
  pub content : Str
  pub failed : Bool
  pub hashed : Bool

-- What leaves the receiver, last first: messages, the calls of its callbacks, closed connections.
pub data Out : Type 0 where
  nonce_out error_out pin_out pin_status_out : Str → Out
  token_out : Str → Str → Out
  list_out : Str → Map Str → Str → Out
  delimiter_out : Out
  file_out : Str → Bool → Option Str → Out
  received_call : Str → ℤ → Out
  start_call done_call : Out
  close_call : ℕ → Out

-- The world at a call: the clock, the disk's faults, JSON, the crypto packages, random values by the
-- number of the draw, sends that fail by their number, and the callbacks that choose.
pub record Env : Type 0 where
  pub now : ℕ
  pub faults : Faults
  pub write_fails : Str → Str → Bool
  pub flush_fails : Str → Bool
  pub close_fails : Str → Bool
  pub json : Str → Decoded
  pub sha256 : Str → Str
  pub sha256_hex : Str → Str
  pub signing_key : SigningKey
  pub parse_public_key_pem : Str → Option VerifyingKey
  pub random : ℕ → Option Str
  pub secure_token : ℕ → Str
  pub send_fails : ℕ → Bool
  pub select_files : Option (List RtcFile → List Str)
  pub pin_provider : Option (ℕ → Str)
  pub store_env : TrustedDevices.Env

pub record RtcReceiver : Type 0 where
  pub peer : Option ℕ
  pub accepting : Bool
  pub pin : Str
  pub pin_attempts : ℕ
  pub provided_pin_attempts : ℕ
  pub save_dir : Str
  pub ext_routes : Option (Map Str)
  pub folder_remap : Option (Map Str)
  pub state : HandshakeState
  pub remote_nonce : Str
  pub local_nonce : Str
  pub final_nonce : Str
  pub sender_public_key : Option VerifyingKey
  pub require_pairing : Bool
  pub files : List RtcFile
  pub file_by_id : Map RtcFile
  pub file_tokens : Map Str
  pub accepted_ids : List Str
  pub folder_transfer_known : Bool
  pub folder_transfer : Bool
  pub current_file_id : Str
  pub writers : Map Writer
  pub current_bytes : ℕ
  pub control_buffer : Str
  pub ensured_dirs : List Str
  pub unique_files : List Hint
  pub transfer_active : Bool
  pub trusted_store : Option TrustedDeviceStore
  pub sender_alias : Str
  pub sender_public_pem : Str
  pub sender_token : Str
  pub sender_signaling_id : Str
  pub blocked_peers : Map ℕ
  pub disk : Disk
  pub sent : List Out
  pub ticks : ℕ

abbrev pub emit : Out → RtcReceiver → RtcReceiver
emit o r = record r { sent = o ∷ r.sent }

abbrev pub tick : RtcReceiver → RtcReceiver
tick r = record r { ticks = suc r.ticks }

-- `sendJSON`, `sendJSONBinary` and `sendDelimiter`: whether the send succeeds.
unfoldable pub send_json : Env → Out → RtcReceiver → RtcReceiver × Bool
send_json env o r = elim r.peer [
  | none ↦ (r, false)
  | some p ↦ if env.send_fails r.ticks then (tick r, false) else (emit o (tick r), true)
]

-- A send whose error is ignored.
abbrev pub post : Env → Out → RtcReceiver → RtcReceiver
post env o r = (send_json env o r).0

unfoldable pub mark_transfer_started : RtcReceiver → RtcReceiver
mark_transfer_started r =
    if r.transfer_active then r else emit start_call (record r { transfer_active = true })

unfoldable pub mark_transfer_done : RtcReceiver → RtcReceiver
mark_transfer_done r =
    if not r.transfer_active then r else emit done_call (record r { transfer_active = false })

-- `_ = os.Remove(path)`
unfoldable pub remove_file : Env → Str → Disk → Disk
remove_file env path disk =
    if env.faults.remove path then disk else record disk { files = delete path disk.files }

unfoldable pub remove_all : Env → Map Writer → Disk → Disk
remove_all env [] disk = disk
remove_all env ((id, w) ∷ m) disk = remove_all env m (remove_file env w.path disk)

unfoldable pub cleanup_partial_files : Env → RtcReceiver → RtcReceiver
cleanup_partial_files env r =
    let r' =
      mark_transfer_done (record r { disk = remove_all env r.writers r.disk; writers = [] }) in
    record r' { current_file_id = []; current_bytes = 0 }

-- The connection is dropped, and closed by a goroutine of its own.
abbrev pub drop_peer : RtcReceiver → RtcReceiver
drop_peer r = elim r.peer [ none ↦ r | some p ↦ emit (close_call p) (record r { peer = none }) ]

unfoldable pub terminate : Env → RtcReceiver → RtcReceiver
terminate env r = drop_peer (record (cleanup_partial_files env r) { state = done })

abbrev pub is_peer : Option ℕ → ℕ → Bool
is_peer none p = false
is_peer (some q) p = q == p

unfoldable pub handle_peer_closed : Env → ℕ → RtcReceiver → RtcReceiver
handle_peer_closed env p r =
    if not (is_peer r.peer p)
    then r
    else record (cleanup_partial_files env r) { peer = none; accepting = false; state = done }

-- `Close`
unfoldable pub close : Env → RtcReceiver → RtcReceiver
close env r = record (drop_peer (cleanup_partial_files env r)) { accepting = false; state = done }

-- The peers whose block is not over.
unfoldable pub drop_unblocked : ℕ → Map ℕ → Map ℕ
drop_unblocked now [] = []
drop_unblocked now ((id, until) ∷ m) =
    let rest = drop_unblocked now m in if ltb until now then rest else (id, until) ∷ rest

unfoldable pub is_peer_blocked : ℕ → Str → Map ℕ → Map ℕ × Bool
is_peer_blocked now id blocked =
    let blocked' = drop_unblocked now blocked in
    (blocked', elim (lookup id blocked') [ none ↦ false | some until ↦ ltb now until ])

unfoldable pub block_peer : ℕ → Str → Map ℕ → Map ℕ
block_peer now id blocked = insert id (now + pin_block_duration) blocked
