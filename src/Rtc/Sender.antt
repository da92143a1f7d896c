-- ===== src/Rtc/Sender.antt =====
-- The state of an RTCSender (webrtc/transfer/sender.go), what it sends, and how it fails. A channel of
-- the code holds one value at most: `accepted`, `errors` and `file_results` are that value, `declined`
-- whether there is one. The mutex makes each of the functions one step. What only tests use, the
-- signaling client and the STUN servers are left out.
pub mod Setup
pub mod Handshake
pub mod Acceptance
pub mod Frames
pub mod Sending
pub mod Queue
pub mod Wire
pub mod Rounds
pub mod Whole
pub mod Gate
pub mod PinGate
pub mod Trust
pub mod Verified
pub mod Paired
pub mod Tokenless
use pdf_to_epub.Crypto.Token.{VerifyingKey, SigningKey}
use pdf_to_epub.Disk.{Disk}
use pdf_to_epub.Prelude.{
  ℕ, suc, ◌+◌, Bool, true, false, not, Option, none, some, List, [], ◌∷◌, if◌then◌else◌, Str, map,
}
use pdf_to_epub.Prelude.Int.{ℤ}
use pdf_to_epub.Prelude.Map.{Map}
use pdf_to_epub.Rtc.{Decoded, is_some, status_ok}
use pdf_to_epub.TrustedDevices.{TrustedDeviceStore}
use pdf_to_epub.TrustedDevices

pub data SenderState : Type 0 where
  init wait_nonce wait_token wait_pin wait_required_pin wait_file_accept : SenderState
  sending_files done : SenderState

-- A time is `none` where `IsZero` holds.
pub record FileMeta : Type 0 where
  pub id : Str
  pub file_name : Str
  pub file_path : Str
  pub size : ℤ
  pub file_type : Str
  pub sha256 : Str
  pub modified : Option ℕ
  pub accessed : Option ℕ

-- RTCFileDto as the sender fills it, with the two texts of its RTCFileMetadata.
pub record FileDto : Type 0 where
  pub id : Str
  pub file_name : Str
  pub size : ℤ
  pub file_type : Str
  pub sha256 : Str
  pub modified : Str
  pub accessed : Str

-- RTCSendFileResponse
pub record FileResult : Type 0 where
  pub id : Str
  pub success : Bool
  pub error : Option Str

-- RTCFileListResponse
pub record ListResponse : Type 0 where
  pub status : Str
  pub files : Map Str
  pub public_key : Str

pub data SenderError : Type 0 where
  nonce_not_generated nonce_not_sent connection_closed too_many_attempts : SenderError
  token_rejected receiver_not_verified pin_not_sent challenge_not_sent : SenderError
  pin_result_not_sent too_many_wrong_pins invalid_pair_key pair_mismatch : SenderError
  file_failed : Str → Str → SenderError

-- What leaves the sender before the files, last first.
pub data SenderOut : Type 0 where
  nonce_sent token_sent pin_sent challenge_sent : Str → SenderOut
  list_sent : Str → List FileDto → SenderOut
  pair_sent : Str → Str → SenderOut
  delimiter_sent : SenderOut

-- The world at a call, as it is for a receiver; `token_response`, `list_response` and `file_result` are
-- `json.Unmarshal` into those types, `format_time` is `Format(time.RFC3339Nano)`.
pub record SenderEnv : Type 0 where
  pub now : ℕ
  pub json : Str → Decoded
  pub token_response : Str → Option (Str × Str)
  pub list_response : Str → Option ListResponse
  pub file_result : Str → Option FileResult
  pub sha256 : Str → Str
  pub sha256_hex : Str → Str
  pub signing_key : SigningKey
  pub parse_public_key_pem : Str → Option VerifyingKey
  pub random : ℕ → Option Str
  pub send_fails : ℕ → Bool
  pub pin_provider : Option (ℕ → Str)
  pub on_pair_request : Option (Str → Str → Bool)
  pub format_time : ℕ → Str
  pub store_env : TrustedDevices.Env

pub record RtcSender : Type 0 where
  pub peer : Option ℕ
  pub pin : Str
  pub pin_attempts : ℕ
  pub required_pin_attempts : ℕ
  pub required_pin : Str
  pub require_pin : Bool
  pub state : SenderState
  pub local_nonce : Str
  pub remote_nonce : Str
  pub final_nonce : Str
  pub receiver_public_key : Option VerifyingKey
  pub receiver_token : Str
  pub receiver_alias : Str
  pub trusted_store : Option TrustedDeviceStore
  pub files : List FileMeta
  pub file_tokens : Map Str
  pub accepted_ids : List Str
  pub accepted : Option (Map Str)
  pub declined : Bool
  pub errors : Option SenderError
  pub file_results : Option FileResult
  pub control_buffer : Str
  pub closed : Bool
  pub disk : Disk
  pub sent : List SenderOut
  pub ticks : ℕ

abbrev pub tick : RtcSender → RtcSender
tick s = record s { ticks = suc s.ticks }

-- `sendJSON`, `sendJSONBinary` and `sendDelimiter`: whether the send succeeds.
unfoldable pub send_json : SenderEnv → SenderOut → RtcSender → RtcSender × Bool
send_json env o s = elim s.peer [
  | none ↦ (s, false)
  | some p ↦
      if env.send_fails s.ticks
      then (tick s, false)
      else (record (tick s) { sent = o ∷ s.sent }, true)
]

-- A send whose error is ignored.
abbrev pub post : SenderEnv → SenderOut → RtcSender → RtcSender
post env o s = (send_json env o s).0

-- The error is dropped if the channel is full.
abbrev pub offer_error : SenderError → RtcSender → RtcSender
offer_error e s = if is_some s.errors then s else record s { errors = some e }

unfoldable pub fail_locked : SenderError → RtcSender → RtcSender
fail_locked e s =
    let ended = record s { state = done } in if s.closed then ended else offer_error e ended

abbrev pub format : SenderEnv → Option ℕ → Str
format env none = []
format env (some time) = env.format_time time

abbrev pub file_dto : SenderEnv → FileMeta → FileDto
file_dto env f = record {
  id = f.id;
  file_name = f.file_name;
  size = f.size;
  file_type = f.file_type;
  sha256 = f.sha256;
  modified = format env f.modified;
  accessed = format env f.accessed;
}

unfoldable pub file_dtos : SenderEnv → RtcSender → List FileDto
file_dtos env s = map (file_dto env) s.files

-- A message and the delimiter behind it.
unfoldable pub send_with_delimiter : SenderEnv → SenderOut → RtcSender → RtcSender × Bool
send_with_delimiter env o s =
    let (s', ok) = send_json env o s in if ok then send_json env delimiter_sent s' else (s', false)

unfoldable pub send_file_list : SenderEnv → RtcSender → RtcSender
send_file_list env s =
    let (s', ok) = send_with_delimiter env (list_sent status_ok (file_dtos env s)) s in
    if ok then record s' { state = wait_file_accept } else s'
