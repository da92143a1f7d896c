-- ===== src/Rtc.antt =====
-- koreader-plugin/internal/webrtc/transfer: the messages of rtc_protocol.go and status.go. JSON is a
-- function that says what each of the code's `json.Unmarshal` calls on a text gives.
pub mod Receiver
pub mod Setup
pub mod Files
pub mod Bytes
pub mod Handshake
pub mod Pairing
pub mod Frames
pub mod Gate
pub mod PinGate
pub mod Lockout
pub mod Writing
pub mod Opening
pub mod Received
pub mod Identity
pub mod Messages
pub mod Proven
pub mod Connection
pub mod Chunks
pub mod Sender
pub mod Transfer
pub mod Delivery
use pdf_to_epub.Prelude.{
  ℕ, Bool, true, false, not, ◌&&◌, ◌||◌, Option, none, some, List, [], if◌then◌else◌, Str, codes,
  str_eq,
}
use pdf_to_epub.Prelude.Int.{ℤ}

-- RTCFileDto
pub record RtcFile : Type 0 where
  pub id : Str
  pub file_name : Str
  pub size : ℤ
  pub sha256 : Str

-- A text as a JSON object: its status if that is a string, whether it has the fields, its PIN.
pub record Generic : Type 0 where
  pub status : Option Str
  pub has_files : Bool
  pub has_public_key : Bool
  pub pin : Option Str

-- A text as each of the message types, `none` where `json.Unmarshal` fails. A field that is missing
-- is empty.
pub record Decoded : Type 0 where
  pub nonce : Option Str
  pub header : Option (Str × Str)
  pub generic : Option Generic
  pub file_list : Option (List RtcFile)
  pub pair : Option (Str × Str)
  pub token : Option Str
  pub file_response : Option Str

-- What ParseRTCMessage finds; `status_message s` is the type "status_" + s.
pub data RtcMessage : Type 0 where
  nonce_message token_request pin_message file_response : Str → RtcMessage
  file_header : Str → Str → RtcMessage
  file_list_message pair_response : RtcMessage
  status_message : Str → RtcMessage

abbrev pub status_ok : Str
status_ok = codes "OK"

abbrev pub status_pin_required : Str
status_pin_required = codes "PIN_REQUIRED"

abbrev pub status_too_many_attempts : Str
status_too_many_attempts = codes "TOO_MANY_ATTEMPTS"

abbrev pub status_invalid_signature : Str
status_invalid_signature = codes "INVALID_SIGNATURE"

abbrev pub status_declined : Str
status_declined = codes "DECLINED"

abbrev pub status_pair : Str
status_pair = codes "PAIR"

abbrev pub status_pair_declined : Str
status_pair_declined = codes "PAIR_DECLINED"

abbrev pub is_some {ℓ} : {A : Type ℓ} → Option A → Bool
is_some none = false
is_some (some _) = true

-- The checks after the status: a request for a token, a PIN, an answer to a file.
abbrev pub parse_answer : Decoded → Option Str → Option RtcMessage
parse_answer d (some pin) = some (pin_message pin)
parse_answer d none = elim d.file_response [
  | none ↦ none
  | some id ↦ if str_eq id [] then none else some (file_response id)
]

abbrev pub parse_token : Decoded → Option Str → Option RtcMessage
parse_token d pin = elim d.token [
  | none ↦ parse_answer d pin
  | some t ↦ if str_eq t [] then parse_answer d pin else some (token_request t)
]

abbrev pub parse_status : Decoded → Option RtcMessage
parse_status d = elim d.generic [
  | none ↦ parse_token d none
  | some g ↦ elim g.status [
    | none ↦ parse_token d g.pin
    | some s ↦
        if g.has_files && is_some d.file_list
        then some file_list_message
        else if g.has_public_key && not (str_eq s status_pair) && not g.has_files && is_some d.pair
        then some pair_response
        else some (status_message s)
  ]
]

abbrev pub parse_header : Decoded → Option RtcMessage
parse_header d = elim d.header [
  | none ↦ parse_status d
  | some (id, token) ↦
      if not (str_eq id []) && not (str_eq token [])
      then some (file_header id token)
      else parse_status d
]

unfoldable pub parse_rtc_message : Decoded → Option RtcMessage
parse_rtc_message d = elim d.nonce [
  | none ↦ parse_header d
  | some nonce ↦ if str_eq nonce [] then parse_header d else some (nonce_message nonce)
]
