-- ===== src/Rtc/Sender/Setup.antt =====
-- The making of an RTCSender, its settings and its end in webrtc/transfer/sender.go.
use pdf_to_epub.Crypto.Nonce.{encode_nonce}
use pdf_to_epub.Crypto.Token.{VerifyingKey}
use pdf_to_epub.Disk.{Disk}
use pdf_to_epub.Prelude.Map.{Map}
use pdf_to_epub.Prelude.{
  map, ◌++◌, Bool, true, false, not, ◌&&◌, Option, none, some, [], if◌then◌else◌, Str,
}
use pdf_to_epub.Rtc.{is_some}
use pdf_to_epub.Rtc.Sender.{
  SenderState, init, wait_nonce, done, SenderError, nonce_not_generated, nonce_not_sent,
  connection_closed, nonce_sent, SenderEnv, RtcSender, tick, send_json, fail_locked,
}
use pdf_to_epub.TrustedDevices.{TrustedDeviceStore}

unfoldable pub new_rtc_sender : Str → Disk → RtcSender
new_rtc_sender pin disk = record {
  peer = none;
  pin = pin;
  pin_attempts = 0;
  required_pin_attempts = 0;
  required_pin = [];
  require_pin = false;
  state = init;
  local_nonce = [];
  remote_nonce = [];
  final_nonce = [];
  receiver_public_key = none;
  receiver_token = [];
  receiver_alias = [];
  trusted_store = none;
  files = [];
  file_tokens = [];
  accepted_ids = [];
  accepted = none;
  declined = false;
  errors = none;
  file_results = none;
  control_buffer = [];
  closed = false;
  disk = disk;
  sent = [];
  ticks = 0;
}

unfoldable pub set_receiver_public_key : VerifyingKey → RtcSender → RtcSender
set_receiver_public_key key s = record s { receiver_public_key = some key }

unfoldable pub set_required_pin : Str → RtcSender → RtcSender
set_required_pin pin s = record s { required_pin = pin; require_pin = true }

unfoldable pub set_receiver_info : Str → RtcSender → RtcSender
set_receiver_info alias s = record s { receiver_alias = alias }

unfoldable pub set_trusted_store : TrustedDeviceStore → RtcSender → RtcSender
set_trusted_store store s = record s { trusted_store = some store }

-- A send on the channel of errors that waits while the channel is full: `none` is the wait.
abbrev pub report : SenderError → RtcSender → Option RtcSender
report e s =
    if s.closed
    then some s
    else if is_some s.errors
    then none
    else some (record s { errors = some e })

abbrev pub then_wait_nonce : RtcSender × Bool → Option RtcSender
then_wait_nonce (s, true) = some (record s { state = wait_nonce })
then_wait_nonce (s, false) = report nonce_not_sent s

unfoldable pub start_nonce_exchange : SenderEnv → RtcSender → Option RtcSender
start_nonce_exchange env s = elim (env.random s.ticks) [
  | none ↦ report nonce_not_generated (tick s)
  | some nonce ↦
      then_wait_nonce
        (send_json env (nonce_sent (encode_nonce nonce)) (tick (record s { local_nonce = nonce })))
]

abbrev pub is_done : SenderState → Bool
is_done done = true
is_done _ = false

-- The callback of `Send` for a connection that is closed.
unfoldable pub on_close : RtcSender → RtcSender
on_close s = if not s.closed && not (is_done s.state) then fail_locked connection_closed s else s

-- `Close`: the channels are closed, but keep their values.
unfoldable pub close : RtcSender → RtcSender
close s = record s { closed = true }

-- What `Send` waits for once its offer was answered.
pub data Event : Type 0 where
  take_accepted take_declined take_error : Event
  peer_is_done acceptance_timed_out : Event

pub data SendResult : Type 0 where
  agreed sender_closed transfer_declined peer_closed timed_out : SendResult
  sender_failed : SenderError → SendResult

abbrev pub keep_tokens : Map Str → RtcSender → RtcSender
keep_tokens tokens s = record s {
  accepted = none;
  file_tokens = tokens;
  accepted_ids = s.accepted_ids ++ map (λ p. p.0) tokens;
}

-- An event that is not ready is `none`; a closed channel that is empty always is.
unfoldable pub await_acceptance : Event → RtcSender → Option (RtcSender × SendResult)
await_acceptance take_accepted s = elim s.accepted [
  | some tokens ↦ some (keep_tokens tokens s, agreed)
  | none ↦ if s.closed then some (s, sender_closed) else none
]
await_acceptance take_declined s =
    if s.declined
    then some (record s { declined = false }, transfer_declined)
    else if s.closed
    then some (s, sender_closed)
    else none
await_acceptance take_error s = elim s.errors [
  | some e ↦ some (record s { errors = none }, sender_failed e)
  | none ↦ if s.closed then some (s, sender_closed) else none
]
await_acceptance peer_is_done s = some (s, peer_closed)
await_acceptance acceptance_timed_out s = some (s, timed_out)
