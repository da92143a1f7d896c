-- ===== src/Rtc/Sender/Handshake.antt =====
-- The handlers of webrtc/transfer/sender.go up to the list of files. The type of a message is the one
-- that ParseRTCMessage gives, and `text` is what the code parses again.
use pdf_to_epub.Crypto.Nonce.{decode_nonce, combine_nonces}
use pdf_to_epub.Crypto.Token.{VerifyingKey, generate_token, verify_token_nonce}
use pdf_to_epub.Errors.{max_pin_attempts}
use pdf_to_epub.Prelude.{
  ◌+◌, Bool, true, false, not, ◌&&◌, Option, none, some, leb, if◌then◌else◌, Str, str_eq,
}
use pdf_to_epub.Rtc.{
  RtcMessage, nonce_message, pin_message, status_message, status_ok, status_pin_required,
  status_too_many_attempts, status_invalid_signature, is_some,
}
use pdf_to_epub.Rtc.Sender.{
  SenderState, wait_token, wait_pin, wait_required_pin, SenderError, too_many_attempts,
  token_rejected, receiver_not_verified, pin_not_sent, challenge_not_sent, pin_result_not_sent,
  too_many_wrong_pins, token_sent, pin_sent, challenge_sent, SenderEnv, RtcSender, send_json,
  fail_locked, send_with_delimiter, send_file_list,
}

-- The state after a send that succeeds.
abbrev pub then_state : SenderState → RtcSender × Bool → RtcSender
then_state state (s, true) = record s { state = state }
then_state state (s, false) = s

-- The state after a send whose failure ends the sender.
abbrev pub then_or_fail : SenderState → SenderError → RtcSender × Bool → RtcSender
then_or_fail state e (s, true) = record s { state = state }
then_or_fail state e (s, false) = fail_locked e s

abbrev pub send_token : SenderEnv → Option Str → RtcSender → RtcSender
send_token env none s = s
send_token env (some token) s = then_state wait_token (send_json env (token_sent token) s)

abbrev pub combine : Str → RtcSender → RtcSender
combine remote s = record s {
  remote_nonce = remote;
  final_nonce = combine_nonces s.local_nonce remote;
}

unfoldable pub handle_nonce_response : SenderEnv → RtcMessage → RtcSender → RtcSender
handle_nonce_response env (nonce_message encoded) s = elim (decode_nonce encoded) [
  | none ↦ s
  | some remote ↦
      let s' = combine remote s in
      send_token env (generate_token env.sha256 env.signing_key s'.final_nonce) s'
]
handle_nonce_response env _ s = s

unfoldable pub begin_file_list_phase : SenderEnv → RtcSender → RtcSender
begin_file_list_phase env s =
    if not s.require_pin
    then send_file_list env s
    else then_or_fail wait_required_pin challenge_not_sent
        (send_with_delimiter env (challenge_sent status_pin_required) s)

abbrev pub provided_pin : SenderEnv → RtcSender → Str
provided_pin env s = elim env.pin_provider [
  | none ↦ s.pin
  | some provider ↦ provider s.pin_attempts
]

-- The receiver asks for its PIN.
abbrev pub answer_pin : SenderEnv → RtcSender → RtcSender
answer_pin env s =
    then_or_fail wait_pin pin_not_sent (send_json env (pin_sent (provided_pin env s)) s)

-- Whether the token is one of the expected key, if there is one.
unfoldable pub is_expected : SenderEnv → Str → Str → Option VerifyingKey → Bool
is_expected env token nonce none = true
is_expected env token nonce (some key) =
    not (is_some (verify_token_nonce env.sha256 key token nonce))

-- The answer to a token, which is stored. While the PIN provider runs, the code has released its
-- lock; the handlers here are for runs in which no other step comes between.
abbrev pub check_receiver : SenderEnv → Str → RtcSender → RtcSender
check_receiver env status s =
    if not (is_expected env s.receiver_token s.final_nonce s.receiver_public_key)
    then fail_locked receiver_not_verified s
    else if str_eq status status_pin_required
    then answer_pin env (record s { pin_attempts = s.pin_attempts + 1 })
    else begin_file_list_phase env s

abbrev pub read_token : SenderEnv → Option (Str × Str) → RtcSender → RtcSender
read_token env none s = s
read_token env (some (status, token)) s =
    check_receiver env status (record s { receiver_token = token })

unfoldable pub handle_token_response : SenderEnv → RtcMessage → Str → RtcSender → RtcSender
handle_token_response env (status_message status) text s =
    if str_eq status status_too_many_attempts
    then fail_locked too_many_attempts s
    else if str_eq status status_invalid_signature
    then fail_locked token_rejected s
    else if not (str_eq status status_ok) && not (str_eq status status_pin_required)
    then s
    else read_token env (env.token_response text) s
handle_token_response env _ text s = s

-- A wrong PIN, with its number counted.
abbrev pub fail_unless : SenderError → RtcSender × Bool → RtcSender
fail_unless e (s, true) = s
fail_unless e (s, false) = fail_locked e s

abbrev pub refuse_last : SenderEnv → RtcSender × Bool → RtcSender
refuse_last env (s, true) = fail_locked too_many_wrong_pins s
refuse_last env (s, false) = fail_locked pin_result_not_sent s

abbrev pub refuse_pin : SenderEnv → RtcSender → RtcSender
refuse_pin env s =
    if leb max_pin_attempts s.required_pin_attempts
    then refuse_last env (send_with_delimiter env (challenge_sent status_too_many_attempts) s)
    else fail_unless pin_result_not_sent
        (send_with_delimiter env (challenge_sent status_pin_required) s)

unfoldable pub handle_required_pin : SenderEnv → RtcMessage → RtcSender → RtcSender
handle_required_pin env (pin_message pin) s =
    if str_eq pin s.required_pin
    then send_file_list env s
    else refuse_pin env (record s { required_pin_attempts = s.required_pin_attempts + 1 })
handle_required_pin env _ s = s
