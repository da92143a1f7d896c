-- ===== src/Rtc/Sender/Tokenless.antt =====
-- An answer of the receiver that has no token, in webrtc/transfer/sender.go. The answer to a PIN, an
-- RTCPinReceivingResponse, is one.
use pdf_to_epub.Prelude.{
  Bool, true, false, ◌||◌, Option, none, some, [], Str, str_eq, ◌≡◌, refl, arith,
}
use pdf_to_epub.Rtc.{status_message, status_ok, status_pin_required, parse_rtc_message, is_some}
use pdf_to_epub.Rtc.Sender.Frames.{handle_state, handle_message, handle_text}
use pdf_to_epub.Rtc.Sender.Handshake.{is_expected, handle_token_response}
use pdf_to_epub.Rtc.Sender.Trust.{verify_empty}
use pdf_to_epub.Rtc.Sender.{
  SenderState, wait_token, wait_pin, done, SenderEnv, RtcSender, fail_locked,
}
use pdf_to_epub.Crypto.Token.{VerifyingKey}

abbrev pub is_waiting : SenderState → Bool
is_waiting wait_token = true
is_waiting wait_pin = true
is_waiting _ = false

not_expected :
    (env : SenderEnv) (nonce : Str) (key : Option VerifyingKey)
    → is_some key ≡ true
    → is_expected env [] nonce key ≡ false
unfolding is_expected
not_expected env nonce none k = absurd (ground (arith, k))
not_expected env nonce (some key) k = rw (verify_empty env.sha256 key nonce) refl

tokenless_response :
    (env : SenderEnv) (status text : Str) (s : RtcSender)
    → (str_eq status status_ok || str_eq status status_pin_required) ≡ true
    → env.token_response text ≡ some (status, [])
    → is_some s.receiver_public_key ≡ true
    → (let s' = handle_token_response env (status_message status) text s in
        (s'.state ≡ done) × (s'.sent ≡ s.sent))
unfolding handle_token_response fail_locked
tokenless_response env status text s a t k =
    ground (arith, a, t, not_expected env s.final_nonce s.receiver_public_key k)

-- A sender that expects a receiver's key and gets, in answer to its token or to the PIN that it sent, a
-- message with the status OK or PIN_REQUIRED and without a token, is done and sends nothing more: no
-- list of files after the right PIN, and no second PIN after a wrong one.
pub handle_text_tokenless :
    (env : SenderEnv) (status text : Str) (s : RtcSender)
    → is_waiting s.state ≡ true
    → is_some s.receiver_public_key ≡ true
    → (str_eq status status_ok || str_eq status status_pin_required) ≡ true
    → parse_rtc_message (env.json text) ≡ some (status_message status)
    → env.token_response text ≡ some (status, [])
    → (let s' = handle_text env text s in (s'.state ≡ done) × (s'.sent ≡ s.sent))
unfolding handle_message handle_state
handle_text_tokenless env status text s w k a p t =
    ground (arith, w, p, tokenless_response env status text s a t k)
