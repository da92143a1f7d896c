-- ===== src/Rtc/Sender/Gate.antt =====
-- The states of webrtc/transfer/sender.go before a PIN that the sender requires, handler by handler.
use pdf_to_epub.Prelude.{
  Bool, true, false, not, ◌&&◌, Option, none, some, ◌+◌, Str, str_eq, any, leb, ◌≡◌, refl, arith,
  if_cases,
}
use pdf_to_epub.Errors.{max_pin_attempts}
use pdf_to_epub.Rtc.{
  RtcMessage, file_response, pin_message, status_message, status_ok, status_pin_required,
  status_too_many_attempts, status_invalid_signature,
}
use pdf_to_epub.Rtc.Gate.{is_pin_of}
use pdf_to_epub.Rtc.Sender.Frames.{handle_result, handle_state, handle_message, handle_parsed}
use pdf_to_epub.Rtc.Sender.Handshake.{
  then_or_fail, fail_unless, refuse_last, handle_nonce_response, begin_file_list_phase, is_expected,
  check_receiver, read_token, handle_token_response, refuse_pin, handle_required_pin,
}
use pdf_to_epub.Rtc.Sender.{
  SenderState, init, wait_nonce, wait_token, wait_pin, wait_required_pin, done, FileResult,
  SenderError, SenderOut, list_sent, challenge_sent, SenderEnv, RtcSender, send_json, fail_locked,
  send_with_delimiter,
}

-- The states before the list of files, and the last one.
abbrev pub is_guarded : SenderState → Bool
is_guarded init = true
is_guarded wait_nonce = true
is_guarded wait_token = true
is_guarded wait_pin = true
is_guarded wait_required_pin = true
is_guarded done = true
is_guarded _ = false

abbrev pub is_list : SenderOut → Bool
is_list (list_sent status files) = true
is_list _ = false

-- No list of files was sent, and the PIN is still required.
abbrev pub Guarded : Str → Str → RtcSender → Type 0
Guarded pin buffer s =
    (is_guarded s.state ≡ true)
    × (s.require_pin ≡ true)
    × (s.required_pin ≡ pin)
    × (any is_list s.sent ≡ false)
    × (s.control_buffer ≡ buffer)

module _ (env : SenderEnv) (pin buffer : Str) where
  send_json-Guarded :
      (o : SenderOut) (s : RtcSender)
      → is_list o ≡ false
      → Guarded pin buffer s
      → Guarded pin buffer (send_json env o s).0
  unfolding send_json
  send_json-Guarded o s l g = ground arith

  fail_locked-Guarded :
      (e : SenderError) (s : RtcSender)
      → Guarded pin buffer s
      → Guarded pin buffer (fail_locked e s)
  unfolding fail_locked
  fail_locked-Guarded e s g = ground arith

  handle_result-Guarded :
      (o : Option FileResult) (s : RtcSender)
      → Guarded pin buffer s
      → Guarded pin buffer (handle_result o s)
  handle_result-Guarded o s g = ground arith

  handle_nonce_response-Guarded :
      (msg : RtcMessage) (s : RtcSender)
      → Guarded pin buffer s
      → Guarded pin buffer (handle_nonce_response env msg s)
  unfolding handle_nonce_response send_json
  handle_nonce_response-Guarded msg s g = ground arith

  send_with_delimiter-Guarded :
      (o : SenderOut) (s : RtcSender)
      → is_list o ≡ false
      → Guarded pin buffer s
      → Guarded pin buffer (send_with_delimiter env o s).0
  unfolding send_with_delimiter send_json
  send_with_delimiter-Guarded o s l g = ground arith

  then_or_fail-Guarded :
      (state : SenderState) (e : SenderError) (p : RtcSender × Bool)
      → is_guarded state ≡ true
      → Guarded pin buffer p.0
      → Guarded pin buffer (then_or_fail state e p)
  then_or_fail-Guarded state e (s, true) h (_, r, q, l, b) = (h, r, q, l, b)
  then_or_fail-Guarded state e (s, false) h g = fail_locked-Guarded e s g

  begin_file_list_phase-Guarded :
      (s : RtcSender) → Guarded pin buffer s → Guarded pin buffer (begin_file_list_phase env s)
  unfolding begin_file_list_phase
  begin_file_list_phase-Guarded s g =
      if_cases (Guarded pin buffer) (not s.require_pin) _ _ (λ t. absurd (ground (arith, t, g)))
        (λ f.
          then_or_fail-Guarded wait_required_pin _ _ refl
            (send_with_delimiter-Guarded (challenge_sent status_pin_required) s refl g))

  check_receiver-Guarded :
      (status : Str) (s : RtcSender)
      → Guarded pin buffer s
      → Guarded pin buffer (check_receiver env status s)
  check_receiver-Guarded status s g =
      if_cases (Guarded pin buffer)
        (not (is_expected env s.receiver_token s.final_nonce s.receiver_public_key)) _ _
        (λ _. fail_locked-Guarded _ s g)
        (λ _.
          if_cases (Guarded pin buffer) (str_eq status status_pin_required) _ _
            (λ _.
              then_or_fail-Guarded wait_pin _ _ refl
                (send_json-Guarded _ (record s { pin_attempts = s.pin_attempts + 1 }) refl g))
            (λ _. begin_file_list_phase-Guarded s g))

  read_token-Guarded :
      (o : Option (Str × Str)) (s : RtcSender)
      → Guarded pin buffer s
      → Guarded pin buffer (read_token env o s)
  read_token-Guarded none s g = g
  read_token-Guarded (some (status, token)) s g =
      check_receiver-Guarded status (record s { receiver_token = token }) g

  handle_token_response-Guarded :
      (msg : RtcMessage) (text : Str) (s : RtcSender)
      → Guarded pin buffer s
      → Guarded pin buffer (handle_token_response env msg text s)
  unfolding handle_token_response
  handle_token_response-Guarded (status_message status) text s g =
      let P = Guarded pin buffer in
      if_cases P (str_eq status status_too_many_attempts) _ _ (λ _. fail_locked-Guarded _ s g)
        (λ _.
          if_cases P (str_eq status status_invalid_signature) _ _ (λ _. fail_locked-Guarded _ s g)
            (λ _.
              if_cases P (not (str_eq status status_ok) && not (str_eq status status_pin_required))
                _ _ (λ _. g) (λ _. read_token-Guarded (env.token_response text) s g)))
  handle_token_response-Guarded _ text s g = g

  fail_unless-Guarded :
      (e : SenderError) (p : RtcSender × Bool)
      → Guarded pin buffer p.0
      → Guarded pin buffer (fail_unless e p)
  fail_unless-Guarded e (s, true) g = g
  fail_unless-Guarded e (s, false) g = fail_locked-Guarded e s g

  refuse_last-Guarded :
      (p : RtcSender × Bool) → Guarded pin buffer p.0 → Guarded pin buffer (refuse_last env p)
  refuse_last-Guarded (s, true) g = fail_locked-Guarded _ s g
  refuse_last-Guarded (s, false) g = fail_locked-Guarded _ s g

  refuse_pin-Guarded :
      (s : RtcSender) → Guarded pin buffer s → Guarded pin buffer (refuse_pin env s)
  refuse_pin-Guarded s g =
      if_cases (Guarded pin buffer) (leb max_pin_attempts s.required_pin_attempts) _ _
        (λ _.
          refuse_last-Guarded _
            (send_with_delimiter-Guarded (challenge_sent status_too_many_attempts) s refl g))
        (λ _.
          fail_unless-Guarded _ _
            (send_with_delimiter-Guarded (challenge_sent status_pin_required) s refl g))

  handle_required_pin-Guarded :
      (msg : RtcMessage) (s : RtcSender)
      → is_pin_of pin (some msg) ≡ false
      → Guarded pin buffer s
      → Guarded pin buffer (handle_required_pin env msg s)
  unfolding handle_required_pin
  handle_required_pin-Guarded (pin_message p) s w g =
      if_cases (Guarded pin buffer) (str_eq p s.required_pin) _ _
        (λ t. absurd (ground (arith, t, w, g)))
        (λ f.
          refuse_pin-Guarded (record s { required_pin_attempts = s.required_pin_attempts + 1 }) g)
  handle_required_pin-Guarded _ s w g = g

  handle_state-Guarded :
      (state : SenderState) (msg : RtcMessage) (text : Str) (s : RtcSender)
      → is_guarded state ≡ true
      → is_pin_of pin (some msg) ≡ false
      → Guarded pin buffer s
      → Guarded pin buffer (handle_state env state msg text s)
  unfolding handle_state
  handle_state-Guarded wait_nonce msg text s h w g = handle_nonce_response-Guarded msg s g
  handle_state-Guarded wait_token msg text s h w g = handle_token_response-Guarded msg text s g
  handle_state-Guarded wait_pin msg text s h w g = handle_token_response-Guarded msg text s g
  handle_state-Guarded wait_required_pin msg text s h w g = handle_required_pin-Guarded msg s w g
  handle_state-Guarded init msg text s h w g = g
  handle_state-Guarded done msg text s h w g = g
  handle_state-Guarded _ msg text s h w g = absurd (ground (arith, h))

  handle_message-Guarded :
      (msg : RtcMessage) (text : Str) (s : RtcSender)
      → is_pin_of pin (some msg) ≡ false
      → Guarded pin buffer s
      → Guarded pin buffer (handle_message env msg text s)
  unfolding handle_message
  handle_message-Guarded (file_response id) text s w g =
      handle_result-Guarded (env.file_result text) s g
  handle_message-Guarded msg text s w g = handle_state-Guarded s.state msg text s g.0 w g

  pub handle_parsed-Guarded :
      (o : Option RtcMessage) (text : Str) (s : RtcSender)
      → is_pin_of pin o ≡ false
      → Guarded pin buffer s
      → Guarded pin buffer (handle_parsed env o text s)
  handle_parsed-Guarded none text s w g = g
  handle_parsed-Guarded (some msg) text s w g = handle_message-Guarded msg text s w g
