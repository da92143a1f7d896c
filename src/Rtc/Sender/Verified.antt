-- ===== src/Rtc/Sender/Verified.antt =====
-- The handlers of webrtc/transfer/sender.go for a sender that expects the receiver's key.

use pdf_to_epub.Prelude.{
  if◌then◌else◌, Bool, true, false, not, ◌&&◌, Option, none, some, ◌+◌, Str, str_eq, leb, ◌≡◌, refl,
  arith, if_cases,
}
use pdf_to_epub.Errors.{max_pin_attempts}
use pdf_to_epub.Rtc.{
  RtcMessage, pin_message, status_message, status_ok, status_pin_required, status_too_many_attempts,
  status_invalid_signature,
}
use pdf_to_epub.Rtc.Sender.Frames.{handle_result}
use pdf_to_epub.Rtc.Sender.Handshake.{
  then_or_fail, fail_unless, refuse_last, handle_nonce_response, begin_file_list_phase, answer_pin,
  is_expected, check_receiver, read_token, handle_token_response, refuse_pin, handle_required_pin,
}
use pdf_to_epub.Rtc.Sender.Trust.{
  HasKey, Verified, Trusted, SameKey, is_early, SameKey-Trusted, expected-Verified,
  send_json-SameKey, fail_locked-SameKey, fail_locked-Trusted,
}
use pdf_to_epub.Rtc.Sender.{
  SenderState, wait_pin, wait_required_pin, FileResult, SenderError, SenderOut, challenge_sent,
  list_sent, file_dtos, SenderEnv, RtcSender, send_json, send_with_delimiter, send_file_list,
}

module _ (env : SenderEnv) where
  pub handle_result-SameKey :
      (o : Option FileResult) (s : RtcSender)
      → SameKey s (handle_result o s) × ((handle_result o s).state ≡ s.state)
  handle_result-SameKey o s = ground arith

  pub handle_nonce_response-HasKey :
      (msg : RtcMessage) (s : RtcSender)
      → is_early s.state ≡ true
      → HasKey s
      → (let s' = handle_nonce_response env msg s in (is_early s'.state ≡ true) × HasKey s')
  unfolding handle_nonce_response send_json
  handle_nonce_response-HasKey msg s e k = ground arith

  send_with_delimiter-SameKey :
      (o : SenderOut) (s : RtcSender) → SameKey s (send_with_delimiter env o s).0
  unfolding send_with_delimiter send_json
  send_with_delimiter-SameKey o s = ground arith

  send_file_list-SameKey : (s : RtcSender) → SameKey s (send_file_list env s)
  unfolding send_file_list
  send_file_list-SameKey s =
      ground (arith, send_with_delimiter-SameKey (list_sent status_ok (file_dtos env s)) s)

  then_or_fail-SameKey :
      (state : SenderState) (e : SenderError) (s : RtcSender) (p : RtcSender × Bool)
      → SameKey s p.0
      → SameKey s (then_or_fail state e p)
  then_or_fail-SameKey state e s (s', true) same = same
  then_or_fail-SameKey state e s (s', false) same =
      ground (arith, same, fail_locked-SameKey env e s')

  begin_file_list_phase-SameKey : (s : RtcSender) → SameKey s (begin_file_list_phase env s)
  unfolding begin_file_list_phase
  begin_file_list_phase-SameKey s =
      if_cases (SameKey s) (not s.require_pin) _ _ (λ _. send_file_list-SameKey s)
        (λ _.
          then_or_fail-SameKey wait_required_pin _ s _
            (send_with_delimiter-SameKey (challenge_sent status_pin_required) s))

  -- The two ways on from a token that was verified.
  accepted-SameKey :
      (status : Str) (s : RtcSender)
      → SameKey s (
          if str_eq status status_pin_required
          then answer_pin env (record s { pin_attempts = s.pin_attempts + 1 })
          else begin_file_list_phase env s)
  accepted-SameKey status s =
      if_cases (SameKey s) (str_eq status status_pin_required) _ _
        (λ _.
          then_or_fail-SameKey wait_pin _ s _
            (send_json-SameKey env _ (record s { pin_attempts = s.pin_attempts + 1 })))
        (λ _. begin_file_list_phase-SameKey s)

  check_receiver-Trusted :
      (status : Str) (s : RtcSender)
      → HasKey s
      → (let s' = check_receiver env status s in Trusted env s'.state s')
  check_receiver-Trusted status s k =
      if_cases (λ (s' : RtcSender). Trusted env s'.state s')
        (not (is_expected env s.receiver_token s.final_nonce s.receiver_public_key)) _ _
        (λ _. fail_locked-Trusted env _ s)
        (λ f.
          SameKey-Trusted env s _ k
            (expected-Verified env s.receiver_public_key s.receiver_token s.final_nonce
              (ground (arith, f)) k)
            (accepted-SameKey status s))

  read_token-Trusted :
      (o : Option (Str × Str)) (s : RtcSender)
      → HasKey s
      → Trusted env s.state s
      → (let s' = read_token env o s in Trusted env s'.state s')
  read_token-Trusted none s k t = t
  read_token-Trusted (some (status, token)) s k t =
      check_receiver-Trusted status (record s { receiver_token = token }) k

  pub handle_token_response-Trusted :
      (msg : RtcMessage) (text : Str) (s : RtcSender)
      → HasKey s
      → Trusted env s.state s
      → (let s' = handle_token_response env msg text s in Trusted env s'.state s')
  unfolding handle_token_response
  handle_token_response-Trusted (status_message status) text s k t =
      let P : RtcSender → Type 0 = λ s'. Trusted env s'.state s' in
      if_cases P (str_eq status status_too_many_attempts) _ _ (λ _. fail_locked-Trusted env _ s)
        (λ _.
          if_cases P (str_eq status status_invalid_signature) _ _ (λ _. fail_locked-Trusted env _ s)
            (λ _.
              if_cases P (not (str_eq status status_ok) && not (str_eq status status_pin_required))
                _ _ (λ _. t) (λ _. read_token-Trusted (env.token_response text) s k t)))
  handle_token_response-Trusted _ text s k t = t

  fail_unless-SameKey :
      (e : SenderError) (s : RtcSender) (p : RtcSender × Bool)
      → SameKey s p.0
      → SameKey s (fail_unless e p)
  fail_unless-SameKey e s (s', true) same = same
  fail_unless-SameKey e s (s', false) same = ground (arith, same, fail_locked-SameKey env e s')

  refuse_last-Trusted :
      (p : RtcSender × Bool) → (let s' = refuse_last env p in Trusted env s'.state s')
  refuse_last-Trusted (s, true) = fail_locked-Trusted env _ s
  refuse_last-Trusted (s, false) = fail_locked-Trusted env _ s

  refuse_pin-Trusted :
      (s : RtcSender)
      → HasKey s
      → Verified env s
      → (let s' = refuse_pin env s in Trusted env s'.state s')
  refuse_pin-Trusted s k v =
      if_cases (λ (s' : RtcSender). Trusted env s'.state s')
        (leb max_pin_attempts s.required_pin_attempts) _ _
        (λ _.
          refuse_last-Trusted (send_with_delimiter env (challenge_sent status_too_many_attempts) s))
        (λ _. SameKey-Trusted env s _ k v (
          fail_unless-SameKey _ s _
            (send_with_delimiter-SameKey (challenge_sent status_pin_required) s)))

  pub handle_required_pin-Trusted :
      (msg : RtcMessage) (s : RtcSender)
      → HasKey s
      → Verified env s
      → (let s' = handle_required_pin env msg s in Trusted env s'.state s')
  unfolding handle_required_pin
  handle_required_pin-Trusted (pin_message p) s k v =
      if_cases (λ (s' : RtcSender). Trusted env s'.state s') (str_eq p s.required_pin) _ _
        (λ _. SameKey-Trusted env s _ k v (send_file_list-SameKey s))
        (λ _.
          refuse_pin-Trusted (record s { required_pin_attempts = s.required_pin_attempts + 1 }) k v)
  handle_required_pin-Trusted _ s k v = SameKey-Trusted env s s k v (refl, refl, refl)
