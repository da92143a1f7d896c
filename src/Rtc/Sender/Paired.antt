-- ===== src/Rtc/Sender/Paired.antt =====
-- All the frames of a connection in webrtc/transfer/sender.go, for a sender that expects the receiver's
-- key.
use pdf_to_epub.Crypto.Token.{VerifyingKey, verify_token_nonce}
use pdf_to_epub.Prelude.{
  Bool, true, false, not, ◌&&◌, Option, none, some, List, [], ◌∷◌, ◌+◌, Str, str_eq, ◌==◌, length,
  ◌≡◌, refl, ◌≢◌, arith, if_cases, ltb, ◌++◌,
}
use pdf_to_epub.Rtc.{
  RtcMessage, file_response, status_message, status_ok, status_invalid_signature, status_declined,
  status_pair, status_pair_declined, parse_rtc_message, is_some,
}
use pdf_to_epub.Rtc.Frames.{Frame, delimiter, max_control_message_bytes}
use pdf_to_epub.Rtc.Sender.Acceptance.{
  persist_receiver, is_confirmed, then_persist, confirm_pair, refuse_pair, is_token_of, pair_known,
  pair, answer_acceptance, is_acceptance, handle_file_acceptance,
}
use pdf_to_epub.Rtc.Sender.Frames.{
  handle_result, handle_state, handle_message, handle_parsed, end_control, handle_data_message,
  handle_frames,
}
use pdf_to_epub.Rtc.Sender.Handshake.{handle_nonce_response}
use pdf_to_epub.Rtc.Sender.Trust.{
  Verified, Trusted, SameKey, is_early, is_listed, SameKey-Verified, early-Trusted, listed-Trusted,
  send_json-SameKey, fail_locked-SameKey, at_state,
}
use pdf_to_epub.Rtc.Sender.Verified.{
  handle_result-SameKey, handle_nonce_response-HasKey, handle_token_response-Trusted,
  handle_required_pin-Trusted,
}
use pdf_to_epub.Rtc.Sender.{
  SenderState, init, wait_nonce, wait_token, wait_pin, wait_required_pin, wait_file_accept,
  sending_files, done, ListResponse, SenderError, SenderOut, pair_sent, SenderEnv, RtcSender,
  send_json, post, fail_locked,
}

module _ (env : SenderEnv) where
  -- The list of files is out, and the token was verified.
  abbrev Listed : RtcSender → Type 0
  Listed s = (is_listed s.state ≡ true) × Verified env s

  SameKey-Listed :
      (s s' : RtcSender) → SameKey s s' → is_listed s'.state ≡ true → Listed s → Listed s'
  SameKey-Listed s s' same e (_, v) = (e, SameKey-Verified env s s' same v)

  send_json-Listed : (o : SenderOut) (s : RtcSender) → Listed s → Listed (send_json env o s).0
  unfolding send_json
  send_json-Listed o s l =
      SameKey-Listed s (send_json env o s).0 (send_json-SameKey env o s) (ground (arith, l.0)) l

  refuse_pair-Listed : (e : SenderError) (s : RtcSender) → Listed s → Listed (refuse_pair env e s)
  unfolding fail_locked
  refuse_pair-Listed e s l =
      let refused = post env (pair_sent status_invalid_signature []) s in
      SameKey-Listed refused (fail_locked e refused) (fail_locked-SameKey env e refused)
        (ground arith) (send_json-Listed (pair_sent status_invalid_signature []) s l)

  persist_receiver-Listed :
      (pem : Str) (key : Option VerifyingKey) (s : RtcSender)
      → Listed s
      → Listed (persist_receiver env pem key s)
  persist_receiver-Listed pem none s l = l
  persist_receiver-Listed pem (some key) s l =
      SameKey-Listed s (persist_receiver env pem (some key) s) (ground arith) (ground (arith, l.0))
        l

  then_persist-Listed :
      (pem : Str) (key : Option VerifyingKey) (p : RtcSender × Bool)
      → Listed p.0
      → Listed (then_persist env pem key p)
  then_persist-Listed pem key (s, true) l = persist_receiver-Listed pem key s l
  then_persist-Listed pem key (s, false) l = l

  confirm_pair-Listed :
      (pem : Str) (key : Option VerifyingKey) (s : RtcSender)
      → Listed s
      → Listed (confirm_pair env pem key s)
  confirm_pair-Listed pem key s (l, (e, v)) =
      if_cases Listed (not (is_confirmed env pem s)) _ _
        (λ _.
          send_json-Listed (pair_sent status_pair_declined [])
            (record s { receiver_public_key = none }) (l, (e, tt)))
        (λ _. then_persist-Listed pem key _ (send_json-Listed _ s (l, (e, v))))

  -- A token that is there is checked against the key of the pairing.
  is_token_of-Signs :
      (key : VerifyingKey) (s : RtcSender)
      → s.receiver_token ≢ []
      → not (is_token_of env key s) ≡ false
      → verify_token_nonce env.sha256 key s.receiver_token s.final_nonce ≡ none
  is_token_of-Signs key s e t = ground (arith, e, t)

  pair_known-Listed :
      (pem : Str) (o : Option VerifyingKey) (s : RtcSender)
      → Listed s
      → Listed (pair_known env pem o s)
  pair_known-Listed pem none s l = refuse_pair-Listed _ s l
  pair_known-Listed pem (some key) s (l, (e, v)) =
      if_cases Listed (not (is_token_of env key s)) _ _ (λ _. refuse_pair-Listed _ s (l, (e, v)))
        (λ t.
          confirm_pair-Listed pem (some key) (record s { receiver_public_key = some key })
            (l, (e, is_token_of-Signs key s e t)))

  pair-Listed : (pem : Str) (s : RtcSender) → Listed s → Listed (pair env pem s)
  unfolding pair
  pair-Listed pem s l =
      if_cases Listed (str_eq pem []) _ _ (λ _. confirm_pair-Listed pem none s l)
        (λ _. pair_known-Listed pem (env.parse_public_key_pem pem) s l)

  answer_acceptance-Listed :
      (o : Option ListResponse) (s : RtcSender) → Listed s → Listed (answer_acceptance env o s)
  answer_acceptance-Listed none s l = l
  answer_acceptance-Listed (some response) s (l, v) =
      if_cases Listed (str_eq response.status status_declined) _ _
        (λ _. if_cases Listed s.closed _ _ (λ _. (l, v)) (λ _. (l, v)))
        (λ _.
          if_cases Listed (str_eq response.status status_pair) _ _
            (λ _. pair-Listed response.public_key s (l, v))
            (λ _.
              if_cases Listed (str_eq response.status status_ok) _ _ (λ _. (refl, v))
                (λ _. (l, v))))

  handle_file_acceptance-Listed :
      (msg : RtcMessage) (text : Str) (s : RtcSender)
      → Listed s
      → Listed (handle_file_acceptance env msg text s)
  unfolding handle_file_acceptance
  handle_file_acceptance-Listed (status_message status) text s l =
      if_cases Listed (not (is_acceptance status)) _ _ (λ _. l)
        (λ _. answer_acceptance-Listed (env.list_response text) s l)
  handle_file_acceptance-Listed _ text s l = l

  abbrev Here : RtcSender → Type 0
  Here s = Trusted env s.state s

  Listed-Here : (s : RtcSender) → Listed s → Here s
  Listed-Here s (l, v) = listed-Trusted env s.state s l v

  handle_state-Here :
      (state : SenderState) (msg : RtcMessage) (text : Str) (s : RtcSender)
      → s.state ≡ state
      → Trusted env state s
      → Here (handle_state env state msg text s)
  unfolding handle_state
  handle_state-Here init msg text s e t = at_state env init s e t
  handle_state-Here wait_nonce msg text s e t =
      let (early, k) = handle_nonce_response-HasKey env msg s (ground (arith, e)) t in
      early-Trusted env _ (handle_nonce_response env msg s) early k
  handle_state-Here wait_token msg text s e t =
      handle_token_response-Trusted env msg text s t (at_state env wait_token s e t)
  handle_state-Here wait_pin msg text s e t =
      handle_token_response-Trusted env msg text s t.0 (at_state env wait_pin s e t)
  handle_state-Here wait_required_pin msg text s e t = handle_required_pin-Trusted env msg s t.0 t.1
  handle_state-Here wait_file_accept msg text s e t =
      Listed-Here (handle_file_acceptance env msg text s)
        (handle_file_acceptance-Listed msg text s (ground (arith, e), t))
  handle_state-Here sending_files msg text s e t = at_state env sending_files s e t
  handle_state-Here done msg text s e t = at_state env done s e t

  SameKey-Here :
      (state : SenderState) (s s' : RtcSender)
      → SameKey s s'
      → Trusted env state s
      → Trusted env state s'
  SameKey-Here init s s' same k = ground (arith, same, k)
  SameKey-Here wait_nonce s s' same k = ground (arith, same, k)
  SameKey-Here wait_token s s' same k = ground (arith, same, k)
  SameKey-Here wait_pin s s' same (k, v) =
      (ground (arith, same, k), SameKey-Verified env s s' same v)
  SameKey-Here wait_required_pin s s' same (k, v) =
      (ground (arith, same, k), SameKey-Verified env s s' same v)
  SameKey-Here wait_file_accept s s' same v = SameKey-Verified env s s' same v
  SameKey-Here sending_files s s' same v = SameKey-Verified env s s' same v
  SameKey-Here done s s' same v = tt

  handle_message-Here :
      (msg : RtcMessage) (text : Str) (s : RtcSender)
      → Here s
      → Here (handle_message env msg text s)
  unfolding handle_message
  handle_message-Here (file_response id) text s t =
      let s' = handle_result (env.file_result text) s in
      let (same, e) = handle_result-SameKey env (env.file_result text) s in
      at_state env s.state s' e (SameKey-Here s.state s s' same t)
  handle_message-Here msg text s t = handle_state-Here s.state msg text s refl t

  handle_parsed-Here :
      (o : Option RtcMessage) (text : Str) (s : RtcSender)
      → Here s
      → Here (handle_parsed env o text s)
  handle_parsed-Here none text s t = t
  handle_parsed-Here (some msg) text s t = handle_message-Here msg text s t

  cleared-Here :
      (buffer : Str) (s : RtcSender) → Here s → Here (record s { control_buffer = buffer })
  cleared-Here buffer s t =
      SameKey-Here s.state s (record s { control_buffer = buffer }) (refl, refl, refl) t

  end_control-Here : (s : RtcSender) → Here s → Here (end_control env s)
  end_control-Here s t =
      if_cases Here (length s.control_buffer == 0) _ _ (λ _. t)
        (λ _.
          handle_parsed-Here (parse_rtc_message (env.json s.control_buffer)) s.control_buffer
            (record s { control_buffer = [] }) (cleared-Here [] s t))

  handle_data_message-Here :
      (f : Frame) (s : RtcSender) → Here s → Here (handle_data_message env f s)
  unfolding handle_data_message
  handle_data_message-Here f s t =
      if_cases Here (f.is_string && str_eq f.bytes delimiter) _ _ (λ _. end_control-Here s t)
        (λ _.
          if_cases Here (not f.is_string) _ _
            (λ _.
              if_cases Here
                (ltb max_control_message_bytes (length s.control_buffer + length f.bytes)) _ _
                (λ _. cleared-Here [] s t) (λ _. cleared-Here (s.control_buffer ++ f.bytes) s t))
            (λ _. handle_parsed-Here (parse_rtc_message (env.json f.bytes)) f.bytes s t))

  handle_frames-Here :
      (frames : List Frame) (s : RtcSender) → Here s → Here (handle_frames env frames s)
  unfolding handle_frames
  handle_frames-Here [] s t = t
  handle_frames-Here (f ∷ frames) s t =
      handle_frames-Here frames (handle_data_message env f s) (handle_data_message-Here f s t)

  -- A sender that has a key to expect of the receiver and has no answer to its token yet keeps, over
  -- any frames, the invariant of its state: until then it has a key; while it waits on a PIN, it has a
  -- key that accepts the receiver's token, which is not empty, for the nonces of the connection;
  -- while it waits for the answer to its list of files, and from the yes on, the token is not empty and
  -- the key, if there still is one, accepts it for these nonces.
  pub handle_frames-Trusted :
      (frames : List Frame) (s : RtcSender)
      → is_early s.state ≡ true
      → is_some s.receiver_public_key ≡ true
      → (let s' = handle_frames env frames s in Trusted env s'.state s')
  handle_frames-Trusted frames s e k = handle_frames-Here frames s (early-Trusted env s.state s e k)
