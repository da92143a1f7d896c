-- ===== src/Rtc/Proven.antt =====
-- The sender's key in webrtc/transfer/receiver.go, from the token on.
use mathlib.Core.Path.{subst}
use pdf_to_epub.Crypto.Token.{VerifyingKey, verify_token_nonce}
use pdf_to_epub.Prelude.{
  Bool, true, false, not, Option, none, some, [], Str, str_eq, ◌≡◌, refl, ◌≢◌, ◌⊎◌, inl, inr, arith,
  if_cases,
}
use pdf_to_epub.Rtc.{
  Decoded, RtcMessage, token_request, file_header, pair_response, status_message, status_ok,
  status_invalid_signature, status_pin_required, status_pair_declined,
}
use pdf_to_epub.Rtc.Files.{prepare_files_for_receive}
use pdf_to_epub.Rtc.Handshake.{
  handle_nonce, handle_token, check_token, answer_token, recognize, is_token_accepted,
  is_accepted_by, handle_pin, handle_file_list,
}
use pdf_to_epub.Rtc.Identity.{
  SameSender, send_json-SameSender, terminate-SameSender, prepare_files_for_receive-SameSender,
  start_receiving_file-SameSender,
}
use pdf_to_epub.Rtc.Pairing.{
  handle_pair_response, answer_pair, pair, accept_files_after_pair, persist, is_token_of,
  is_pair_status, handle_file_header,
}
use pdf_to_epub.Rtc.Messages.{
  handle_pin-SameSender, send_tokens-SameSender, handle_file_list-SameSender,
}
use pdf_to_epub.Rtc.Frames.{handle_control}
use pdf_to_epub.Rtc.Receiver.{
  HandshakeState, wait_nonce, wait_token, wait_pin, wait_file_list, wait_pair_response, wait_files,
  receiving_files, done, Out, token_out, Env, RtcReceiver, send_json, post, terminate,
}

-- The states before a token is accepted, and the last one.
abbrev pub is_early : HandshakeState → Bool
is_early wait_nonce = true
is_early wait_token = true
is_early done = true
is_early _ = false

-- A key that is known accepts the token for the nonce.
abbrev pub Accepts : Env → Str → Str → Option VerifyingKey → Type 0
Accepts env token nonce none = Unit
Accepts env token nonce (some key) = verify_token_nonce env.sha256 key token nonce ≡ none

-- There is a token, and the sender's key, if it is known, accepts it for the nonce of the connection.
abbrev pub Checked : Env → RtcReceiver → Type 0
Checked env r = (r.sender_token ≢ []) × Accepts env r.sender_token r.final_nonce r.sender_public_key

abbrev pub Proven : Env → RtcReceiver → Type 0
Proven env r = (is_early r.state ≡ true) ⊎ Checked env r

module _ (env : Env) where
  pub Checked-SameSender : (r r' : RtcReceiver) → SameSender r r' → Checked env r → Checked env r'
  Checked-SameSender r r' (k, t, n) (e, v) = (ground (arith, t, e), rw (k, t, n) v)

  -- A state that is not early has its token.
  pub late : (r : RtcReceiver) → is_early r.state ≡ false → Proven env r → Checked env r
  late r s (inl e) = absurd (ground (arith, s, e))
  late r s (inr c) = c

  handle_nonce-early :
      (msg : RtcMessage) (r : RtcReceiver)
      → is_early r.state ≡ true
      → is_early (handle_nonce env msg r).state ≡ true
  unfolding handle_nonce send_json
  handle_nonce-early msg r e = ground arith

  terminate-done : (r : RtcReceiver) → (terminate env r).state ≡ done
  unfolding terminate
  terminate-done r = ground arith

  send_json-state : (o : Out) (r : RtcReceiver) → (send_json env o r).0.state ≡ r.state
  unfolding send_json
  send_json-state o r = ground arith

  accepted_key-Accepts :
      (token nonce : Str) (o : Option VerifyingKey)
      → is_accepted_by env token nonce o ≡ true
      → Accepts env token nonce o
  accepted_key-Accepts token nonce none t = tt
  accepted_key-Accepts token nonce (some key) t = ground (arith, t)

  is_token_accepted-Checked :
      (r : RtcReceiver)
      → r.sender_token ≢ []
      → is_token_accepted env r.sender_token r ≡ true
      → Checked env r
  unfolding is_token_accepted
  is_token_accepted-Checked r e t =
      (e, accepted_key-Accepts r.sender_token r.final_nonce r.sender_public_key t)

  answer_token-Proven :
      (token : Option Str) (r : RtcReceiver)
      → is_early r.state ≡ true
      → Checked env r
      → Proven env (answer_token env token r)
  answer_token-Proven none r s c = inl (rw (send_json-state _ r) s)
  answer_token-Proven (some token) r s c =
      if_cases (Proven env) (not (str_eq r.pin [])) _ _
        (λ _. inr (
          Checked-SameSender r (post env (token_out status_pin_required token) r)
            (send_json-SameSender env (token_out status_pin_required token) r) c))
        (λ _. inr (
          Checked-SameSender r (post env (token_out status_ok token) r)
            (send_json-SameSender env (token_out status_ok token) r) c))

  check_token-Proven :
      (r : RtcReceiver)
      → is_early r.state ≡ true
      → r.sender_token ≢ []
      → Proven env (check_token env r.sender_token r)
  check_token-Proven r s e =
      if_cases (Proven env) (is_token_accepted env r.sender_token r) _ _
        (λ t. answer_token-Proven _ r s (is_token_accepted-Checked r e t))
        (λ _. inl (rw (terminate-done (post env (token_out status_invalid_signature []) r)) refl))

  recognize-keeps :
      (token : Str) (r : RtcReceiver)
      → ((recognize env token r).state ≡ r.state)
        × ((recognize env token r).sender_token ≡ r.sender_token)
  recognize-keeps token r = ground arith

  handle_token-Proven :
      (msg : RtcMessage) (r : RtcReceiver)
      → ((token : Str) → msg ≡ token_request token → token ≢ [])
      → is_early r.state ≡ true
      → Proven env (handle_token env msg r)
  unfolding handle_token
  handle_token-Proven (token_request token) r e s =
      let (s', t) = recognize-keeps token (record r { sender_token = token }) in
      let r' = recognize env token (record r { sender_token = token }) in
      subst (λ t'. Proven env (check_token env t' r')) t
        (check_token-Proven r' (rw s' s) (rw t (e token refl)))
  handle_token-Proven _ r e s = inl s

  persist-SameSender : (pem : Str) (r : RtcReceiver) → SameSender r (persist env pem r)
  persist-SameSender pem r = ground arith

  accept_files_after_pair-SameSender :
      (r : RtcReceiver) → SameSender r (accept_files_after_pair env r)
  accept_files_after_pair-SameSender r =
      send_tokens-SameSender env r (prepare_files_for_receive env r.accepted_ids r)
        (prepare_files_for_receive-SameSender env r.accepted_ids r)

  accept_files_after_pair-Checked :
      (r : RtcReceiver) → Checked env r → Checked env (accept_files_after_pair env r)
  accept_files_after_pair-Checked r =
      Checked-SameSender r (accept_files_after_pair env r) (accept_files_after_pair-SameSender r)

  paired-Checked :
      (key : VerifyingKey) (pem : Str) (r : RtcReceiver)
      → r.sender_token ≢ []
      → is_token_of env key r ≡ true
      → Checked env (record r { sender_public_key = some key; sender_public_pem = pem })
  paired-Checked key pem r e t = (e, ground (arith, e, t))

  pair-Checked :
      (key : VerifyingKey) (pem : Str) (r : RtcReceiver)
      → Checked env r
      → Checked env (pair env key pem r)
  pair-Checked key pem r c =
      let paired = record r { sender_public_key = some key; sender_public_pem = pem } in
      if_cases (Checked env) (is_token_of env key r) _ _
        (λ t. accept_files_after_pair-Checked (persist env pem paired) (
          Checked-SameSender paired (persist env pem paired) (persist-SameSender pem paired)
            (paired-Checked key pem r c.0 t)))
        (λ _. c)

  accept_key-Checked :
      (o : Option VerifyingKey) (pem : Str) (r : RtcReceiver)
      → Checked env r
      → Checked env (elim o [ none ↦ r | some key ↦ pair env key pem r ])
  accept_key-Checked none pem r c = c
  accept_key-Checked (some key) pem r c = pair-Checked key pem r c

  answer_pair-Checked :
      (d : Option (Str × Str)) (r : RtcReceiver) → Checked env r → Checked env (answer_pair env d r)
  answer_pair-Checked none r c = c
  answer_pair-Checked (some (status, pem)) r c =
      if_cases (Checked env) (str_eq status status_ok) _ _
        (λ _.
          if_cases (Checked env) (str_eq pem []) _ _ (λ _. accept_files_after_pair-Checked r c)
            (λ _. accept_key-Checked (env.parse_public_key_pem pem) pem r c))
        (λ _.
          if_cases (Checked env) (str_eq status status_pair_declined) _ _
            (λ _.
              if_cases (Checked env) r.require_pairing _ _
                (λ _. Checked-SameSender r (terminate env r) (terminate-SameSender env r) c)
                (λ _. accept_files_after_pair-Checked r c))
            (λ _. c))

  handle_pair_response-Checked :
      (msg : RtcMessage) (d : Decoded) (r : RtcReceiver)
      → Checked env r
      → Checked env (handle_pair_response env msg d r)
  unfolding handle_pair_response
  handle_pair_response-Checked pair_response d r c = answer_pair-Checked d.pair r c
  handle_pair_response-Checked (status_message s) d r c =
      if_cases (Checked env) (is_pair_status s) _ _ (λ _. answer_pair-Checked d.pair r c) (λ _. c)
  handle_pair_response-Checked _ d r c = c

  handle_file_header-SameSender :
      (msg : RtcMessage) (r : RtcReceiver) → SameSender r (handle_file_header env msg r)
  unfolding handle_file_header
  handle_file_header-SameSender (file_header id token) r =
      start_receiving_file-SameSender env id token r
  handle_file_header-SameSender _ r = (refl, refl, refl)

  -- The handler of each state.
  pub handle_control-Proven :
      (s : HandshakeState) (msg : RtcMessage) (d : Decoded) (r : RtcReceiver)
      → s ≡ r.state
      → ((token : Str) → msg ≡ token_request token → token ≢ [])
      → Proven env r
      → Proven env (handle_control env s msg d r)
  unfolding handle_control
  handle_control-Proven wait_nonce msg d r s t p =
      inl (handle_nonce-early msg r (ground (arith, s)))
  handle_control-Proven wait_token msg d r s t p = handle_token-Proven msg r t (ground (arith, s))
  handle_control-Proven wait_pin msg d r s t p = inr (
      Checked-SameSender r (handle_pin env msg r) (handle_pin-SameSender env msg r)
        (late r (ground (arith, s)) p))
  handle_control-Proven wait_file_list msg d r s t p = inr (
      Checked-SameSender r (handle_file_list env msg d r) (handle_file_list-SameSender env msg d r)
        (late r (ground (arith, s)) p))
  handle_control-Proven wait_pair_response msg d r s t p =
      inr (handle_pair_response-Checked msg d r (late r (ground (arith, s)) p))
  handle_control-Proven wait_files msg d r s t p = inr (
      Checked-SameSender r (handle_file_header env msg r) (handle_file_header-SameSender msg r)
        (late r (ground (arith, s)) p))
  handle_control-Proven receiving_files msg d r s t p = p
  handle_control-Proven done msg d r s t p = p
