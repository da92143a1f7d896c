-- ===== src/Rtc/Messages.antt =====
-- The handlers of webrtc/transfer/receiver.go that keep the sender's identity.

use pdf_to_epub.Errors.{max_files_per_session, max_pin_attempts}
use pdf_to_epub.Prelude.{
  ◌+◌, Bool, true, false, not, Option, none, some, List, [], ◌==◌, ltb, leb, Str, str_eq, length,
  refl, arith, if_cases,
}
use pdf_to_epub.Prelude.Map.{Map}
use pdf_to_epub.Rtc.{
  RtcFile, Decoded, RtcMessage, pin_message, file_list_message, status_message, status_ok,
  status_pin_required, status_too_many_attempts, is_some, status_pair,
}
use pdf_to_epub.Rtc.Handshake.{
  handle_pin, block_sender, refuse_pin, handle_file_list, answer_challenge, read_file_list,
  answer_files, offer_files, selected, decline, send_tokens, needs_pairing, send_list, then_state,
}
use pdf_to_epub.Rtc.Identity.{
  SameSender, trans-SameSender, send_json-SameSender, terminate-SameSender,
  prepare_files_for_receive-SameSender, check_folder_transfer-SameSender,
}
use pdf_to_epub.Rtc.Receiver.{
  HandshakeState, wait_pair_response, wait_files, pin_status_out, Env, RtcReceiver, send_json, post,
  terminate, cleanup_partial_files, mark_transfer_done,
}

module _ (env : Env) where
  refuse_pin-SameSender : (r : RtcReceiver) → SameSender r (refuse_pin env r)
  refuse_pin-SameSender r =
      let blocked = block_sender env r in
      let told = post env (pin_status_out status_too_many_attempts) blocked in
      if_cases (SameSender r) (leb max_pin_attempts r.pin_attempts) _ _
        (λ _. trans-SameSender r blocked (terminate env told) (ground arith) (
          trans-SameSender blocked told (terminate env told)
            (send_json-SameSender env (pin_status_out status_too_many_attempts) blocked)
            (terminate-SameSender env told)))
        (λ _. send_json-SameSender env (pin_status_out status_pin_required) r)

  pub handle_pin-SameSender :
      (msg : RtcMessage) (r : RtcReceiver) → SameSender r (handle_pin env msg r)
  unfolding handle_pin
  handle_pin-SameSender (pin_message p) r =
      if_cases (SameSender r) (str_eq p r.pin) _ _
        (λ _. send_json-SameSender env (pin_status_out status_ok) r)
        (λ _. refuse_pin-SameSender (record r { pin_attempts = r.pin_attempts + 1 }))
  handle_pin-SameSender _ r = (refl, refl, refl)

  send_list-SameSender :
      (status : Str) (tokens : Map Str) (key : Str) (r : RtcReceiver)
      → SameSender r (send_list env status tokens key r).0
  unfolding send_json
  send_list-SameSender status tokens key r = ground arith

  then_state-SameSender :
      (r : RtcReceiver) (s : HandshakeState) (p : RtcReceiver × Bool)
      → SameSender r p.0
      → SameSender r (then_state s p)
  then_state-SameSender r s (r', true) h = h
  then_state-SameSender r s (r', false) h = h

  pub send_tokens-SameSender :
      (r : RtcReceiver) (p : RtcReceiver × Map Str)
      → SameSender r p.0
      → SameSender r (send_tokens env p)
  send_tokens-SameSender r (r', tokens) h =
      then_state-SameSender r wait_files (send_list env status_ok tokens [] r') (
        trans-SameSender r r' (send_list env status_ok tokens [] r').0 h
          (send_list-SameSender status_ok tokens [] r'))

  decline-SameSender : (r : RtcReceiver) → SameSender r (decline env r)
  unfolding send_json
  decline-SameSender r = ground arith

  answer_files-SameSender :
      (ids : List Str) (r : RtcReceiver) → SameSender r (answer_files env ids r)
  unfolding answer_files
  answer_files-SameSender ids r =
      let r' = record r { accepted_ids = ids } in
      if_cases (SameSender r) (not (is_some r'.peer)) _ _ (λ _. (refl, refl, refl))
        (λ _.
          if_cases (SameSender r) (length ids == 0) _ _ (λ _. decline-SameSender r')
            (λ _.
              if_cases (SameSender r) (needs_pairing r) _ _
                (λ _.
                  then_state-SameSender r wait_pair_response _
                    (send_list-SameSender status_pair [] env.signing_key.public_key_pem r'))
                (λ _.
                  send_tokens-SameSender r _ (prepare_files_for_receive-SameSender env ids r'))))

  offer_files-SameSender :
      (files : List RtcFile) (r : RtcReceiver) → SameSender r (offer_files files r)
  unfolding offer_files
  offer_files-SameSender files r = check_folder_transfer-SameSender env _

  read_file_list-SameSender :
      (files : Option (List RtcFile)) (r : RtcReceiver) → SameSender r (read_file_list env files r)
  read_file_list-SameSender none r = (refl, refl, refl)
  read_file_list-SameSender (some files) r =
      if_cases (SameSender r) (ltb max_files_per_session (length files)) _ _
        (λ _. decline-SameSender r)
        (λ _.
          trans-SameSender r (offer_files files r)
            (answer_files env (selected env files) (offer_files files r))
            (offer_files-SameSender files r)
            (answer_files-SameSender (selected env files) (offer_files files r)))

  answer_challenge-SameSender : (r : RtcReceiver) → SameSender r (answer_challenge env r)
  unfolding send_json terminate cleanup_partial_files mark_transfer_done
  answer_challenge-SameSender r = ground arith

  pub handle_file_list-SameSender :
      (msg : RtcMessage) (d : Decoded) (r : RtcReceiver)
      → SameSender r (handle_file_list env msg d r)
  unfolding handle_file_list
  handle_file_list-SameSender (status_message s) d r =
      if_cases (SameSender r) (str_eq s status_pin_required) _ _
        (λ _. answer_challenge-SameSender r)
        (λ _.
          if_cases (SameSender r) (str_eq s status_too_many_attempts) _ _
            (λ _. terminate-SameSender env r)
            (λ _.
              if_cases (SameSender r) (str_eq s status_ok) _ _
                (λ _. read_file_list-SameSender d.file_list r) (λ _. (refl, refl, refl))))
  handle_file_list-SameSender file_list_message d r = read_file_list-SameSender d.file_list r
  handle_file_list-SameSender _ d r = (refl, refl, refl)
