-- ===== src/Rtc/Connection.antt =====
-- All the frames of a connection in webrtc/transfer/receiver.go.
use pdf_to_epub.Prelude.{
  Bool, not, ◌&&◌, Option, none, some, List, [], ◌∷◌, ◌==◌, Str, str_eq, length, ◌≡◌, refl, ◌≢◌,
  inl, inr, arith, if_cases, All,
}
use pdf_to_epub.Rtc.{Decoded, RtcMessage, token_request, parse_rtc_message}
use pdf_to_epub.Rtc.Bytes.{handle_binary_data, finish_current_file}
use pdf_to_epub.Rtc.Frames.{
  Frame, delimiter, Offer, Setup, accepted, handle_control, handle_text, handle_transfer,
  handle_data_message, handle_frames, end_control, buffer_control, handle_unparsed, is_receiving,
  is_waiting_files, next_header, accept_offer,
}
use pdf_to_epub.Rtc.Identity.{
  SameSender, trans-SameSender, terminate-SameSender, start_receiving_file-SameSender,
  handle_binary_data-SameSender, finish_current_file-SameSender,
}
use pdf_to_epub.Rtc.PinGate.{accept_offer-opened}
use pdf_to_epub.Rtc.Proven.{Proven, Checked-SameSender, handle_control-Proven, late}
use pdf_to_epub.Rtc.Receiver.{done, Env, RtcReceiver, drop_peer}

parse_rtc_message-token :
    (d : Decoded) (token : Str) → parse_rtc_message d ≡ some (token_request token) → token ≢ []
unfolding parse_rtc_message
parse_rtc_message-token d token h = ground arith

-- A frame that does not make the code panic, and what it leaves.
abbrev Goes : Env → Option RtcReceiver → Type 0
Goes env o = (r : RtcReceiver) × (o ≡ some r) × Proven env r

module _ (env : Env) where
  next_header-SameSender :
      (h : Option (Str × Str)) (r : RtcReceiver) → SameSender r (next_header env h r)
  next_header-SameSender none r = terminate-SameSender env r
  next_header-SameSender (some (id, token)) r =
      if_cases (SameSender r) (str_eq id []) _ _ (λ _. terminate-SameSender env r)
        (λ _. start_receiving_file-SameSender env id token r)

  drop_peer-SameSender : (r : RtcReceiver) → SameSender r (drop_peer r)
  drop_peer-SameSender r = ground arith

  handle_transfer-SameSender :
      (f : Frame) (r : RtcReceiver) → SameSender r (handle_transfer env f r)
  unfolding handle_transfer
  handle_transfer-SameSender f r =
      let finished = finish_current_file env r in
      let h = (env.json f.bytes).header in
      let ended = record finished { state = done } in
      if_cases (SameSender r) (not f.is_string) _ _
        (λ _. handle_binary_data-SameSender env f.bytes r)
        (λ _.
          if_cases (SameSender r) (str_eq f.bytes delimiter) _ _
            (λ _.
              trans-SameSender r ended (drop_peer ended) (finish_current_file-SameSender env r)
                (drop_peer-SameSender ended))
            (λ _.
              trans-SameSender r finished (next_header env h finished)
                (finish_current_file-SameSender env r) (next_header-SameSender h finished)))

  handle_unparsed-Goes :
      (text : Str) (r : RtcReceiver)
      → text ≢ []
      → Proven env r
      → Goes env (handle_unparsed env text r)
  handle_unparsed-Goes [] r n p = absurd (n refl)
  handle_unparsed-Goes (c ∷ s) r n p =
      if_cases (Goes env) (is_waiting_files r.state) _ _
        (λ w. (
          _,
          refl,
          if_cases (Proven env) (c == b'{') _ _ (λ _. p)
              (λ _. inr (
                Checked-SameSender env r (handle_binary_data env (c ∷ s) r)
                  (handle_binary_data-SameSender env (c ∷ s) r)
                  (late env r (ground (arith, w)) p))),
        ))
        (λ _. (r, refl, p))

  parsed-Goes :
      (text : Str) (r : RtcReceiver) (o : Option RtcMessage)
      → parse_rtc_message (env.json text) ≡ o
      → text ≢ []
      → Proven env r
      → Goes env (elim o [
        | none ↦ handle_unparsed env text r
        | some msg ↦ some (handle_control env r.state msg (env.json text) r)
      ])
  parsed-Goes text r none e n p = handle_unparsed-Goes text r n p
  parsed-Goes text r (some msg) e n p = (
    handle_control env r.state msg (env.json text) r,
    refl,
    handle_control-Proven env r.state msg (env.json text) r refl
        (λ token t. parse_rtc_message-token (env.json text) token (ground (arith, e, t))) p,
  )

  handle_text-Goes :
      (text : Str) (r : RtcReceiver) → text ≢ [] → Proven env r → Goes env (handle_text env text r)
  unfolding handle_text
  handle_text-Goes text r = parsed-Goes text r (parse_rtc_message (env.json text)) refl

  end_control-Goes : (r : RtcReceiver) → Proven env r → Goes env (end_control env r)
  end_control-Goes r p =
      if_cases (Goes env) (length r.control_buffer == 0) _ _ (λ _. (r, refl, p))
        (λ z.
          handle_text-Goes r.control_buffer (record r { control_buffer = [] }) (ground (arith, z))
            p)

  handle_data_message-Goes :
      (f : Frame) (r : RtcReceiver)
      → f.bytes ≢ []
      → Proven env r
      → Goes env (handle_data_message env f r)
  unfolding handle_data_message
  handle_data_message-Goes f r n p =
      if_cases (Goes env) (is_receiving r.state && not (str_eq r.current_file_id [])) _ _
        (λ t. (
          handle_transfer env f r,
          refl,
          inr (
              Checked-SameSender env r (handle_transfer env f r) (handle_transfer-SameSender f r)
                (late env r (ground (arith, t)) p)),
        ))
        (λ _.
          if_cases (Goes env) (not f.is_string) _ _
            (λ _. (buffer_control f.bytes r, refl, ground (arith, p)))
            (λ _.
              if_cases (Goes env) (str_eq f.bytes delimiter) _ _ (λ _. end_control-Goes r p)
                (λ _. handle_text-Goes f.bytes r n p)))

  handle_frames-Goes :
      (frames : List Frame) (r : RtcReceiver)
      → All (λ (f : Frame). f.bytes ≢ []) frames
      → Proven env r
      → Goes env (handle_frames env frames r)
  unfolding handle_frames
  handle_frames-Goes [] r n p = (r, refl, p)
  handle_frames-Goes (f ∷ frames) r n p =
      let (r', e, p') = handle_data_message-Goes f r n.0 p in
      rw (handle_frames, e) (handle_frames-Goes frames r' n.1 p')

-- After an offer that was accepted, frames that are not empty do not make the code panic; and after
-- them, unless the connection waits for a nonce or a token or is done, the sender's token is not
-- empty, and the sender's key, if it is known, has accepted it for the nonce of the connection.
pub handle_frames-Proven :
    (env : Env) (offer : Offer) (setup : Setup) (answer_fails : Bool) (frames : List Frame)
    (r opened : RtcReceiver)
    → accept_offer env offer setup answer_fails r ≡ (opened, accepted)
    → All (λ (f : Frame). f.bytes ≢ []) frames
    → (r' : RtcReceiver) × (handle_frames env frames opened ≡ some r') × Proven env r'
handle_frames-Proven env offer setup answer_fails frames r opened a n =
    handle_frames-Goes env frames opened n
      (inl (ground (arith, accept_offer-opened env offer setup answer_fails r opened a)))
