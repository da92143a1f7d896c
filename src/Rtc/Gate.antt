-- ===== src/Rtc/Gate.antt =====
-- The states of webrtc/transfer/receiver.go before the PIN, handler by handler.

use pdf_to_epub.Disk.{Disk}
use pdf_to_epub.Prelude.{
  Bool, true, false, not, Option, none, some, [], ◌+◌, Str, str_eq, ◌≡◌, refl, ◌≢◌, inl, inr, arith,
  leb, if_cases, Option-cases,
}
use pdf_to_epub.Errors.{max_pin_attempts}
use pdf_to_epub.Rtc.{
  Decoded, status_too_many_attempts, status_invalid_signature, status_pin_required, RtcMessage,
  token_request, pin_message, parse_rtc_message,
}
use pdf_to_epub.Rtc.Frames.{handle_control, handle_text}
use pdf_to_epub.Rtc.Handshake.{
  handle_nonce, handle_token, handle_pin, recognize, is_token_accepted, answer_token, check_token,
  refuse_pin,
}
use pdf_to_epub.Rtc.Receiver.{
  HandshakeState, wait_nonce, wait_token, wait_pin, done, Out, token_out, pin_status_out, Env,
  RtcReceiver, send_json, terminate, cleanup_partial_files, remove_all, mark_transfer_done,
}

-- The states before the PIN, and the last one.
abbrev pub is_gated : HandshakeState → Bool
is_gated wait_nonce = true
is_gated wait_token = true
is_gated wait_pin = true
is_gated done = true
is_gated _ = false

-- No file is open, nothing on the disk has changed, and the PIN is still asked for.
abbrev pub Gated : Str → Disk → Str → RtcReceiver → Type 0
Gated pin disk buffer r =
    (is_gated r.state ≡ true)
    × (r.pin ≡ pin)
    × (r.disk ≡ disk)
    × (r.writers ≡ [])
    × (r.control_buffer ≡ buffer)

abbrev pub is_pin_of : Str → Option RtcMessage → Bool
is_pin_of pin (some (pin_message p)) = str_eq p pin
is_pin_of pin _ = false

module _ (env : Env) (pin : Str) (disk : Disk) (buffer : Str) where
  send_json-Gated :
      (o : Out) (r : RtcReceiver)
      → Gated pin disk buffer r
      → Gated pin disk buffer (send_json env o r).0
  unfolding send_json
  send_json-Gated o r g = ground arith

  terminate-Gated :
      (r : RtcReceiver) → Gated pin disk buffer r → Gated pin disk buffer (terminate env r)
  unfolding terminate cleanup_partial_files remove_all mark_transfer_done
  terminate-Gated r g = ground arith

  handle_nonce-Gated :
      (msg : RtcMessage) (r : RtcReceiver)
      → Gated pin disk buffer r
      → Gated pin disk buffer (handle_nonce env msg r)
  unfolding handle_nonce send_json
  handle_nonce-Gated msg r g = ground arith

  recognize-Gated :
      (token : Str) (r : RtcReceiver)
      → Gated pin disk buffer r
      → Gated pin disk buffer (recognize env token r)
  recognize-Gated token r g = ground arith

  answer_token-Gated :
      (token : Option Str) (r : RtcReceiver)
      → pin ≢ []
      → Gated pin disk buffer r
      → Gated pin disk buffer (answer_token env token r)
  answer_token-Gated none r n g = send_json-Gated _ r g
  answer_token-Gated (some token) r n g =
      if_cases (Gated pin disk buffer) (not (str_eq r.pin [])) _ _
        (λ t.
          let (_, p, d, w, b) = send_json-Gated (token_out status_pin_required token) r g in
          (refl, p, d, w, b))
        (λ f. absurd (ground (arith, f, n, g)))

  check_token-Gated :
      (token : Str) (r : RtcReceiver)
      → pin ≢ []
      → Gated pin disk buffer r
      → Gated pin disk buffer (check_token env token r)
  check_token-Gated token r n g =
      if_cases (Gated pin disk buffer) (is_token_accepted env token r) _ _
        (λ t. answer_token-Gated _ r n g)
        (λ f. terminate-Gated _ (send_json-Gated (token_out status_invalid_signature []) r g))

  handle_token-Gated :
      (msg : RtcMessage) (r : RtcReceiver)
      → pin ≢ []
      → Gated pin disk buffer r
      → Gated pin disk buffer (handle_token env msg r)
  unfolding handle_token
  handle_token-Gated (token_request token) r n g =
      check_token-Gated token _ n (recognize-Gated token (record r { sender_token = token }) g)
  handle_token-Gated _ r n g = g

  refuse_pin-Gated :
      (r : RtcReceiver) → Gated pin disk buffer r → Gated pin disk buffer (refuse_pin env r)
  refuse_pin-Gated r g =
      if_cases (Gated pin disk buffer) (leb max_pin_attempts r.pin_attempts) _ _
        (λ t. terminate-Gated _ (
          send_json-Gated (pin_status_out status_too_many_attempts) _ (
            if_cases (Gated pin disk buffer) (str_eq r.sender_signaling_id []) _ _ (λ t. g)
              (λ f. g))))
        (λ f. send_json-Gated _ r g)

  handle_pin-Gated :
      (msg : RtcMessage) (r : RtcReceiver)
      → is_pin_of pin (some msg) ≡ false
      → Gated pin disk buffer r
      → Gated pin disk buffer (handle_pin env msg r)
  unfolding handle_pin
  handle_pin-Gated (pin_message p) r n g =
      if_cases (Gated pin disk buffer) (str_eq p r.pin) _ _ (λ t. absurd (ground (arith, t, n, g)))
        (λ f. refuse_pin-Gated (record r { pin_attempts = r.pin_attempts + 1 }) g)
  handle_pin-Gated _ r n g = g

  handle_control-Gated :
      (s : HandshakeState) (msg : RtcMessage) (d : Decoded) (r : RtcReceiver)
      → is_gated s ≡ true
      → pin ≢ []
      → is_pin_of pin (some msg) ≡ false
      → Gated pin disk buffer r
      → Gated pin disk buffer (handle_control env s msg d r)
  unfolding handle_control
  handle_control-Gated wait_nonce msg d r s n w g = handle_nonce-Gated msg r g
  handle_control-Gated wait_token msg d r s n w g = handle_token-Gated msg r n g
  handle_control-Gated wait_pin msg d r s n w g = handle_pin-Gated msg r w g
  handle_control-Gated done msg d r s n w g = g
  handle_control-Gated _ msg d r s n w g = absurd (ground (arith, s))

  pub handle_text-Gated :
      (text : Str) (r : RtcReceiver)
      → pin ≢ []
      → is_pin_of pin (parse_rtc_message (env.json text)) ≡ false
      → Gated pin disk buffer r
      → (r' : RtcReceiver) × (handle_text env text r ≡ some r') × Gated pin disk buffer r'
  unfolding handle_text
  handle_text-Gated text r n w g = elim (Option-cases (parse_rtc_message (env.json text))) [
    | inl e ↦ (r, ground (arith, e, g.0), g)
    | inr (msg, e) ↦ (
      handle_control env r.state msg (env.json text) r,
      rw (handle_text, e) refl,
      handle_control-Gated r.state msg (env.json text) r g.0 n (ground (arith, w, e)) g,
    )
  ]
