-- ===== src/Rtc/Sender/PinGate.antt =====
-- The PIN that a sender requires before the list of files: webrtc/transfer/sender.go, `handleDataMessage`.
use mathlib.Core.Path.{subst}
use pdf_to_epub.Prelude.{
  true, false, not, ◌&&◌, none, some, List, [], ◌∷◌, ◌==◌, if◌then◌else◌, Str, str_eq, any, length,
  ◌≡◌, refl, arith, if_cases,
}
use pdf_to_epub.Rtc.{parse_rtc_message}
use pdf_to_epub.Rtc.Frames.{Frame, delimiter}
use pdf_to_epub.Rtc.PinGate.{
  next_buffer, text_of, cons_some, texts_of, gives_pin, gives_pin-cons_some,
}
use pdf_to_epub.Rtc.Sender.Frames.{
  handle_text, end_control, buffer_control, handle_data_message, handle_frames,
}
use pdf_to_epub.Rtc.Sender.Gate.{is_guarded, is_list, Guarded, handle_parsed-Guarded}
use pdf_to_epub.Rtc.Sender.{SenderEnv, RtcSender}

module _ (env : SenderEnv) (pin : Str) where
  handle_text-Guarded :
      (buffer text : Str) (s : RtcSender)
      → gives_pin env.json pin (text ∷ []) ≡ false
      → Guarded pin buffer s
      → Guarded pin buffer (handle_text env text s)
  unfolding gives_pin
  handle_text-Guarded buffer text s w g =
      handle_parsed-Guarded env pin buffer (parse_rtc_message (env.json text)) text s
        (ground (arith, w)) g

  buffer_control-Guarded :
      (f : Frame) (s : RtcSender)
      → f.is_string ≡ false
      → Guarded pin s.control_buffer s
      → Guarded pin (next_buffer s.control_buffer f) (buffer_control f.bytes s)
  buffer_control-Guarded f s e g = ground arith

  end_control-Guarded :
      (s : RtcSender)
      → gives_pin env.json pin
          (cons_some (if length s.control_buffer == 0 then none else some s.control_buffer) [])
        ≡ false
      → Guarded pin s.control_buffer s
      → Guarded pin [] (end_control env s)
  end_control-Guarded s w g =
      if_cases (Guarded pin []) (length s.control_buffer == 0) _ _ (λ z. ground (arith, z))
        (λ z.
          let (h, r, q, l, b) = g in
          handle_text-Guarded [] s.control_buffer (record s { control_buffer = [] })
            (ground (arith, w, z)) (h, r, q, l, refl))

  -- One frame whose text, if it ends one, is not the PIN.
  handle_data_message-Guarded :
      (f : Frame) (s : RtcSender)
      → gives_pin env.json pin (cons_some (text_of s.control_buffer f) []) ≡ false
      → Guarded pin s.control_buffer s
      → Guarded pin (next_buffer s.control_buffer f) (handle_data_message env f s)
  unfolding handle_data_message
  handle_data_message-Guarded f s w g =
      let P : RtcSender → Type 0 = Guarded pin (next_buffer s.control_buffer f) in
      if_cases P (f.is_string && str_eq f.bytes delimiter) _ _
        (λ e.
          subst (λ b. Guarded pin b (end_control env s)) (ground (arith, e))
            (end_control-Guarded s (ground (arith, w, e)) g))
        (λ e.
          if_cases P (not f.is_string) _ _ (λ t. buffer_control-Guarded f s (ground (arith, t)) g)
            (λ t.
              subst (λ b. Guarded pin b (handle_text env f.bytes s)) (ground (arith, e, t))
                (handle_text-Guarded s.control_buffer f.bytes s (ground (arith, w, e, t)) g)))

  handle_frames-Guarded :
      (frames : List Frame) (s : RtcSender)
      → gives_pin env.json pin (texts_of s.control_buffer frames) ≡ false
      → Guarded pin s.control_buffer s
      → (let s' = handle_frames env frames s in Guarded pin s'.control_buffer s')
  unfolding handle_frames texts_of
  handle_frames-Guarded [] s w g = g
  handle_frames-Guarded (f ∷ frames) s w g =
      let (w', ws) = gives_pin-cons_some env.json pin _ _ w in
      let (h, r, q, l, b) = handle_data_message-Guarded f s w' g in
      handle_frames-Guarded frames (handle_data_message env f s) (rw b ws) (h, r, q, l, refl)

-- Where the sender requires a PIN, has sent no list of files and does not wait for an answer to one, and
-- none of the texts that the frames make up, whole or in parts, is a message with that PIN, the
-- frames do not make it send the list of files, nor start the sending of files.
pub handle_frames_guarded :
    (env : SenderEnv) (frames : List Frame) (s : RtcSender)
    → s.require_pin ≡ true
    → is_guarded s.state ≡ true
    → any is_list s.sent ≡ false
    → gives_pin env.json s.required_pin (texts_of s.control_buffer frames) ≡ false
    → (let s' = handle_frames env frames s in
        (any is_list s'.sent ≡ false) × (is_guarded s'.state ≡ true))
handle_frames_guarded env frames s r h l w =
    let (h', _, _, l', _) =
      handle_frames-Guarded env s.required_pin frames s w (h, r, refl, l, refl) in
    (l', h')
