-- ===== src/Rtc/PinGate.antt =====
-- The PIN in front of a transfer: webrtc/transfer/receiver.go, `handleDataMessage` until the PIN.
use mathlib.Core.Path.{subst}
use pdf_to_epub.Disk.{Disk}
use pdf_to_epub.Prelude.{
  Bool, true, false, not, ◌&&◌, ◌||◌, Option, none, some, List, [], ◌+◌, ◌∷◌, ◌++◌, ◌==◌, ltb,
  if◌then◌else◌, Str, str_eq, length, ◌≡◌, refl, ◌≢◌, arith, if_cases,
}
use pdf_to_epub.Rtc.{Decoded, parse_rtc_message}
use pdf_to_epub.Rtc.Frames.{
  is_receiving, end_control, buffer_control, Offer, Setup, accepted, accept_offer, reserve,
  install_peer, Frame, handle_text, handle_data_message, handle_frames, delimiter,
  max_control_message_bytes,
}
use pdf_to_epub.Rtc.Receiver.{
  wait_nonce, Env, RtcReceiver, cleanup_partial_files, is_peer_blocked, mark_transfer_done,
}
use pdf_to_epub.Rtc.Gate.{is_gated, Gated, is_pin_of, handle_text-Gated}

-- What a frame leaves of a message in parts, and the text that it ends.
abbrev pub next_buffer : Str → Frame → Str
next_buffer buffer f =
    if not f.is_string
    then (if ltb max_control_message_bytes (length buffer + length f.bytes)
        then []
        else buffer ++ f.bytes)
    else if str_eq f.bytes delimiter
    then []
    else buffer

abbrev pub text_of : Str → Frame → Option Str
text_of buffer f =
    if not f.is_string
    then none
    else if not (str_eq f.bytes delimiter)
    then some f.bytes
    else if length buffer == 0
    then none
    else some buffer

abbrev pub cons_some : Option Str → List Str → List Str
cons_some none texts = texts
cons_some (some text) texts = text ∷ texts

-- The texts that the frames of a handshake make up, in one frame or in parts.
unfoldable pub texts_of : Str → List Frame → List Str
texts_of buffer [] = []
texts_of buffer (f ∷ frames) = cons_some (text_of buffer f) (texts_of (next_buffer buffer f) frames)

-- Whether one of the texts is a message with the PIN.
unfoldable pub gives_pin : (Str → Decoded) → Str → List Str → Bool
gives_pin json pin [] = false
gives_pin json pin (text ∷ texts) =
    is_pin_of pin (parse_rtc_message (json text)) || gives_pin json pin texts

-- What a frame comes to: no panic, and a receiver that is gated.
abbrev Kept : Str → Disk → Str → Option RtcReceiver → Type 0
Kept pin disk buffer o = (r' : RtcReceiver) × (o ≡ some r') × Gated pin disk buffer r'

buffer_control-Kept :
    (pin : Str) (disk : Disk) (f : Frame) (r : RtcReceiver)
    → f.is_string ≡ false
    → Gated pin disk r.control_buffer r
    → Kept pin disk (next_buffer r.control_buffer f) (some (buffer_control f.bytes r))
buffer_control-Kept pin disk f r s g = (buffer_control f.bytes r, refl, ground arith)

end_control-Kept :
    (env : Env) (pin : Str) (disk : Disk) (r : RtcReceiver)
    → pin ≢ []
    → (length r.control_buffer == 0 ≡ false
        → is_pin_of pin (parse_rtc_message (env.json r.control_buffer)) ≡ false)
    → Gated pin disk r.control_buffer r
    → Kept pin disk [] (end_control env r)
end_control-Kept env pin disk r n w g =
    if_cases (Kept pin disk []) (length r.control_buffer == 0) _ _
      (λ z. (r, refl, ground (arith, z)))
      (λ z.
        let (s, p, d, e, b) = g in
        handle_text-Gated env pin disk [] r.control_buffer (record r { control_buffer = [] }) n
          (w z) (s, p, d, e, refl))

-- One frame of a handshake whose text, if it ends one, is not the PIN.
handle_data_message-Kept :
    (env : Env) (pin : Str) (disk : Disk) (f : Frame) (r : RtcReceiver)
    → pin ≢ []
    → gives_pin env.json pin (cons_some (text_of r.control_buffer f) []) ≡ false
    → Gated pin disk r.control_buffer r
    → Kept pin disk (next_buffer r.control_buffer f) (handle_data_message env f r)
unfolding handle_data_message gives_pin
handle_data_message-Kept env pin disk f r n w g =
    let P : Option RtcReceiver → Type 0 = Kept pin disk (next_buffer r.control_buffer f) in
    if_cases P (is_receiving r.state && not (str_eq r.current_file_id [])) _ _
      (λ t. absurd (ground (arith, t, g.0)))
      (λ _.
        if_cases P (not f.is_string) _ _
          (λ s. buffer_control-Kept pin disk f r (ground (arith, s)) g)
          (λ s.
            if_cases P (str_eq f.bytes delimiter) _ _
              (λ e.
                subst (λ b. Kept pin disk b (end_control env r)) (ground (arith, s, e))
                  (end_control-Kept env pin disk r n (λ z. ground (arith, w, s, e, z)) g))
              (λ e.
                subst (λ b. Kept pin disk b (handle_text env f.bytes r)) (ground (arith, s, e))
                  (handle_text-Gated env pin disk r.control_buffer f.bytes r n
                    (ground (arith, w, s, e)) g))))

pub gives_pin-cons_some :
    (json : Str → Decoded) (pin : Str) (o : Option Str) (texts : List Str)
    → gives_pin json pin (cons_some o texts) ≡ false
    → (gives_pin json pin (cons_some o []) ≡ false) × (gives_pin json pin texts ≡ false)
unfolding gives_pin
gives_pin-cons_some json pin none texts w = (refl, w)
gives_pin-cons_some json pin (some text) texts w = ground arith

handle_frames-Gated :
    (env : Env) (pin : Str) (disk : Disk) (frames : List Frame) (r : RtcReceiver)
    → pin ≢ []
    → gives_pin env.json pin (texts_of r.control_buffer frames) ≡ false
    → Gated pin disk r.control_buffer r
    → (r' : RtcReceiver) × (handle_frames env frames r ≡ some r')
      × Gated pin disk r'.control_buffer r'
unfolding handle_frames texts_of
handle_frames-Gated env pin disk [] r n w g = (r, refl, g)
handle_frames-Gated env pin disk (f ∷ frames) r n w g =
    let (w', ws) = gives_pin-cons_some env.json pin _ _ w in
    let (r', e, g') = handle_data_message-Kept env pin disk f r n w' g in
    let (s, p, d, o, b) = g' in
    rw (handle_frames, e)
      (handle_frames-Gated env pin disk frames r' n (rw b ws) (s, p, d, o, refl))

reserve-Gated :
    (env : Env) (offer : Offer) (r : RtcReceiver)
    → Gated r.pin (reserve env offer r).disk [] (reserve env offer r)
unfolding reserve cleanup_partial_files mark_transfer_done
reserve-Gated env offer r = ground arith

pub accept_offer-opened :
    (env : Env) (offer : Offer) (setup : Setup) (answer_fails : Bool) (r opened : RtcReceiver)
    → accept_offer env offer setup answer_fails r ≡ (opened, accepted)
    → opened.state ≡ wait_nonce
unfolding accept_offer install_peer reserve
accept_offer-opened env offer setup answer_fails r opened a = ground (arith, a)

accept_offer-Gated :
    (env : Env) (offer : Offer) (setup : Setup) (answer_fails : Bool) (r opened : RtcReceiver)
    → accept_offer env offer setup answer_fails r ≡ (opened, accepted)
    → Gated r.pin opened.disk [] opened
unfolding accept_offer install_peer
accept_offer-Gated env offer setup answer_fails r opened a = ground (
  arith,
  a,
  reserve-Gated env offer
      (record r { blocked_peers = (is_peer_blocked env.now offer.peer_id r.blocked_peers).0 }),
)

-- Where a PIN is set, an offer is accepted, and none of the texts that the frames of the connection
-- make up, whole or in parts, is a message with the PIN, the frames do not make the code panic, the
-- handshake does not get past the PIN, and the disk stays as it was at the offer.
pub handle_frames-accept_offer :
    (env : Env) (offer : Offer) (setup : Setup) (answer_fails : Bool) (frames : List Frame)
    (r opened : RtcReceiver)
    → accept_offer env offer setup answer_fails r ≡ (opened, accepted)
    → r.pin ≢ []
    → gives_pin env.json r.pin (texts_of [] frames) ≡ false
    → (r' : RtcReceiver) × (handle_frames env frames opened ≡ some r')
      × (is_gated r'.state ≡ true)
      × (r'.disk ≡ opened.disk)
handle_frames-accept_offer env offer setup answer_fails frames r opened a n w =
    let g = accept_offer-Gated env offer setup answer_fails r opened a in
    let (r', e, g') =
      handle_frames-Gated env r.pin opened.disk frames opened n (ground (arith, w, g))
        (ground (arith, g)) in
    (r', e, g'.0, g'.2)
