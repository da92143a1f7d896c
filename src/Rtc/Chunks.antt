-- ===== src/Rtc/Chunks.antt =====
-- Messages in parts: `SendJSONBinary` and `SendDelimiter` of webrtc/transfer/peer.go, where every send
-- succeeds, against `handleDataMessage` of receiver.go.
use mathlib.Core.Path.{subst}
use pdf_to_epub.Prelude.{
  ℕ, zero, suc, ◌+◌, ◌-◌, ◌*◌, ◌≤◌, true, false, not, ◌&&◌, Option, none, some, List, [], ◌∷◌, ◌++◌,
  Str, str_eq, length, take, map, ◌≡◌, refl, sym, ap, ◌∙◌, ◌≢◌, arith, append-nil, append_assoc,
  length-append,
}
use pdf_to_epub.Rtc.Frames.{
  Frame, handle_data_message, handle_frames, handle_text, max_control_message_bytes, is_receiving,
  delimiter,
}
use pdf_to_epub.Rtc.Receiver.{Env, RtcReceiver}
use pdf_to_epub.Rtc.Writing.{data_frame, end_frame, content_of}

-- ChunkSize
abbrev pub chunk_size : ℕ
chunk_size = 16 * 1024

-- `data[n:]`
abbrev pub drop : ℕ → Str → Str
drop zero s = s
drop (suc n) [] = []
drop (suc n) (c ∷ s) = drop n s

-- The loop: one part a round, and no more rounds than bytes.
unfoldable pub chunks : ℕ → ℕ → Str → List Str
chunks size zero bytes = []
chunks size (suc rounds) [] = []
chunks size (suc rounds) (c ∷ s) = take size (c ∷ s) ∷ chunks size rounds (drop size (c ∷ s))

unfoldable pub send_json_binary : Str → List Frame
send_json_binary text = map data_frame (chunks chunk_size (length text) text)

-- The message with its end.
abbrev pub send_message : Str → List Frame
send_message text = send_json_binary text ++ (end_frame ∷ [])

take-drop : (n : ℕ) (s : Str) → take n s ++ drop n s ≡ s
take-drop zero s = refl
take-drop (suc n) [] = refl
take-drop (suc n) (c ∷ s) = ap (◌∷◌ c) (take-drop n s)

length-drop : (n : ℕ) (s : Str) → length (drop n s) ≡ length s - n
length-drop zero s = omega arith
length-drop (suc n) [] = omega arith
length-drop (suc n) (c ∷ s) = omega (arith, length-drop n s)

pub content_of-chunks :
    (size rounds : ℕ) (s : Str)
    → 1 ≤ size
    → length s ≤ rounds
    → content_of (chunks size rounds s) ≡ s
unfolding content_of chunks
content_of-chunks size zero [] h l = refl
content_of-chunks size zero (c ∷ s) h l = absurd (omega (arith, l))
content_of-chunks size (suc rounds) [] h l = refl
content_of-chunks size (suc rounds) (c ∷ s) h l =
    ap (λ t. take size (c ∷ s) ++ t)
      (content_of-chunks size rounds (drop size (c ∷ s)) h
        (omega (arith, length-drop size (c ∷ s), l, h)))
    ∙ take-drop size (c ∷ s)

abbrev IsControl : RtcReceiver → Type 0
IsControl r = (is_receiving r.state && not (str_eq r.current_file_id [])) ≡ false

abbrev buffered : Str → RtcReceiver → RtcReceiver
buffered bytes r = record r { control_buffer = bytes }

data_frame-buffered :
    (env : Env) (bytes buffer : Str) (r : RtcReceiver)
    → IsControl r
    → length buffer + length bytes ≤ max_control_message_bytes
    → handle_data_message env (data_frame bytes) (buffered buffer r)
      ≡ some (buffered (buffer ++ bytes) r)
unfolding handle_data_message
data_frame-buffered env bytes buffer r c l = ground (arith, c, l)

data_frames-buffered :
    (env : Env) (parts : List Str) (rest : List Frame) (buffer : Str) (r : RtcReceiver)
    → IsControl r
    → length buffer + length (content_of parts) ≤ max_control_message_bytes
    → handle_frames env (map data_frame parts ++ rest) (buffered buffer r)
      ≡ handle_frames env rest (buffered (buffer ++ content_of parts) r)
unfolding handle_frames content_of
data_frames-buffered env [] rest buffer r c l =
    ap (λ b. handle_frames env rest (buffered b r)) (sym (append-nil buffer))
data_frames-buffered env (bytes ∷ parts) rest buffer r c l =
    let n = length-append bytes (content_of parts) in
    let m = length-append buffer bytes in
    rw (handle_frames, data_frame-buffered env bytes buffer r c (omega (arith, l, n)))
      (data_frames-buffered env parts rest (buffer ++ bytes) r c (omega (arith, l, n, m))
        ∙ ap (λ b. handle_frames env rest (buffered b r))
            (append_assoc buffer bytes (content_of parts)))

end_frame-buffered :
    (env : Env) (text : Str) (r : RtcReceiver)
    → IsControl r
    → text ≢ []
    → handle_data_message env end_frame (buffered text r) ≡ handle_text env text (buffered [] r)
unfolding handle_data_message
end_frame-buffered env [] r c n = absurd (n refl)
end_frame-buffered env (b ∷ s) r c n = ground (arith, c)

handle_frames-last :
    (env : Env) (f : Frame) (r : RtcReceiver) (o : Option RtcReceiver)
    → handle_data_message env f r ≡ o
    → handle_frames env (f ∷ []) r ≡ o
unfolding handle_frames
handle_frames-last env f r none e = rw (handle_frames, e) refl
handle_frames-last env f r (some r') e = rw (handle_frames, e) refl

sent_in_parts :
    (env : Env) (text : Str) (r : RtcReceiver)
    → IsControl r
    → text ≢ []
    → length text ≤ max_control_message_bytes
    → handle_frames env (send_message text) (buffered [] r) ≡ handle_text env text (buffered [] r)
unfolding send_json_binary
sent_in_parts env text r c n l =
    let parts = chunks chunk_size (length text) text in
    let e = content_of-chunks chunk_size (length text) text (omega arith) (omega arith) in
    data_frames-buffered env parts (end_frame ∷ []) [] r c (rw e (omega (arith, l)))
    ∙ handle_frames-last env end_frame (buffered (content_of parts) r) _
        (rw e (end_frame-buffered env text r c n))

-- A message that is not empty and at most 2 MiB long, sent in parts of at most 16 KiB and then the
-- delimiter to a receiver that holds no part of another message and no file, has the effect that
-- the whole text has in one frame.
pub handle_frames-send_message :
    (env : Env) (text : Str) (r : RtcReceiver)
    → (is_receiving r.state && not (str_eq r.current_file_id [])) ≡ false
    → r.control_buffer ≡ []
    → text ≢ []
    → text ≢ delimiter
    → length text ≤ max_control_message_bytes
    → handle_frames env (send_message text) r
      ≡ handle_data_message env (record { is_string = true; bytes = text }) r
unfolding handle_data_message
handle_frames-send_message env text r c b n d l =
    subst (λ x. handle_frames env (send_message text) x ≡ handle_text env text x)
      (sym (ap (λ t. buffered t r) b)) (sent_in_parts env text r c n l)
    ∙ ground (arith, c, d)
