-- ===== src/Rtc/Frames.antt =====
-- The frames of a connection and the offers in webrtc/transfer/receiver.go: `handleDataMessage` and
-- `AcceptOffer`.

use pdf_to_epub.Prelude.{
  ℕ, ◌+◌, ◌*◌, Bool, true, false, not, ◌&&◌, ◌||◌, Option, none, some, List, [], ◌∷◌, ◌++◌, ◌==◌,
  ltb, if◌then◌else◌, Str, codes, str_eq, length,
}
use pdf_to_epub.Rtc.{Decoded, RtcMessage, parse_rtc_message, is_some}
use pdf_to_epub.Rtc.Bytes.{handle_binary_data, finish_current_file}
use pdf_to_epub.Rtc.Files.{start_receiving_file}
use pdf_to_epub.Rtc.Handshake.{handle_nonce, handle_token, handle_pin, handle_file_list}
use pdf_to_epub.Rtc.Pairing.{handle_pair_response, handle_file_header}
use pdf_to_epub.Rtc.Receiver.{
  HandshakeState, wait_nonce, wait_token, wait_pin, wait_file_list, wait_pair_response, wait_files,
  receiving_files, done, close_call, Env, RtcReceiver, emit, drop_peer, terminate,
  cleanup_partial_files, is_peer_blocked, handle_peer_closed,
}
use pdf_to_epub.UniqueFile.{reset}

-- maxControlMessageBytes
abbrev pub max_control_message_bytes : ℕ
max_control_message_bytes = 2 * 1024 * 1024

-- The text frame "0".
abbrev pub delimiter : Str
delimiter = codes "0"

-- A frame of a data channel.
pub record Frame : Type 0 where
  pub is_string : Bool
  pub bytes : Str

abbrev pub is_receiving : HandshakeState → Bool
is_receiving receiving_files = true
is_receiving _ = false

abbrev pub is_waiting_files : HandshakeState → Bool
is_waiting_files wait_files = true
is_waiting_files _ = false

-- The text behind the end of a file that is not the end of the transfer.
abbrev pub next_header : Env → Option (Str × Str) → RtcReceiver → RtcReceiver
next_header env none r = terminate env r
next_header env (some (id, token)) r =
    if str_eq id [] then terminate env r else start_receiving_file env id token r

-- A frame between the header of a file and the end of the transfer.
unfoldable pub handle_transfer : Env → Frame → RtcReceiver → RtcReceiver
handle_transfer env f r =
    if not f.is_string
    then handle_binary_data env f.bytes r
    else if str_eq f.bytes delimiter
    then drop_peer (record (finish_current_file env r) { state = done })
    else next_header env (env.json f.bytes).header (finish_current_file env r)

-- The handler of the state.
unfoldable pub handle_control :
    Env → HandshakeState → RtcMessage → Decoded → RtcReceiver → RtcReceiver
handle_control env wait_nonce msg d r = handle_nonce env msg r
handle_control env wait_token msg d r = handle_token env msg r
handle_control env wait_pin msg d r = handle_pin env msg r
handle_control env wait_file_list msg d r = handle_file_list env msg d r
handle_control env wait_pair_response msg d r = handle_pair_response env msg d r
handle_control env wait_files msg d r = handle_file_header env msg r
handle_control env receiving_files msg d r = r
handle_control env done msg d r = r

-- A text that is no message, where a header is due; `data[0]` of an empty text is a run-time panic,
-- `none`.
abbrev pub handle_headless : Env → Str → RtcReceiver → Option RtcReceiver
handle_headless env [] r = none
handle_headless env (c ∷ s) r = some (if c == b'{' then r else handle_binary_data env (c ∷ s) r)

abbrev pub handle_unparsed : Env → Str → RtcReceiver → Option RtcReceiver
handle_unparsed env text r = if is_waiting_files r.state then handle_headless env text r else some r

unfoldable pub handle_text : Env → Str → RtcReceiver → Option RtcReceiver
handle_text env text r = elim (parse_rtc_message (env.json text)) [
  | none ↦ handle_unparsed env text r
  | some msg ↦ some (handle_control env r.state msg (env.json text) r)
]

-- A binary frame is a part of a message.
abbrev pub buffer_control : Str → RtcReceiver → RtcReceiver
buffer_control bytes r =
    if ltb max_control_message_bytes (length r.control_buffer + length bytes)
    then record r { control_buffer = [] }
    else record r { control_buffer = r.control_buffer ++ bytes }

-- The end of a message in parts.
abbrev pub end_control : Env → RtcReceiver → Option RtcReceiver
end_control env r =
    if length r.control_buffer == 0
    then some r
    else handle_text env r.control_buffer (record r { control_buffer = [] })

unfoldable pub handle_data_message : Env → Frame → RtcReceiver → Option RtcReceiver
handle_data_message env f r =
    if is_receiving r.state && not (str_eq r.current_file_id [])
    then some (handle_transfer env f r)
    else if not f.is_string
    then some (buffer_control f.bytes r)
    else if str_eq f.bytes delimiter
    then end_control env r
    else handle_text env f.bytes r

-- The frames of a connection, one after the other; a panic ends them.
unfoldable pub handle_frames : Env → List Frame → RtcReceiver → Option RtcReceiver
handle_frames env [] r = some r
handle_frames env (f ∷ frames) r = elim (handle_data_message env f r) [
  | none ↦ none
  | some r' ↦ handle_frames env frames r'
]

-- What an offer names.
pub record Offer : Type 0 where
  pub peer_id : Str
  pub alias : Str

pub data OfferResult : Type 0 where
  accepted blocked busy : OfferResult
  failed : OfferResult

-- `NewPeerConnection`, with the call that decompresses the SDP; the connection's number.
pub data Setup : Type 0 where
  no_peer : Setup
  new_peer : ℕ → Setup

abbrev pub is_done : HandshakeState → Bool
is_done done = true
is_done _ = false

unfoldable pub is_busy : RtcReceiver → Bool
is_busy r = r.accepting || (is_some r.peer && not (is_done r.state))

-- The section that reserves the session.
unfoldable pub reserve : Env → Offer → RtcReceiver → RtcReceiver
reserve env offer r =
    let cleaned = drop_peer (cleanup_partial_files env r) in
    record cleaned {
      accepting = true;
      file_tokens = [];
      files = [];
      file_by_id = [];
      accepted_ids = [];
      folder_transfer_known = false;
      folder_transfer = false;
      ensured_dirs = [];
      unique_files = reset cleaned.unique_files;
      control_buffer = [];
      remote_nonce = [];
      local_nonce = [];
      final_nonce = [];
      pin_attempts = 0;
      provided_pin_attempts = 0;
      sender_public_key = none;
      sender_public_pem = [];
      sender_token = [];
      sender_alias = offer.alias;
      sender_signaling_id = offer.peer_id;
      state = wait_nonce;
    }

abbrev pub fail_accept : RtcReceiver → RtcReceiver
fail_accept r = record r { accepting = false; state = done }

-- The section that installs the connection, unless the receiver was closed before it.
unfoldable pub install_peer : ℕ → RtcReceiver → RtcReceiver × OfferResult
install_peer p r =
    if not r.accepting
    then (emit (close_call p) r, busy)
    else (record r { peer = some p; accepting = false }, accepted)

-- The answer: a connection that is closed calls `handlePeerClosed`.
abbrev pub send_answer : Env → Bool → ℕ → RtcReceiver × OfferResult → RtcReceiver × OfferResult
send_answer env answer_fails p (r, accepted) =
    if answer_fails then (handle_peer_closed env p r, failed) else (r, accepted)
send_answer env answer_fails p (r, result) = (r, result)

abbrev pub connect : Env → Setup → Bool → RtcReceiver → RtcReceiver × OfferResult
connect env no_peer answer_fails r = (fail_accept r, failed)
connect env (new_peer p) answer_fails r = send_answer env answer_fails p (install_peer p r)

-- `AcceptOffer` where nothing comes between its sections.
unfoldable pub accept_offer : Env → Offer → Setup → Bool → RtcReceiver → RtcReceiver × OfferResult
accept_offer env offer setup answer_fails r =
    let (blocked_peers, is_blocked) = is_peer_blocked env.now offer.peer_id r.blocked_peers in
    let r' = record r { blocked_peers = blocked_peers } in
    if is_blocked
    then (r', blocked)
    else if is_busy r'
    then (r', busy)
    else connect env setup answer_fails (reserve env offer r')
