-- ===== src/Rtc/Sender/Frames.antt =====
-- The frames that an RTCSender gets: `handleDataMessage` of webrtc/transfer/sender.go.
use pdf_to_epub.Prelude.{
  ◌+◌, not, ◌&&◌, Option, none, some, List, [], ◌∷◌, ◌++◌, ◌==◌, ltb, if◌then◌else◌, Str, codes,
  str_eq, length,
}
use pdf_to_epub.Rtc.{RtcMessage, file_response, parse_rtc_message, is_some}
use pdf_to_epub.Rtc.Frames.{Frame, delimiter, max_control_message_bytes}
use pdf_to_epub.Rtc.Sender.{
  SenderState, init, wait_nonce, wait_token, wait_pin, wait_required_pin, wait_file_accept,
  sending_files, done, FileResult, file_failed, SenderEnv, RtcSender, offer_error,
}
use pdf_to_epub.Rtc.Sender.Acceptance.{handle_file_acceptance}
use pdf_to_epub.Rtc.Sender.Handshake.{
  handle_nonce_response, handle_token_response, handle_required_pin,
}

-- A result that the channel has no room for is dropped.
abbrev pub offer_result : FileResult → RtcSender → RtcSender
offer_result result s =
    if is_some s.file_results then s else record s { file_results = some result }

abbrev pub error_text : Option Str → Str
error_text none = codes "receiver failed to save file"
error_text (some e) = e

abbrev pub store_result : FileResult → RtcSender → RtcSender
store_result result s =
    if s.closed
    then s
    else if result.success
    then offer_result result s
    else offer_error (file_failed result.id (error_text result.error)) (offer_result result s)

abbrev pub handle_result : Option FileResult → RtcSender → RtcSender
handle_result none s = s
handle_result (some result) s = store_result result s

-- The handler of the state.
unfoldable pub handle_state : SenderEnv → SenderState → RtcMessage → Str → RtcSender → RtcSender
handle_state env wait_nonce msg text s = handle_nonce_response env msg s
handle_state env wait_token msg text s = handle_token_response env msg text s
handle_state env wait_pin msg text s = handle_token_response env msg text s
handle_state env wait_required_pin msg text s = handle_required_pin env msg s
handle_state env wait_file_accept msg text s = handle_file_acceptance env msg text s
handle_state env init msg text s = s
handle_state env sending_files msg text s = s
handle_state env done msg text s = s

unfoldable pub handle_message : SenderEnv → RtcMessage → Str → RtcSender → RtcSender
handle_message env (file_response id) text s = handle_result (env.file_result text) s
handle_message env msg text s = handle_state env s.state msg text s

abbrev pub handle_parsed : SenderEnv → Option RtcMessage → Str → RtcSender → RtcSender
handle_parsed env none text s = s
handle_parsed env (some msg) text s = handle_message env msg text s

abbrev pub handle_text : SenderEnv → Str → RtcSender → RtcSender
handle_text env text s = handle_parsed env (parse_rtc_message (env.json text)) text s

abbrev pub buffer_control : Str → RtcSender → RtcSender
buffer_control bytes s =
    if ltb max_control_message_bytes (length s.control_buffer + length bytes)
    then record s { control_buffer = [] }
    else record s { control_buffer = s.control_buffer ++ bytes }

abbrev pub end_control : SenderEnv → RtcSender → RtcSender
end_control env s =
    if length s.control_buffer == 0
    then s
    else handle_text env s.control_buffer (record s { control_buffer = [] })

unfoldable pub handle_data_message : SenderEnv → Frame → RtcSender → RtcSender
handle_data_message env f s =
    if f.is_string && str_eq f.bytes delimiter
    then end_control env s
    else if not f.is_string
    then buffer_control f.bytes s
    else handle_text env f.bytes s

-- The frames of a connection, one after the other.
unfoldable pub handle_frames : SenderEnv → List Frame → RtcSender → RtcSender
handle_frames env [] s = s
handle_frames env (f ∷ frames) s = handle_frames env frames (handle_data_message env f s)
