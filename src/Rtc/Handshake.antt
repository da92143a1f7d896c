-- ===== src/Rtc/Handshake.antt =====
-- The handlers of webrtc/transfer/receiver.go for the messages before a transfer. The type of a
-- message is the one that ParseRTCMessage gives, and `d` is the text that the code parses again. The
-- fields that are only written (`pendingFiles`) are left out.
use pdf_to_epub.Crypto.Nonce.{decode_nonce, encode_nonce, combine_nonces}
use pdf_to_epub.Crypto.Token.{VerifyingKey, generate_token, verify_token_nonce}
use pdf_to_epub.Errors.{max_files_per_session, max_pin_attempts}
use pdf_to_epub.Prelude.{
  ◌+◌, Bool, true, false, not, ◌&&◌, ◌||◌, Option, none, some, List, [], ◌∷◌, ◌==◌, ltb, leb,
  if◌then◌else◌, Str, codes, str_eq, length, map,
}
use pdf_to_epub.Prelude.Map.{Map}
use pdf_to_epub.Rtc.{
  RtcFile, Decoded, RtcMessage, nonce_message, token_request, pin_message, file_list_message,
  status_message, status_ok, status_pin_required, status_too_many_attempts,
  status_invalid_signature, status_declined, status_pair, is_some,
}
use pdf_to_epub.Rtc.Files.{rebuild_file_index, check_folder_transfer, prepare_files_for_receive}
use pdf_to_epub.Rtc.Receiver.{
  HandshakeState, wait_token, wait_pin, wait_file_list, wait_pair_response, wait_files, nonce_out,
  error_out, pin_out, pin_status_out, token_out, list_out, delimiter_out, Env, RtcReceiver, tick,
  send_json, post, terminate, block_peer,
}
use pdf_to_epub.TrustedDevices.{list_public_keys}

-- The first message that is sent decides whether the second one is, and both whether the state
-- changes.
abbrev pub then_state : HandshakeState → RtcReceiver × Bool → RtcReceiver
then_state state (r, true) = record r { state = state }
then_state state (r, false) = r

abbrev pub then_delimiter : Env → RtcReceiver × Bool → RtcReceiver × Bool
then_delimiter env (r, true) = send_json env delimiter_out r
then_delimiter env (r, false) = (r, false)

-- The answer to a nonce that was decoded, with the random nonce of the receiver.
abbrev pub answer_nonce : Env → Option Str → RtcReceiver → RtcReceiver
answer_nonce env none r = post env (error_out (codes "internal error: nonce generation failed")) r
answer_nonce env (some nonce) r = then_state wait_token (
    send_json env (nonce_out (encode_nonce nonce))
      (record r { local_nonce = nonce; final_nonce = combine_nonces r.remote_nonce nonce }))

unfoldable pub handle_nonce : Env → RtcMessage → RtcReceiver → RtcReceiver
handle_nonce env (nonce_message encoded) r = elim (decode_nonce encoded) [
  | none ↦ post env (error_out (codes "invalid nonce format")) r
  | some remote ↦ answer_nonce env (env.random r.ticks) (tick (record r { remote_nonce = remote }))
]
handle_nonce env _ r = r

-- The loop of `findTrustedSender` over the trusted keys.
unfoldable pub match_key : Env → Str → Str → Map Str → Option (VerifyingKey × Str)
match_key env token nonce [] = none
match_key env token nonce ((fingerprint, pem) ∷ keys) =
    let rest = match_key env token nonce keys in
    elim (env.parse_public_key_pem pem) [
      | none ↦ rest
      | some key ↦ elim (verify_token_nonce env.sha256 key token nonce) [
        | some e ↦ rest
        | none ↦ some (key, pem)
      ]
    ]

unfoldable pub find_trusted_sender : Env → Str → RtcReceiver → Option (VerifyingKey × Str)
find_trusted_sender env token r = elim r.trusted_store [
  | none ↦ none
  | some store ↦ match_key env token r.final_nonce (list_public_keys store)
]

-- The sender is looked for if its key is not known and is needed.
abbrev pub recognize : Env → Str → RtcReceiver → RtcReceiver
recognize env token r =
    if is_some r.sender_public_key || not r.require_pairing
    then r
    else elim (find_trusted_sender env token r) [
      | none ↦ r
      | some (key, pem) ↦ record r { sender_public_key = some key; sender_public_pem = pem }
    ]

-- Whether the token is one of the known sender, if there is one.
abbrev pub is_accepted_by : Env → Str → Str → Option VerifyingKey → Bool
is_accepted_by env token nonce none = true
is_accepted_by env token nonce (some key) =
    not (is_some (verify_token_nonce env.sha256 key token nonce))

unfoldable pub is_token_accepted : Env → Str → RtcReceiver → Bool
is_token_accepted env token r = is_accepted_by env token r.final_nonce r.sender_public_key

abbrev pub answer_token : Env → Option Str → RtcReceiver → RtcReceiver
answer_token env none r = post env (error_out (codes "internal error: token generation failed")) r
answer_token env (some token) r =
    if not (str_eq r.pin [])
    then record (post env (token_out status_pin_required token) r) { state = wait_pin }
    else record (post env (token_out status_ok token) r) { state = wait_file_list }

abbrev pub check_token : Env → Str → RtcReceiver → RtcReceiver
check_token env token r =
    if is_token_accepted env token r
    then answer_token env (generate_token env.sha256 env.signing_key r.final_nonce) r
    else terminate env (post env (token_out status_invalid_signature []) r)

unfoldable pub handle_token : Env → RtcMessage → RtcReceiver → RtcReceiver
handle_token env (token_request token) r =
    check_token env token (recognize env token (record r { sender_token = token }))
handle_token env _ r = r

-- A wrong PIN, with its number counted.
abbrev pub block_sender : Env → RtcReceiver → RtcReceiver
block_sender env r =
    if str_eq r.sender_signaling_id []
    then r
    else record r { blocked_peers = block_peer env.now r.sender_signaling_id r.blocked_peers }

abbrev pub refuse_pin : Env → RtcReceiver → RtcReceiver
refuse_pin env r =
    if leb max_pin_attempts r.pin_attempts
    then terminate env (post env (pin_status_out status_too_many_attempts) (block_sender env r))
    else post env (pin_status_out status_pin_required) r

unfoldable pub handle_pin : Env → RtcMessage → RtcReceiver → RtcReceiver
handle_pin env (pin_message pin) r =
    if str_eq pin r.pin
    then record (post env (pin_status_out status_ok) r) { state = wait_file_list }
    else refuse_pin env (record r { pin_attempts = r.pin_attempts + 1 })
handle_pin env _ r = r

abbrev pub provided_pin : Env → RtcReceiver → Str
provided_pin env r = elim env.pin_provider [
  | none ↦ r.pin
  | some provider ↦ provider r.provided_pin_attempts
]

abbrev pub or_terminate : Env → RtcReceiver × Bool → RtcReceiver
or_terminate env (r, true) = r
or_terminate env (r, false) = terminate env r

-- The sender asks for a PIN of its own.
abbrev pub answer_challenge : Env → RtcReceiver → RtcReceiver
answer_challenge env r =
    let r' = record r { provided_pin_attempts = r.provided_pin_attempts + 1 } in
    or_terminate env (send_json env (pin_out (provided_pin env r')) r')

abbrev pub decline : Env → RtcReceiver → RtcReceiver
decline env r = post env delimiter_out (post env (list_out status_declined [] []) r)

-- The files that are offered, before the choice.
unfoldable pub offer_files : List RtcFile → RtcReceiver → RtcReceiver
offer_files files r = check_folder_transfer (record r {
  files = files;
  file_by_id = rebuild_file_index files [];
  folder_transfer_known = false;
})

abbrev pub send_list : Env → Str → Map Str → Str → RtcReceiver → RtcReceiver × Bool
send_list env status tokens public_key r =
    then_delimiter env (send_json env (list_out status tokens public_key) r)

abbrev pub send_tokens : Env → RtcReceiver × Map Str → RtcReceiver
send_tokens env (r, tokens) = then_state wait_files (send_list env status_ok tokens [] r)

abbrev pub needs_pairing : RtcReceiver → Bool
needs_pairing r = r.require_pairing && not (is_some r.sender_public_key)

-- The answer to the files, after the choice. While `onSelectFiles` or the PIN provider runs, the
-- code has released its lock; the handlers here are for runs in which no other step comes between.
unfoldable pub answer_files : Env → List Str → RtcReceiver → RtcReceiver
answer_files env ids r =
    let r' = record r { accepted_ids = ids } in
    if not (is_some r.peer)
    then r'
    else if length ids == 0
    then decline env r'
    else if needs_pairing r
    then then_state wait_pair_response
        (send_list env status_pair [] env.signing_key.public_key_pem r')
    else send_tokens env (prepare_files_for_receive env ids r')

abbrev pub selected : Env → List RtcFile → List Str
selected env files = elim env.select_files [
  | none ↦ map (λ f. f.id) files
  | some select ↦ select files
]

abbrev pub read_file_list : Env → Option (List RtcFile) → RtcReceiver → RtcReceiver
read_file_list env none r = r
read_file_list env (some files) r =
    if ltb max_files_per_session (length files)
    then decline env r
    else answer_files env (selected env files) (offer_files files r)

unfoldable pub handle_file_list : Env → RtcMessage → Decoded → RtcReceiver → RtcReceiver
handle_file_list env (status_message status) d r =
    if str_eq status status_pin_required
    then answer_challenge env r
    else if str_eq status status_too_many_attempts
    then terminate env r
    else if str_eq status status_ok
    then read_file_list env d.file_list r
    else r
handle_file_list env file_list_message d r = read_file_list env d.file_list r
handle_file_list env _ d r = r
