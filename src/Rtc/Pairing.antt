-- ===== src/Rtc/Pairing.antt =====
-- The end of the pairing in webrtc/transfer/receiver.go, and the header of a file.

use pdf_to_epub.Crypto.Token.{VerifyingKey, verify_token_nonce}
use pdf_to_epub.Prelude.{
  Bool, not, ◌||◌, Option, none, some, [], ◌∷◌, if◌then◌else◌, Str, codes, str_eq,
}
use pdf_to_epub.Rtc.{
  Decoded, RtcMessage, file_header, pair_response, status_message, status_ok,
  status_invalid_signature, status_pair_declined, is_some,
}
use pdf_to_epub.Rtc.Files.{prepare_files_for_receive, start_receiving_file}
use pdf_to_epub.Rtc.Receiver.{Env, RtcReceiver, terminate}
use pdf_to_epub.TrustedDevices.{TrustedDevice, add}
use pdf_to_epub.Rtc.Handshake.{send_tokens}

-- `acceptFilesAfterPair`
abbrev pub accept_files_after_pair : Env → RtcReceiver → RtcReceiver
accept_files_after_pair env r = send_tokens env (prepare_files_for_receive env r.accepted_ids r)

abbrev pub alias_or_unknown : Str → Str
alias_or_unknown [] = codes "Unknown Device"
alias_or_unknown (c ∷ s) = c ∷ s

-- The device is added to the store, if there is one; an error is ignored.
abbrev pub persist : Env → Str → RtcReceiver → RtcReceiver
persist env pem r = elim r.trusted_store [
  | none ↦ r
  | some store ↦
      let device : TrustedDevice = record {
        alias = alias_or_unknown r.sender_alias;
        public_key = pem;
        added_at = env.now;
      } in
      let (store', disk, saved) = add env.store_env store r.disk device in
      record r { trusted_store = some store'; disk = disk }
]

-- Whether the token of the handshake is one of the key; a handshake without a token is not checked.
abbrev pub is_token_of : Env → VerifyingKey → RtcReceiver → Bool
is_token_of env key r =
    str_eq r.sender_token []
    || not (is_some (verify_token_nonce env.sha256 key r.sender_token r.final_nonce))

abbrev pub pair : Env → VerifyingKey → Str → RtcReceiver → RtcReceiver
pair env key pem r =
    if is_token_of env key r
    then accept_files_after_pair env
        (persist env pem (record r { sender_public_key = some key; sender_public_pem = pem }))
    else r

abbrev pub accept_pair : Env → Str → RtcReceiver → RtcReceiver
accept_pair env pem r =
    if str_eq pem []
    then accept_files_after_pair env r
    else elim (env.parse_public_key_pem pem) [ none ↦ r | some key ↦ pair env key pem r ]

abbrev pub answer_pair : Env → Option (Str × Str) → RtcReceiver → RtcReceiver
answer_pair env none r = r
answer_pair env (some (status, pem)) r =
    if str_eq status status_ok
    then accept_pair env pem r
    else if str_eq status status_pair_declined
    then (if r.require_pairing then terminate env r else accept_files_after_pair env r)
    else r

abbrev pub is_pair_status : Str → Bool
is_pair_status s =
    str_eq s status_ok || str_eq s status_pair_declined || str_eq s status_invalid_signature

unfoldable pub handle_pair_response : Env → RtcMessage → Decoded → RtcReceiver → RtcReceiver
handle_pair_response env pair_response d r = answer_pair env d.pair r
handle_pair_response env (status_message s) d r =
    if is_pair_status s then answer_pair env d.pair r else r
handle_pair_response env _ d r = r

unfoldable pub handle_file_header : Env → RtcMessage → RtcReceiver → RtcReceiver
handle_file_header env (file_header id token) r = start_receiving_file env id token r
handle_file_header env _ r = r
