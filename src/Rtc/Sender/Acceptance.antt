-- ===== src/Rtc/Sender/Acceptance.antt =====
-- The answer to the list of files in webrtc/transfer/sender.go: `handleFileAcceptance`.
use pdf_to_epub.Crypto.Token.{VerifyingKey, verify_token_nonce}
use pdf_to_epub.Prelude.{
  Bool, true, false, not, ◌||◌, Option, none, some, [], if◌then◌else◌, Str, str_eq, take,
}
use pdf_to_epub.Prelude.Map.{Map}
use pdf_to_epub.Rtc.{
  RtcMessage, status_message, status_ok, status_invalid_signature, status_declined, status_pair,
  status_pair_declined, is_some,
}
use pdf_to_epub.Rtc.Pairing.{alias_or_unknown}
use pdf_to_epub.Rtc.Sender.{
  sending_files, ListResponse, SenderError, invalid_pair_key, pair_mismatch, pair_sent, SenderEnv,
  RtcSender, send_json, post, fail_locked,
}
use pdf_to_epub.TrustedDevices.{TrustedDevice, add}

-- `computeFingerprint`
unfoldable pub compute_fingerprint : SenderEnv → Str → Str
compute_fingerprint env pem = take 16 (env.sha256_hex pem)

-- The receiver's key is added to the store, if both are there; an error is ignored.
abbrev pub persist_receiver : SenderEnv → Str → Option VerifyingKey → RtcSender → RtcSender
persist_receiver env pem none s = s
persist_receiver env pem (some key) s = elim s.trusted_store [
  | none ↦ s
  | some store ↦
      let device : TrustedDevice = record {
        alias = alias_or_unknown s.receiver_alias;
        public_key = pem;
        added_at = env.now;
      } in
      let (store', disk, saved) = add env.store_env store s.disk device in
      record s { trusted_store = some store'; disk = disk }
]

abbrev pub fingerprint_of : SenderEnv → Str → Str
fingerprint_of env pem = if str_eq pem [] then [] else compute_fingerprint env pem

-- The user's answer; no callback is a yes.
abbrev pub is_confirmed : SenderEnv → Str → RtcSender → Bool
is_confirmed env pem s = elim env.on_pair_request [
  | none ↦ true
  | some ask ↦ ask (alias_or_unknown s.receiver_alias) (fingerprint_of env pem)
]

abbrev pub then_persist : SenderEnv → Str → Option VerifyingKey → RtcSender × Bool → RtcSender
then_persist env pem key (s, true) = persist_receiver env pem key s
then_persist env pem key (s, false) = s

-- From the key that was sent, if one was, and passed its checks.
abbrev pub confirm_pair : SenderEnv → Str → Option VerifyingKey → RtcSender → RtcSender
confirm_pair env pem key s =
    if not (is_confirmed env pem s)
    then post env (pair_sent status_pair_declined []) (record s { receiver_public_key = none })
    else then_persist env pem key
        (send_json env (pair_sent status_ok env.signing_key.public_key_pem) s)

abbrev pub refuse_pair : SenderEnv → SenderError → RtcSender → RtcSender
refuse_pair env e s = fail_locked e (post env (pair_sent status_invalid_signature []) s)

-- Whether the token of the handshake is one of the key; a handshake without a token is not checked.
abbrev pub is_token_of : SenderEnv → VerifyingKey → RtcSender → Bool
is_token_of env key s =
    str_eq s.receiver_token []
    || not (is_some (verify_token_nonce env.sha256 key s.receiver_token s.final_nonce))

abbrev pub pair_known : SenderEnv → Str → Option VerifyingKey → RtcSender → RtcSender
pair_known env pem none s = refuse_pair env invalid_pair_key s
pair_known env pem (some key) s =
    if not (is_token_of env key s)
    then refuse_pair env pair_mismatch s
    else confirm_pair env pem (some key) (record s { receiver_public_key = some key })

unfoldable pub pair : SenderEnv → Str → RtcSender → RtcSender
pair env pem s =
    if str_eq pem []
    then confirm_pair env pem none s
    else pair_known env pem (env.parse_public_key_pem pem) s

abbrev pub accept_files : Map Str → RtcSender → RtcSender
accept_files files s = record s {
  accepted = (if s.closed || is_some s.accepted then s.accepted else some files);
  state = sending_files;
}

abbrev pub answer_acceptance : SenderEnv → Option ListResponse → RtcSender → RtcSender
answer_acceptance env none s = s
answer_acceptance env (some response) s =
    if str_eq response.status status_declined
    then (if s.closed then s else record s { declined = true })
    else if str_eq response.status status_pair
    then pair env response.public_key s
    else if str_eq response.status status_ok
    then accept_files response.files s
    else s

abbrev pub is_acceptance : Str → Bool
is_acceptance status =
    str_eq status status_ok || str_eq status status_declined || str_eq status status_pair

-- While the callback runs, the code has released its lock; this is for runs in which no other step
-- comes between.
unfoldable pub handle_file_acceptance : SenderEnv → RtcMessage → Str → RtcSender → RtcSender
handle_file_acceptance env (status_message status) text s =
    if not (is_acceptance status) then s else answer_acceptance env (env.list_response text) s
handle_file_acceptance env _ text s = s
