-- ===== src/Witnesses/Senders.antt =====
-- webrtc/transfer/sender.go at a sender of two files, and its frames at a receiver.
use pdf_to_epub.Crypto.Token.{VerifyingKey}
use pdf_to_epub.Prelude.{
  ℕ, zero, suc, ◌==◌, take, length, Bool, true, false, Option, none, some, List, [], ◌∷◌, ◌++◌,
  if◌then◌else◌, Str, codes, str_eq, Str-discrete, ◌≡◌, ◌↔◌, ◌≢◌, refl, ap, arith, any,
}
use pdf_to_epub.Prelude.Int.{pos}
use pdf_to_epub.Prelude.Map.{lookup}
use pdf_to_epub.Rtc.{RtcFile, Generic, Decoded, parse_rtc_message, status_message, status_ok}
use pdf_to_epub.Rtc.Delivery.{handle_frames-transfer_frames}
use pdf_to_epub.Rtc.Files.{file_meta_by_id, start_receiving_file}
use pdf_to_epub.Rtc.Frames.{Frame, handle_frames}
use pdf_to_epub.Rtc.PinGate.{gives_pin, texts_of}
use pdf_to_epub.Rtc.Receiver.{wait_files, receiving_files, done, Env, RtcReceiver}
use pdf_to_epub.Rtc.Sender.Frames.{handle_text}
use pdf_to_epub.Rtc.Sender.Frames
use pdf_to_epub.Rtc.Chunks.{drop}
use pdf_to_epub.Rtc.Sender.Gate.{is_guarded, is_list}
use pdf_to_epub.Rtc.Sender.Paired.{handle_frames-Trusted}
use pdf_to_epub.Rtc.Sender.PinGate.{handle_frames_guarded}
use pdf_to_epub.Rtc.Sender.Queue.{scan_queue, prepare_send_queue-scan_queue}
use pdf_to_epub.Rtc.Sender.Sending.{
  Sendable, Reads, Ack, acknowledged, Ops, prepare_send_queue, send_files,
}
use pdf_to_epub.Rtc.Sender.Setup.{new_rtc_sender}
use pdf_to_epub.Rtc.Sender.Tokenless.{handle_text_tokenless}
use pdf_to_epub.Rtc.Sender.Trust.{Trusted}
use pdf_to_epub.Rtc.Sender.Whole.{transfer_frames, send_files-Delivered, send_files_ends}
use pdf_to_epub.Rtc.Sender.Rounds.{Delivered}
use pdf_to_epub.Rtc.Sender.{
  SenderState, wait_nonce, wait_pin, wait_required_pin, FileMeta, SenderEnv, RtcSender,
}
use pdf_to_epub.Rtc.Transfer.{Offered, items_of, Starts, AllSaved}
use pdf_to_epub.Rtc.Writing.{data_frame}
use pdf_to_epub.Witnesses.Rtcs.{
  nothing, json, env, signer, empty_disk, store_env, text_frame, ready,
}

-- Two texts more: an answer with the status OK, and a PIN.
abbrev ok_status : Generic
ok_status = record {
  status = some (codes "OK");
  has_files = false;
  has_public_key = false;
  pin = none;
}

abbrev sender_json : Str → Decoded
sender_json text =
    if str_eq text (codes "ok") then record nothing { generic = some ok_status } else json text

abbrev sender_env : SenderEnv
sender_env = record {
  now = 5;
  json = sender_json;
  token_response = λ s. some (codes "OK", []);
  list_response = λ s. none;
  file_result = λ s. none;
  sha256 = λ s. [];
  sha256_hex = λ s. s;
  signing_key = signer;
  parse_public_key_pem = λ s. none;
  random = λ n. some (codes "fedcba9876543210");
  send_fails = λ n. false;
  pin_provider = none;
  on_pair_request = none;
  format_time = λ n. [];
  store_env = store_env;
}

abbrev local : Str → Str → FileMeta
local id path = record {
  id = id;
  file_name = path;
  file_path = path;
  size = pos 3;
  file_type = [];
  sha256 = [];
  modified = none;
  accessed = none;
}

abbrev s : RtcSender
s = record (new_rtc_sender (codes "1") empty_disk) {
  peer = some 7;
  files = local (codes "f") (codes "a") ∷ local (codes "g") (codes "b") ∷ [];
  file_tokens = (codes "f", codes "t") ∷ (codes "g", codes "u") ∷ [];
  accepted_ids = codes "f" ∷ codes "h" ∷ codes "g" ∷ [];
}

abbrev first_item : Sendable
first_item = record { id = codes "f"; token = codes "t"; file = local (codes "f") (codes "a") }

abbrev second_item : Sendable
second_item = record { id = codes "g"; token = codes "u"; file = local (codes "g") (codes "b") }

two_items : prepare_send_queue s ≡ first_item ∷ second_item ∷ []
unfolding prepare_send_queue pdf_to_epub.Rtc.Sender.Sending.queue_loop
    pdf_to_epub.Rtc.Sender.Sending.index_files lookup pdf_to_epub.Prelude.Map.insert Str-discrete
two_items = refl

prepare_send_queue-scan_queue_example : prepare_send_queue s ≡ scan_queue s s.accepted_ids
prepare_send_queue-scan_queue_example = prepare_send_queue-scan_queue s

-- Both files are read in one block; a header is a text that starts with a brace.
abbrev content_at : Str → Str
content_at path = if str_eq path (codes "a") then codes "abc" else codes "xy"

abbrev header : Str → Str → Str
header id token = b'{' ∷ (length id ∷ (id ++ token))

abbrev good : ℕ → Ack
good zero = acknowledged (record { id = codes "f"; success = true; error = none })
good (suc n) = acknowledged (record { id = codes "g"; success = true; error = none })

abbrev ops : Ops
ops = record {
  open_file = λ path. some (record { blocks = content_at path ∷ []; is_whole = true });
  header = header;
  wait_fails = λ n. false;
  send_fails = λ n. false;
  ack = good;
  closed_in_flush = false;
}

two_items-Delivered : Delivered ops 0 (prepare_send_queue s)
unfolding pdf_to_epub.Rtc.Sender.Sending.check_ack prepare_send_queue
    pdf_to_epub.Rtc.Sender.Sending.queue_loop lookup Str-discrete
    pdf_to_epub.Rtc.Sender.Sending.index_files pdf_to_epub.Prelude.Map.insert
two_items-Delivered = (refl, ((refl, refl), (refl, ((refl, refl), tt))))

send_files_ends_example : ((send_files ops s).1.1 ≡ none) ↔ Delivered ops 0 (prepare_send_queue s)
send_files_ends_example = send_files_ends ops (λ n. refl) (λ n. refl) s refl refl

sent_whole : (send_files ops s).1.1 ≡ none
unfolding send_files pdf_to_epub.Rtc.Sender.Sending.send_all prepare_send_queue
    pdf_to_epub.Rtc.Sender.Sending.queue_loop lookup Str-discrete
    pdf_to_epub.Rtc.Sender.Sending.index_files pdf_to_epub.Prelude.Map.insert
    pdf_to_epub.Rtc.Sender.Sending.then_send pdf_to_epub.Rtc.Sender.Sending.send_queue
    pdf_to_epub.Rtc.Sender.Sending.send_file pdf_to_epub.Rtc.Sender.Sending.send_blocks
    pdf_to_epub.Rtc.Sender.Sending.send_chunks pdf_to_epub.Rtc.Chunks.chunks
    pdf_to_epub.Rtc.Sender.Sending.check_ack
sent_whole = refl

send_files-Delivered_example :
    Delivered ops 0 (prepare_send_queue s)
    × ((send_files ops s).1.0 ≡ transfer_frames ops (prepare_send_queue s))
    × ((send_files ops s).0.state ≡ SenderState.done)
send_files-Delivered_example =
    send_files-Delivered ops s (send_files_ends_example.1 two_items-Delivered)

-- The sender asks for a PIN, and gets another one.
abbrev asking : RtcSender
asking = record s { state = wait_required_pin; require_pin = true; required_pin = codes "2" }

abbrev wrong_pin : List Frame
wrong_pin = data_frame (codes "pi") ∷ data_frame (codes "n") ∷ text_frame (codes "0") ∷ []

other_pin : gives_pin sender_env.json asking.required_pin (texts_of [] wrong_pin) ≡ false
unfolding gives_pin texts_of Str-discrete parse_rtc_message
other_pin = refl

handle_frames_guarded_example :
    (let s' = Frames.handle_frames sender_env wrong_pin asking in
      (any is_list s'.sent ≡ false) × (is_guarded s'.state ≡ true))
unfolding new_rtc_sender
handle_frames_guarded_example =
    handle_frames_guarded sender_env wrong_pin asking refl refl refl other_pin

abbrev key : VerifyingKey
key = record { verify = λ m t. true; to_der = some []; signature_method = codes "ed25519" }

abbrev expecting : RtcSender
expecting = record s { state = wait_nonce; receiver_public_key = some key }

handle_frames-Trusted_example :
    (let s' = Frames.handle_frames sender_env (text_frame (codes "nonce") ∷ []) expecting in
      Trusted sender_env s'.state s')
handle_frames-Trusted_example =
    handle_frames-Trusted sender_env (text_frame (codes "nonce") ∷ []) expecting refl refl

-- The PIN was right, and the receiver says so.
abbrev answered : RtcSender
answered = record expecting { state = wait_pin }

says_ok : parse_rtc_message (sender_env.json (codes "ok")) ≡ some (status_message status_ok)
unfolding parse_rtc_message Str-discrete
says_ok = refl

handle_text_tokenless_example :
    (let s' = handle_text sender_env (codes "ok") answered in
      (s'.state ≡ SenderState.done) × (s'.sent ≡ answered.sent))
unfolding Str-discrete
handle_text_tokenless_example =
    handle_text_tokenless sender_env status_ok (codes "ok") answered refl refl refl says_ok refl

-- The receiver reads the two parts of a header back.
abbrev header_of : Str → Decoded
header_of [] = nothing
header_of (c ∷ []) = nothing
header_of (c ∷ n ∷ rest) =
    if c == b'{'
    then record nothing { nonce = some []; header = some (take n rest, drop n rest) }
    else nothing

abbrev receiver_env : Env
receiver_env = record env { json = header_of }

take-length : (id token : Str) → take (length id) (id ++ token) ≡ id
take-length [] token = refl
take-length (c ∷ id) token = ap (◌∷◌ c) (take-length id token)

drop-length : (id token : Str) → drop (length id) (id ++ token) ≡ token
drop-length [] token = refl
drop-length (c ∷ id) token = drop-length id token

header_read : (id token : Str) → (receiver_env.json (ops.header id token)).header ≡ some (id, token)
header_read id token = rw (take-length id token, drop-length id token) refl

not_delimiter : (id token : Str) → str_eq (ops.header id token) (codes "0") ≡ false
not_delimiter id token = ground arith

abbrev first_meta : RtcFile
first_meta = record { id = codes "f"; file_name = codes "a.txt"; size = pos 3; sha256 = [] }

abbrev second_meta : RtcFile
second_meta = record { id = codes "g"; file_name = codes "b.txt"; size = pos 2; sha256 = [] }

abbrev both_ready : RtcReceiver
both_ready = record ready {
  files = first_meta ∷ second_meta ∷ [];
  file_tokens = (codes "f", codes "t") ∷ (codes "g", codes "u") ∷ [];
}

first-ne-nil : codes "f" ≢ []
first-ne-nil e = ground arith

first_token-ne-nil : codes "t" ≢ []
first_token-ne-nil e = ground arith

second-ne-nil : codes "g" ≢ []
second-ne-nil e = ground arith

second_token-ne-nil : codes "u" ≢ []
second_token-ne-nil e = ground arith

both_start :
    Starts receiver_env ops both_ready ((first_item, first_meta) ∷ (second_item, second_meta) ∷ [])
unfolding file_meta_by_id lookup pdf_to_epub.Rtc.Files.find_file Str-discrete
    pdf_to_epub.Rtc.Writing.content_of start_receiving_file
    pdf_to_epub.Rtc.Files.validate_file_header pdf_to_epub.Sanitize.sanitize_path_with_fallback
    pdf_to_epub.Sanitize.sanitize_relative_path pdf_to_epub.FilePath.clean
    pdf_to_epub.FilePath.join_slash pdf_to_epub.FilePath.resolve pdf_to_epub.FilePath.walk
    pdf_to_epub.FilePath.split pdf_to_epub.FilePath.kind pdf_to_epub.FilePath.contains
    pdf_to_epub.Rtc.Files.open_file pdf_to_epub.Disk.exists pdf_to_epub.Disk.has_prefix
    pdf_to_epub.Disk.is_dir pdf_to_epub.Disk.open_exclusive pdf_to_epub.FilePath.base
    pdf_to_epub.FilePath.contains_byte pdf_to_epub.FilePath.dir pdf_to_epub.FilePath.ext
    pdf_to_epub.FilePath.join pdf_to_epub.FilePath.last_component
    pdf_to_epub.FilePath.up_to_last_slash pdf_to_epub.FolderRemap.apply
    pdf_to_epub.FolderRemap.split_root pdf_to_epub.Prelude.Map.insert
    pdf_to_epub.Rtc.Files.apply_folder_remap pdf_to_epub.Rtc.Files.check_folder_transfer
    pdf_to_epub.Rtc.Files.ensure_save_dir pdf_to_epub.Rtc.Files.get_save_dir
    pdf_to_epub.Rtc.Files.reject_file_transfer pdf_to_epub.Rtc.Receiver.mark_transfer_started
    pdf_to_epub.Sanitize.is_folder_transfer pdf_to_epub.Session.Save.mkdir_all
    pdf_to_epub.UniqueFile.Decimal.decimal pdf_to_epub.UniqueFile.Decimal.digits
    pdf_to_epub.UniqueFile.create pdf_to_epub.UniqueFile.create_loop
    pdf_to_epub.UniqueFile.create_suffixed pdf_to_epub.UniqueFile.create_unique_file_from
    pdf_to_epub.UniqueFile.hint pdf_to_epub.UniqueFile.numbered pdf_to_epub.UniqueFile.raise_hint
    pdf_to_epub.UniqueFile.stem pdf_to_epub.Rtc.Transfer.after_file
    pdf_to_epub.Rtc.Bytes.finish_current_file pdf_to_epub.Rtc.Transfer.receive_parts
    pdf_to_epub.Rtc.Sender.Wire.parts_of_blocks pdf_to_epub.Rtc.Chunks.chunks
    pdf_to_epub.Rtc.Bytes.handle_binary_data pdf_to_epub.Rtc.Receiver.mark_transfer_done
    pdf_to_epub.Rtc.Receiver.send_json pdf_to_epub.Rtc.Bytes.finish_error
both_start = (
  first-ne-nil,
  first_token-ne-nil,
  refl,
  refl,
  header_read (codes "f") (codes "t"),
  refl,
  (second-ne-nil, second_token-ne-nil, refl, refl, header_read (codes "g") (codes "u"), refl, tt),
)

handle_frames-transfer_frames_example :
    (r' : RtcReceiver) × (handle_frames receiver_env
        (transfer_frames ops
          (items_of ((first_item, first_meta) ∷ (second_item, second_meta) ∷ [])))
        both_ready
      ≡ some r')
    × AllSaved receiver_env ops both_ready.disk.files r'.disk.files
        ((first_item, first_meta) ∷ (second_item, second_meta) ∷ [])
    × (r'.state ≡ done)
    × (r'.peer ≡ none)
handle_frames-transfer_frames_example =
    handle_frames-transfer_frames receiver_env ops not_delimiter (λ path. refl) first_item
      first_meta ((second_item, second_meta) ∷ []) both_ready refl refl both_start
