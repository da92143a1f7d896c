-- ===== src/Witnesses/Rtcs.antt =====
-- webrtc/transfer/receiver.go at a receiver with a PIN, and at a file of three bytes.

use pdf_to_epub.Crypto.Token.{SigningKey}
use pdf_to_epub.Disk.{Disk, Faults}
use pdf_to_epub.Prelude.{
  ℕ, ◌+◌, ◌≤◌, length, Bool, true, false, Option, none, some, List, [], ◌∷◌, ◌++◌, if◌then◌else◌,
  Str, codes, str_eq, Str-discrete, map, All, ◌≡◌, ◌≢◌, ◌⊎◌, refl, arith,
}
use pdf_to_epub.Prelude.Int.{pos}
use pdf_to_epub.Prelude.Map.{Map, lookup}
use pdf_to_epub.Rtc.{RtcFile, Generic, Decoded, parse_rtc_message, pin_message}
use pdf_to_epub.Rtc.Chunks.{send_message, chunks, handle_frames-send_message}
use pdf_to_epub.Rtc.Connection.{handle_frames-Proven}
use pdf_to_epub.Rtc.Files.{file_meta_by_id, start_receiving_file}
use pdf_to_epub.Rtc.Frames.{
  Frame, handle_data_message, Offer, new_peer, accepted, blocked, handle_frames, accept_offer,
}
use pdf_to_epub.Rtc.Gate.{is_gated}
use pdf_to_epub.Rtc.Lockout.{IsWrong, handle_frames_locks}
use pdf_to_epub.Rtc.PinGate.{gives_pin, texts_of, handle_frames-accept_offer}
use pdf_to_epub.Rtc.Proven.{Proven}
use pdf_to_epub.Rtc.Received.{is_complete, handle_frames-start_receiving_file}
use pdf_to_epub.Rtc.Receiver.{
  wait_nonce, wait_pin, wait_files, receiving_files, done, Env, RtcReceiver,
}
use pdf_to_epub.Rtc.Setup.{new_rtc_receiver}
use pdf_to_epub.Rtc.Writing.{data_frame, end_frame, content_of}
use pdf_to_epub.TrustedDevices.{TrustedDevice}
use pdf_to_epub.TrustedDevices

abbrev no_faults : Faults
no_faults = record {
  stat = λ p. false;
  mkdir = λ p. false;
  create = λ p. false;
  remove = λ p. false;
}

abbrev pub store_env : TrustedDevices.Env
store_env = record {
  sha256_hex = λ s. s;
  to_json = λ m. [];
  from_json = λ s. none;
  faults = no_faults;
  read_fails = λ p. false;
  encode_fails = λ p. false;
  sync_fails = λ p. false;
  close_fails = λ p. false;
  rename_fails = λ p. false;
  left = λ s. [];
}

abbrev pub nothing : Decoded
nothing = record {
  nonce = none;
  header = none;
  generic = none;
  file_list = none;
  pair = none;
  token = none;
  file_response = none;
}

abbrev wrong_pin : Generic
wrong_pin = record {
  status = none;
  has_files = false;
  has_public_key = false;
  pin = some (codes "1");
}

-- Two texts are messages: a nonce, and a PIN.
abbrev pub json : Str → Decoded
json text =
    if str_eq text (codes "nonce")
    then record nothing { nonce = some (codes "MDEyMzQ1Njc4OWFiY2RlZg") }
    else if str_eq text (codes "pin")
    then record nothing { generic = some wrong_pin }
    else nothing

abbrev pub signer : SigningKey
signer = record { public_der = some []; sign = λ m. []; public_key_pem = [] }

abbrev pub env : Env
env = record {
  now = 5;
  faults = no_faults;
  write_fails = λ p s. false;
  flush_fails = λ p. false;
  close_fails = λ p. false;
  json = json;
  sha256 = λ s. [];
  sha256_hex = λ s. [];
  signing_key = signer;
  parse_public_key_pem = λ s. none;
  random = λ n. some (codes "fedcba9876543210");
  secure_token = λ n. codes "t";
  send_fails = λ n. false;
  select_files = none;
  pin_provider = none;
  store_env = store_env;
}

abbrev pub empty_disk : Disk
empty_disk = record { files = []; dirs = [] }

abbrev r : RtcReceiver
r = new_rtc_receiver (codes "1234") (codes "/m") [] empty_disk

abbrev offer : Offer
offer = record { peer_id = codes "p"; alias = codes "Phone" }

abbrev opened : RtcReceiver
opened = (accept_offer env offer (new_peer 7) false r).0

abbrev pub text_frame : Str → Frame
text_frame text = record { is_string = true; bytes = text }

-- A nonce, and a wrong PIN in two parts.
abbrev frames : List Frame
frames =
    text_frame (codes "nonce")
    ∷ data_frame (codes "pi")
    ∷ data_frame (codes "n")
    ∷ text_frame (codes "0")
    ∷ []

offer_accepted : accept_offer env offer (new_peer 7) false r ≡ (opened, accepted)
unfolding accept_offer pdf_to_epub.Rtc.Receiver.is_peer_blocked lookup
    pdf_to_epub.Rtc.Receiver.drop_unblocked pdf_to_epub.Rtc.Frames.is_busy
    pdf_to_epub.Rtc.Frames.install_peer pdf_to_epub.Rtc.Frames.reserve
offer_accepted = refl

pin-ne-nil : r.pin ≢ []
pin-ne-nil e = ground arith

pin_not_given : gives_pin env.json r.pin (texts_of [] frames) ≡ false
unfolding gives_pin texts_of Str-discrete parse_rtc_message
pin_not_given = refl

handle_frames-accept_offer_example :
    (r' : RtcReceiver) × (handle_frames env frames opened ≡ some r')
    × (is_gated r'.state ≡ true)
    × (r'.disk ≡ opened.disk)
handle_frames-accept_offer_example =
    handle_frames-accept_offer env offer (new_peer 7) false frames r opened offer_accepted
      pin-ne-nil pin_not_given

frames_not_empty : All (λ (f : Frame). f.bytes ≢ []) frames
frames_not_empty =
    (λ e. ground arith, (λ e. ground arith, (λ e. ground arith, (λ e. ground arith, tt))))

handle_frames-Proven_example :
    (r' : RtcReceiver) × (handle_frames env frames opened ≡ some r') × Proven env r'
handle_frames-Proven_example =
    handle_frames-Proven env offer (new_peer 7) false frames r opened offer_accepted
      frames_not_empty

abbrev waiting : RtcReceiver
waiting = record r { state = wait_pin; peer = some 7; sender_signaling_id = codes "p" }

abbrev guess : Frame
guess = text_frame (codes "pin")

guess-IsWrong : IsWrong env waiting.pin guess
unfolding parse_rtc_message Str-discrete
guess-IsWrong = (refl, (λ e. ground arith), (codes "1", refl, λ e. ground arith))

sender-ne-nil : waiting.sender_signaling_id ≢ []
sender-ne-nil e = ground arith

abbrev later : Env
later = record env { now = 29_000_000_000 }

handle_frames_locks_example :
    (r' : RtcReceiver) × (handle_frames env (guess ∷ guess ∷ guess ∷ []) waiting ≡ some r')
    × (r'.state ≡ done)
    × (r'.peer ≡ none)
    × ((accept_offer later offer (new_peer 8) false r').1 ≡ blocked)
handle_frames_locks_example =
    handle_frames_locks env later (guess ∷ guess ∷ []) guess waiting offer (new_peer 8) false refl
      sender-ne-nil (guess-IsWrong, (guess-IsWrong, (guess-IsWrong, tt))) (omega arith) refl
      (omega arith)

abbrev meta : RtcFile
meta = record { id = codes "f"; file_name = codes "a.txt"; size = pos 3; sha256 = [] }

abbrev pub ready : RtcReceiver
ready = record r {
  state = wait_files;
  peer = some 7;
  files = meta ∷ [];
  file_tokens = (codes "f", codes "t") ∷ [];
}

abbrev parts : List Str
parts = codes "ab" ∷ codes "c" ∷ []

meta_known : file_meta_by_id ready (codes "f") ≡ some meta
unfolding file_meta_by_id lookup pdf_to_epub.Rtc.Files.find_file Str-discrete
meta_known = refl

header_accepted : (start_receiving_file env (codes "f") (codes "t") ready).state ≡ receiving_files
unfolding start_receiving_file pdf_to_epub.Rtc.Files.validate_file_header lookup Str-discrete
    file_meta_by_id pdf_to_epub.Rtc.Files.find_file pdf_to_epub.Sanitize.sanitize_path_with_fallback
    pdf_to_epub.Sanitize.sanitize_relative_path pdf_to_epub.FilePath.clean
    pdf_to_epub.FilePath.join_slash pdf_to_epub.FilePath.resolve pdf_to_epub.FilePath.walk
    pdf_to_epub.FilePath.split pdf_to_epub.FilePath.kind pdf_to_epub.FilePath.contains
    pdf_to_epub.Rtc.Files.open_file pdf_to_epub.Rtc.Files.ensure_save_dir pdf_to_epub.Disk.exists
    pdf_to_epub.Disk.has_prefix pdf_to_epub.Disk.is_dir pdf_to_epub.Disk.open_exclusive
    pdf_to_epub.FilePath.base pdf_to_epub.FilePath.contains_byte pdf_to_epub.FilePath.dir
    pdf_to_epub.FilePath.ext pdf_to_epub.FilePath.join pdf_to_epub.FilePath.last_component
    pdf_to_epub.FilePath.up_to_last_slash pdf_to_epub.FolderRemap.apply
    pdf_to_epub.FolderRemap.split_root pdf_to_epub.Prelude.Map.insert
    pdf_to_epub.Rtc.Files.apply_folder_remap pdf_to_epub.Rtc.Files.check_folder_transfer
    pdf_to_epub.Rtc.Files.get_save_dir pdf_to_epub.Rtc.Files.reject_file_transfer
    pdf_to_epub.Rtc.Receiver.mark_transfer_started pdf_to_epub.Sanitize.is_folder_transfer
    pdf_to_epub.Session.Save.mkdir_all pdf_to_epub.UniqueFile.Decimal.decimal
    pdf_to_epub.UniqueFile.Decimal.digits pdf_to_epub.UniqueFile.create
    pdf_to_epub.UniqueFile.create_loop pdf_to_epub.UniqueFile.create_suffixed
    pdf_to_epub.UniqueFile.create_unique_file_from pdf_to_epub.UniqueFile.hint
    pdf_to_epub.UniqueFile.numbered pdf_to_epub.UniqueFile.raise_hint pdf_to_epub.UniqueFile.stem
header_accepted = refl

id-ne-nil : codes "f" ≢ []
id-ne-nil e = ground arith

parts_fit : length (content_of parts) ≤ 3
unfolding content_of
parts_fit = omega arith

handle_frames-start_receiving_file_example :
    (path : Str) × (r' : RtcReceiver) × (handle_frames env
        (map data_frame parts ++ (end_frame ∷ []))
        (start_receiving_file env (codes "f") (codes "t") ready)
      ≡ some r')
    × (lookup path ready.disk.files ≡ none)
    × ((other : Str)
        → lookup other r'.disk.files ≡ (
            if str_eq path other
            then (if is_complete env meta path parts then some (content_of parts) else none)
            else lookup other ready.disk.files))
    × (r'.state ≡ done)
    × (r'.peer ≡ none)
handle_frames-start_receiving_file_example =
    handle_frames-start_receiving_file env (codes "f") (codes "t") parts ready meta 3 meta_known
      refl id-ne-nil parts_fit (λ p. refl) header_accepted

file_complete : is_complete env meta (codes "/m/a.txt") parts ≡ true
unfolding content_of Str-discrete
file_complete = refl

text-ne-nil : codes "pin" ≢ []
text-ne-nil e = ground arith

text-ne-delimiter : codes "pin" ≢ codes "0"
text-ne-delimiter e = ground arith

handle_frames-send_message_example :
    handle_frames env (send_message (codes "pin")) waiting
    ≡ handle_data_message env (text_frame (codes "pin")) waiting
handle_frames-send_message_example =
    handle_frames-send_message env (codes "pin") waiting refl refl text-ne-nil text-ne-delimiter
      (omega arith)

two_bytes_a_part : chunks 2 3 (codes "pin") ≡ codes "pi" ∷ codes "n" ∷ []
unfolding chunks
two_bytes_a_part = refl
