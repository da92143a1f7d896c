-- ===== src/Witnesses/Uploads.antt =====
-- The upload handler of recv/handlers.go at a session with one file.
use pdf_to_epub.NonceCache.{new_nonce_cache}
use pdf_to_epub.NonceCache.Refine.{new-Inv}
use pdf_to_epub.Receiver.Exchange.{IsUsable}
use pdf_to_epub.Receiver.Nonces.{new_nonce_caches, with_nonce, nonce_exchange_handler, answer}
use pdf_to_epub.Disk.{Disk, Faults}
use pdf_to_epub.Prelude.{
  ℕ, Bool, true, false, some, none, arith, List, [], ◌∷◌, Str, codes, ◌≡◌, refl,
}
use pdf_to_epub.Prelude.Int.{pos}
use pdf_to_epub.Receiver.{FileReceiver, new_file_receiver}
use pdf_to_epub.Receiver.Uploaded.{Answered, upload_handler-Answered}
use pdf_to_epub.Receiver.Uploading.{UploadReq, upload_handler}
use pdf_to_epub.Session.{RecvSession, pending, not_done}
use pdf_to_epub.Session.Body.{Body, Env}

abbrev sess : RecvSession
sess = record {
  files_count = pos 1;
  last_activity = 7;
  file_metas =
      (codes "f", record { id = codes "f"; filename = codes "b"; size = pos 2; checksum = [] })
      ∷ [];
  file_tokens = (codes "f", codes "t") ∷ [];
  file_states = (codes "f", record { status = pending; attempts = 0; target_path = [] }) ∷ [];
  id = codes "s";
  client_ip = codes "10.0.0.2";
  started = true;
  folder_remap = not_done;
  folder_transfer = none;
  ensured_dirs = [];
  unique_files = [];
}

abbrev fr : FileReceiver
fr = record (new_file_receiver (codes "/m")) {
  sessman = record { sessions = (codes "s", sess) ∷ [] };
}

abbrev no_faults : Faults
no_faults = record {
  stat = λ p. false;
  mkdir = λ p. false;
  create = λ p. false;
  remove = λ p. false;
}

abbrev env : Env
env = record {
  faults = no_faults;
  write_fails = λ p. false;
  flush_fails = λ p. false;
  sha256_hex = λ s. s;
  left = λ s. [];
}

abbrev disk : Disk
disk = record { files = []; dirs = [] }

abbrev req : UploadReq
req = record {
  session_id = codes "s";
  file_id = codes "f";
  token = codes "t";
  ip = codes "10.0.0.2";
  body = record { chunks = record { at = 0; bytes = codes "hi" } ∷ []; fails = false };
}

upload_handler-Answered_example :
    Answered fr.sessman.sessions [] env req (upload_handler fr disk env req)
upload_handler-Answered_example = upload_handler-Answered fr disk env req (λ p. refl)

upload_stored : (upload_handler fr disk env req).2 ≡ 200
unfolding upload_handler pdf_to_epub.Prelude.Str-discrete pdf_to_epub.Manager.get_session
    pdf_to_epub.Prelude.Map.lookup pdf_to_epub.Session.Save.save_file
    pdf_to_epub.Session.begin_attempt pdf_to_epub.Session.is_folder_transfer
    pdf_to_epub.Session.Save.run_attempt pdf_to_epub.Sanitize.sanitize_path_with_fallback
    pdf_to_epub.Sanitize.sanitize_relative_path pdf_to_epub.FilePath.clean
    pdf_to_epub.FilePath.join_slash pdf_to_epub.FilePath.resolve pdf_to_epub.FilePath.walk
    pdf_to_epub.FilePath.split pdf_to_epub.FilePath.kind pdf_to_epub.FilePath.contains
    pdf_to_epub.Disk.exists pdf_to_epub.Disk.has_prefix pdf_to_epub.Disk.is_dir
    pdf_to_epub.Disk.is_missing pdf_to_epub.Disk.open_exclusive pdf_to_epub.Errors.status
    pdf_to_epub.FilePath.base pdf_to_epub.FilePath.contains_byte pdf_to_epub.FilePath.dir
    pdf_to_epub.FilePath.ext pdf_to_epub.FilePath.join pdf_to_epub.FilePath.last_component
    pdf_to_epub.FilePath.up_to_last_slash pdf_to_epub.FolderRemap.apply
    pdf_to_epub.FolderRemap.new_folder_remapper pdf_to_epub.FolderRemap.remap_roots
    pdf_to_epub.FolderRemap.root_folders pdf_to_epub.FolderRemap.root_of
    pdf_to_epub.FolderRemap.split_root pdf_to_epub.Prelude.Map.delete pdf_to_epub.Prelude.Map.insert
    pdf_to_epub.Receiver.Uploading.get_save_dir
    pdf_to_epub.Receiver.Uploading.get_save_dir_for_session pdf_to_epub.Routing.after_first_dot
    pdf_to_epub.Routing.after_last_dot pdf_to_epub.Routing.get_save_dir
    pdf_to_epub.Session.Body.equal_fold pdf_to_epub.Session.Body.judge
    pdf_to_epub.Session.Body.note_read pdf_to_epub.Session.Body.read_limited
    pdf_to_epub.Session.Save.ensure_save_dir pdf_to_epub.Session.Save.mkdir_all
    pdf_to_epub.Session.Save.open_target pdf_to_epub.Session.Save.place
    pdf_to_epub.Session.Save.prepare_folder_remap pdf_to_epub.Session.Save.receive_body
    pdf_to_epub.Session.any_folder pdf_to_epub.Session.end_session
    pdf_to_epub.Session.finish_file_attempt pdf_to_epub.UniqueFile.Decimal.decimal
    pdf_to_epub.UniqueFile.Decimal.digits pdf_to_epub.UniqueFile.create
    pdf_to_epub.UniqueFile.create_loop pdf_to_epub.UniqueFile.create_suffixed
    pdf_to_epub.UniqueFile.create_unique_file_from pdf_to_epub.UniqueFile.find_unique_folder_name
    pdf_to_epub.UniqueFile.folder_loop pdf_to_epub.UniqueFile.hint pdf_to_epub.UniqueFile.numbered
    pdf_to_epub.UniqueFile.raise_hint pdf_to_epub.UniqueFile.stem new_file_receiver
upload_stored = refl

upload_of_unknown_session :
    (upload_handler fr disk env (record req { session_id = codes "x" })).2 ≡ 403
unfolding upload_handler pdf_to_epub.Prelude.Str-discrete pdf_to_epub.Manager.get_session
    pdf_to_epub.Prelude.Map.lookup
upload_of_unknown_session = refl

upload_without_token : (upload_handler fr disk env (record req { token = [] })).2 ≡ 400
unfolding upload_handler pdf_to_epub.Prelude.Str-discrete
upload_without_token = refl

cache-IsUsable : IsUsable (new_nonce_cache 200)
unfolding new_nonce_cache
cache-IsUsable = (new-Inv 200, omega arith)

-- "0123456789abcdef"
abbrev encoded : Str
encoded = codes "MDEyMzQ1Njc4OWFiY2RlZg"

nonce_answered :
    (nonce_exchange_handler new_nonce_caches
      (codes "10.0.0.2")
      (some (codes "fedcba9876543210"))
      (with_nonce encoded)).1
    ≡ answer (codes "ZmVkY2JhOTg3NjU0MzIxMA")
unfolding nonce_exchange_handler pdf_to_epub.Crypto.Nonce.decode_nonce pdf_to_epub.Base64.decode
    pdf_to_epub.Base64.sextets pdf_to_epub.Base64.join_sextets
    pdf_to_epub.Crypto.Nonce.validate_nonce pdf_to_epub.Crypto.Nonce.encode_nonce
    pdf_to_epub.Base64.encode
nonce_answered = refl
