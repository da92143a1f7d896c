-- ===== src/Receiver/Handlers.antt =====
-- The handler of prepare-upload in koreader-plugin/internal/localsend/recv/handlers.go. The parsing of
-- the body is an argument, with the files in it; log lines and the sender's fingerprint are left out.
use pdf_to_epub.Errors.{TransferError, status, too_many_sessions}
use pdf_to_epub.Extensions.{is_extension_allowed}
use pdf_to_epub.Manager.{RecvSessManager, create_session_if_allowed, generate_pre_upload_resp}
use pdf_to_epub.Prelude.{
  ℕ, Bool, true, false, not, ◌&&◌, ◌||◌, Option, none, some, List, [], ◌∷◌, if◌then◌else◌, Str,
  ◌==◌,
}
use pdf_to_epub.Prelude.Int.{pos, negsuc}
use pdf_to_epub.Prelude.Map.{Map}
use pdf_to_epub.Receiver.{FileReceiver, validate_pin}
use pdf_to_epub.Session.{FileMeta, Result, ok, err, any_folder}

abbrev pub has_extension_filter : FileReceiver → Bool
has_extension_filter fr = elim fr.allowed_extensions [ [] ↦ false | _ ∷ _ ↦ true ]

abbrev pub has_extension_router : FileReceiver → Bool
has_extension_router fr = elim fr.router [ none ↦ false | some _ ↦ true ]

-- The files whose extension is allowed.
unfoldable pub filtered : List Str → Map FileMeta → Map FileMeta
filtered allowed [] = []
filtered allowed ((id, meta) ∷ files) =
    let rest = filtered allowed files in
    if is_extension_allowed meta.filename allowed then (id, meta) ∷ rest else rest

-- The files that are left, or the status 403.
unfoldable pub filter_files_by_extension : FileReceiver → Map FileMeta → Option (Map FileMeta)
filter_files_by_extension fr files =
    if any_folder files && has_extension_router fr && has_extension_filter fr
    then none
    else if not (has_extension_filter fr)
    then some files
    else elim (filtered fr.allowed_extensions files) [ [] ↦ none | f ∷ fs ↦ some (f ∷ fs) ]

-- What is read of a body: too large, no JSON, no information on the sender, or the files.
pub data PreUploadReq : Type 0 where
  too_large malformed no_info : PreUploadReq
  with_files : Map FileMeta → PreUploadReq

unfoldable pub any_negative : Map FileMeta → Bool
any_negative [] = false
any_negative ((id, meta) ∷ files) =
    elim meta.size [ pos _ ↦ false | negsuc _ ↦ true ] || any_negative files

-- A refusal with a status, or the session id and the tokens.
pub data Answer : Type 0 where
  refuse : ℕ → Answer
  accept : Str → Map Str → Answer

abbrev pub admission_status : TransferError → ℕ
admission_status too_many_sessions = 429
admission_status e = status (some e)

abbrev pub respond : FileReceiver → Result (RecvSessManager × Str × ℕ) → FileReceiver × Answer
respond fr (err e) = (fr, refuse (admission_status e))
respond fr (ok (rsm, id, n)) = (
  record fr { sessman = rsm },
  elim (generate_pre_upload_resp rsm id) [
    | err _ ↦ refuse 500
    | ok (session_id, tokens) ↦ accept session_id tokens
  ],
)

abbrev pub admit_files :
    FileReceiver → Str → Option (Map FileMeta) → ℕ → (ℕ → Str) → ℕ → FileReceiver × Answer
admit_files fr ip none now uuid n = (fr, refuse 403)
admit_files fr ip (some files) now uuid n =
    respond fr (create_session_if_allowed fr.sessman files ip now uuid n)

abbrev pub handle_req :
    FileReceiver → Str → PreUploadReq → ℕ → (ℕ → Str) → ℕ → FileReceiver × Answer
handle_req fr ip too_large now uuid n = (fr, refuse 413)
handle_req fr ip malformed now uuid n = (fr, refuse 400)
handle_req fr ip no_info now uuid n = (fr, refuse 400)
handle_req fr ip (with_files files) now uuid n =
    if any_negative files
    then (fr, refuse 400)
    else admit_files fr ip (filter_files_by_extension fr files) now uuid n

unfoldable pub pre_upload_handler :
    FileReceiver → Str → Option Str → PreUploadReq → ℕ → (ℕ → Str) → ℕ → FileReceiver × Answer
pre_upload_handler fr ip pin req now uuid n =
    let (fr', code) = validate_pin fr ip pin now in
    if code == 0 then handle_req fr' ip req now uuid n else (fr', refuse code)
