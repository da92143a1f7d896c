-- ===== src/Receiver/Uploading.antt =====
-- The handler of upload in koreader-plugin/internal/localsend/recv/handlers.go, and the choice of the
-- directory in recv.go. An upload is one step here; the steps of overlapping uploads are those of
-- Session/Steps. The callbacks and the log of transfers are left out.
use pdf_to_epub.Disk.{Disk}
use pdf_to_epub.Errors.{status}
use pdf_to_epub.Manager.{get_session}
use pdf_to_epub.Prelude.{ℕ, Bool, ◌||◌, Option, none, some, [], if◌then◌else◌, Str, str_eq}
use pdf_to_epub.Prelude.Map.{lookup, insert}
use pdf_to_epub.Receiver.{FileReceiver}
use pdf_to_epub.Routing.{ExtensionRouter}
use pdf_to_epub.Routing
use pdf_to_epub.Session.{FileMeta, RecvSession, Result, ok, err, is_folder_transfer}
use pdf_to_epub.Session.Body.{Body, Env}
use pdf_to_epub.Session.Save.{save_file}

abbrev pub set_extension_router : FileReceiver → ExtensionRouter → FileReceiver
set_extension_router fr router = record fr { router = some router }

-- `GetSaveDir` of the receiver
unfoldable pub get_save_dir : FileReceiver → Str → Str
get_save_dir fr filename = elim fr.router [
  | none ↦ fr.save_to_dir
  | some router ↦ Routing.get_save_dir router filename
]

unfoldable pub get_save_dir_for_session : FileReceiver → Bool → Str → Str
get_save_dir_for_session fr is_folder filename =
    if is_folder then fr.save_to_dir else get_save_dir fr filename

-- What a request names.
pub record UploadReq : Type 0 where
  pub session_id : Str
  pub file_id : Str
  pub token : Str
  pub ip : Str
  pub body : Body

abbrev pub upload_status : Result Str → ℕ
upload_status (ok name) = 200
upload_status (err e) = status (some e)

-- The sessions are shared: what the upload leaves of its session is in the manager.
abbrev pub answer_upload :
    FileReceiver → UploadReq → RecvSession × Disk × Result Str → FileReceiver × Disk × ℕ
answer_upload fr req (sess, disk, result) = (
  record fr { sessman = record { sessions = insert req.session_id sess fr.sessman.sessions } },
  disk,
  upload_status result,
)

abbrev pub upload_to :
    FileReceiver → Disk → Env → UploadReq → RecvSession → Option FileMeta → FileReceiver × Disk × ℕ
upload_to fr disk env req sess none = (fr, disk, 400)
upload_to fr disk env req sess (some meta) =
    let (sess', is_folder) = is_folder_transfer sess in
    let save_dir = get_save_dir_for_session fr is_folder meta.filename in
    answer_upload fr req (save_file sess' disk env save_dir req.file_id req.token req.ip req.body)

abbrev pub upload_found :
    FileReceiver → Disk → Env → UploadReq → Result RecvSession → FileReceiver × Disk × ℕ
upload_found fr disk env req (err e) = (fr, disk, 403)
upload_found fr disk env req (ok sess) =
    upload_to fr disk env req sess (lookup req.file_id sess.file_metas)

unfoldable pub upload_handler : FileReceiver → Disk → Env → UploadReq → FileReceiver × Disk × ℕ
upload_handler fr disk env req =
    if str_eq req.session_id [] || str_eq req.file_id [] || str_eq req.token []
    then (fr, disk, 400)
    else upload_found fr disk env req (get_session fr.sessman req.session_id)
