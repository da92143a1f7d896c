-- ===== src/Receiver/Uploaded.antt =====
-- What an answer of the upload handler in recv/handlers.go says of the disk.
use pdf_to_epub.Disk.{Disk}
use pdf_to_epub.Errors.{TransferError, status}
use pdf_to_epub.Manager.{get_session}
use pdf_to_epub.Prelude.{
  ℕ, ◌||◌, Option, none, some, [], Str, str_eq, ◌≡◌, ◌≢◌, ◌⊎◌, inl, inr, refl, arith, if_cases,
}
use pdf_to_epub.Prelude.Map.{Map, lookup}
use pdf_to_epub.Receiver.{FileReceiver}
use pdf_to_epub.Receiver.Uploading.{
  UploadReq, answer_upload, upload_to, upload_found, upload_handler, get_save_dir_for_session,
}
use pdf_to_epub.Session.{FileMeta, RecvSession, Result, ok, err, is_folder_transfer}
use pdf_to_epub.Session.Body.{Env}
use pdf_to_epub.Session.Outcome.{IsSaved, NoRemoveFaults}
use pdf_to_epub.Session.Save.{save_file}
use pdf_to_epub.Session.Saved.{Ends, save_file-Ends}

status_failed : (e : TransferError) → status (some e) ≢ 200
unfolding status
status_failed e h = ground arith

-- An upload that was stored for a session of the receiver.
pub record Stored (sessions : Map RecvSession) (before : Map Str) (env : Env) (req : UploadReq)
    (after : Map Str) : Type 0 where
  pub sess : RecvSession
  pub meta : FileMeta
  pub path : Str
  pub known : lookup req.session_id sessions ≡ some sess
  pub offered : lookup req.file_id sess.file_metas ≡ some meta
  pub granted : lookup req.file_id sess.file_tokens ≡ some req.token
  pub saved : IsSaved env meta req.body before after path

-- 200 and a stored upload, or another status and no change of any file.
abbrev pub Answered : Map RecvSession → Map Str → Env → UploadReq → FileReceiver × Disk × ℕ → Type 0
Answered sessions before env req (fr, disk, code) =
    ((code ≡ 200) × Stored sessions before env req disk.files)
    ⊎ ((code ≢ 200) × (disk.files ≡ before))

answer_upload-Answered :
    (fr : FileReceiver) (disk : Disk) (env : Env) (req : UploadReq) (sess sess' : RecvSession)
    (out : RecvSession × Disk × Result Str)
    → lookup req.session_id fr.sessman.sessions ≡ some sess
    → sess'.file_metas ≡ sess.file_metas
    → sess'.file_tokens ≡ sess.file_tokens
    → NoRemoveFaults env
    → Ends sess' disk.files env req.file_id req.token req.body out.1.files out.2
    → Answered fr.sessman.sessions disk.files env req (answer_upload fr req out)
answer_upload-Answered fr disk env req sess sess' (s, d, ok name) k fm ft n (meta, path, o, g, i) =
    inl (
      refl,
      record {
        sess = sess;
        meta = meta;
        path = path;
        known = k;
        offered = ground (arith, o, fm);
        granted = ground (arith, g, ft);
        saved = i;
      },
    )
answer_upload-Answered fr disk env req sess sess' (s, d, err e) k fm ft n u =
    inr (status_failed e, u n)

is_folder_transfer-keeps :
    (sess : RecvSession)
    → ((is_folder_transfer sess).0.file_metas ≡ sess.file_metas)
      × ((is_folder_transfer sess).0.file_tokens ≡ sess.file_tokens)
unfolding is_folder_transfer
is_folder_transfer-keeps sess = ground arith

upload_to-Answered :
    (fr : FileReceiver) (disk : Disk) (env : Env) (req : UploadReq) (sess : RecvSession)
    (o : Option FileMeta)
    → lookup req.session_id fr.sessman.sessions ≡ some sess
    → NoRemoveFaults env
    → Answered fr.sessman.sessions disk.files env req (upload_to fr disk env req sess o)
upload_to-Answered fr disk env req sess none k n = inr ((λ e. ground arith), refl)
upload_to-Answered fr disk env req sess (some meta) k n =
    let (fm, ft) = is_folder_transfer-keeps sess in
    let (sess', is_folder) = is_folder_transfer sess in
    let save_dir = get_save_dir_for_session fr is_folder meta.filename in
    answer_upload-Answered fr disk env req sess sess'
      (save_file sess' disk env save_dir req.file_id req.token req.ip req.body) k fm ft n
      (save_file-Ends sess' disk env save_dir req.file_id req.token req.ip req.body)

upload_found-Answered :
    (fr : FileReceiver) (disk : Disk) (env : Env) (req : UploadReq) (r : Result RecvSession)
    → get_session fr.sessman req.session_id ≡ r
    → NoRemoveFaults env
    → Answered fr.sessman.sessions disk.files env req (upload_found fr disk env req r)
unfolding get_session
upload_found-Answered fr disk env req (err e) g n = inr ((λ e. ground arith), refl)
upload_found-Answered fr disk env req (ok sess) g n =
    upload_to-Answered fr disk env req sess (lookup req.file_id sess.file_metas) (ground (arith, g))
      n

-- Where no removal fails, an upload is answered with 200, and then the session is one of the
-- receiver's, the file is one of the session's, the token is the file's, and the body is stored as
-- one new file of the declared size and checksum, with no other file changed; or it has another
-- answer, and then all files are as they were.
pub upload_handler-Answered :
    (fr : FileReceiver) (disk : Disk) (env : Env) (req : UploadReq)
    → NoRemoveFaults env
    → Answered fr.sessman.sessions disk.files env req (upload_handler fr disk env req)
unfolding upload_handler
upload_handler-Answered fr disk env req n =
    if_cases (Answered fr.sessman.sessions disk.files env req)
      (str_eq req.session_id [] || str_eq req.file_id [] || str_eq req.token []) _ _
      (λ _. inr ((λ e. ground arith), refl)) (λ _. upload_found-Answered fr disk env req _ refl n)
