-- ===== src/Session/Saved.antt =====
-- `SaveFile` of session/recv.go as a whole.
use mathlib.Core.Path.{subst}
use pdf_to_epub.Disk.{Disk}
use pdf_to_epub.Errors.{TransferError}
use pdf_to_epub.Prelude.{some, Str, ◌≡◌, refl, arith}
use pdf_to_epub.Prelude.Map.{Map, lookup}
use pdf_to_epub.Session.{FileMeta, UploadStatus, RecvSession, Result, ok, err, begin_attempt}
use pdf_to_epub.Session.Body.{Body, Env}
use pdf_to_epub.Session.Outcome.{Sound, IsSaved, NoRemoveFaults}
use pdf_to_epub.Session.Placement.{run_attempt-Sound}
use pdf_to_epub.Session.Save.{save_begun, save_file}

begin_attempt-meta :
    (sess : RecvSession) (file_id token client_ip : Str) (begun : RecvSession) (meta : FileMeta)
    (target : Str)
    → begin_attempt sess file_id token client_ip ≡ ok (begun, meta, target)
    → (lookup file_id sess.file_metas ≡ some meta) × (lookup file_id sess.file_tokens ≡ some token)
unfolding begin_attempt
begin_attempt-meta sess file_id token client_ip begun meta target h = ground arith

-- The two ways in which a call can end.
abbrev pub Ends : RecvSession → Map Str → Env → Str → Str → Body → Map Str → Result Str → Type 0
Ends sess before env file_id token body after (ok name) =
    (meta : FileMeta) × (path : Str) × (lookup file_id sess.file_metas ≡ some meta)
    × (lookup file_id sess.file_tokens ≡ some token)
    × IsSaved env meta body before after path
Ends sess before env file_id token body after (err e) = NoRemoveFaults env → after ≡ before

Ends-of_Sound :
    (sess : RecvSession) (before : Map Str) (env : Env) (file_id token : Str) (body : Body)
    (after : Map Str) (meta : FileMeta) (status : UploadStatus) (r : Result Str)
    → lookup file_id sess.file_metas ≡ some meta
    → lookup file_id sess.file_tokens ≡ some token
    → Sound env meta body before after status r
    → Ends sess before env file_id token body after r
Ends-of_Sound sess before env file_id token body after meta status (ok name) m t s =
    (meta, s.1, m, t, s.2)
Ends-of_Sound sess before env file_id token body after meta status (err e) m t s = s.1

save_begun-Ends :
    (sess : RecvSession) (disk : Disk) (env : Env) (save_dir file_id token client_ip : Str)
    (body : Body) (r : Result (RecvSession × FileMeta × Str))
    → begin_attempt sess file_id token client_ip ≡ r
    → let out = save_begun sess disk env save_dir file_id body r in
      Ends sess disk.files env file_id token body out.1.files out.2
save_begun-Ends sess disk env save_dir file_id token client_ip body (err e) h = λ ok. refl
save_begun-Ends sess disk env save_dir file_id token client_ip body (ok (begun, meta, target)) h =
    let (m, t) = begin_attempt-meta sess file_id token client_ip begun meta target h in
    Ends-of_Sound sess disk.files env file_id token body _ meta _ _ m t
      (run_attempt-Sound begun disk env save_dir file_id meta target body)

pub save_file-Ends :
    (sess : RecvSession) (disk : Disk) (env : Env) (save_dir file_id token client_ip : Str)
    (body : Body)
    → let out = save_file sess disk env save_dir file_id token client_ip body in
      Ends sess disk.files env file_id token body out.1.files out.2
unfolding save_file
save_file-Ends sess disk env save_dir file_id token client_ip body =
    save_begun-Ends sess disk env save_dir file_id token client_ip body _ refl

-- `SaveFile` that reports a file has received one of the session's files under its token: at a path
-- where nothing was, there now is what the client sent, of the declared size and, if there is one,
-- with the declared checksum, and no other file has changed.
pub save_file-IsSaved :
    (sess : RecvSession) (disk : Disk) (env : Env) (save_dir file_id token client_ip : Str)
    (body : Body) (name : Str)
    → (save_file sess disk env save_dir file_id token client_ip body).2 ≡ ok name
    → (meta : FileMeta) × (path : Str) × (lookup file_id sess.file_metas ≡ some meta)
      × (lookup file_id sess.file_tokens ≡ some token)
      × IsSaved env meta body disk.files
          (save_file sess disk env save_dir file_id token client_ip body).1.files
          path
save_file-IsSaved sess disk env save_dir file_id token client_ip body name h =
    subst (Ends sess disk.files env file_id token body _) h
      (save_file-Ends sess disk env save_dir file_id token client_ip body)

-- `SaveFile` that returns an error, where no removal fails, leaves every file as it was: a partial
-- file is gone.
pub save_file_unchanged :
    (sess : RecvSession) (disk : Disk) (env : Env) (save_dir file_id token client_ip : Str)
    (body : Body) (e : TransferError)
    → NoRemoveFaults env
    → (save_file sess disk env save_dir file_id token client_ip body).2 ≡ err e
    → (save_file sess disk env save_dir file_id token client_ip body).1.files ≡ disk.files
save_file_unchanged sess disk env save_dir file_id token client_ip body e n h =
    subst (Ends sess disk.files env file_id token body _) h
      (save_file-Ends sess disk env save_dir file_id token client_ip body) n
