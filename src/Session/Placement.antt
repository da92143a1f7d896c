-- ===== src/Session/Placement.antt =====
-- Where `SaveFile` of session/recv.go puts a file: the directory, the new file in it, and the disk
-- after every early return on the way.
use mathlib.Core.Path.{subst}
use pdf_to_epub.FolderRemap.{apply}
use pdf_to_epub.Session.Outcome.{SoundAttempt, receive_body-Sound}
use pdf_to_epub.Disk.{Disk, Faults, Opened, created, already_exists, open_exclusive, exists}
use pdf_to_epub.Errors.{TransferError, file_io, invalid_body}
use pdf_to_epub.FilePath.{dir, base}
use pdf_to_epub.Prelude.{
  false, Option, none, some, List, [], Str, str_eq, ◌≡◌, inl, inr, refl, ap, arith, Bool-cases,
}
use pdf_to_epub.Prelude.Map.{Map, lookup, insert}
use pdf_to_epub.Sanitize.{PathResult, sanitize_path_with_fallback}
use pdf_to_epub.Sanitize
use pdf_to_epub.Session.{FileMeta, RemapOnce, not_done, remap_failed, remap_done, RecvSession}
use pdf_to_epub.Session.Body.{Body, Env}
use pdf_to_epub.Session.Save.{
  receive_body, open_target, place, remapped, run_attempt, ensure_save_dir, prepare_folder_remap,
  mkdir_all, with_target, give_up,
}
use pdf_to_epub.UniqueFile.{Created, file, no_file, Hint}
use pdf_to_epub.UniqueFile.Create.{open_exclusive-IsFresh, create-Allocated, Allocated, IsFresh}

-- The file that is opened is new.
abbrev IsNew : Map Str → Disk → Str → Type 0
IsNew before disk' path = (lookup path before ≡ none) × (disk'.files ≡ insert path [] before)

not_exists : (disk : Disk) (path : Str) → exists disk path ≡ false → lookup path disk.files ≡ none
unfolding exists
not_exists disk path h = ground arith

IsFresh-IsNew :
    (disk : Disk) (faults : Faults) (path : Str) (disk' : Disk)
    → IsFresh disk faults path disk'
    → IsNew disk.files disk' path
IsFresh-IsNew disk faults path disk' f =
    (not_exists disk path f.was_free, ap (λ (d : Disk). d.files) f.made)

abbrev OpensNew : Map Str → Option (RecvSession × Disk × Str) → Type 0
OpensNew before none = Unit
OpensNew before (some (sess, disk', path)) = IsNew before disk' path

created-OpensNew :
    (sess : RecvSession) (disk : Disk) (faults : Faults) (file_id full_dir base_name : Str)
    (hints hints' : List Hint) (made : Created)
    → Allocated hints disk faults full_dir base_name (hints', made)
    → OpensNew disk.files (elim made [
      | file disk' path used ↦
          some (with_target file_id path (record sess { unique_files = hints' }), disk', path)
      | no_file ↦ none
    ])
created-OpensNew sess disk faults file_id full_dir base_name hints hints' (file disk' path used) a =
    IsFresh-IsNew disk faults path disk' a.0.0
created-OpensNew sess disk faults file_id full_dir base_name hints hints' no_file a = tt

reopened-OpensNew :
    (sess : RecvSession) (disk : Disk) (faults : Faults) (target : Str) (o : Opened)
    → open_exclusive disk faults target ≡ o
    → OpensNew disk.files (elim o [
      | created disk' ↦ some (sess, disk', target)
      | already_exists ↦ none
      | Opened.failed ↦ none
    ])
reopened-OpensNew sess disk faults target (created disk') e =
    IsFresh-IsNew disk faults target disk' (open_exclusive-IsFresh disk faults target disk' e)
reopened-OpensNew sess disk faults target already_exists e = tt
reopened-OpensNew sess disk faults target Opened.failed e = tt

open_target-OpensNew :
    (sess : RecvSession) (disk : Disk) (faults : Faults) (file_id target full_dir base_name : Str)
    → OpensNew disk.files (open_target sess disk faults file_id target full_dir base_name)
unfolding open_target
open_target-OpensNew sess disk faults file_id target full_dir base_name =
    elim (Bool-cases (str_eq target [])) [
      | inl e ↦ rw e (
          created-OpensNew sess disk faults file_id full_dir base_name sess.unique_files _ _
            (create-Allocated sess.unique_files disk faults full_dir base_name))
      | inr e ↦ rw e (reopened-OpensNew sess disk faults target _ refl)
    ]

give_up-Sound :
    (sess : RecvSession) (disk : Disk) (env : Env) (meta : FileMeta) (body : Body)
    (before : Map Str) (e : TransferError)
    → disk.files ≡ before
    → SoundAttempt env meta body before (give_up sess disk e)
give_up-Sound sess disk env meta body before e h = ((λ q. ground arith), λ ok. h)

ensure_save_dir-files :
    (sess : RecvSession) (disk : Disk) (faults : Faults) (d : Str) (sess' : RecvSession)
    (disk' : Disk)
    → ensure_save_dir sess disk faults d ≡ some (sess', disk')
    → disk'.files ≡ disk.files
unfolding ensure_save_dir mkdir_all
ensure_save_dir-files sess disk faults d sess' disk' h = ground arith

place_opened :
    (sess : RecvSession) (disk : Disk) (env : Env) (meta : FileMeta) (sub_dir : Str) (body : Body)
    (before : Map Str) (o : Option (RecvSession × Disk × Str))
    → disk.files ≡ before
    → OpensNew before o
    → SoundAttempt env meta body before (elim o [
      | none ↦ give_up sess disk file_io
      | some (sess', disk', save_as) ↦ receive_body sess' disk' env meta sub_dir save_as body
    ])
place_opened sess disk env meta sub_dir body before none h n =
    give_up-Sound sess disk env meta body before file_io h
place_opened sess disk env meta sub_dir body before (some (sess', disk', save_as)) h n =
    receive_body-Sound sess' disk' env meta sub_dir save_as body before n.0 n.1

place_ensured :
    (sess : RecvSession) (disk : Disk) (env : Env) (file_id : Str) (meta : FileMeta)
    (target sub_dir full_dir base_name : Str) (body : Body) (o : Option (RecvSession × Disk))
    → ((sess' : RecvSession) (disk' : Disk) → o ≡ some (sess', disk') → disk'.files ≡ disk.files)
    → SoundAttempt env meta body disk.files (elim o [
      | none ↦ give_up sess disk file_io
      | some (sess', disk') ↦
          elim (open_target sess' disk' env.faults file_id target full_dir base_name) [
            | none ↦ give_up sess' disk' file_io
            | some (sess'', disk'', save_as) ↦
                receive_body sess'' disk'' env meta sub_dir save_as body
          ]
    ])
place_ensured sess disk env file_id meta target sub_dir full_dir base_name body none h =
    give_up-Sound sess disk env meta body disk.files file_io refl
place_ensured sess disk env file_id meta target sub_dir full_dir base_name body (some (s, d)) h =
    let e = h s d refl in
    place_opened s d env meta sub_dir body disk.files _ e (
      subst (λ b. OpensNew b (open_target s d env.faults file_id target full_dir base_name)) e
        (open_target-OpensNew s d env.faults file_id target full_dir base_name))

place-Sound :
    (sess : RecvSession) (disk : Disk) (env : Env) (save_dir file_id : Str) (meta : FileMeta)
    (target : Str) (body : Body) (path : Str)
    → SoundAttempt env meta body disk.files
        (place sess disk env save_dir file_id meta target body path)
unfolding place
place-Sound sess disk env save_dir file_id meta target body path =
    place_ensured sess disk env file_id meta target (dir path) _ (base path) body _
      (λ s d e. ensure_save_dir-files sess disk env.faults _ s d e)

remapped-Sound :
    (sess : RecvSession) (disk : Disk) (env : Env) (save_dir file_id : Str) (meta : FileMeta)
    (target : Str) (body : Body) (path : Str) (once : RemapOnce)
    → SoundAttempt env meta body disk.files
        (remapped sess disk env save_dir file_id meta target body path once)
remapped-Sound sess disk env save_dir file_id meta target body path remap_failed =
    give_up-Sound sess disk env meta body disk.files file_io refl
remapped-Sound sess disk env save_dir file_id meta target body path not_done =
    place-Sound sess disk env save_dir file_id meta target body path
remapped-Sound sess disk env save_dir file_id meta target body path (remap_done m) =
    place-Sound sess disk env save_dir file_id meta target body (apply m path)

run_sanitized :
    (sess : RecvSession) (disk : Disk) (env : Env) (save_dir file_id : Str) (meta : FileMeta)
    (target : Str) (body : Body) (r : PathResult)
    → SoundAttempt env meta body disk.files (elim r [
      | Sanitize.err e ↦ give_up sess disk invalid_body
      | Sanitize.ok path ↦
          let prepared = prepare_folder_remap sess disk env.faults save_dir in
          remapped prepared disk env save_dir file_id meta target body path prepared.folder_remap
    ])
run_sanitized sess disk env save_dir file_id meta target body (Sanitize.err e) =
    give_up-Sound sess disk env meta body disk.files invalid_body refl
run_sanitized sess disk env save_dir file_id meta target body (Sanitize.ok path) =
    remapped-Sound _ disk env save_dir file_id meta target body path _

pub run_attempt-Sound :
    (sess : RecvSession) (disk : Disk) (env : Env) (save_dir file_id : Str) (meta : FileMeta)
    (target : Str) (body : Body)
    → SoundAttempt env meta body disk.files
        (run_attempt sess disk env save_dir file_id meta target body)
unfolding run_attempt
run_attempt-Sound sess disk env save_dir file_id meta target body =
    run_sanitized sess disk env save_dir file_id meta target body _
