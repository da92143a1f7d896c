-- ===== src/Session/Save.antt =====
-- `SaveFile` of session/recv.go, and what it calls on the way. File times, which are set on a saved
-- file as far as the file system allows, are left out.
use pdf_to_epub.Disk.{Disk, Faults, Opened, created, already_exists, open_exclusive}
use pdf_to_epub.Disk
use pdf_to_epub.Errors.{TransferError, file_io, invalid_body}
use pdf_to_epub.FilePath.{here, dir, base, join, contains}
use pdf_to_epub.FolderRemap.{new_folder_remapper, apply}
use pdf_to_epub.Prelude.{
  Bool, ◌||◌, Option, none, some, List, [], ◌∷◌, if◌then◌else◌, Str, str_eq, map,
}
use pdf_to_epub.Prelude.Map.{Map, lookup, insert, delete, has}
use pdf_to_epub.Sanitize.{PathResult, sanitize_path_with_fallback}
use pdf_to_epub.Sanitize
use pdf_to_epub.Session.{
  FileMeta, UploadStatus, finished, failed, RemapOnce, not_done, remap_failed, remap_done,
  RecvSession, Result, ok, err, begin_attempt, finish_file_attempt,
}
use pdf_to_epub.Session.Body.{
  Body, Env, Activity, Read, read_limited, read_limit, judge, Verdict, accepted, refused,
}
use pdf_to_epub.UniqueFile.{file, no_file, create}

abbrev pub filenames : Map FileMeta → List Str
filenames = map (λ e. e.1.filename)

abbrev pub remap_result : Option (Map Str) → RemapOnce
remap_result none = remap_failed
remap_result (some remap) = remap_done remap

-- `prepareFolderRemap`: computed by the first call, and kept.
unfoldable pub prepare_folder_remap : RecvSession → Disk → Faults → Str → RecvSession
prepare_folder_remap sess disk faults save_dir = elim sess.folder_remap [
  | not_done ↦ record sess {
    folder_remap =
        remap_result (new_folder_remapper disk faults save_dir (filenames sess.file_metas));
  }
  | _ ↦ sess
]

-- `os.MkdirAll`
unfoldable pub mkdir_all : Disk → Faults → Str → Option Disk
mkdir_all disk faults d =
    if has d disk.files || faults.mkdir d then none else some (record disk { dirs = d ∷ disk.dirs })

unfoldable pub ensure_save_dir : RecvSession → Disk → Faults → Str → Option (RecvSession × Disk)
ensure_save_dir sess disk faults d =
    if contains sess.ensured_dirs d then some (sess, disk) else elim (mkdir_all disk faults d) [
      | none ↦ none
      | some disk' ↦ some (record sess { ensured_dirs = d ∷ sess.ensured_dirs }, disk')
    ]

-- What one attempt leaves.
pub record Attempt : Type 0 where
  pub sess : RecvSession
  pub disk : Disk
  pub status : UploadStatus
  pub result : Result Str

abbrev pub give_up : RecvSession → Disk → TransferError → Attempt
give_up sess disk e = record { sess = sess; disk = disk; status = failed; result = err e }

abbrev pub is_plain : Str → Bool
is_plain sub_dir = str_eq sub_dir here || str_eq sub_dir []

-- The name that is reported: below the same subdirectory.
abbrev pub saved_name : Str → Str → Str
saved_name sub_dir save_as = if is_plain sub_dir then base save_as else join sub_dir (base save_as)

-- The deferred removal of a partial file.
abbrev pub discard : Disk → Env → Str → Str → Disk
discard disk env path content =
    if env.faults.remove path
    then record disk { files = insert path (env.left content) disk.files }
    else record disk { files = delete path disk.files }

abbrev pub write_file : RecvSession → Disk → Env → Str → Str → Read → Verdict → Attempt
write_file sess disk env sub_dir path r accepted = record {
  sess = sess;
  disk = record disk { files = insert path r.content disk.files };
  status = finished;
  result = ok (saved_name sub_dir path);
}
write_file sess disk env sub_dir path r (refused e status) = record {
  sess = sess;
  disk = discard disk env path r.content;
  status = status;
  result = err e;
}

-- From the open file on.
unfoldable pub receive_body : RecvSession → Disk → Env → FileMeta → Str → Str → Body → Attempt
receive_body sess disk env meta sub_dir path body =
    let a : Activity = record { last_activity = sess.last_activity; last_update = 0 } in
    let r = read_limited (read_limit meta.size) a body.fails body.chunks in
    write_file (record sess { last_activity = r.activity.last_activity }) disk env sub_dir path r
      (judge env meta path r)

abbrev pub with_target : Str → Str → RecvSession → RecvSession
with_target file_id path sess = elim (lookup file_id sess.file_states) [
  | none ↦ sess
  | some state ↦ record sess {
    file_states = insert file_id (record state { target_path = path }) sess.file_states;
  }
]

-- The target: the one of an earlier attempt, or a unique name in the directory.
unfoldable pub open_target :
    RecvSession → Disk → Faults → Str → Str → Str → Str → Option (RecvSession × Disk × Str)
open_target sess disk faults file_id target full_dir base_name =
    if str_eq target []
    then (let (hints, made) = create sess.unique_files disk faults full_dir base_name in
        elim made [
          | file disk' path used ↦
              some (with_target file_id path (record sess { unique_files = hints }), disk', path)
          | no_file ↦ none
        ])
    else elim (open_exclusive disk faults target) [
      | created disk' ↦ some (sess, disk', target)
      | already_exists ↦ none
      | Disk.failed ↦ none
    ]

abbrev pub remap_path : RemapOnce → Str → Str
remap_path (remap_done remap) path = apply remap path
remap_path _ path = path

-- The directory and the open file for a sanitized path.
unfoldable pub place : RecvSession → Disk → Env → Str → Str → FileMeta → Str → Body → Str → Attempt
place sess disk env save_dir file_id meta target body path =
    let sub_dir = dir path in
    let full_dir = if is_plain sub_dir then save_dir else join save_dir sub_dir in
    elim (ensure_save_dir sess disk env.faults full_dir) [
      | none ↦ give_up sess disk file_io
      | some (sess', disk') ↦
          elim (open_target sess' disk' env.faults file_id target full_dir (base path)) [
            | none ↦ give_up sess' disk' file_io
            | some (sess'', disk'', save_as) ↦
                receive_body sess'' disk'' env meta sub_dir save_as body
          ]
    ]

abbrev pub remapped :
    RecvSession → Disk → Env → Str → Str → FileMeta → Str → Body → Str → RemapOnce → Attempt
remapped sess disk env save_dir file_id meta target body path remap_failed =
    give_up sess disk file_io
remapped sess disk env save_dir file_id meta target body path once =
    place sess disk env save_dir file_id meta target body (remap_path once path)

-- `SaveFile` after the attempt has begun.
unfoldable pub run_attempt : RecvSession → Disk → Env → Str → Str → FileMeta → Str → Body → Attempt
run_attempt sess disk env save_dir file_id meta target body =
    elim (sanitize_path_with_fallback meta.filename) [
      | Sanitize.err e ↦ give_up sess disk invalid_body
      | Sanitize.ok path ↦
          let prepared = prepare_folder_remap sess disk env.faults save_dir in
          remapped prepared disk env save_dir file_id meta target body path prepared.folder_remap
    ]

abbrev pub finish_attempt : Str → Attempt → RecvSession × Disk × Result Str
finish_attempt file_id a = (finish_file_attempt a.sess file_id a.status, a.disk, a.result)

abbrev pub save_begun :
    RecvSession
    → Disk
    → Env
    → Str
    → Str
    → Body
    → Result (RecvSession × FileMeta × Str)
    → RecvSession × Disk × Result Str
save_begun sess disk env save_dir file_id body (err e) = (sess, disk, err e)
save_begun sess disk env save_dir file_id body (ok (begun, meta, target)) =
    finish_attempt file_id (run_attempt begun disk env save_dir file_id meta target body)

-- `SaveFile`: the session, the disk and what is returned.
unfoldable pub save_file :
    RecvSession → Disk → Env → Str → Str → Str → Str → Body → RecvSession × Disk × Result Str
save_file sess disk env save_dir file_id token client_ip body =
    save_begun sess disk env save_dir file_id body (begin_attempt sess file_id token client_ip)
