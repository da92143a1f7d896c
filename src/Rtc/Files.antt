-- ===== src/Rtc/Files.antt =====
-- The files of a transfer in webrtc/transfer/receiver.go: from their names and tokens to the frames
-- that are written. A file that cannot be removed keeps what a flush has written; the bytes that a
-- writer passes on before its flush are not modelled.

use pdf_to_epub.FilePath.{dir, base, ext, join, contains, contains_byte}
use pdf_to_epub.FolderRemap.{new_folder_remapper, apply}
use pdf_to_epub.Prelude.{
  Bool, true, false, not, ◌||◌, Option, none, some, List, [], ◌∷◌, if◌then◌else◌, Str, codes,
  str_eq, map,
}
use pdf_to_epub.Prelude.Map.{Map, lookup, insert, has}
use pdf_to_epub.Rtc.{RtcFile}
use pdf_to_epub.Rtc.Receiver.{
  wait_files, receiving_files, Writer, Env, RtcReceiver, tick, mark_transfer_started, drop_peer,
}
use pdf_to_epub.Sanitize.{PathResult, ok, err, sanitize_path_with_fallback, is_folder_transfer}
use pdf_to_epub.Session.Body.{lower}
use pdf_to_epub.Session.Save.{mkdir_all, is_plain}
use pdf_to_epub.UniqueFile.{file, no_file, create}

-- `rebuildFileIndex`: of two files with the same identifier the first one counts.
unfoldable pub rebuild_file_index : List RtcFile → Map RtcFile → Map RtcFile
rebuild_file_index [] index = index
rebuild_file_index (f ∷ files) index =
    rebuild_file_index files (if has f.id index then index else insert f.id f index)

unfoldable pub find_file : Str → List RtcFile → Option RtcFile
find_file id [] = none
find_file id (f ∷ files) = if str_eq f.id id then some f else find_file id files

unfoldable pub file_meta_by_id : RtcReceiver → Str → Option RtcFile
file_meta_by_id r id = elim (lookup id r.file_by_id) [
  | some meta ↦ some meta
  | none ↦ find_file id r.files
]

-- A name without a NUL byte that can be sanitized.
abbrev pub usable_path : Str → Option Str
usable_path name =
    if contains_byte 0 name
    then none
    else elim (sanitize_path_with_fallback name) [ err e ↦ none | ok path ↦ some path ]

unfoldable pub usable_paths : List RtcFile → List Str
usable_paths [] = []
usable_paths (f ∷ files) = elim (usable_path f.file_name) [
  | none ↦ usable_paths files
  | some path ↦ path ∷ usable_paths files
]

-- An error leaves the remapping as it was.
unfoldable pub prepare_folder_remap : Env → RtcReceiver → RtcReceiver
prepare_folder_remap env r =
    elim (new_folder_remapper r.disk env.faults r.save_dir (usable_paths r.files)) [
      | none ↦ r
      | some remap ↦ record r { folder_remap = some remap }
    ]

unfoldable pub apply_folder_remap : RtcReceiver → Str → Str
apply_folder_remap r path = elim r.folder_remap [ none ↦ path | some remap ↦ apply remap path ]

abbrev pub is_usable : RtcReceiver → Str → Bool
is_usable r id = elim (file_meta_by_id r id) [
  | none ↦ false
  | some meta ↦ elim (usable_path meta.file_name) [ none ↦ false | some path ↦ true ]
]

-- One round of the loop: a token for the file, in the receiver and in the answer.
abbrev pub prepare_file : Env → Str → RtcReceiver × Map Str → RtcReceiver × Map Str
prepare_file env id (r, tokens) =
    if is_usable r id
    then (let token = env.secure_token r.ticks in
        (tick (record r { file_tokens = insert id token r.file_tokens }), insert id token tokens))
    else (r, tokens)

unfoldable pub prepare_loop : Env → List Str → RtcReceiver × Map Str → RtcReceiver × Map Str
prepare_loop env [] p = p
prepare_loop env (id ∷ ids) p = prepare_loop env ids (prepare_file env id p)

unfoldable pub prepare_files_for_receive : Env → List Str → RtcReceiver → RtcReceiver × Map Str
prepare_files_for_receive env ids r = prepare_loop env ids (prepare_folder_remap env r, [])

-- `isFolderTransfer`, which keeps its answer; an earlier yes is not taken back.
unfoldable pub check_folder_transfer : RtcReceiver → RtcReceiver
check_folder_transfer r = if r.folder_transfer_known then r else record r {
  folder_transfer = r.folder_transfer || is_folder_transfer (map (λ f. f.file_name) r.files);
  folder_transfer_known = true;
}

abbrev pub or_dir : Str → Option Str → Str
or_dir d none = d
or_dir d (some routed) = routed

-- The directory by the extension, which is given with its dot.
abbrev pub routed_dir : Str → Map Str → Str → Str
routed_dir save_dir routes [] = save_dir
routed_dir save_dir routes (dot ∷ extension) = elim (lookup (map lower extension) routes) [
  | some d ↦ d
  | none ↦ or_dir save_dir (lookup (codes "default") routes)
]

-- `getSaveDir` once `isFolderTransfer` has its answer.
unfoldable pub get_save_dir : RtcReceiver → Str → Str
get_save_dir r filename = if r.folder_transfer then r.save_dir else elim r.ext_routes [
  | none ↦ r.save_dir
  | some routes ↦ routed_dir r.save_dir routes (ext filename)
]

unfoldable pub ensure_save_dir : Env → Str → RtcReceiver → Option RtcReceiver
ensure_save_dir env d r =
    if contains r.ensured_dirs d then some r else elim (mkdir_all r.disk env.faults d) [
      | none ↦ none
      | some disk ↦ some (record r { disk = disk; ensured_dirs = d ∷ r.ensured_dirs })
    ]

unfoldable pub validate_file_header : RtcReceiver → Str → Str → Bool
validate_file_header r id token = elim (lookup id r.file_tokens) [
  | none ↦ false
  | some expected ↦ str_eq token expected
]

unfoldable pub reject_file_transfer : RtcReceiver → RtcReceiver
reject_file_transfer r = record (drop_peer r) { current_file_id = []; state = wait_files }

-- From the open file on.
abbrev pub begin_file : RtcFile → Str → Str → RtcReceiver → RtcReceiver
begin_file meta id path r =
    let w : Writer = record {
      path = path;
      content = [];
      failed = false;
      hashed = not (str_eq meta.sha256 []);
    } in
    record (mark_transfer_started (record r { writers = insert id w r.writers })) {
      current_file_id = id;
      current_bytes = 0;
      state = receiving_files;
    }

abbrev pub create_file : Env → RtcFile → Str → Str → Str → RtcReceiver → RtcReceiver
create_file env meta id d name r =
    let (hints, made) = create r.unique_files r.disk env.faults d name in
    elim made [
      | no_file ↦ reject_file_transfer r
      | file disk path used ↦
          begin_file meta id path (record r { disk = disk; unique_files = hints })
    ]

abbrev pub open_in :
    Env → RtcFile → Str → Str → Str → RtcReceiver → Option RtcReceiver → RtcReceiver
open_in env meta id d name r none = reject_file_transfer r
open_in env meta id d name r (some made) = create_file env meta id d name made

-- The directory and the file for a path.
unfoldable pub open_file : Env → RtcFile → Str → Str → RtcReceiver → RtcReceiver
open_file env meta id path r =
    let checked = check_folder_transfer r in
    let save_dir = get_save_dir checked meta.file_name in
    let d = if is_plain (dir path) then save_dir else join save_dir (dir path) in
    open_in env meta id d (base path) checked (ensure_save_dir env d checked)

abbrev pub open_sanitized : Env → RtcFile → Str → RtcReceiver → PathResult → RtcReceiver
open_sanitized env meta id r (err e) = reject_file_transfer r
open_sanitized env meta id r (ok path) = open_file env meta id (apply_folder_remap r path) r

abbrev pub open_known : Env → Str → RtcReceiver → Option RtcFile → RtcReceiver
open_known env id r none = reject_file_transfer r
open_known env id r (some meta) =
    open_sanitized env meta id r (sanitize_path_with_fallback meta.file_name)

unfoldable pub start_receiving_file : Env → Str → Str → RtcReceiver → RtcReceiver
start_receiving_file env id token r =
    if not (validate_file_header r id token)
    then reject_file_transfer r
    else open_known env id r (file_meta_by_id r id)
