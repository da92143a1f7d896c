-- ===== src/Session.antt =====
-- koreader-plugin/internal/localsend/session/recv.go: a receive session and the states of its files.
-- A method that changes the session returns the new one, as when no other call runs; Session/Atomic
-- has the parts that calls which overlap take in turn. The clock is an argument in nanoseconds since
-- the epoch.
pub mod Body
pub mod Save
pub mod Counting
pub mod Lifecycle
pub mod Atomic
pub mod Alone
pub mod Overlap
pub mod Steps
pub mod Outcome
pub mod Placement
pub mod Saved
pub mod Accepted
use pdf_to_epub.Errors.{
  TransferError, invalid_body, rejected, blocked_by_others, unknown, too_many_files,
  max_files_per_session,
}
use pdf_to_epub.FilePath.{slash, contains_byte}
use pdf_to_epub.Prelude.{
  ℕ, suc, ◌+◌, ◌-◌, ◌*◌, ◌/◌, Bool, true, false, not, ◌&&◌, ◌||◌, Option, none, some, List, [], ◌∷◌,
  ltb, leb, if◌then◌else◌, Str, str_eq, length, ◌≡◌, ◌⊎◌, inl, inr, refl,
}
use pdf_to_epub.Prelude.Int.{ℤ, pos, pred, succ, is_zero}
use pdf_to_epub.Prelude.Map.{Map, lookup, insert, has}
use pdf_to_epub.UniqueFile.{Hint}

pub record FileMeta : Type 0 where
  pub id : Str
  pub filename : Str
  pub size : ℤ
  pub checksum : Str

pub data UploadStatus : Type 0 where
  pending in_progress finished failed : UploadStatus

-- `attempts` is a uint8; an empty `target_path` means that none is chosen yet.
pub record UploadState : Type 0 where
  pub status : UploadStatus
  pub attempts : ℕ
  pub target_path : Str

-- What `folderRemapOnce` left: nothing yet, an error, or the remapper's map.
pub data RemapOnce : Type 0 where
  not_done remap_failed : RemapOnce
  remap_done : Map Str → RemapOnce

pub record RecvSession : Type 0 where
  pub files_count : ℤ
  pub last_activity : ℕ
  pub file_metas : Map FileMeta
  pub file_tokens : Map Str
  pub file_states : Map UploadState
  pub id : Str
  pub client_ip : Str
  pub started : Bool
  pub folder_remap : RemapOnce
  pub folder_transfer : Option Bool
  pub ensured_dirs : List Str
  pub unique_files : List Hint

abbrev pub nanos_per_second : ℕ
nanos_per_second = 1_000_000_000

-- SessionTimeout, one minute.
abbrev pub session_timeout : ℕ
session_timeout = 60_000_000_000

abbrev pub max_checksum_attempts : ℕ
max_checksum_attempts = 3

unfoldable pub new_recv_session : Str → Str → ℕ → RecvSession
new_recv_session session_id client_ip now = record {
  files_count = pos 0;
  last_activity = now / nanos_per_second;
  file_metas = [];
  file_tokens = [];
  file_states = [];
  id = session_id;
  client_ip = client_ip;
  started = false;
  folder_remap = not_done;
  folder_transfer = none;
  ensured_dirs = [];
  unique_files = [];
}

pub data Result {ℓ} (A : Type ℓ) : Type ℓ where
  ok : A → Result A
  err : TransferError → Result A

pub Result-cases {ℓ} :
    {A : Type ℓ} (r : Result A) → ((e : TransferError) × (r ≡ err e)) ⊎ ((a : A) × (r ≡ ok a))
Result-cases (ok a) = inr (a, refl)
Result-cases (err e) = inl (e, refl)

abbrev pub fresh_state : UploadState
fresh_state = record { status = pending; attempts = 0; target_path = [] }

-- `token` is the fresh `uuid.NewString()`.
unfoldable pub accept_file : RecvSession → Str → FileMeta → Str → Result RecvSession
accept_file sess file_id meta token =
    if not (str_eq file_id meta.id)
    then err unknown
    else if sess.started
    then err blocked_by_others
    else if leb max_files_per_session (length sess.file_metas)
    then err too_many_files
    else ok (record sess {
      file_metas = insert file_id meta sess.file_metas;
      file_tokens = insert file_id token sess.file_tokens;
      file_states = insert file_id fresh_state sess.file_states;
      files_count = succ sess.files_count;
    })

unfoldable pub start : RecvSession → RecvSession
start sess = record sess { started = true }

-- `End`: whether this call ended the session.
unfoldable pub end_session : RecvSession → RecvSession × Bool
end_session sess =
    if sess.started
    then (record sess { started = false; files_count = pos 0 }, true)
    else (sess, false)

unfoldable pub stopped : RecvSession → ℕ → Bool
stopped sess now =
    if ltb session_timeout (now - sess.last_activity * nanos_per_second)
    then true
    else not sess.started || is_zero sess.files_count

abbrev pub is_pending : UploadStatus → Bool
is_pending pending = true
is_pending _ = false

abbrev pub is_in_progress : UploadStatus → Bool
is_in_progress in_progress = true
is_in_progress _ = false

abbrev pub entered : UploadState → UploadState
entered state = record state { status = in_progress; attempts = state.attempts + 1 }

-- The three lookups of `SaveFile` and the checks on them, under the lock: the session with the file
-- in progress, the file's metadata, and the target chosen by an earlier attempt.
abbrev pub admit :
    RecvSession
    → Str
    → Str
    → Option FileMeta
    → Option Str
    → Option UploadState
    → Result (RecvSession × FileMeta × Str)
admit sess file_id token (some meta) (some expected) (some state) =
    if not (is_pending state.status) || not (str_eq expected token)
    then err rejected
    else ok (
      record sess { file_states = insert file_id (entered state) sess.file_states },
      meta,
      state.target_path,
    )
admit sess file_id token _ _ _ = err rejected

-- `SaveFile` up to the point where the attempt has begun.
unfoldable pub begin_attempt : RecvSession → Str → Str → Str → Result (RecvSession × FileMeta × Str)
begin_attempt sess file_id token client_ip =
    if str_eq sess.id [] || str_eq file_id [] || str_eq token []
    then err invalid_body
    else if not sess.started
    then err rejected
    else if not (str_eq sess.client_ip []) && not (str_eq client_ip sess.client_ip)
    then err rejected
    else admit sess file_id token (lookup file_id sess.file_metas) (lookup file_id sess.file_tokens)
        (lookup file_id sess.file_states)

-- The status that an attempt in progress is given, and whether it is terminal.
abbrev pub settle : UploadStatus → ℕ → UploadStatus × Bool
settle pending attempts =
    if ltb attempts max_checksum_attempts then (pending, false) else (failed, true)
settle finished attempts = (finished, true)
settle _ attempts = (failed, true)

abbrev pub count_down : RecvSession → Bool → RecvSession
count_down sess terminal =
    if terminal
    then (let counted = record sess { files_count = pred sess.files_count } in
        if is_zero counted.files_count then (end_session counted).0 else counted)
    else sess

abbrev pub with_status : RecvSession → Str → UploadState → UploadStatus → RecvSession
with_status sess file_id state status = record sess {
  file_states = insert file_id (record state { status = status }) sess.file_states;
}

abbrev pub settle_state : RecvSession → Str → UploadStatus → UploadState → RecvSession
settle_state sess file_id result state =
    let (status, terminal) = settle result state.attempts in
    count_down (with_status sess file_id state status) terminal

unfoldable pub finish_file_attempt : RecvSession → Str → UploadStatus → RecvSession
unfolding end_session
finish_file_attempt sess file_id result = elim (lookup file_id sess.file_states) [
  | none ↦ sess
  | some state ↦
      if is_in_progress state.status then settle_state sess file_id result state else sess
]

-- Whether a name in the session has a slash.
unfoldable pub any_folder : Map FileMeta → Bool
any_folder [] = false
any_folder ((id, meta) ∷ metas) = contains_byte slash meta.filename || any_folder metas

unfoldable pub is_folder_transfer : RecvSession → RecvSession × Bool
is_folder_transfer sess = elim sess.folder_transfer [
  | some b ↦ (sess, b)
  | none ↦ (
    record sess { folder_transfer = some (any_folder sess.file_metas) },
    any_folder sess.file_metas,
  )
]
