-- ===== src/Upload.antt =====
-- koreader-plugin/internal/localsend/send/fwdsend.go: the sender over HTTP, with the files that send.go
-- keeps for it. What the HTTP client and Open give is a parameter. The two workers of Start take the
-- files one by one, and no file's upload depends on another's: the list of the errors stands for one
-- of their orders. The connections that a Cancel closes, and the addresses, are left out.
pub mod Whole
use pdf_to_epub.Errors.{TransferError, checksum, unknown, parse_error}
use pdf_to_epub.Prelude.{
  ℕ, zero, suc, Bool, true, false, not, Option, none, some, List, [], ◌∷◌, ltb, ◌==◌, if◌then◌else◌,
  Str, str_eq, length,
}
use pdf_to_epub.Prelude.Map.{Map, lookup}

-- What the sender uses of models.FileMeta; a size is not negative.
pub record LocalFile : Type 0 where
  pub filename : Str
  pub full_path : Str
  pub size : ℕ

-- PreUploadResp
pub record Prepared : Type 0 where
  pub session : Str
  pub tokens : Map Str

pub data SendError : Type 0 where
  transfer : TransferError → SendError
  open_failed too_large upload_failed request_failed decode_failed : SendError

pub data StartError : Type 0 where
  prepare_failed : SendError → StartError
  files_failed : ℕ → SendError → StartError

-- A request gives a status, or nothing where it fails; an upload is numbered by its attempt.
pub record Env : Type 0 where
  pub prepare : Str → Option (ℕ × Option Prepared)
  pub open_fails : Str → Bool
  pub max_int : ℕ
  pub upload : ℕ → Str → Str → Str → Option ℕ
  pub cancel : Str → Option ℕ

pub record ForwardSender : Type 0 where
  pub files : Map LocalFile
  pub tokens : Map Str
  pub session : Str
  pub pin : Str
  pub abort : Bool

abbrev pub max_upload_attempts : ℕ
max_upload_attempts = 3

abbrev pub as_send_error : Option TransferError → Option SendError
as_send_error none = none
as_send_error (some e) = some (transfer e)

abbrev pub status_error : Option ℕ → Option SendError
status_error none = some upload_failed
status_error (some status) = as_send_error (parse_error status)

abbrev pub send_known : Env → ForwardSender → ℕ → Str → Str → Option LocalFile → Option SendError
send_known env s attempt id token none = some (transfer unknown)
send_known env s attempt id token (some file) =
    if env.open_fails file.full_path
    then some open_failed
    else if ltb env.max_int file.size
    then some too_large
    else status_error (env.upload attempt id token s.session)

-- A sender that was canceled skips the file.
unfoldable pub send_file : Env → ForwardSender → ℕ → Str → Str → Option SendError
send_file env s attempt id token =
    if s.abort then none else send_known env s attempt id token (lookup id s.files)

abbrev pub is_checksum : Option SendError → Bool
is_checksum (some (transfer checksum)) = true
is_checksum _ = false

-- The loop, with the attempts that are left and the last error.
unfoldable pub send_attempts :
    Env → ForwardSender → Str → Str → ℕ → ℕ → Option SendError → Option SendError
send_attempts env s id token attempt zero e = e
send_attempts env s id token attempt (suc rounds) e =
    let here = send_file env s attempt id token in
    let later = send_attempts env s id token (suc attempt) rounds here in
    if not (is_checksum here) then here else later

unfoldable pub send_file_with_retry : Env → ForwardSender → Str → Str → Option SendError
send_file_with_retry env s id token = send_attempts env s id token 0 max_upload_attempts none

abbrev pub keep_prepared : Option Prepared → ForwardSender → ForwardSender × Option SendError
keep_prepared none s = (s, some decode_failed)
keep_prepared (some p) s = (record s { session = p.session; tokens = p.tokens }, none)

abbrev pub read_prepared :
    Option (ℕ × Option Prepared) → ForwardSender → ForwardSender × Option SendError
read_prepared none s = (s, some request_failed)
read_prepared (some (status, body)) s = elim (parse_error status) [
  | some e ↦ (s, some (transfer e))
  | none ↦ keep_prepared body s
]

unfoldable pub pre_upload_req : Env → ForwardSender → ForwardSender × Option SendError
pre_upload_req env s = read_prepared (env.prepare s.pin) s

unfoldable pub cancel : Env → ForwardSender → ForwardSender × Option SendError
cancel env s =
    let s' = record s { abort = true } in
    if str_eq s.session [] then (s', none) else elim (env.cancel s.session) [
      | none ↦ (s', some request_failed)
      | some status ↦ (s', as_send_error (parse_error status))
    ]

abbrev pub cons_error : Option SendError → List SendError → List SendError
cons_error none errs = errs
cons_error (some e) errs = e ∷ errs

-- The uploads of the files.
unfoldable pub send_all : Env → ForwardSender → Map Str → List SendError
send_all env s [] = []
send_all env s ((id, token) ∷ tokens) =
    cons_error (send_file_with_retry env s id token) (send_all env s tokens)

-- An error of the cancel request is only logged.
abbrev pub finish : Env → ForwardSender → List SendError → ForwardSender × Option StartError
finish env s [] = (s, none)
finish env s (e ∷ errs) = ((cancel env s).0, some (files_failed (suc (length errs)) e))

abbrev pub start_prepared :
    Env → ForwardSender × Option SendError → ForwardSender × Option StartError
start_prepared env (s, some e) = (s, some (prepare_failed e))
start_prepared env (s, none) = finish env s (send_all env s s.tokens)

unfoldable pub start : Env → ForwardSender → ForwardSender × Option StartError
start env s = start_prepared env (pre_upload_req env s)
