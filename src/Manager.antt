-- ===== src/Manager.antt =====
-- koreader-plugin/internal/localsend/session/recvsessman.go: the sessions of a receiver. Each method
-- holds `admissionMu` or works on one entry of the map. `uuid n` is the text that the `n`th call of
-- `uuid.NewString` returns, and `n` counts the calls made.
pub mod Admission
pub mod Setup
pub mod Cancel
use pdf_to_epub.Errors.{
  TransferError, invalid_body, rejected, blocked_by_others, too_many_sessions, not_found,
}
use pdf_to_epub.Prelude.{
  ℕ, zero, suc, ◌+◌, Bool, true, false, not, ◌&&◌, ◌||◌, Option, none, some, List, [], ◌∷◌, leb,
  if◌then◌else◌, Str, str_eq, length,
}
use pdf_to_epub.Prelude.Map.{Map, lookup, insert, delete}
use pdf_to_epub.Session.{
  FileMeta, RecvSession, Result, ok, err, new_recv_session, accept_file, start, end_session,
  stopped,
}

-- MaxConcurrentSessions
abbrev pub max_concurrent_sessions : ℕ
max_concurrent_sessions = 100

pub record RecvSessManager : Type 0 where
  pub sessions : Map RecvSession

unfoldable pub new_recv_sess_manager : RecvSessManager
new_recv_sess_manager = record { sessions = [] }

unfoldable pub drop_stopped : ℕ → Map RecvSession → Map RecvSession
drop_stopped now [] = []
drop_stopped now ((id, sess) ∷ m) =
    let rest = drop_stopped now m in if stopped sess now then rest else (id, sess) ∷ rest

-- One tick of `vacuumTask`.
unfoldable pub vacuum : RecvSessManager → ℕ → RecvSessManager
vacuum rsm now = record rsm { sessions = drop_stopped now rsm.sessions }

unfoldable pub get_session : RecvSessManager → Str → Result RecvSession
get_session rsm session_id = elim (lookup session_id rsm.sessions) [
  | none ↦ err not_found
  | some sess ↦ ok sess
]

unfoldable pub any_active : ℕ → Map RecvSession → Bool
any_active now [] = false
any_active now ((id, sess) ∷ m) = not (stopped sess now) || any_active now m

unfoldable pub has_active_sessions : RecvSessManager → ℕ → Bool
has_active_sessions rsm now = any_active now rsm.sessions

-- The loop of `newSessionLocked` over the files, each with a fresh token.
unfoldable pub accept_all : RecvSession → (ℕ → Str) → ℕ → Map FileMeta → Result (RecvSession × ℕ)
accept_all sess uuid n [] = ok (sess, n)
accept_all sess uuid n ((file_id, meta) ∷ files) = elim (accept_file sess file_id meta (uuid n)) [
  | err e ↦ err e
  | ok sess' ↦ accept_all sess' uuid (suc n) files
]

abbrev pub store :
    RecvSessManager → Str → Result (RecvSession × ℕ) → Result (RecvSessManager × Str × ℕ)
store rsm session_id (err e) = err e
store rsm session_id (ok (sess, n)) =
    ok (record rsm { sessions = insert session_id (start sess) rsm.sessions }, session_id, n)

unfoldable pub new_session_locked :
    RecvSessManager → Map FileMeta → Str → ℕ → (ℕ → Str) → ℕ → Result (RecvSessManager × Str × ℕ)
new_session_locked rsm files client_ip now uuid n =
    if leb max_concurrent_sessions (length rsm.sessions)
    then err too_many_sessions
    else store rsm (uuid n)
        (accept_all (new_recv_session (uuid n) client_ip now) uuid (suc n) files)

unfoldable pub create_session_if_allowed :
    RecvSessManager → Map FileMeta → Str → ℕ → (ℕ → Str) → ℕ → Result (RecvSessManager × Str × ℕ)
create_session_if_allowed rsm [] client_ip now uuid n = err invalid_body
create_session_if_allowed rsm (f ∷ files) client_ip now uuid n =
    if has_active_sessions rsm now
    then err blocked_by_others
    else new_session_locked rsm (f ∷ files) client_ip now uuid n

-- `LoadAndDelete`, then `End` on the session, which a running upload may still hold.
unfoldable pub kill_session : RecvSessManager → Str → RecvSessManager × Option RecvSession
kill_session rsm session_id = elim (lookup session_id rsm.sessions) [
  | none ↦ (rsm, none)
  | some sess ↦
      (record rsm { sessions = delete session_id rsm.sessions }, some (end_session sess).0)
]

-- The error, if any, beside what `kill_session` leaves.
unfoldable pub kill_session_for_client :
    RecvSessManager → Str → Str → RecvSessManager × Option TransferError
kill_session_for_client rsm session_id client_ip = elim (lookup session_id rsm.sessions) [
  | none ↦ (rsm, none)
  | some sess ↦
      if not (str_eq sess.client_ip []) && not (str_eq sess.client_ip client_ip)
      then (rsm, some rejected)
      else ((kill_session rsm session_id).0, none)
]

-- The session id and the tokens by file, which the sender is given.
unfoldable pub generate_pre_upload_resp : RecvSessManager → Str → Result (Str × Map Str)
generate_pre_upload_resp rsm session_id = elim (lookup session_id rsm.sessions) [
  | none ↦ err not_found
  | some sess ↦ ok (session_id, sess.file_tokens)
]
