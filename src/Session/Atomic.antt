-- ===== src/Session/Atomic.antt =====
-- Uploads of one session that overlap: what each call of session/recv.go does at once, under the
-- lock or in one atomic access, with the calls of others between. The steps that change no field read
-- here, such as those on the caches of directories, are left out.
use pdf_to_epub.Prelude.{ℕ, suc, Bool, true, false, none, some, if◌then◌else◌, Str, ◌≡◌}
use pdf_to_epub.Prelude.Int.{pos, pred, is_zero}
use pdf_to_epub.Prelude.Map.{lookup}
use pdf_to_epub.Session.{
  FileMeta, UploadStatus, RecvSession, Result, ok, admit, settle, with_status, is_in_progress,
}
use pdf_to_epub.Session.Save.{with_target}

-- The session, and how many calls stand where: uploads that found it started and have not taken the
-- lock yet, attempts that are done and have not been counted off, those whose count came to zero and
-- that have not called `End`, and calls of `End` that have not reset the count.
pub record Shared : Type 0 where
  pub session : RecvSession
  pub tested : ℕ
  pub owed : ℕ
  pub ending : ℕ
  pub resetting : ℕ

abbrev pub idle : RecvSession → Shared
idle sess = record { session = sess; tested = 0; owed = 0; ending = 0; resetting = 0 }

-- `SaveFile` under its lock.
unfoldable pub enter : RecvSession → Str → Str → Result (RecvSession × FileMeta × Str)
enter sess file_id token =
    admit sess file_id token (lookup file_id sess.file_metas) (lookup file_id sess.file_tokens)
      (lookup file_id sess.file_states)

-- `finishFileAttempt` under its lock, and whether the attempt is then to be counted off.
unfoldable pub settle_locked : RecvSession → Str → UploadStatus → RecvSession × Bool
settle_locked sess file_id result = elim (lookup file_id sess.file_states) [
  | none ↦ (sess, false)
  | some state ↦
      if is_in_progress state.status
      then (
        with_status sess file_id state (settle result state.attempts).0,
        (settle result state.attempts).1,
      )
      else (sess, false)
]

abbrev pub settled : Shared → RecvSession × Bool → Shared
settled s (sess, terminal) = record s {
  session = sess;
  owed = if terminal then suc s.owed else s.owed;
}

-- The decrement of filesCount behind the lock, by one of `n + 1` attempts.
unfoldable pub count_off : ℕ → Shared → Shared
count_off n s =
    let sess = record s.session { files_count = pred s.session.files_count } in
    record s {
      session = sess;
      owed = n;
      ending = if is_zero sess.files_count then suc s.ending else s.ending;
    }

-- The compare-and-swap of `End`.
unfoldable pub swap_started : Shared → Shared
swap_started s =
    if s.session.started
    then record s { session = record s.session { started = false }; resetting = suc s.resetting }
    else s

abbrev pub reset_count : ℕ → Shared → Shared
reset_count n s = record s { session = record s.session { files_count = pos 0 }; resetting = n }

-- One of them. What the code refuses leaves the session alone. The tests in `SaveFile` before that of
-- `started` read nothing that changes, and an upload that they stop takes no step.
pub data Step (s t : Shared) : Type 0 where
  test : s.session.started ≡ true → t ≡ record s { tested = suc s.tested } → Step s t
  begin :
      (n : ℕ) (file_id token : Str) (begun : RecvSession) (meta : FileMeta) (target : Str)
      → s.tested ≡ suc n
      → enter s.session file_id token ≡ ok (begun, meta, target)
      → t ≡ record s { session = begun; tested = n }
      → Step s t
  give_up : (n : ℕ) → s.tested ≡ suc n → t ≡ record s { tested = n } → Step s t
  choose_target :
      (file_id path : Str)
      → t ≡ record s { session = with_target file_id path s.session }
      → Step s t
  touch : (now : ℕ) → t ≡ record s { session = record s.session { last_activity = now } } → Step s t
  settle_file :
      (file_id : Str) (result : UploadStatus)
      → t ≡ settled s (settle_locked s.session file_id result)
      → Step s t
  decrement : (n : ℕ) → s.owed ≡ suc n → t ≡ count_off n s → Step s t
  end_last : (n : ℕ) → s.ending ≡ suc n → t ≡ swap_started (record s { ending = n }) → Step s t
  cancel : t ≡ swap_started s → Step s t
  reset : (n : ℕ) → s.resetting ≡ suc n → t ≡ reset_count n s → Step s t

pub data Reach (s : Shared) : Shared → Type 0 where
  here : Reach s s
  next : {t u : Shared} → Reach s t → Step t u → Reach s u

pub Reach-trans : {s t u : Shared} → Reach s t → Reach t u → Reach s u
Reach-trans r here = r
Reach-trans r (next q st) = next (Reach-trans r q) st
