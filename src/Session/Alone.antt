-- ===== src/Session/Alone.antt =====
-- The whole operations of session/recv.go as runs of the steps in Session/Atomic.
use pdf_to_epub.Prelude.{
  Bool, true, false, Str, ◌≡◌, inl, inr, refl, arith, Option-cases, Bool-cases,
}
use mathlib.Core.Path.{subst}
use pdf_to_epub.Prelude.Int.{pred, is_zero}
use pdf_to_epub.Prelude.Map.{lookup}
use pdf_to_epub.Session.{
  FileMeta, UploadStatus, RecvSession, ok, begin_attempt, finish_file_attempt, end_session, settle,
  count_down, with_status, is_in_progress,
}
use pdf_to_epub.Session.Atomic.{
  Shared, idle, enter, settle_locked, settled, count_off, swap_started, test, begin, settle_file,
  decrement, end_last, reset, Reach, here, next,
}

pub begin_attempt-Reach :
    (sess : RecvSession) (file_id token ip : Str) (begun : RecvSession) (meta : FileMeta)
    (target : Str)
    → begin_attempt sess file_id token ip ≡ ok (begun, meta, target)
    → Reach (idle sess) (idle begun)
unfolding begin_attempt enter
begin_attempt-Reach sess f k ip begun meta target h =
    next (next here (test (ground arith) refl))
      (begin 0 f k begun meta target refl (ground arith) refl)

-- The call of `End` by the last attempt.
end_last-Reach :
    {s : Shared} (sess : RecvSession)
    → Reach s (record (idle sess) { ending = 1 })
    → Reach s (idle (end_session sess).0)
unfolding end_session swap_started
end_last-Reach {s} sess r =
    let swapped = swap_started (idle sess) in
    let q : Reach s swapped = next r (end_last 0 refl refl) in
    elim (Bool-cases sess.started) [
      | inl e ↦ next q (reset 0 (ground arith) (ground (arith, e)))
      | inr e ↦
          let same : swapped ≡ idle (end_session sess).0 = ground (arith, e) in
          subst (Reach s) same q
    ]

count_down-Reach :
    {s : Shared} (sess : RecvSession) (terminal : Bool)
    → Reach s (settled (idle sess) (sess, terminal))
    → Reach s (idle (count_down sess terminal))
unfolding count_off
count_down-Reach sess false r = r
count_down-Reach {s} sess true r =
    let counted = record sess { files_count = pred sess.files_count } in
    let q : Reach s (count_off 0 (record (idle sess) { owed = 1 })) =
      next r (decrement 0 refl refl) in
    elim (Bool-cases (is_zero counted.files_count)) [
      | inl e ↦ rw e (end_last-Reach counted (rw e at q))
      | inr e ↦ rw e (rw e at q)
    ]

-- A whole `finishFileAttempt` with no other call beside it is a run of the steps.
pub finish_file_attempt-Reach :
    (sess : RecvSession) (file_id : Str) (result : UploadStatus)
    → Reach (idle sess) (idle (finish_file_attempt sess file_id result))
unfolding finish_file_attempt settle_locked
finish_file_attempt-Reach sess f result =
    let first : Reach (idle sess) (settled (idle sess) (settle_locked sess f result)) =
      next here (settle_file f result refl) in
    elim (Option-cases (lookup f sess.file_states)) [
      | inl e ↦ rw (e, finish_file_attempt) here
      | inr (state, e) ↦ elim (Bool-cases (is_in_progress state.status)) [
        | inl q ↦
            let moved = with_status sess f state (settle result state.attempts).0 in
            let b = (settle result state.attempts).1 in
            let same : settle_locked sess f result ≡ (moved, b) = ground (arith, e, q) in
            rw (e, finish_file_attempt)
              (rw q (
                count_down-Reach moved b
                  (subst (λ p. Reach (idle sess) (settled (idle sess) p)) same first)))
        | inr q ↦ rw (e, finish_file_attempt) (rw q here)
      ]
    ]
