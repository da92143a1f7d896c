-- ===== src/Session/Lifecycle.antt =====
-- The invariant of a receive session (session/recv.go), kept by each of its operations.
use pdf_to_epub.Prelude.{
  ℕ, ◌+◌, ◌<◌, Bool, true, false, some, Str, ◌≡◌, ◌↔◌, inl, inr, refl, arith, Option-cases,
  Bool-cases,
}
use pdf_to_epub.Prelude.Int.{pos}
use pdf_to_epub.Prelude.Map.{lookup, insert}
use pdf_to_epub.Session.{
  FileMeta, UploadStatus, pending, in_progress, UploadState, RecvSession, ok, begin_attempt,
  finish_file_attempt, end_session, settle, settle_state, count_down, with_status, entered,
  is_in_progress,
}
use pdf_to_epub.Session.Counting.{
  live, live-insert, AttemptsOk, AllOk, lookup-AllOk, insert-AllOk, is_live, one_if,
}

-- Attempts are within bounds; while the session runs, `files_count` is the number of files not
-- done, and there is one.
pub record Inv (sess : RecvSession) : Type 0 where
  pub attempts : AllOk sess.file_states
  pub counted : sess.started ≡ true → sess.files_count ≡ pos (live sess.file_states)
  pub busy : sess.started ≡ true → 0 < live sess.file_states

-- What a beginning changes: one entry, from pending to in progress.
pub begin_attempt-inv :
    (sess : RecvSession) (file_id token client_ip : Str) (begun : RecvSession) (meta : FileMeta)
    (target : Str)
    → begin_attempt sess file_id token client_ip ≡ ok (begun, meta, target)
    → (state : UploadState) × (lookup file_id sess.file_states ≡ some state)
      × (state.status ≡ pending)
      × (sess.started ≡ true)
      × (begun ≡ record sess { file_states = insert file_id (entered state) sess.file_states })
unfolding begin_attempt
begin_attempt-inv sess file_id token client_ip begun meta target h =
    elim (Option-cases (lookup file_id sess.file_states)) [
      | inl e ↦ absurd (ground (arith, e))
      | inr (s, e) ↦ (s, e, ground (arith, e), ground (arith, e), ground (arith, e))
    ]

pub entered-AttemptsOk :
    (state : UploadState) → AttemptsOk state → state.status ≡ pending → AttemptsOk (entered state)
entered-AttemptsOk state a p = record {
  capped = ground (arith, a.pending_left p);
  pending_left = λ q. ground arith;
  in_progress_begun = λ q. ground arith;
}

begin_state-Inv :
    (sess : RecvSession) (file_id : Str) (state : UploadState)
    → Inv sess
    → lookup file_id sess.file_states ≡ some state
    → state.status ≡ pending
    → Inv (record sess { file_states = insert file_id (entered state) sess.file_states })
begin_state-Inv sess file_id state v e p =
    let a = lookup-AllOk file_id state sess.file_states v.attempts e in
    let l = live-insert file_id state (entered state) sess.file_states e in
    record {
      attempts =
          insert-AllOk file_id (entered state) sess.file_states v.attempts
            (entered-AttemptsOk state a p);
      counted = λ s. ground (arith, v.counted s, l);
      busy = λ s. ground (arith, v.busy s, l);
    }

pub begin_attempt-Inv :
    (sess : RecvSession) (file_id token client_ip : Str) (begun : RecvSession) (meta : FileMeta)
    (target : Str)
    → Inv sess
    → begin_attempt sess file_id token client_ip ≡ ok (begun, meta, target)
    → Inv begun
begin_attempt-Inv sess file_id token client_ip begun meta target v h =
    let (state, e, p, _, q) = begin_attempt-inv sess file_id token client_ip begun meta target h in
    rw q (begin_state-Inv sess file_id state v e p)

ended-Inv : (sess : RecvSession) → AllOk sess.file_states → sess.started ≡ false → Inv sess
ended-Inv sess a h = record {
  attempts = a;
  counted = λ s. ground (arith, h, s);
  busy = λ s. ground (arith, h, s);
}

pub end_session-Inv : (sess : RecvSession) → Inv sess → Inv (end_session sess).0
unfolding end_session
end_session-Inv sess v = elim (Bool-cases sess.started) [
  | inl e ↦ rw e (ended-Inv (record sess { started = false; files_count = pos 0 }) v.attempts refl)
  | inr e ↦ record {
    attempts = ground (arith, v.attempts);
    counted = λ s. ground (arith, e);
    busy = λ s. ground (arith, e);
  }
]

-- A file of a running session is counted off if it is done; the last one ends the session.
count_down-Inv :
    (sess : RecvSession) (terminal : Bool)
    → AllOk sess.file_states
    → (sess.started ≡ true → sess.files_count ≡ pos (live sess.file_states + one_if terminal))
    → (terminal ≡ false → sess.started ≡ true → 0 < live sess.file_states)
    → Inv (count_down sess terminal)
unfolding end_session
count_down-Inv sess false a c b = record {
  attempts = a;
  counted = λ s. ground (arith, c s);
  busy = λ s. b refl s;
}
count_down-Inv sess true a c b = elim (Bool-cases sess.started) [
  | inl e ↦ record {
    attempts = ground (arith, a);
    counted = λ s. ground (arith, c e);
    busy = λ s. ground (arith, c e);
  }
  | inr e ↦ record {
    attempts = ground (arith, a);
    counted = λ s. ground (arith, e);
    busy = λ s. ground (arith, e);
  }
]

pub settled-AttemptsOk :
    (result : UploadStatus) (state : UploadState)
    → AttemptsOk state
    → state.status ≡ in_progress
    → AttemptsOk (record state { status = (settle result state.attempts).0 })
settled-AttemptsOk result state a p = record {
  capped = a.capped;
  pending_left = λ q. ground arith;
  in_progress_begun = λ q. a.in_progress_begun p;
}

-- A settled file is done exactly if it is counted off.
pub settle_live :
    (result : UploadStatus) (n : ℕ)
    → one_if (is_live (settle result n).0) + one_if (settle result n).1 ≡ 1
settle_live result n = ground arith

settle_state-Inv :
    (sess : RecvSession) (file_id : Str) (result : UploadStatus) (state : UploadState)
    → Inv sess
    → lookup file_id sess.file_states ≡ some state
    → state.status ≡ in_progress
    → Inv (settle_state sess file_id result state)
settle_state-Inv sess file_id result state v e p =
    let new : UploadState = record state { status = (settle result state.attempts).0 } in
    let l = live-insert file_id state new sess.file_states e in
    let t = settle_live result state.attempts in
    count_down-Inv (record sess { file_states = insert file_id new sess.file_states })
      (settle result state.attempts).1
      (insert-AllOk file_id new sess.file_states v.attempts (
        settled-AttemptsOk result state (lookup-AllOk file_id state sess.file_states v.attempts e)
          p))
      (λ s. ground (arith, v.counted s, l, t, p)) (λ b s. ground (arith, v.busy s, l, t, b, p))

pub finish_file_attempt-Inv :
    (sess : RecvSession) (file_id : Str) (result : UploadStatus)
    → Inv sess
    → Inv (finish_file_attempt sess file_id result)
unfolding finish_file_attempt
finish_file_attempt-Inv sess file_id result v =
    elim (Option-cases (lookup file_id sess.file_states)) [
      | inl e ↦ rw (e, finish_file_attempt) v
      | inr (state, e) ↦ elim (Bool-cases (is_in_progress state.status)) [
        | inl q ↦
            rw (e, finish_file_attempt)
              (rw q (settle_state-Inv sess file_id result state v e (ground (arith, q))))
        | inr q ↦ rw (e, finish_file_attempt) (rw q v)
      ]
    ]

pub count_down-states :
    (sess : RecvSession) (b : Bool) → (count_down sess b).file_states ≡ sess.file_states
unfolding end_session
count_down-states sess true = ground arith
count_down-states sess false = refl

count_down_started :
    (sess : RecvSession) (terminal : Bool)
    → sess.started ≡ true
    → sess.files_count ≡ pos (live sess.file_states + one_if terminal)
    → 0 < live sess.file_states
    → (count_down sess terminal).started ≡ true
unfolding end_session
count_down_started sess true s c l = ground arith
count_down_started sess false s c l = s

settle_state_started :
    (sess : RecvSession) (file_id : Str) (result : UploadStatus) (state : UploadState)
    → Inv sess
    → sess.started ≡ true
    → lookup file_id sess.file_states ≡ some state
    → state.status ≡ in_progress
    → 0 < live (settle_state sess file_id result state).file_states
    → (settle_state sess file_id result state).started ≡ true
settle_state_started sess file_id result state v s e p l =
    let (status, terminal) = settle result state.attempts in
    let settled = with_status sess file_id state status in
    let n = live-insert file_id state (record state { status = status }) sess.file_states e in
    let t = settle_live result state.attempts in
    count_down_started settled terminal s (ground (arith, v.counted s, n, t, p))
      (rw (count_down-states settled terminal) at l)

finish_started :
    (sess : RecvSession) (file_id : Str) (result : UploadStatus)
    → Inv sess
    → sess.started ≡ true
    → 0 < live (finish_file_attempt sess file_id result).file_states
    → (finish_file_attempt sess file_id result).started ≡ true
unfolding finish_file_attempt
finish_started sess file_id result v s l = elim (Option-cases (lookup file_id sess.file_states)) [
  | inl e ↦ rw (e, finish_file_attempt) s
  | inr (state, e) ↦ elim (Bool-cases (is_in_progress state.status)) [
    | inl q ↦
        rw (e, finish_file_attempt)
          (rw q (
            settle_state_started sess file_id result state v s e (ground (arith, q))
              (rw q at (rw (e, finish_file_attempt) at l))))
    | inr q ↦ rw (e, finish_file_attempt) (rw q s)
  ]
]

-- Where the invariant holds and the session runs, it still runs after an upload attempt is settled
-- exactly if some file is then pending or in progress.
finish_file_attempt_ends :
    (sess : RecvSession) (file_id : Str) (result : UploadStatus)
    → Inv sess
    → sess.started ≡ true
    → ((finish_file_attempt sess file_id result).started ≡ true)
      ↔ (0 < live (finish_file_attempt sess file_id result).file_states)
finish_file_attempt_ends sess file_id result v s =
    ((finish_file_attempt-Inv sess file_id result v).busy, finish_started sess file_id result v s)
