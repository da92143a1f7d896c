-- ===== src/Session/Steps.antt =====
-- What stays true of a session of session/recv.go through all steps of uploads that overlap.
use pdf_to_epub.Prelude.{
  Bool, true, false, Option, none, some, if◌then◌else◌, Str, ◌≡◌, inl, inr, refl, arith,
  Option-cases, Bool-cases, str_eq,
}
use pdf_to_epub.Prelude.Map.{Map, lookup, insert, lookup-insert}
use pdf_to_epub.Session.{
  UploadStatus, UploadState, RecvSession, Result, Result-cases, ok, err, begin_attempt, entered,
  is_in_progress,
}
use pdf_to_epub.Session.Atomic.{
  Shared, idle, enter, settle_locked, count_off, swap_started, Step, test, begin, give_up,
  choose_target, touch, settle_file, decrement, end_last, cancel, reset, Reach, here, next,
}
use pdf_to_epub.Session.Counting.{is_live}
use pdf_to_epub.Session.Lifecycle.{Inv, begin_attempt-inv}
use pdf_to_epub.Session.Overlap.{SharedInv, Step-Inv, enter-inv}

-- The status of a file, if the session has it.
abbrev pub status_in : Map UploadState → Str → Option UploadStatus
status_in m j = elim (lookup j m) [ none ↦ none | some state ↦ some state.status ]

status_in-insert :
    (k j : Str) (new : UploadState) (m : Map UploadState)
    → status_in (insert k new m) j ≡ (if str_eq k j then some new.status else status_in m j)
status_in-insert k j new m = ground (arith, lookup-insert k j new m)

settle_locked-status :
    (s : RecvSession) (f : Str) (r : UploadStatus) (j : Str) (status : UploadStatus)
    → is_live status ≡ false
    → status_in s.file_states j ≡ some status
    → status_in (settle_locked s f r).0.file_states j ≡ some status
unfolding settle_locked
settle_locked-status s f r j status n h = elim (Option-cases (lookup f s.file_states)) [
  | inl e ↦ rw (e, settle_locked) h
  | inr (state, e) ↦ elim (Bool-cases (is_in_progress state.status)) [
    | inl q ↦ rw (e, settle_locked) (rw q (rw (status_in-insert) (ground (arith, e, q, h, n))))
    | inr q ↦ rw (e, settle_locked) (rw q h)
  ]
]

-- A file that is done keeps its status.
Step-status :
    (s t : Shared) (j : Str) (status : UploadStatus)
    → Step s t
    → is_live status ≡ false
    → status_in s.session.file_states j ≡ some status
    → status_in t.session.file_states j ≡ some status
unfolding count_off swap_started
Step-status s t j status (test r e) n h = ground (arith, e)
Step-status s t j status (begin m f k begun meta p i g e) n h =
    let (state, l, q, b) = enter-inv s.session f k begun meta p g in
    ground (arith, l, q, b, e, status_in-insert f j (entered state) s.session.file_states)
Step-status s t j status (give_up m i e) n h = ground (arith, e)
Step-status s t j status (choose_target f p e) n h =
    elim (Option-cases (lookup f s.session.file_states)) [
      | inl l ↦ ground (arith, l)
      | inr (state, l) ↦
          ground (
            arith,
            l,
            status_in-insert f j (record state { target_path = p }) s.session.file_states,
          )
    ]
Step-status s t j status (touch now e) n h = ground (arith, e)
Step-status s t j status (settle_file f r e) n h =
    rw e (settle_locked-status s.session f r j status n h)
Step-status s t j status (decrement m i e) n h = ground (arith, e)
Step-status s t j status (end_last m i e) n h = ground (arith, e)
Step-status s t j status (cancel e) n h = ground (arith, e)
Step-status s t j status (reset m i e) n h = ground (arith, e)

settle_locked-started :
    (s : RecvSession) (f : Str) (r : UploadStatus) → (settle_locked s f r).0.started ≡ s.started
unfolding settle_locked
settle_locked-started s f r = ground arith

Step-stays_ended : (s t : Shared) → Step s t → s.session.started ≡ false → t.session.started ≡ false
unfolding count_off swap_started
Step-stays_ended s t (test r e) h = ground (arith, e)
Step-stays_ended s t (begin m f k begun meta p i g e) h =
    let (state, l, q, b) = enter-inv s.session f k begun meta p g in ground (arith, b, e, h)
Step-stays_ended s t (give_up m i e) h = ground (arith, e)
Step-stays_ended s t (choose_target f p e) h =
    elim (Option-cases (lookup f s.session.file_states)) [
      | inl l ↦ ground (arith, l)
      | inr (state, l) ↦ ground (arith, l)
    ]
Step-stays_ended s t (touch now e) h = ground (arith, e)
Step-stays_ended s t (settle_file f r e) h = ground (arith, e, settle_locked-started s.session f r)
Step-stays_ended s t (decrement m i e) h = ground (arith, e)
Step-stays_ended s t (end_last m i e) h = ground (arith, e)
Step-stays_ended s t (cancel e) h = ground (arith, e)
Step-stays_ended s t (reset m i e) h = ground (arith, e)

idle-Inv : (sess : RecvSession) → Inv sess → SharedInv (idle sess)
idle-Inv sess v = record {
  attempts = v.attempts;
  counted = λ r. ground (arith, v.counted r);
  busy = λ r. ground (arith, v.busy r);
  all_done = λ r p. absurd (omega (arith, p));
  closed = λ p. absurd (omega (arith, p));
}

at_rest : (t : Shared) → SharedInv t → t.owed ≡ 0 → t.ending ≡ 0 → Inv t.session
at_rest t v o e = record {
  attempts = v.attempts;
  counted = λ r. ground (arith, v.counted r, o);
  busy = λ r. ground (arith, v.busy r, o, e);
}

Reach-SharedInv : {s t : Shared} → Reach s t → SharedInv s → SharedInv t
Reach-SharedInv here v = v
Reach-SharedInv (next {t} {u} r st) v = Step-Inv t u st (Reach-SharedInv r v)

-- From a session in which the invariant holds and no call is under way, through every sequence of
-- steps of uploads that overlap, each an access under the lock or an atomic one, and of cancels,
-- attempts stay within the bound. While the session runs, the counter of files is the number of files
-- pending or in progress and of those that are done and not counted off yet; there is one of these or
-- a call about to end the session, and such a call stands only where all files are done and counted
-- off; the counter is reset only after the session has ended. Whenever no attempt is between its lock
-- and its decrement or about to end the session, the invariant of the session holds as it stands.
pub Reach-Inv :
    {sess : RecvSession} {t : Shared}
    → Reach (idle sess) t
    → Inv sess
    → SharedInv t × (t.owed ≡ 0 → t.ending ≡ 0 → Inv t.session)
Reach-Inv {sess} {t} r v = let w = Reach-SharedInv r (idle-Inv sess v) in (w, at_rest t w)

Reach-status :
    {s t : Shared} (j : Str) (status : UploadStatus)
    → Reach s t
    → is_live status ≡ false
    → status_in s.session.file_states j ≡ some status
    → status_in t.session.file_states j ≡ some status
Reach-status j status here n h = h
Reach-status j status (next {t} {u} r st) n h =
    Step-status t u j status st n (Reach-status j status r n h)

Reach-stays_ended :
    {s t : Shared} → Reach s t → s.session.started ≡ false → t.session.started ≡ false
Reach-stays_ended here h = h
Reach-stays_ended (next {t} {u} r st) h = Step-stays_ended t u st (Reach-stays_ended r h)

-- Whether an upload begins.
abbrev pub is_ok {ℓ} : {A : Type ℓ} → Result A → Bool
is_ok (ok a) = true
is_ok (err e) = false

done_refused :
    (sess : RecvSession) (j token client_ip : Str) (status : UploadStatus)
    → is_live status ≡ false
    → status_in sess.file_states j ≡ some status
    → is_ok (begin_attempt sess j token client_ip) ≡ false
done_refused sess j token ip status n h = elim (Result-cases (begin_attempt sess j token ip)) [
  | inl (x, e) ↦ rw (e, is_ok) refl
  | inr ((begun, meta, target), e) ↦
      let (state, l, q, _, _) = begin_attempt-inv sess j token ip begun meta target e in
      absurd (ground (arith, l, q, h, n))
]

ended_refused :
    (sess : RecvSession) (j token client_ip : Str)
    → sess.started ≡ false
    → is_ok (begin_attempt sess j token client_ip) ≡ false
ended_refused sess j token ip h = elim (Result-cases (begin_attempt sess j token ip)) [
  | inl (x, e) ↦ rw (e, is_ok) refl
  | inr ((begun, meta, target), e) ↦
      let (_, _, _, b, _) = begin_attempt-inv sess j token ip begun meta target e in
      absurd (ground (arith, b, h))
]

done_stays_out :
    (sess : RecvSession) (j token : Str) (status : UploadStatus)
    → is_live status ≡ false
    → status_in sess.file_states j ≡ some status
    → is_ok (enter sess j token) ≡ false
done_stays_out sess j token status n h = elim (Result-cases (enter sess j token)) [
  | inl (x, e) ↦ rw (e, is_ok) refl
  | inr ((begun, meta, target), e) ↦
      let (state, l, q, _) = enter-inv sess j token begun meta target e in
      absurd (ground (arith, l, q, h, n))
]

-- A file that is finished or failed keeps that status through every later sequence of steps of the
-- session, and no later upload of it begins, whoever asks and with whatever token, nor does one that
-- passed the test of started before and takes the lock then.
pub Reach-done_refused :
    {s t : Shared} (j token client_ip : Str) (status : UploadStatus)
    → Reach s t
    → is_live status ≡ false
    → status_in s.session.file_states j ≡ some status
    → (status_in t.session.file_states j ≡ some status)
      × (is_ok (begin_attempt t.session j token client_ip) ≡ false)
      × (is_ok (enter t.session j token) ≡ false)
Reach-done_refused {s} {t} j token ip status r n h =
    let k = Reach-status j status r n h in
    (k, done_refused t.session j token ip status n k, done_stays_out t.session j token status n k)

-- A session that has ended stays ended through every later sequence of steps, and no upload of any
-- file in it passes the test of started and begins.
Reach-ended_refused :
    {s t : Shared} (j token client_ip : Str)
    → Reach s t
    → s.session.started ≡ false
    → (t.session.started ≡ false) × (is_ok (begin_attempt t.session j token client_ip) ≡ false)
Reach-ended_refused {s} {t} j token ip r h =
    let k = Reach-stays_ended r h in (k, ended_refused t.session j token ip k)
