-- ===== src/Session/Overlap.antt =====
-- The invariant of a session (session/recv.go) between the steps of uploads that overlap.
use pdf_to_epub.Prelude.{
  ℕ, suc, ◌+◌, ◌<◌, Bool, true, false, some, Str, ◌≡◌, inl, inr, refl, arith, Option-cases,
  Bool-cases, if_cases,
}
use pdf_to_epub.Prelude.Int.{pos}
use pdf_to_epub.Prelude.Map.{lookup, insert}
use pdf_to_epub.Session.{
  FileMeta, UploadStatus, pending, in_progress, UploadState, RecvSession, ok, settle, entered,
  is_in_progress,
}
use pdf_to_epub.Session.Atomic.{
  Shared, enter, settle_locked, settled, count_off, swap_started, reset_count, Step, test, begin,
  give_up, choose_target, touch, settle_file, decrement, end_last, cancel, reset,
}
use pdf_to_epub.Session.Counting.{
  live, live-insert, lookup-AllOk, insert-AllOk, is_live, one_if, AllOk,
}
use pdf_to_epub.Session.Lifecycle.{settled-AttemptsOk, settle_live, entered-AttemptsOk}
use pdf_to_epub.Session.Save.{with_target}

-- Attempts are within bounds; while the session runs, `files_count` is the number of files not done
-- and of those that are done and not counted off yet, there is one of these or the call that ends
-- the session, that call comes only when there are none, and the count is reset only in a session that has ended.
pub record SharedInv (s : Shared) : Type 0 where
  pub attempts : AllOk s.session.file_states
  pub counted :
      s.session.started ≡ true → s.session.files_count ≡ pos (live s.session.file_states + s.owed)
  pub busy : s.session.started ≡ true → 0 < live s.session.file_states + s.owed + s.ending
  pub all_done : s.session.started ≡ true → 0 < s.ending → live s.session.file_states + s.owed ≡ 0
  pub closed : 0 < s.resetting → s.session.started ≡ false

-- What a beginning changes: one entry, from pending to in progress.
pub enter-inv :
    (sess : RecvSession) (file_id token : Str) (begun : RecvSession) (meta : FileMeta)
    (target : Str)
    → enter sess file_id token ≡ ok (begun, meta, target)
    → (state : UploadState) × (lookup file_id sess.file_states ≡ some state)
      × (state.status ≡ pending)
      × (begun ≡ record sess { file_states = insert file_id (entered state) sess.file_states })
unfolding enter
enter-inv sess file_id token begun meta target h =
    elim (Option-cases (lookup file_id sess.file_states)) [
      | inl e ↦ absurd (ground (arith, e))
      | inr (s, e) ↦ (s, e, ground (arith, e), ground (arith, e))
    ]

-- A new entry of a file that keeps the sum of the files that are live and owed.
entry-Inv :
    (s : Shared) (k : Str) (old new : UploadState) (terminal : Bool)
    → SharedInv s
    → lookup k s.session.file_states ≡ some old
    → AllOk (insert k new s.session.file_states)
    → one_if (is_live new.status) + one_if terminal ≡ one_if (is_live old.status)
    → SharedInv (
        settled s (record s.session { file_states = insert k new s.session.file_states }, terminal))
entry-Inv s k old new terminal v e a h =
    let l = live-insert k old new s.session.file_states e in
    record {
      attempts = a;
      counted = λ r. ground (arith, v.counted r, l, h);
      busy = λ r. ground (arith, v.busy r, l, h);
      all_done = λ r p. ground (arith, v.all_done r p, l, h);
      closed = v.closed;
    }

-- The rest of the state does not matter.
abbrev SameCounts : Shared → Shared → Type 0
SameCounts s t =
    (t.session.file_states ≡ s.session.file_states)
    × (t.session.files_count ≡ s.session.files_count)
    × (t.session.started ≡ s.session.started)
    × (t.owed ≡ s.owed)
    × (t.ending ≡ s.ending)
    × (t.resetting ≡ s.resetting)

same_counts : (s t : Shared) → SharedInv s → SameCounts s t → SharedInv t
same_counts s t v (f, c, r, o, e, z) = record {
  attempts = rw f v.attempts;
  counted = λ q. ground (arith, v.counted, f, c, r, o, q);
  busy = λ q. ground (arith, v.busy, f, r, o, e, q);
  all_done = λ q p. ground (arith, v.all_done, f, r, o, e, q, p);
  closed = λ p. ground (arith, v.closed, r, z, p);
}

ended-SharedInv :
    (s : Shared) → AllOk s.session.file_states → s.session.started ≡ false → SharedInv s
ended-SharedInv s a h = record {
  attempts = a;
  counted = λ r. ground (arith, h, r);
  busy = λ r. ground (arith, h, r);
  all_done = λ r p. ground (arith, h, r);
  closed = λ p. h;
}

with_target-SharedInv :
    (s : Shared) (file_id path : Str)
    → SharedInv s
    → SharedInv (record s { session = with_target file_id path s.session })
with_target-SharedInv s file_id path v =
    elim (Option-cases (lookup file_id s.session.file_states)) [
      | inl e ↦ rw (e, with_target) v
      | inr (state, e) ↦
          let new : UploadState = record state { target_path = path } in
          let a = lookup-AllOk file_id state s.session.file_states v.attempts e in
          rw (e, with_target)
            (entry-Inv s file_id state new false v e
              (insert-AllOk file_id new s.session.file_states v.attempts (record {
                capped = a.capped;
                pending_left = a.pending_left;
                in_progress_begun = a.in_progress_begun;
              }))
              (ground arith))
    ]

settle_locked-Inv :
    (s : Shared) (file_id : Str) (result : UploadStatus)
    → SharedInv s
    → SharedInv (settled s (settle_locked s.session file_id result))
unfolding settle_locked
settle_locked-Inv s file_id result v = elim (Option-cases (lookup file_id s.session.file_states)) [
  | inl e ↦ rw (e, settle_locked) v
  | inr (state, e) ↦ elim (Bool-cases (is_in_progress state.status)) [
    | inl q ↦
        let p : state.status ≡ in_progress = ground (arith, q) in
        let new : UploadState = record state { status = (settle result state.attempts).0 } in
        let a = lookup-AllOk file_id state s.session.file_states v.attempts e in
        rw (e, settle_locked)
          (rw q (
            entry-Inv s file_id state new (settle result state.attempts).1 v e
              (insert-AllOk file_id new s.session.file_states v.attempts
                (settled-AttemptsOk result state a p))
              (ground (arith, settle_live result state.attempts, p))))
    | inr q ↦ rw (e, settle_locked) (rw q v)
  ]
]

count_off-Inv : (s : Shared) (n : ℕ) → s.owed ≡ suc n → SharedInv s → SharedInv (count_off n s)
unfolding count_off
count_off-Inv s n o v = record {
  attempts = v.attempts;
  counted = λ r. ground (arith, v.counted r, o);
  busy = λ r. ground (arith, v.counted r, o);
  all_done = λ r p. ground (arith, v.counted r, v.all_done r, o, p);
  closed = v.closed;
}

swap_started-Inv :
    (s : Shared)
    → AllOk s.session.file_states
    → (s.session.started ≡ false → SharedInv s)
    → SharedInv (swap_started s)
unfolding swap_started
swap_started-Inv s a v =
    if_cases SharedInv s.session.started _ s
      (λ r.
        ended-SharedInv
          (record s { session = record s.session { started = false }; resetting = suc s.resetting })
          a refl)
      v

pub Step-Inv : (s t : Shared) → Step s t → SharedInv s → SharedInv t
Step-Inv s t (test r e) v = same_counts s t v (ground (arith, e))
Step-Inv s t (begin n f k begun m p h g e) v =
    let (state, l, q, b) = enter-inv s.session f k begun m p g in
    let a = lookup-AllOk f state s.session.file_states v.attempts l in
    let w =
      entry-Inv s f state (entered state) false v l
        (insert-AllOk f (entered state) s.session.file_states v.attempts
          (entered-AttemptsOk state a q))
        (ground (arith, q)) in
    same_counts _ t w (ground (arith, e, b))
Step-Inv s t (give_up n h e) v = same_counts s t v (ground (arith, e))
Step-Inv s t (choose_target f p e) v = rw e (with_target-SharedInv s f p v)
Step-Inv s t (touch now e) v = same_counts s t v (ground (arith, e))
Step-Inv s t (settle_file f r e) v = rw e (settle_locked-Inv s f r v)
Step-Inv s t (decrement n h e) v = rw e (count_off-Inv s n h v)
Step-Inv s t (end_last n h e) v = rw e (
    swap_started-Inv (record s { ending = n }) v.attempts
      (λ r. ended-SharedInv (record s { ending = n }) v.attempts r))
Step-Inv s t (cancel e) v = rw e (swap_started-Inv s v.attempts (λ r. v))
Step-Inv s t (reset n h e) v =
    rw e (ended-SharedInv (reset_count n s) v.attempts (v.closed (ground (arith, h))))
