-- ===== src/Manager/Admission.antt =====
-- Which sessions recvsessman.go admits.
use mathlib.Core.Path.{subst}
use pdf_to_epub.Errors.{blocked_by_others}
use pdf_to_epub.Manager.{
  RecvSessManager, max_concurrent_sessions, any_active, has_active_sessions, accept_all,
  new_session_locked, create_session_if_allowed,
}
use pdf_to_epub.Manager.Setup.{IsSetup, accept_all_new, start-Inv}
use pdf_to_epub.Prelude.{
  ℕ, suc, ◌+◌, ◌*◌, ◌/◌, ◌≤◌, ◌<◌, true, false, some, [], ◌∷◌, if◌then◌else◌, Str, str_eq, length,
  ◌≡◌, ◌≢◌, inl, inr, refl, arith, ◌∙◌, sym,
}
use pdf_to_epub.Prelude.Map.{
  Map, lookup, insert, IsDistinct, lookup-insert, lookup-insert_self, length-insert,
}
use pdf_to_epub.Session.{
  FileMeta, RecvSession, ok, err, new_recv_session, start, stopped, Result-cases, nanos_per_second,
  session_timeout,
}
use pdf_to_epub.Session.Counting.{live}
use pdf_to_epub.Session.Lifecycle.{Inv}

-- What a session that was just admitted is like.
pub record Admitted (before after : RecvSessManager) (files : Map FileMeta) (client_ip : Str)
    (now : ℕ) (id : Str) : Type 0 where
  pub none_active : has_active_sessions before now ≡ false
  pub sess : RecvSession
  pub stored : lookup id after.sessions ≡ some sess
  pub valid : Inv sess
  pub running : sess.started ≡ true
  pub as_many : live sess.file_states ≡ length files
  pub owner : sess.client_ip ≡ client_ip
  pub born : sess.last_activity ≡ now / nanos_per_second
  pub others :
      (j : Str)
      → lookup j after.sessions ≡ (if str_eq id j then some sess else lookup j before.sessions)
  pub bounded : length after.sessions ≤ max_concurrent_sessions

stored-Admitted :
    (rsm rsm' : RecvSessManager) (files : Map FileMeta) (ip : Str) (now k : ℕ) (id : Str)
    (sess : RecvSession)
    → has_active_sessions rsm now ≡ false
    → IsSetup ip (now / nanos_per_second) sess (suc k)
    → length files ≡ suc k
    → length rsm.sessions < max_concurrent_sessions
    → rsm' ≡ record rsm { sessions = insert id (start sess) rsm.sessions }
    → Admitted rsm rsm' files ip now id
unfolding start
stored-Admitted rsm rsm' files ip now k id sess a v l b e = record {
  none_active = a;
  sess = start sess;
  stored = rw e (lookup-insert_self id (start sess) rsm.sessions);
  valid = start-Inv ip (now / nanos_per_second) sess k v;
  running = refl;
  as_many = v.as_many ∙ sym l;
  owner = v.owner;
  born = v.born;
  others = λ j. rw e (lookup-insert id j (start sess) rsm.sessions);
  bounded = rw e (ground (arith, length-insert id (start sess) rsm.sessions));
}

new_session-Admitted :
    (rsm rsm' : RecvSessManager) (files : Map FileMeta) (ip : Str) (now k : ℕ) (uuid : ℕ → Str)
    (n n' : ℕ) (id : Str)
    → has_active_sessions rsm now ≡ false
    → IsDistinct files
    → length files ≡ suc k
    → new_session_locked rsm files ip now uuid n ≡ ok (rsm', id, n')
    → Admitted rsm rsm' files ip now id
unfolding new_session_locked
new_session-Admitted rsm rsm' files ip now k uuid n n' id a d l h =
    elim (Result-cases (accept_all (new_recv_session (uuid n) ip now) uuid (suc n) files)) [
      | inl (x, e) ↦ absurd (ground (arith, e))
      | inr ((sess, m), e) ↦
          let i : uuid n ≡ id = ground (arith, e) in
          let s = accept_all_new (uuid n) ip now uuid (suc n) m files sess d e in
          let q : 0 + length files ≡ suc k = omega (arith, l) in
          stored-Admitted rsm rsm' files ip now k id sess a
            (subst (IsSetup ip (now / nanos_per_second) sess) q s) l (ground arith)
            (ground (arith, e))
    ]

pub create_session_if_allowed-Admitted :
    (rsm rsm' : RecvSessManager) (files : Map FileMeta) (ip : Str) (now : ℕ) (uuid : ℕ → Str)
    (n n' : ℕ) (id : Str)
    → IsDistinct files
    → create_session_if_allowed rsm files ip now uuid n ≡ ok (rsm', id, n')
    → Admitted rsm rsm' files ip now id
unfolding create_session_if_allowed
create_session_if_allowed-Admitted rsm rsm' [] ip now uuid n n' id d h = absurd (ground arith)
create_session_if_allowed-Admitted rsm rsm' (f ∷ files) ip now uuid n n' id d h =
    new_session-Admitted rsm rsm' (f ∷ files) ip now (length files) uuid n n' id (ground arith) d
      refl (ground arith)

any_active_of :
    (now : ℕ) (id : Str) (sess : RecvSession) (m : Map RecvSession)
    → lookup id m ≡ some sess
    → stopped sess now ≡ false
    → any_active now m ≡ true
unfolding any_active lookup
any_active_of now id sess [] h s = absurd (ground arith)
any_active_of now id sess ((j, x) ∷ m) h s = ground (arith, any_active_of now id sess m)

-- A session with files left is active for a minute after its last activity.
running_not_stopped :
    (sess : RecvSession) (now : ℕ)
    → Inv sess
    → sess.started ≡ true
    → now ≤ sess.last_activity * nanos_per_second + session_timeout
    → stopped sess now ≡ false
unfolding stopped
running_not_stopped sess now v s t = ground (arith, v.counted s, v.busy s)

-- After a session for files with distinct ids was admitted, any other request with files is refused as
-- blocked by another session, for at least 59 seconds without a change of the sessions.
pub create_session_if_allowed_excludes :
    (rsm rsm' : RecvSessManager) (files : Map FileMeta) (ip : Str) (now : ℕ) (uuid : ℕ → Str)
    (n n' : ℕ) (id : Str) (files' : Map FileMeta) (ip' : Str) (later m : ℕ)
    → IsDistinct files
    → create_session_if_allowed rsm files ip now uuid n ≡ ok (rsm', id, n')
    → files' ≢ []
    → later + nanos_per_second ≤ now + session_timeout
    → create_session_if_allowed rsm' files' ip' later uuid m ≡ err blocked_by_others
unfolding create_session_if_allowed has_active_sessions
create_session_if_allowed_excludes rsm rsm' files ip now uuid n n' id [] ip' later m d h ne t =
    absurd (ne refl)
create_session_if_allowed_excludes rsm rsm' files ip now uuid n n' id (g ∷ files') ip' later m d h
      ne t =
    let a = create_session_if_allowed-Admitted rsm rsm' files ip now uuid n n' id d h in
    let s = running_not_stopped a.sess later a.valid a.running (rw a.born (omega arith)) in
    rw (any_active_of later id a.sess rsm'.sessions a.stored s)
