-- ===== src/Manager/Setup.antt =====
-- A session that is being filled, before it starts (recvsessman.go, newSessionLocked).
use mathlib.Core.Path.{subst}
use pdf_to_epub.Prelude.{
  ℕ, suc, ◌+◌, ◌/◌, false, none, [], ◌∷◌, Str, length, ◌≡◌, inl, inr, refl, arith, All, ◌∙◌,
}
use pdf_to_epub.Prelude.Int.{pos, succ}
use pdf_to_epub.Prelude.Map.{Map, lookup, insert, IsDistinct, lookup-insert}
use pdf_to_epub.Session.{
  FileMeta, RecvSession, ok, new_recv_session, accept_file, start, fresh_state, Result-cases,
  nanos_per_second,
}
use pdf_to_epub.Session.Counting.{live, live-insert_new, AllOk, insert-AllOk}
use pdf_to_epub.Session.Lifecycle.{Inv}
use pdf_to_epub.Manager.{accept_all}

-- Not started, and every file counted.
pub record IsSetup (client_ip : Str) (seconds : ℕ) (sess : RecvSession) (k : ℕ) : Type 0 where
  pub waiting : sess.started ≡ false
  pub attempts : AllOk sess.file_states
  pub counted : sess.files_count ≡ pos (live sess.file_states)
  pub as_many : live sess.file_states ≡ k
  pub owner : sess.client_ip ≡ client_ip
  pub born : sess.last_activity ≡ seconds

abbrev Unseen : RecvSession → Map FileMeta → Type 0
Unseen sess = All (λ e. lookup e.0 sess.file_states ≡ none)

accept_file-eq :
    (sess sess' : RecvSession) (file_id : Str) (meta : FileMeta) (token : Str)
    → accept_file sess file_id meta token ≡ ok sess'
    → (sess'.file_states ≡ insert file_id fresh_state sess.file_states)
      × (sess'.file_metas ≡ insert file_id meta sess.file_metas)
      × (sess'.started ≡ sess.started)
      × (sess'.client_ip ≡ sess.client_ip)
      × (sess'.files_count ≡ succ sess.files_count)
      × (sess'.last_activity ≡ sess.last_activity)
unfolding accept_file
accept_file-eq sess sess' file_id meta token h = ground arith

accept_file-IsSetup :
    (ip : Str) (secs : ℕ) (sess sess' : RecvSession) (file_id : Str) (meta : FileMeta) (token : Str)
    (k : ℕ)
    → IsSetup ip secs sess k
    → lookup file_id sess.file_states ≡ none
    → accept_file sess file_id meta token ≡ ok sess'
    → IsSetup ip secs sess' (k + 1)
accept_file-IsSetup ip secs sess sess' file_id meta token k v u h =
    let (s, _, w, o, c, b) = accept_file-eq sess sess' file_id meta token h in
    let l = live-insert_new file_id fresh_state sess.file_states u in
    record {
      waiting = w ∙ v.waiting;
      attempts = rw s (
          insert-AllOk file_id fresh_state sess.file_states v.attempts (record {
            capped = omega arith;
            pending_left = λ q. omega arith;
            in_progress_begun = λ q. ground arith;
          }));
      counted = ground (arith, c, s, l, v.counted);
      as_many = ground (arith, s, l, v.as_many);
      owner = o ∙ v.owner;
      born = b ∙ v.born;
    }

Unseen-insert :
    (sess sess' : RecvSession) (file_id : Str) (files : Map FileMeta)
    → sess'.file_states ≡ insert file_id fresh_state sess.file_states
    → lookup file_id files ≡ none
    → Unseen sess files
    → Unseen sess' files
unfolding lookup
Unseen-insert sess sess' file_id [] e d u = tt
Unseen-insert sess sess' file_id ((j, meta) ∷ files) e d u = (
  ground (arith, e, d, u.0, lookup-insert file_id j fresh_state sess.file_states),
  Unseen-insert sess sess' file_id files e (ground arith) u.1,
)

pub accept_all-IsSetup :
    (ip : Str) (secs : ℕ) (uuid : ℕ → Str) (files : Map FileMeta) (sess sess' : RecvSession)
    (n n' k : ℕ)
    → IsDistinct files
    → Unseen sess files
    → IsSetup ip secs sess k
    → accept_all sess uuid n files ≡ ok (sess', n')
    → IsSetup ip secs sess' (k + length files)
unfolding accept_all
accept_all-IsSetup ip secs uuid [] sess sess' n n' k d u v h =
    let e : sess ≡ sess' = ground arith in
    subst (λ i. IsSetup ip secs sess' i) (omega arith) (subst (λ s. IsSetup ip secs s k) e v)
accept_all-IsSetup ip secs uuid ((f, meta) ∷ files) sess sess' n n' k d u v h =
    elim (Result-cases (accept_file sess f meta (uuid n))) [
      | inl (x, e) ↦ absurd (ground (arith, e))
      | inr (s, e) ↦
          subst (λ i. IsSetup ip secs sess' i) (omega arith)
            (accept_all-IsSetup ip secs uuid files s sess' (suc n) n' (k + 1) d.1
              (Unseen-insert sess s f files (accept_file-eq sess s f meta (uuid n) e).0 d.0 u.1)
              (accept_file-IsSetup ip secs sess s f meta (uuid n) k v u.0 e) (ground (arith, e)))
    ]

new_recv_session-Unseen :
    (id ip : Str) (now : ℕ) (files : Map FileMeta) → Unseen (new_recv_session id ip now) files
unfolding new_recv_session lookup
new_recv_session-Unseen id ip now [] = tt
new_recv_session-Unseen id ip now (f ∷ files) = (refl, new_recv_session-Unseen id ip now files)

new_recv_session-IsSetup :
    (id ip : Str) (now : ℕ) → IsSetup ip (now / nanos_per_second) (new_recv_session id ip now) 0
unfolding new_recv_session live
new_recv_session-IsSetup id ip now = record {
  waiting = refl;
  attempts = tt;
  counted = refl;
  as_many = refl;
  owner = refl;
  born = refl;
}

-- A new session that has taken all the files of a request.
pub accept_all_new :
    (id ip : Str) (now : ℕ) (uuid : ℕ → Str) (n n' : ℕ) (files : Map FileMeta) (sess : RecvSession)
    → IsDistinct files
    → accept_all (new_recv_session id ip now) uuid n files ≡ ok (sess, n')
    → IsSetup ip (now / nanos_per_second) sess (0 + length files)
accept_all_new id ip now uuid n n' files sess d h =
    accept_all-IsSetup ip (now / nanos_per_second) uuid files (new_recv_session id ip now) sess n n'
      0 d (new_recv_session-Unseen id ip now files) (new_recv_session-IsSetup id ip now) h

-- Once it is started, the session satisfies its invariant.
pub start-Inv :
    (ip : Str) (secs : ℕ) (sess : RecvSession) (k : ℕ)
    → IsSetup ip secs sess (suc k)
    → Inv (start sess)
unfolding start
start-Inv ip secs sess k v = record {
  attempts = v.attempts;
  counted = λ s. v.counted;
  busy = λ s. omega arith;
}
