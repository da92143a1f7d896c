-- ===== src/Manager/Cancel.antt =====
-- How sessions leave the map of recvsessman.go: by their owner's cancel, and by the vacuum.

use pdf_to_epub.Manager.{
  RecvSessManager, kill_session, kill_session_for_client, vacuum, drop_stopped, any_active,
  has_active_sessions,
}
use pdf_to_epub.Prelude.{
  ℕ, false, not, ◌&&◌, Option, none, some, [], ◌∷◌, if◌then◌else◌, Str, str_eq, ◌≡◌, ◌≢◌, ◌↔◌, inl,
  inr, refl, arith, Option-cases, Bool-cases, true, List, All, Str-discrete,
}
use pdf_to_epub.Prelude.Map.{Map, lookup, IsDistinct, lookup-delete, delete-IsDistinct}
use pdf_to_epub.Session.{RecvSession, stopped}

-- A session that was opened by another address.
abbrev pub IsForeign : RecvSession → Str → Type 0
IsForeign sess client_ip = (sess.client_ip ≢ []) × (sess.client_ip ≢ client_ip)

not_foreign :
    (sess : RecvSession) (ip : Str)
    → ¬ IsForeign sess ip
    → (not (str_eq sess.client_ip []) && not (str_eq sess.client_ip ip)) ≡ false
not_foreign sess ip n =
    elim (Bool-cases (not (str_eq sess.client_ip []) && not (str_eq sess.client_ip ip))) [
      | inl t ↦ absurd (n (ground arith, ground arith))
      | inr f ↦ f
    ]

-- Where the session under an id, if there is one, does not belong to another address, a cancel
-- succeeds, and afterwards there is no session under that id and every other one is as before.
kill_session_for_client_owner :
    (rsm : RecvSessManager) (id ip : Str)
    → ((sess : RecvSession) → lookup id rsm.sessions ≡ some sess → ¬ IsForeign sess ip)
    → ((kill_session_for_client rsm id ip).1 ≡ none)
      × ((j : Str)
          → lookup j (kill_session_for_client rsm id ip).0.sessions
            ≡ (if str_eq id j then none else lookup j rsm.sessions))
unfolding kill_session_for_client kill_session
kill_session_for_client_owner rsm id ip h = elim (Option-cases (lookup id rsm.sessions)) [
  | inl e ↦ (ground (arith, e), λ j. ground (arith, e))
  | inr (sess, e) ↦
      let q = not_foreign sess ip (h sess e) in
      (ground (arith, e, q), λ j. ground (arith, e, q, lookup-delete id j rsm.sessions))
]

unless_stopped : ℕ → Option RecvSession → Option RecvSession
unless_stopped now none = none
unless_stopped now (some sess) = if stopped sess now then none else some sess

drop_stopped-none :
    (now : ℕ) (id : Str) (m : Map RecvSession)
    → lookup id m ≡ none
    → lookup id (drop_stopped now m) ≡ none
unfolding lookup drop_stopped
drop_stopped-none now id [] h = refl
drop_stopped-none now id ((j, s) ∷ m) h = ground (arith, drop_stopped-none now id m)

lookup-drop_stopped :
    (now : ℕ) (id : Str) (m : Map RecvSession)
    → IsDistinct m
    → lookup id (drop_stopped now m) ≡ unless_stopped now (lookup id m)
unfolding lookup drop_stopped unless_stopped
lookup-drop_stopped now id [] d = refl
lookup-drop_stopped now id ((j, s) ∷ m) d =
    ground (arith, drop_stopped-none now id m, lookup-drop_stopped now id m d.1)

any_active-drop_stopped :
    (now : ℕ) (m : Map RecvSession) → any_active now (drop_stopped now m) ≡ any_active now m
unfolding any_active drop_stopped
any_active-drop_stopped now [] = refl
any_active-drop_stopped now ((j, s) ∷ m) = ground (arith, any_active-drop_stopped now m)

-- Where each id has one session, a vacuum keeps exactly the sessions that are not stopped, unchanged,
-- and does not change whether there are active sessions.
vacuum_keeps_active :
    (rsm : RecvSessManager) (now : ℕ)
    → IsDistinct rsm.sessions
    → (has_active_sessions (vacuum rsm now) now ≡ has_active_sessions rsm now)
      × ((id : Str) (sess : RecvSession)
          → (lookup id (vacuum rsm now).sessions ≡ some sess)
            ↔ ((lookup id rsm.sessions ≡ some sess) × (stopped sess now ≡ false)))
unfolding vacuum has_active_sessions unless_stopped
vacuum_keeps_active rsm now d = (
  any_active-drop_stopped now rsm.sessions,
  λ id sess. (
    λ h. ground (arith, lookup-drop_stopped now id rsm.sessions d),
    λ h. ground (arith, lookup-drop_stopped now id rsm.sessions d),
  ),
)

-- What may remove a session: a client's cancel, and the vacuum at some time.
pub data Removal : Type 0 where
  canceled : (id client_ip : Str) → Removal
  vacuumed : (now : ℕ) → Removal

abbrev pub remove : Removal → RecvSessManager → RecvSessManager
remove (canceled id ip) rsm = (kill_session_for_client rsm id ip).0
remove (vacuumed now) rsm = vacuum rsm now

unfoldable pub remove_all : List Removal → RecvSessManager → RecvSessManager
remove_all [] rsm = rsm
remove_all (e ∷ events) rsm = remove_all events (remove e rsm)

-- Whether it is meant for the session: its owner cancels it, or it is stopped at that time.
abbrev pub Concerns : Str → RecvSession → Removal → Type 0
Concerns id sess (canceled j ip) = (j ≡ id) × (¬ IsForeign sess ip)
Concerns id sess (vacuumed now) = stopped sess now ≡ true

drop_stopped-IsDistinct :
    (now : ℕ) (m : Map RecvSession) → IsDistinct m → IsDistinct (drop_stopped now m)
unfolding drop_stopped
drop_stopped-IsDistinct now [] d = tt
drop_stopped-IsDistinct now ((j, s) ∷ m) d =
    ground (arith, drop_stopped-none now j m d.0, drop_stopped-IsDistinct now m d.1)

remove-IsDistinct :
    (e : Removal) (rsm : RecvSessManager)
    → IsDistinct rsm.sessions
    → IsDistinct (remove e rsm).sessions
unfolding kill_session_for_client kill_session vacuum
remove-IsDistinct (canceled id ip) rsm d = ground (arith, delete-IsDistinct id rsm.sessions d, d)
remove-IsDistinct (vacuumed now) rsm d = drop_stopped-IsDistinct now rsm.sessions d

remove-none :
    (e : Removal) (id : Str) (rsm : RecvSessManager)
    → lookup id rsm.sessions ≡ none
    → lookup id (remove e rsm).sessions ≡ none
unfolding kill_session_for_client kill_session vacuum
remove-none (canceled j ip) id rsm h = ground (arith, h, lookup-delete j id rsm.sessions)
remove-none (vacuumed now) id rsm h = drop_stopped-none now id rsm.sessions h

remove_all-none :
    (events : List Removal) (id : Str) (rsm : RecvSessManager)
    → lookup id rsm.sessions ≡ none
    → lookup id (remove_all events rsm).sessions ≡ none
unfolding remove_all
remove_all-none [] id rsm h = h
remove_all-none (e ∷ events) id rsm h =
    remove_all-none events id (remove e rsm) (remove-none e id rsm h)

module _ (id : Str) (sess : RecvSession) where
  remove-kept :
      (e : Removal) (rsm : RecvSessManager)
      → IsDistinct rsm.sessions
      → lookup id rsm.sessions ≡ some sess
      → ¬ Concerns id sess e
      → lookup id (remove e rsm).sessions ≡ some sess
  unfolding kill_session_for_client kill_session vacuum unless_stopped
  remove-kept (canceled j ip) rsm d h n = elim (Str-discrete j id) [
    | yes q ↦ elim (Bool-cases (not (str_eq sess.client_ip []) && not (str_eq sess.client_ip ip))) [
      | inl t ↦ let l : lookup j rsm.sessions ≡ some sess = rw q h in ground (arith, h, l, t)
      | inr f ↦ absurd (n (q, λ k. ground (arith, k.0, k.1, f)))
    ]
    | no q ↦ ground (arith, q, h, lookup-delete j id rsm.sessions)
  ]
  remove-kept (vacuumed now) rsm d h n = elim (Bool-cases (stopped sess now)) [
    | inl t ↦ absurd (n t)
    | inr f ↦ ground (arith, h, f, lookup-drop_stopped now id rsm.sessions d)
  ]

  remove-gone :
      (e : Removal) (rsm : RecvSessManager)
      → IsDistinct rsm.sessions
      → lookup id rsm.sessions ≡ some sess
      → Concerns id sess e
      → lookup id (remove e rsm).sessions ≡ none
  unfolding kill_session_for_client kill_session vacuum unless_stopped
  remove-gone (canceled j ip) rsm d h (q, n) =
      let f = not_foreign sess ip n in
      let l : lookup j rsm.sessions ≡ some sess = rw q h in
      ground (arith, l, q, f, lookup-delete j id rsm.sessions)
  remove-gone (vacuumed now) rsm d h t =
      ground (arith, h, t, lookup-drop_stopped now id rsm.sessions d)

  -- Where each id has one session, a session is there, as it was, after any sequence of cancels by
  -- clients and of vacuums exactly if none of them was its owner's cancel of it or a vacuum at a time
  -- at which it is stopped: an address that is not its owner's cannot remove it, and its owner can. A
  -- session without an address is anyone's.
  pub remove_all-keeps :
      (events : List Removal) (rsm : RecvSessManager)
      → IsDistinct rsm.sessions
      → lookup id rsm.sessions ≡ some sess
      → (lookup id (remove_all events rsm).sessions ≡ some sess)
        ↔ All (λ e. ¬ Concerns id sess e) events
  unfolding remove_all
  remove_all-keeps [] rsm d h = (λ k. tt, λ a. h)
  remove_all-keeps (e ∷ events) rsm d h =
      let rsm' = remove e rsm in
      let later = λ (n : ¬ Concerns id sess e).
        remove_all-keeps events rsm' (remove-IsDistinct e rsm d) (remove-kept e rsm d h n) in
      (
        λ k.
            let n : ¬ Concerns id sess e = λ c.
              let g = remove_all-none events id rsm' (remove-gone e rsm d h c) in
              ground (arith, g, k) in
            (n, (later n).0 k),
        λ a. (later a.0).1 a.1,
      )
