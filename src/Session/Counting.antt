-- ===== src/Session/Counting.antt =====
-- The files of a session that are not done, and what a change of one entry does to their number.
use mathlib.Core.Path.{subst}
use pdf_to_epub.Prelude.{
  ℕ, ◌+◌, ◌≤◌, ◌<◌, Bool, true, false, none, some, [], ◌∷◌, if◌then◌else◌, Str, Str-discrete,
  str_eq, Bool-cases, inl, inr, ◌≡◌, arith, All,
}
use pdf_to_epub.Prelude.Map.{Map, lookup, insert}
use pdf_to_epub.Session.{UploadStatus, pending, in_progress, UploadState, max_checksum_attempts}

abbrev pub is_live : UploadStatus → Bool
is_live pending = true
is_live in_progress = true
is_live _ = false

abbrev pub one_if : Bool → ℕ
one_if b = if b then 1 else 0

-- The files that are pending or in progress.
unfoldable pub live : Map UploadState → ℕ
live [] = 0
live ((id, s) ∷ m) = one_if (is_live s.status) + live m

pub live-insert :
    (k : Str) (old new : UploadState) (m : Map UploadState)
    → lookup k m ≡ some old
    → live (insert k new m) + one_if (is_live old.status) ≡ live m + one_if (is_live new.status)
unfolding live lookup insert
live-insert k old new [] h = absurd (ground arith)
live-insert k old new ((j, s) ∷ m) h = ground (arith, live-insert k old new m)

pub live-insert_new :
    (k : Str) (new : UploadState) (m : Map UploadState)
    → lookup k m ≡ none
    → live (insert k new m) ≡ live m + one_if (is_live new.status)
unfolding live lookup insert
live-insert_new k new [] h = ground arith
live-insert_new k new ((j, s) ∷ m) h = ground (arith, live-insert_new k new m)

-- How many attempts a file in each state has had.
pub record AttemptsOk (s : UploadState) : Type 0 where
  pub capped : s.attempts ≤ max_checksum_attempts
  pub pending_left : s.status ≡ pending → s.attempts < max_checksum_attempts
  pub in_progress_begun : s.status ≡ in_progress → 0 < s.attempts

abbrev pub AllOk : Map UploadState → Type 0
AllOk = All (λ e. AttemptsOk e.1)

pub lookup-AllOk :
    (k : Str) (s : UploadState) (m : Map UploadState) → AllOk m → lookup k m ≡ some s → AttemptsOk s
unfolding lookup
lookup-AllOk k s [] a h = absurd (ground arith)
lookup-AllOk k s ((j, t) ∷ m) a h = elim (Str-discrete j k) [
  | yes e ↦ let q : t ≡ s = ground arith in subst AttemptsOk q a.0
  | no n ↦ lookup-AllOk k s m a.1 (ground arith)
]

pub insert-AllOk :
    (k : Str) (s : UploadState) (m : Map UploadState)
    → AllOk m
    → AttemptsOk s
    → AllOk (insert k s m)
unfolding insert
insert-AllOk k s [] a h = (h, tt)
insert-AllOk k s ((j, t) ∷ m) a h = elim (Bool-cases (str_eq j k)) [
  | inl e ↦ rw e (h, a.1)
  | inr n ↦ rw n (a.0, insert-AllOk k s m a.1 h)
]
