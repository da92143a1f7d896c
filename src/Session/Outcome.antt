-- ===== src/Session/Outcome.antt =====
-- What `SaveFile` of session/recv.go leaves on the disk.
use mathlib.Core.Path.{ap₂}
use pdf_to_epub.Disk.{Disk}
use pdf_to_epub.Errors.{TransferError}
use pdf_to_epub.Prelude.{
  ℕ, zero, suc, ◌-◌, ◌≤◌, ◌<◌, Bool, true, false, none, List, [], ◌∷◌, ◌++◌, Str, ◌≡◌, ◌≢◌, ◌⊎◌,
  refl, sym, ap, ◌∙◌, arith, length, length-append, take, take-short, length-take-le,
}
use pdf_to_epub.Prelude.Int.{ℤ, pos, negsuc}
use pdf_to_epub.Prelude.Map.{Map, lookup, insert, insert-insert, delete-insert_absent}
use pdf_to_epub.Session.{FileMeta, UploadStatus, finished, RecvSession, Result, ok, err}
use pdf_to_epub.Session.Body.{
  Chunk, Body, Env, Activity, Read, read_limited, read_limit, judge, Verdict, accepted, refused,
  equal_fold, note_read, is_size,
}
use pdf_to_epub.Session.Save.{Attempt, write_file, receive_body}

-- All the bytes that a client sends.
unfoldable pub sent : List Chunk → Str
sent [] = []
sent (c ∷ cs) = c.bytes ++ sent cs

read_limited-le :
    (limit : ℕ) (a : Activity) (fails : Bool) (cs : List Chunk)
    → length (read_limited limit a fails cs).content ≤ limit
unfolding read_limited
read_limited-le limit a fails [] = omega arith
read_limited-le zero a fails (c ∷ cs) = omega arith
read_limited-le (suc n) a fails (c ∷ cs) =
    let part = take (suc n) c.bytes in
    let a' = note_read a (length part) c.at in
    omega (
      arith,
      length-append part (read_limited (suc n - length part) a' fails cs).content,
      length-take-le (suc n) c.bytes,
      read_limited-le (suc n - length part) a' fails cs,
    )

-- A copy that stays below its limit has read everything.
read_limited-sent :
    (limit : ℕ) (a : Activity) (fails : Bool) (cs : List Chunk)
    → length (read_limited limit a fails cs).content < limit
    → ((read_limited limit a fails cs).content ≡ sent cs)
      × ((read_limited limit a fails cs).broken ≡ fails)
unfolding read_limited sent
read_limited-sent limit a fails [] h = (refl, ground arith)
read_limited-sent zero a fails (c ∷ cs) h = absurd (omega arith)
read_limited-sent (suc n) a fails (c ∷ cs) h =
    let part = take (suc n) c.bytes in
    let a' = note_read a (length part) c.at in
    let l = length-append part (read_limited (suc n - length part) a' fails cs).content in
    let (e, b) = read_limited-sent (suc n - length part) a' fails cs (omega (arith, l)) in
    (ap₂ ◌++◌ (take-short (suc n) c.bytes (omega (arith, l))) e, b)

size-pos : (z : ℤ) (n : ℕ) → is_size z n ≡ true → z ≡ pos n
size-pos (pos m) n h = ground arith
size-pos (negsuc m) n h = absurd (ground arith)

read_limit-above : (z : ℤ) (n : ℕ) → z ≡ pos n → n ≤ read_limit z → n < read_limit z
read_limit-above (pos m) n e h = ground arith
read_limit-above (negsuc m) n e h = absurd (ground arith)

judge_accepted :
    (env : Env) (meta : FileMeta) (path : Str) (r : Read)
    → judge env meta path r ≡ accepted
    → (r.broken ≡ false)
      × (is_size meta.size (length r.content) ≡ true)
      × ((meta.checksum ≡ []) ⊎ (equal_fold (env.sha256_hex r.content) meta.checksum ≡ true))
unfolding judge
judge_accepted env meta path r h = ground arith

judge_refused :
    (env : Env) (meta : FileMeta) (path : Str) (r : Read) (e : TransferError) (s : UploadStatus)
    → judge env meta path r ≡ refused e s
    → s ≢ finished
unfolding judge
judge_refused env meta path r e s h = λ q. ground arith

-- A saved file: it was not there, it holds what the client sent and nothing else changed; it has the
-- declared size, and the declared checksum where there is one.
pub record IsSaved (env : Env) (meta : FileMeta) (body : Body) (before after : Map Str) (path : Str)
    : Type 0 where
  pub was_free : lookup path before ≡ none
  pub written : after ≡ insert path (sent body.chunks) before
  pub size : meta.size ≡ pos (length (sent body.chunks))
  pub complete : body.fails ≡ false
  pub hash :
      (meta.checksum ≡ []) ⊎ (equal_fold (env.sha256_hex (sent body.chunks)) meta.checksum ≡ true)

abbrev pub NoRemoveFaults : Env → Type 0
NoRemoveFaults env = (p : Str) → env.faults.remove p ≡ false

-- The outcome of an attempt: a saved file, or an error and no change of any file.
abbrev pub Sound : Env → FileMeta → Body → Map Str → Map Str → UploadStatus → Result Str → Type 0
Sound env meta body before after status (ok name) =
    (status ≡ finished) × (path : Str) × IsSaved env meta body before after path
Sound env meta body before after status (err e) =
    (status ≢ finished) × (NoRemoveFaults env → after ≡ before)

abbrev pub SoundAttempt : Env → FileMeta → Body → Map Str → Attempt → Type 0
SoundAttempt env meta body before a = Sound env meta body before a.disk.files a.status a.result

write_file-Sound :
    (sess : RecvSession) (disk : Disk) (env : Env) (meta : FileMeta) (sub_dir path : Str)
    (body : Body) (before : Map Str) (a : Activity) (v : Verdict)
    → lookup path before ≡ none
    → disk.files ≡ insert path [] before
    → judge env meta path (read_limited (read_limit meta.size) a body.fails body.chunks) ≡ v
    → SoundAttempt env meta body before (
        write_file sess disk env sub_dir path
          (read_limited (read_limit meta.size) a body.fails body.chunks)
          v)
write_file-Sound sess disk env meta sub_dir path body before a accepted free made h =
    let r = read_limited (read_limit meta.size) a body.fails body.chunks in
    let (whole, sized, hashed) = judge_accepted env meta path r h in
    let z = size-pos meta.size (length r.content) sized in
    let below : length r.content < read_limit meta.size =
      read_limit-above meta.size (length r.content) z
        (read_limited-le _ a body.fails body.chunks) in
    let (e, b) = read_limited-sent (read_limit meta.size) a body.fails body.chunks below in
    (
      refl,
      path,
      record {
        was_free = free;
        written = rw (made, e) (insert-insert path (sent body.chunks) [] before);
        size = z ∙ ap (λ s. pos (length s)) e;
        complete = sym b ∙ whole;
        hash = rw e at hashed;
      },
    )
write_file-Sound sess disk env meta sub_dir path body before a (refused e s) free made h = (
  judge_refused env meta path _ e s h,
  λ ok. ground (arith, ok path, made, delete-insert_absent path [] before free),
)

pub receive_body-Sound :
    (sess : RecvSession) (disk : Disk) (env : Env) (meta : FileMeta) (sub_dir path : Str)
    (body : Body) (before : Map Str)
    → lookup path before ≡ none
    → disk.files ≡ insert path [] before
    → SoundAttempt env meta body before (receive_body sess disk env meta sub_dir path body)
unfolding receive_body
receive_body-Sound sess disk env meta sub_dir path body before free made =
    write_file-Sound _ disk env meta sub_dir path body before _ _ free made refl
