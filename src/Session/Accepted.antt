-- ===== src/Session/Accepted.antt =====
-- Which uploads `SaveFile` of session/recv.go accepts, once the file is open.

use pdf_to_epub.Disk.{Disk}
use pdf_to_epub.Prelude.{
  ℕ, zero, suc, ◌-◌, ◌<◌, Bool, true, false, List, [], ◌∷◌, ◌++◌, Str, ◌≡◌, ◌⊎◌, refl, ap, arith,
  length, length-append, take_of_length-le,
}
use pdf_to_epub.Prelude.Int.{ℤ, pos}
use pdf_to_epub.Prelude.Map.{insert}
use pdf_to_epub.Session.{FileMeta, finished, RecvSession, ok}
use pdf_to_epub.Session.Body.{
  Chunk, Body, Env, Activity, Read, read_limited, read_limit, judge, accepted, equal_fold,
  note_read, max_int64,
}
use pdf_to_epub.Session.Outcome.{sent}
use pdf_to_epub.Session.Save.{receive_body, saved_name}

-- A copy whose limit is above what is sent reads all of it.
read_limited-all :
    (limit : ℕ) (a : Activity) (fails : Bool) (cs : List Chunk)
    → length (sent cs) < limit
    → ((read_limited limit a fails cs).content ≡ sent cs)
      × ((read_limited limit a fails cs).broken ≡ fails)
unfolding read_limited sent
read_limited-all limit a fails [] h = (refl, ground arith)
read_limited-all zero a fails (c ∷ cs) h = absurd (omega arith)
read_limited-all (suc n) a fails (c ∷ cs) h =
    let l = length-append c.bytes (sent cs) in
    let t = take_of_length-le (suc n) c.bytes (omega (arith, l)) in
    let (e, b) =
      read_limited-all (suc n - length c.bytes) (note_read a (length c.bytes) c.at) fails cs
        (omega (arith, l)) in
    (rw t (ap (◌++◌ c.bytes) e), rw t b)

-- The conditions on an upload: it ends, it has the declared size, and the declared hash if there is
-- one, and the writes succeed.
pub record IsGood (env : Env) (meta : FileMeta) (path : Str) (body : Body) : Type 0 where
  pub ends : body.fails ≡ false
  pub size : meta.size ≡ pos (length (sent body.chunks))
  pub small : length (sent body.chunks) < max_int64
  pub hash :
      (meta.checksum ≡ []) ⊎ (equal_fold (env.sha256_hex (sent body.chunks)) meta.checksum ≡ true)
  pub writes : env.write_fails path ≡ false
  pub flushes : env.flush_fails path ≡ false

judge_good :
    (env : Env) (meta : FileMeta) (path : Str) (body : Body) (r : Read)
    → IsGood env meta path body
    → r.content ≡ sent body.chunks
    → r.broken ≡ body.fails
    → judge env meta path r ≡ accepted
unfolding judge
judge_good env meta path body r g e b =
    ground (arith, e, b, g.ends, g.size, g.hash, g.writes, g.flushes, ap length e)

above_limit : (z : ℤ) (n : ℕ) → z ≡ pos n → n < max_int64 → n < read_limit z
above_limit z n e h = rw e (ground arith)

-- Once its file is open, a good upload is accepted: it is finished, its name is reported, and what
-- was sent is in the file, while no other file changes.
pub receive_body_accepts :
    (sess : RecvSession) (disk : Disk) (env : Env) (meta : FileMeta) (sub_dir path : Str)
    (body : Body)
    → IsGood env meta path body
    → let a = receive_body sess disk env meta sub_dir path body in
      (a.status ≡ finished)
      × (a.result ≡ ok (saved_name sub_dir path))
      × (a.disk.files ≡ insert path (sent body.chunks) disk.files)
unfolding receive_body
receive_body_accepts sess disk env meta sub_dir path body g =
    let a : Activity = record { last_activity = sess.last_activity; last_update = 0 } in
    let (e, b) =
      read_limited-all (read_limit meta.size) a body.fails body.chunks
        (above_limit meta.size _ g.size g.small) in
    let r = read_limited (read_limit meta.size) a body.fails body.chunks in
    rw (judge_good env meta path body r g e b) (refl, refl, ap (λ s. insert path s disk.files) e)
