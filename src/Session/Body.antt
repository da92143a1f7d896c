-- ===== src/Session/Body.antt =====
-- The reading of an upload's body in `SaveFile` of session/recv.go: `io.LimitReader` over
-- `activityReader`, and the checks on what was read.
use pdf_to_epub.Errors.{TransferError, file_io, invalid_body, checksum}
use pdf_to_epub.Disk.{Faults}
use pdf_to_epub.Prelude.{
  ℕ, zero, suc, ◌+◌, ◌-◌, ◌/◌, Bool, false, not, ◌&&◌, ◌||◌, List, [], ◌∷◌, ◌++◌, ltb, leb, ◌==◌,
  if◌then◌else◌, Str, str_eq, length, take, map,
}
use pdf_to_epub.Prelude.Int.{ℤ, pos, negsuc}
use pdf_to_epub.Session.{FileMeta, UploadStatus, failed, pending, nanos_per_second}

-- One successful read of the connection: when it returned, and the bytes.
pub record Chunk : Type 0 where
  pub at : ℕ
  pub bytes : Str

-- What the client sends, and whether the connection then fails in place of ending.
pub record Body : Type 0 where
  pub chunks : List Chunk
  pub fails : Bool

-- What `SaveFile` uses of the world beside the disk: the calls that fail, the hash of a content
-- (SHA-256 in lower-case hexadecimal), and what a file holds of the bytes written to it if it can
-- neither be completed nor removed.
pub record Env : Type 0 where
  pub faults : Faults
  pub write_fails : Str → Bool
  pub flush_fails : Str → Bool
  pub sha256_hex : Str → Str
  pub left : Str → Str

-- The fields of `activityReader`: the session's `lastActivity` and its own `lastUpdate`.
pub record Activity : Type 0 where
  pub last_activity : ℕ
  pub last_update : ℕ

-- activityUpdateInterval
abbrev pub update_interval : ℕ
update_interval = 10

-- A read of `n` bytes at a time.
unfoldable pub note_read : Activity → ℕ → ℕ → Activity
note_read a n at =
    let now = at / nanos_per_second in
    if ltb 0 n && leb update_interval (now - a.last_update)
    then record { last_activity = now; last_update = now }
    else a

pub record Read : Type 0 where
  pub content : Str
  pub activity : Activity
  pub broken : Bool

-- The copy through a limit: a chunk past the limit is cut, and what follows is not read.
unfoldable pub read_limited : ℕ → Activity → Bool → List Chunk → Read
read_limited limit a fails [] = record {
  content = [];
  activity = a;
  broken = if limit == 0 then false else fails;
}
read_limited zero a fails (c ∷ cs) = record { content = []; activity = a; broken = false }
read_limited (suc n) a fails (c ∷ cs) =
    let part = take (suc n) c.bytes in
    let rest = read_limited (suc n - length part) (note_read a (length part) c.at) fails cs in
    record rest { content = part ++ rest.content }

abbrev pub max_int64 : ℕ
max_int64 = 0x7fff_ffff_ffff_ffff

-- The limit `expectedSize + 1` in int64: past the largest size it wraps to a negative number, and
-- a reader with no positive limit is at its end.
abbrev pub read_limit : ℤ → ℕ
read_limit (pos n) = if ltb n max_int64 then n + 1 else 0
read_limit (negsuc n) = 0

abbrev pub is_size : ℤ → ℕ → Bool
is_size (pos n) written = written == n
is_size (negsuc n) written = false

-- ASCII lower case, and `strings.EqualFold` on the hexadecimal digits of a hash.
abbrev pub lower : ℕ → ℕ
lower c = if leb b'A' c && leb c b'Z' then c + 32 else c

unfoldable pub equal_fold : Str → Str → Bool
equal_fold s t = str_eq (map lower s) (map lower t)

pub data Verdict : Type 0 where
  accepted : Verdict
  refused : TransferError → UploadStatus → Verdict

-- The checks after the copy, in their order.
unfoldable pub judge : Env → FileMeta → Str → Read → Verdict
judge env meta path r =
    if r.broken || env.write_fails path
    then refused file_io failed
    else if not (is_size meta.size (length r.content))
    then refused invalid_body failed
    else if env.flush_fails path
    then refused file_io failed
    else if not (str_eq meta.checksum [])
        && not (equal_fold (env.sha256_hex r.content) meta.checksum)
    then refused checksum pending
    else accepted
