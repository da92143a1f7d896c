-- ===== src/Rtc/Received.antt =====
-- A file of a transfer, from its header to the end, in webrtc/transfer/receiver.go.

use pdf_to_epub.Disk.{Disk}
use pdf_to_epub.Prelude.{
  ℕ, ◌≤◌, Bool, false, not, ◌&&◌, ◌||◌, none, some, List, [], ◌∷◌, ◌++◌, if◌then◌else◌, Str, str_eq,
  length, map, any, ◌≡◌, ap, ◌≢◌, ◌∙◌, arith, Bool-cases, inl, inr,
}
use pdf_to_epub.Prelude.Int.{pos}
use pdf_to_epub.Prelude.Map.{Map, lookup}
use pdf_to_epub.Rtc.{RtcFile}
use pdf_to_epub.Rtc.Bytes.{finish_current_file, finish_error, is_success, is_declared_size}
use pdf_to_epub.Rtc.Files.{file_meta_by_id, start_receiving_file}
use pdf_to_epub.Rtc.Frames.{handle_frames}
use pdf_to_epub.Rtc.Receiver.{receiving_files, done, Writer, Env, RtcReceiver, drop_peer}
use pdf_to_epub.Rtc.Writing.{
  data_frame, end_frame, content_of, Wrote, put_all, put_all-Wrote, data_frames-Open,
  finish_current_file-Open, handle_frames-end,
}
use pdf_to_epub.Rtc.Opening.{new_writer, start_receiving_file-Started}

-- Whether the content is what the file's metadata declare, and every call on the file succeeds.
abbrev pub is_complete : Env → RtcFile → Str → List Str → Bool
is_complete env meta path parts =
    not (any (env.write_fails path) parts)
    && not (env.flush_fails path)
    && not (env.close_fails path)
    && is_declared_size (some meta) (length (content_of parts))
    && (str_eq meta.sha256 [] || str_eq (env.sha256_hex (content_of parts)) meta.sha256)

-- The checks at the end say whether the file is complete.
finish_error-is_complete :
    (env : Env) (meta : RtcFile) (path : Str) (parts : List Str) (w : Writer) (n : ℕ)
    → Wrote env parts (new_writer meta path, 0) (w, n)
    → (if is_success (finish_error env (some meta) n (some w)) then some w.content else none)
      ≡ (if is_complete env meta path parts then some (content_of parts) else none)
unfolding finish_error
finish_error-is_complete env meta path parts w n (p, h, f, c, l) =
    elim (Bool-cases (any (env.write_fails path) parts)) [
      | inl t ↦ ground (arith, p, h, f, t)
      | inr t ↦ ground (arith, p, h, f, t, c (f ∙ t), l (f ∙ t))
    ]

pub verdict :
    (env : Env) (meta : RtcFile) (path : Str) (parts : List Str) (before : Map Str) (other : Str)
    (q : Writer × ℕ)
    → Wrote env parts (new_writer meta path, 0) q
    → (if str_eq q.0.path other
        then (if is_success (finish_error env (some meta) q.1 (some q.0))
            then some q.0.content
            else none)
        else lookup other before)
      ≡ (if str_eq path other
          then (if is_complete env meta path parts then some (content_of parts) else none)
          else lookup other before)
verdict env meta path parts before other (w, n) wrote =
    rw (finish_error-is_complete env meta path parts w n wrote) (ground (arith, wrote.0))

pub drop_peer-keeps :
    (r : RtcReceiver)
    → ((drop_peer r).disk ≡ r.disk) × ((drop_peer r).state ≡ r.state) × ((drop_peer r).peer ≡ none)
drop_peer-keeps r = ground arith

-- Where removals do not fail, an offered file of a declared size has a header that is accepted, and
-- binary frames with no more bytes than that and the end of the transfer follow, there is one path,
-- of no file before, that then holds the bytes of the frames if they are as many as declared, fit the
-- checksum, if there is one, and no call on the file failed, and that is no file otherwise; all other
-- paths are as they were, the code does not panic, and the connection is done.
pub handle_frames-start_receiving_file :
    (env : Env) (id token : Str) (parts : List Str) (r : RtcReceiver) (meta : RtcFile) (size : ℕ)
    → file_meta_by_id r id ≡ some meta
    → meta.size ≡ pos size
    → id ≢ []
    → length (content_of parts) ≤ size
    → ((path : Str) → env.faults.remove path ≡ false)
    → (let opened = start_receiving_file env id token r in opened.state ≡ receiving_files)
    → (path : Str) × (r' : RtcReceiver) × (handle_frames env
          (map data_frame parts ++ (end_frame ∷ []))
          (start_receiving_file env id token r)
        ≡ some r')
      × (lookup path r.disk.files ≡ none)
      × ((other : Str)
          → lookup other r'.disk.files ≡ (
              if str_eq path other
              then (if is_complete env meta path parts then some (content_of parts) else none)
              else lookup other r.disk.files))
      × (r'.state ≡ done)
      × (r'.peer ≡ none)
handle_frames-start_receiving_file env id token parts r meta size m z i le f s =
    let (path, free, o0) = start_receiving_file-Started env id meta token r m s in
    let p : Writer × ℕ = (new_writer meta path, 0) in
    let before = r.disk.files in
    let (r1, e, o) =
      data_frames-Open env before id meta size i z parts (end_frame ∷ []) p
        (start_receiving_file env id token r) o0 (omega (arith, le)) in
    let q = put_all env parts p in
    let wrote = put_all-Wrote env parts p in
    let (disk, state, peer) =
      drop_peer-keeps (record (finish_current_file env r1) { state = done }) in
    (
      path,
      drop_peer (record (finish_current_file env r1) { state = done }),
      e ∙ handle_frames-end env before id meta size i z q.0 q.1 r1 o,
      free,
      (λ other.
          ap (λ (d : Disk). lookup other d.files) disk
          ∙ (finish_current_file-Open env before id meta size i z q.0 q.1 r1 other o (f q.0.path)
              ∙ verdict env meta path parts before other q wrote)),
      state,
      peer,
    )
