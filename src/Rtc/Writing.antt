-- ===== src/Rtc/Writing.antt =====
-- The frames of a file, and its end, in webrtc/transfer/receiver.go.

use pdf_to_epub.Prelude.{
  ℕ, ◌+◌, ◌≤◌, true, false, ◌||◌, Option, none, some, List, [], ◌∷◌, ◌++◌, if◌then◌else◌, Str,
  str_eq, length, map, any, ◌≡◌, refl, ◌≢◌, arith, length-append, append_assoc, append-nil,
  Bool-cases, inl, inr,
}
use pdf_to_epub.Prelude.Int.{pos}
use pdf_to_epub.Prelude.Map.{Map, lookup, insert, lookup-insert, lookup-delete, lookup-insert_self}
use pdf_to_epub.Rtc.{RtcFile}
use pdf_to_epub.Rtc.Bytes.{
  handle_binary_data, write_data, finish_current_file, finish_error, settle, is_success, flush,
}
use pdf_to_epub.Rtc.Files.{file_meta_by_id}
use pdf_to_epub.Rtc.Frames.{Frame, delimiter, handle_transfer, handle_data_message, handle_frames}
use pdf_to_epub.Rtc.Receiver.{
  receiving_files, done, Writer, Env, RtcReceiver, send_json, drop_peer, mark_transfer_done,
  remove_file,
}

abbrev pub data_frame : Str → Frame
data_frame bytes = record { is_string = false; bytes = bytes }

abbrev pub end_frame : Frame
end_frame = record { is_string = true; bytes = delimiter }

unfoldable pub content_of : List Str → Str
content_of [] = []
content_of (bytes ∷ parts) = bytes ++ content_of parts

-- A file is open under the identifier, for the path of its writer, which was free.
abbrev pub Open : Map Str → Str → RtcFile → Writer → ℕ → RtcReceiver → Type 0
Open before id meta w n r =
    (r.state ≡ receiving_files)
    × (r.current_file_id ≡ id)
    × (file_meta_by_id r id ≡ some meta)
    × (lookup id r.writers ≡ some w)
    × (r.current_bytes ≡ n)
    × (r.disk.files ≡ insert w.path [] before)

-- A writer and the bytes that are counted, after some data.
pub put : Env → Str → Writer × ℕ → Writer × ℕ
put env bytes (w, n) =
    if w.failed || env.write_fails w.path bytes
    then (record w { failed = true }, n)
    else (record w { content = w.content ++ bytes }, n + length bytes)

unfoldable pub put_all : Env → List Str → Writer × ℕ → Writer × ℕ
put_all env [] p = p
put_all env (bytes ∷ parts) p = put_all env parts (put env bytes p)

abbrev pub Wrote : Env → List Str → Writer × ℕ → Writer × ℕ → Type 0
Wrote env parts (w, n) (w', n') =
    (w'.path ≡ w.path)
    × (w'.hashed ≡ w.hashed)
    × (w'.failed ≡ (w.failed || any (env.write_fails w.path) parts))
    × (w'.failed ≡ false → w'.content ≡ w.content ++ content_of parts)
    × (w'.failed ≡ false → n' ≡ n + length (content_of parts))

put-Wrote :
    (env : Env) (bytes : Str) (parts : List Str) (p q : Writer × ℕ)
    → Wrote env parts (put env bytes p) q
    → Wrote env (bytes ∷ parts) p q
unfolding put content_of
put-Wrote env bytes parts (w, n) (w', n') (a, b, c, d, e) =
    elim (Bool-cases (w.failed || env.write_fails w.path bytes)) [
      | inl t ↦ (
        ground (arith, a, t),
        ground (arith, b, t),
        ground (arith, c, t),
        λ f. absurd (ground (arith, c, t, f)),
        λ f. absurd (ground (arith, c, t, f)),
      )
      | inr t ↦ (
        ground (arith, a, t),
        ground (arith, b, t),
        ground (arith, c, t),
        λ f. ground (arith, d, t, f, append_assoc w.content bytes (content_of parts)),
        λ f. ground (arith, e, t, f, length-append bytes (content_of parts)),
      )
    ]

pub put_all-Wrote :
    (env : Env) (parts : List Str) (p : Writer × ℕ) → Wrote env parts p (put_all env parts p)
unfolding put_all content_of
put_all-Wrote env [] (w, n) =
    (refl, refl, ground arith, λ f. ground (arith, append-nil w.content), λ f. omega arith)
put_all-Wrote env (bytes ∷ parts) p =
    put-Wrote env bytes parts p _ (put_all-Wrote env parts (put env bytes p))

pub put_le :
    (env : Env) (bytes : Str) (parts : List Str) (p : Writer × ℕ) (size : ℕ)
    → p.1 + length (content_of (bytes ∷ parts)) ≤ size
    → (p.1 + length bytes ≤ size) × ((put env bytes p).1 + length (content_of parts) ≤ size)
unfolding put content_of
put_le env bytes parts (w, n) size h = ground (arith, h, length-append bytes (content_of parts))

module _ (env : Env) (before : Map Str) (id : Str) (meta : RtcFile) (size : ℕ) (i : id ≢ [])
    (z : meta.size ≡ pos size) where
  pub data_step :
      (bytes : Str) (w : Writer) (n : ℕ) (r : RtcReceiver)
      → Open before id meta w n r
      → n + length bytes ≤ size
      → handle_data_message env (data_frame bytes) r ≡ some (write_data env bytes w r)
  unfolding handle_data_message handle_transfer handle_binary_data
  data_step bytes w n r (s, c, m, l, b, d) le = ground (arith, s, c, m, l, b, i, z, le)

  pub write_data-Open :
      (bytes : Str) (w : Writer) (n : ℕ) (r : RtcReceiver)
      → Open before id meta w n r
      → (let p = put env bytes (w, n) in Open before id meta p.0 p.1 (write_data env bytes w r))
  unfolding file_meta_by_id put
  write_data-Open bytes w n r (s, c, m, l, b, d) = ground (
    arith,
    s,
    c,
    m,
    l,
    b,
    d,
    lookup-insert_self id (record w { failed = true }) r.writers,
    lookup-insert_self id (record w { content = w.content ++ bytes }) r.writers,
  )

  pub data_frames-Open :
      (parts : List Str) (rest : List Frame) (p : Writer × ℕ) (r : RtcReceiver)
      → Open before id meta p.0 p.1 r
      → p.1 + length (content_of parts) ≤ size
      → (r' : RtcReceiver) × (handle_frames env (map data_frame parts ++ rest) r
          ≡ handle_frames env rest r')
        × (let q = put_all env parts p in Open before id meta q.0 q.1 r')
  unfolding handle_frames put_all
  data_frames-Open [] rest p r o le = (r, refl, o)
  data_frames-Open (bytes ∷ parts) rest p r o le =
      let (here_le, rest_le) = put_le env bytes parts p size le in
      let (r', e, o') =
        data_frames-Open parts rest (put env bytes p) (write_data env bytes p.0 r)
          (write_data-Open bytes p.0 p.1 r o) rest_le in
      (r', rw (handle_frames, data_step bytes p.0 p.1 r o here_le) e, o')

  finish_current_file-disk :
      (r : RtcReceiver)
      → r.current_file_id ≡ id
      → (let meta' = file_meta_by_id r id in
          let w = lookup id r.writers in
          let e = finish_error env meta' r.current_bytes w in
          (finish_current_file env r).disk ≡ (settle env meta' w e r).disk)
  unfolding finish_current_file send_json mark_transfer_done
  finish_current_file-disk r c = ground (arith, c, i)

  -- The end of the transfer: what the file's path holds, and what the other paths do.
  settle-files :
      (w : Writer) (n : ℕ) (e : Option Str) (r : RtcReceiver) (other : Str)
      → r.disk.files ≡ insert w.path [] before
      → env.faults.remove w.path ≡ false
      → finish_error env (some meta) n (some w) ≡ e
      → lookup other (settle env (some meta) (some w) e r).disk.files ≡ (
          if str_eq w.path other
          then (if is_success e then some w.content else none)
          else lookup other before)
  unfolding finish_error remove_file
  settle-files w n none r other d f e = ground (
    arith,
    d,
    e,
    lookup-insert w.path other w.content (insert w.path [] before),
    lookup-insert w.path other [] before,
  )
  settle-files w n (some message) r other d f e = ground (
    arith,
    d,
    f,
    lookup-delete w.path other (flush env w r.disk).files,
    lookup-insert w.path other w.content (insert w.path [] before),
    lookup-insert w.path other [] before,
  )

  pub finish_current_file-Open :
      (w : Writer) (n : ℕ) (r : RtcReceiver) (other : Str)
      → Open before id meta w n r
      → env.faults.remove w.path ≡ false
      → lookup other (finish_current_file env r).disk.files ≡ (
          if str_eq w.path other
          then (if is_success (finish_error env (some meta) n (some w))
              then some w.content
              else none)
          else lookup other before)
  finish_current_file-Open w n r other (s, c, m, l, b, d) f =
      simp (finish_current_file-disk r c, m, l, b)
        (settle-files w n (finish_error env (some meta) n (some w)) r other d f refl)

  pub end_step :
      (w : Writer) (n : ℕ) (r : RtcReceiver)
      → Open before id meta w n r
      → handle_data_message env end_frame r
        ≡ some (drop_peer (record (finish_current_file env r) { state = done }))
  unfolding handle_data_message handle_transfer
  end_step w n r (s, c, m, l, b, d) = ground (arith, s, c, i)

  pub handle_frames-end :
      (w : Writer) (n : ℕ) (r : RtcReceiver)
      → Open before id meta w n r
      → handle_frames env (end_frame ∷ []) r
        ≡ some (drop_peer (record (finish_current_file env r) { state = done }))
  unfolding handle_frames
  handle_frames-end w n r o = rw (handle_frames, end_step w n r o) refl
