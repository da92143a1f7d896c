-- ===== src/Rtc/Transfer.antt =====
-- A transfer of many files: the frames of webrtc/transfer/sender.go, handled by receiver.go.

use pdf_to_epub.Prelude.{
  ℕ, ◌+◌, ◌≤◌, true, false, none, some, List, [], ◌∷◌, ◌++◌, if◌then◌else◌, Str, str_eq, length,
  map, ◌≡◌, refl, ◌≢◌, ◌∙◌, arith,
}
use pdf_to_epub.Prelude.Int.{pos}
use pdf_to_epub.Prelude.Map.{Map, lookup}
use pdf_to_epub.Rtc.{RtcFile}
use pdf_to_epub.Rtc.Bytes.{handle_binary_data, write_data, finish_current_file}
use pdf_to_epub.Rtc.Files.{file_meta_by_id, start_receiving_file}
use pdf_to_epub.Rtc.Frames.{Frame, delimiter, handle_data_message, handle_frames, handle_transfer}
use pdf_to_epub.Rtc.Opening.{new_writer, start_receiving_file-Started}
use pdf_to_epub.Rtc.Received.{is_complete, verdict}
use pdf_to_epub.Rtc.Receiver.{receiving_files, Writer, Env, RtcReceiver}
use pdf_to_epub.Rtc.Sender.Sending.{Sendable, Ops}
use pdf_to_epub.Rtc.Sender.Wire.{parts_of, content, content_of-parts_of}
use pdf_to_epub.Rtc.Writing.{
  data_frame, content_of, Open, put, put_le, put_all, put_all-Wrote, data_step, write_data-Open,
  finish_current_file-Open,
}

-- The parts of a file, one after the other.
unfoldable pub receive_parts : Env → List Str → RtcReceiver → RtcReceiver
receive_parts env [] r = r
receive_parts env (bytes ∷ parts) r = receive_parts env parts (handle_binary_data env bytes r)

module _ (env : Env) (before : Map Str) (id : Str) (meta : RtcFile) (size : ℕ) (i : id ≢ [])
    (z : meta.size ≡ pos size) where
  binary_step :
      (bytes : Str) (w : Writer) (n : ℕ) (r : RtcReceiver)
      → Open before id meta w n r
      → n + length bytes ≤ size
      → handle_binary_data env bytes r ≡ write_data env bytes w r
  unfolding handle_binary_data
  binary_step bytes w n r (s, c, m, l, b, d) le = ground (arith, c, m, l, b, z, le)

  receive_parts-Open :
      (parts : List Str) (rest : List Frame) (p : Writer × ℕ) (r : RtcReceiver)
      → Open before id meta p.0 p.1 r
      → p.1 + length (content_of parts) ≤ size
      → (handle_frames env (map data_frame parts ++ rest) r
          ≡ handle_frames env rest (receive_parts env parts r))
        × (let q = put_all env parts p in Open before id meta q.0 q.1 (receive_parts env parts r))
  unfolding handle_frames put_all receive_parts
  receive_parts-Open [] rest p r o le = (refl, o)
  receive_parts-Open (bytes ∷ parts) rest p r o le =
      let (here_le, rest_le) = put_le env bytes parts p size le in
      let step = data_step env before id meta size i z bytes p.0 p.1 r o here_le in
      let r' = write_data env bytes p.0 r in
      let (e, o') =
        receive_parts-Open parts rest (put env bytes p) r'
          (write_data-Open env before id meta size i z bytes p.0 p.1 r o) rest_le in
      simp (binary_step bytes p.0 p.1 r o here_le) (rw (handle_frames, step) e, o')

  -- The header of the next file ends the file.
  pub header_step :
      (text next token : Str) (w : Writer) (n : ℕ) (r : RtcReceiver)
      → Open before id meta w n r
      → str_eq text delimiter ≡ false
      → (env.json text).header ≡ some (next, token)
      → next ≢ []
      → handle_data_message env (record { is_string = true; bytes = text }) r
        ≡ some (start_receiving_file env next token (finish_current_file env r))
  unfolding handle_data_message handle_transfer
  header_step text next token w n r (s, c, m, l, b, d) t h k = ground (arith, s, c, i, t, h, k)

-- A file of the queue, with what it was offered as.
abbrev pub Offered : Type 0
Offered = Sendable × RtcFile

unfoldable pub items_of : List Offered → List Sendable
items_of [] = []
items_of ((item, meta) ∷ offered) = item ∷ items_of offered

-- The receiver behind a file, from its header on.
unfoldable pub after_file : Env → Ops → Sendable → RtcReceiver → RtcReceiver
after_file env ops item r =
    finish_current_file env
      (receive_parts env (parts_of ops item) (start_receiving_file env item.id item.token r))

-- Each file was offered, is as long as offered, and its header decodes to its identifier and token
-- and is accepted when it comes.
abbrev pub Starts : Env → Ops → RtcReceiver → List Offered → Type 0
Starts env ops r [] = Unit
Starts env ops r ((item, meta) ∷ offered) =
    (item.id ≢ [])
    × (item.token ≢ [])
    × (file_meta_by_id r item.id ≡ some meta)
    × (meta.size ≡ pos (length (content ops item)))
    × ((env.json (ops.header item.id item.token)).header ≡ some (item.id, item.token))
    × ((start_receiving_file env item.id item.token r).state ≡ receiving_files)
    × Starts env ops (after_file env ops item r) offered

-- What a file does to the files on the disk.
abbrev pub Saved : Env → Ops → Map Str → Map Str → Sendable → RtcFile → Type 0
Saved env ops before after item meta =
    (path : Str) × (lookup path before ≡ none)
    × ((other : Str)
        → lookup other after ≡ (
            if str_eq path other
            then (if is_complete env meta path (parts_of ops item)
                then some (content ops item)
                else none)
            else lookup other before))

-- What the files do to it, one after the other.
abbrev pub AllSaved : Env → Ops → Map Str → Map Str → List Offered → Type 0
AllSaved env ops before after [] = (other : Str) → lookup other after ≡ lookup other before
AllSaved env ops before after ((item, meta) ∷ offered) =
    (mid : Map Str) × Saved env ops before mid item meta × AllSaved env ops mid after offered

-- After all parts of a file it is still open, the frames behind them are next, and its end saves it.
unfoldable pub Held : Env → Ops → Sendable → RtcFile → RtcReceiver → Type 0
Held env ops item meta r =
    let r1 =
      receive_parts env (parts_of ops item) (start_receiving_file env item.id item.token r) in
    (w : Writer) × (n : ℕ) × Open r.disk.files item.id meta w n r1
    × Saved env ops r.disk.files (finish_current_file env r1).disk.files item meta
    × ((rest : List Frame)
        → handle_frames env (map data_frame (parts_of ops item) ++ rest)
            (start_receiving_file env item.id item.token r)
          ≡ handle_frames env rest r1)

module _ (env : Env) (ops : Ops) (removes : (path : Str) → env.faults.remove path ≡ false) where
  pub held :
      (item : Sendable) (meta : RtcFile) (r : RtcReceiver)
      → item.id ≢ []
      → file_meta_by_id r item.id ≡ some meta
      → meta.size ≡ pos (length (content ops item))
      → (start_receiving_file env item.id item.token r).state ≡ receiving_files
      → Held env ops item meta r
  unfolding Held
  held item meta r i m z s =
      let before = r.disk.files in
      let parts = parts_of ops item in
      let size = length (content ops item) in
      let opened = start_receiving_file env item.id item.token r in
      let (path, free, o0) = start_receiving_file-Started env item.id meta item.token r m s in
      let p : Writer × ℕ = (new_writer meta path, 0) in
      let c = content_of-parts_of ops item in
      let le : 0 + length (content_of parts) ≤ size = rw c (omega arith) in
      let step = λ (rest : List Frame).
        receive_parts-Open env before item.id meta size i z parts rest p opened o0 le in
      let q = put_all env parts p in
      let o = (step []).1 in
      let r1 = receive_parts env parts opened in
      (
        q.0,
        q.1,
        o,
        (
          path,
          free,
          λ other.
              finish_current_file-Open env before item.id meta size i z q.0 q.1 r1 other o
                (removes q.0.path)
              ∙ verdict env meta path parts before other q (put_all-Wrote env parts p)
              ∙ rw c refl,
        ),
        λ rest. (step rest).0,
      )
