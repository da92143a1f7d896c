-- ===== src/Rtc/Delivery.antt =====
-- All the frames of a transfer of many files: `SendFiles` of webrtc/transfer/sender.go against
-- `handleDataMessage` of receiver.go.
use pdf_to_epub.Disk.{Disk}
use pdf_to_epub.Prelude.{
  Option, none, some, true, List, [], ◌∷◌, ◌++◌, Str, str_eq, length, map, ◌≡◌, refl, ap, ◌≢◌, ◌∙◌,
  arith, false,
}
use pdf_to_epub.Prelude.Int.{pos}
use pdf_to_epub.Prelude.Map.{Map, lookup}
use pdf_to_epub.Rtc.{RtcFile, parse_rtc_message}
use pdf_to_epub.Rtc.Bytes.{finish_current_file}
use pdf_to_epub.Rtc.Files.{start_receiving_file}
use pdf_to_epub.Rtc.Frames.{
  Frame, delimiter, handle_data_message, handle_frames, handle_text, handle_control,
}
use pdf_to_epub.Rtc.Pairing.{handle_file_header}
use pdf_to_epub.Rtc.Received.{drop_peer-keeps}
use pdf_to_epub.Rtc.Receiver.{wait_files, done, Env, RtcReceiver, drop_peer}
use pdf_to_epub.Rtc.Sender.Sending.{Sendable, Ops, header_frame}
use pdf_to_epub.Rtc.Sender.Whole.{transfer_frames}
use pdf_to_epub.Rtc.Sender.Wire.{parts_of, content, wire}
use pdf_to_epub.Rtc.Transfer.{
  receive_parts, header_step, Offered, items_of, after_file, Starts, Saved, AllSaved, Held, held,
}
use pdf_to_epub.Rtc.Writing.{data_frame, end_frame, handle_frames-end}

module _ (env : Env) (ops : Ops)
    (texts : (id token : Str) → str_eq (ops.header id token) delimiter ≡ false)
    (removes : (path : Str) → env.faults.remove path ≡ false) where
  -- What the frames behind the header of the first file come to.
  abbrev Ended : Map Str → List Offered → Option RtcReceiver → Type 0
  Ended before offered o =
      (r' : RtcReceiver) × (o ≡ some r')
      × AllSaved env ops before r'.disk.files offered
      × (r'.state ≡ done)
      × (r'.peer ≡ none)

  ended :
      (item : Sendable) (meta : RtcFile) (r : RtcReceiver)
      → item.id ≢ []
      → meta.size ≡ pos (length (content ops item))
      → Held env ops item meta r
      → Ended r.disk.files ((item, meta) ∷ []) (
          handle_frames env
            (map data_frame (parts_of ops item) ++ (end_frame ∷ []))
            (start_receiving_file env item.id item.token r))
  unfolding Held
  ended item meta r i z (w, n, o, saved, run) =
      let r1 =
        receive_parts env (parts_of ops item) (start_receiving_file env item.id item.token r) in
      let finished = finish_current_file env r1 in
      let (disk, state, peer) = drop_peer-keeps (record finished { state = done }) in
      let size = length (content ops item) in
      (
        drop_peer (record finished { state = done }),
        run (end_frame ∷ []) ∙ handle_frames-end env r.disk.files item.id meta size i z w n r1 o,
        (finished.disk.files, saved, λ other. ap (λ (d : Disk). lookup other d.files) disk),
        state,
        peer,
      )

  -- The frames of the other files come behind the header of the second.
  passed :
      (item next : Sendable) (meta : RtcFile) (frames : List Frame) (r : RtcReceiver)
      → item.id ≢ []
      → next.id ≢ []
      → (env.json (ops.header next.id next.token)).header ≡ some (next.id, next.token)
      → meta.size ≡ pos (length (content ops item))
      → Held env ops item meta r
      → handle_frames env
          (map data_frame (parts_of ops item) ++ (header_frame ops next ∷ frames))
          (start_receiving_file env item.id item.token r)
        ≡ handle_frames env frames
            (start_receiving_file env next.id next.token (after_file env ops item r))
  unfolding Held handle_frames after_file
  passed item next meta frames r i j q z (w, n, o, saved, run) =
      let r1 =
        receive_parts env (parts_of ops item) (start_receiving_file env item.id item.token r) in
      let step =
        header_step env r.disk.files item.id meta (length (content ops item)) i z
          (ops.header next.id next.token) next.id next.token w n r1 o (texts next.id next.token) q
          j in
      run (header_frame ops next ∷ frames) ∙ rw (handle_frames, step) refl

  after_file-Saved :
      (item : Sendable) (meta : RtcFile) (r : RtcReceiver)
      → Held env ops item meta r
      → Saved env ops r.disk.files (after_file env ops item r).disk.files item meta
  unfolding Held after_file
  after_file-Saved item meta r (w, n, o, saved, run) = saved

  run_files :
      (item : Sendable) (meta : RtcFile) (offered : List Offered) (r : RtcReceiver)
      → Starts env ops r ((item, meta) ∷ offered)
      → Ended r.disk.files ((item, meta) ∷ offered) (
          handle_frames env
            (wire ops (item ∷ items_of offered))
            (start_receiving_file env item.id item.token r))
  unfolding wire items_of
  run_files item meta [] r (i, _, m, z, _, s, _) =
      ended item meta r i z (held env ops removes item meta r i m z s)
  run_files item meta ((next, meta') ∷ offered) r (i, _, m, z, _, s, starts) =
      let h = held env ops removes item meta r i m z s in
      let (r', e, saved, state, peer) =
        run_files next meta' offered (after_file env ops item r) starts in
      let (j, _, _, _, q, _, _) = starts in
      (
        r',
        passed item next meta _ r i j q z h ∙ e,
        ((after_file env ops item r).disk.files, after_file-Saved item meta r h, saved),
        state,
        peer,
      )

  -- The first header, where the receiver waits for one.
  first_step :
      (id token : Str) (r : RtcReceiver)
      → id ≢ []
      → token ≢ []
      → r.state ≡ wait_files
      → (env.json (ops.header id token)).nonce ≡ some []
      → (env.json (ops.header id token)).header ≡ some (id, token)
      → handle_data_message env (record { is_string = true; bytes = ops.header id token }) r
        ≡ some (start_receiving_file env id token r)
  unfolding handle_data_message handle_text handle_control handle_file_header parse_rtc_message
  first_step id token r i k s n h = ground (arith, i, k, s, n, h, texts id token)

  -- Where no header is the delimiter, removals do not fail, the first header has no nonce, and the
  -- receiver waits for files each of which was offered, is as long as offered, and has its header
  -- decoded to its identifier and token and accepted when it comes, all the frames that the sender
  -- sends for a queue of them that is not empty do not make the receiver panic, and it ends with no
  -- connection and done; file by file there is a path that was free when the file came, which then
  -- holds the content that the sender read if no call on the file failed and the content fits the
  -- checksum that was offered, and no file otherwise, and each file leaves all other paths as they
  -- were.
  pub handle_frames-transfer_frames :
      (item : Sendable) (meta : RtcFile) (offered : List Offered) (r : RtcReceiver)
      → r.state ≡ wait_files
      → (env.json (ops.header item.id item.token)).nonce ≡ some []
      → Starts env ops r ((item, meta) ∷ offered)
      → (r' : RtcReceiver) × (handle_frames env
            (transfer_frames ops (items_of ((item, meta) ∷ offered)))
            r
          ≡ some r')
        × AllSaved env ops r.disk.files r'.disk.files ((item, meta) ∷ offered)
        × (r'.state ≡ done)
        × (r'.peer ≡ none)
  unfolding transfer_frames items_of handle_frames
  handle_frames-transfer_frames item meta offered r s n starts =
      let (r', e, saved, state, peer) = run_files item meta offered r starts in
      (
        r',
        rw (handle_frames, first_step item.id item.token r starts.0 starts.1 s n starts.4) e,
        saved,
        state,
        peer,
      )
