-- ===== src/Rtc/Sender/Whole.antt =====
-- `SendFiles` of webrtc/transfer/sender.go as a whole: what an end without an error means, and when it
-- comes.
use pdf_to_epub.Prelude.{
  ℕ, suc, ◌+◌, Bool, true, false, Option, none, some, List, [], ◌∷◌, ◌++◌, Str, length, ◌≡◌, refl,
  arith, if_cases, append-nil, ◌↔◌,
}
use pdf_to_epub.Rtc.Chunks.{chunk_size, chunks}
use pdf_to_epub.Rtc.Frames.{Frame}
use pdf_to_epub.Rtc.{is_some}
use pdf_to_epub.Rtc.Sender.Sending.{
  Sendable, Reads, Ops, SendError, Sent, then_send, send_frame, send_chunks, send_blocks,
  header_frame, send_header, send_next, send_file, check_ack, send_queue, send_all, send_files,
  flush_all, prepare_send_queue, data_failed, delimiter_failed,
}
use pdf_to_epub.Rtc.Sender.Rounds.{
  send_reads, Gives, in_front, then_send-Gives, send_frame-Gives, drop_unit, Delivered, IsWhole,
  send_queue-Gives, check_ack_ends,
}
use pdf_to_epub.Rtc.Sender.Wire.{wire, first_header}
use pdf_to_epub.Rtc.Sender.{done, RtcSender}
use pdf_to_epub.Rtc.Writing.{data_frame, end_frame}

-- All frames of a queue.
unfoldable pub transfer_frames : Ops → List Sendable → List Frame
transfer_frames ops [] = end_frame ∷ []
transfer_frames ops (item ∷ rest) = header_frame ops item ∷ wire ops (item ∷ rest)

module _ (ops : Ops) where
  flush_all-Gives : Gives Unit [] (flush_all ops)
  flush_all-Gives =
      if_cases (λ o. Gives Unit [] ([], o)) ops.closed_in_flush _ _ (λ t. tt) (λ f. (tt, refl))

  send_all-Gives :
      (queue : List Sendable)
      → Gives (Delivered ops 0 queue) (transfer_frames ops queue ++ []) (send_all ops queue)
  unfolding send_all transfer_frames
  send_all-Gives [] =
      in_front Unit (end_frame ∷ []) [] 0 (send_frame ops 0 delimiter_failed end_frame) _
        (send_frame-Gives ops 0 delimiter_failed end_frame) (λ n. flush_all-Gives)
  send_all-Gives (item ∷ rest) = drop_unit ops (Delivered ops 0 (item ∷ rest)) _ _ (
      then_send-Gives (Delivered ops 0 (item ∷ rest)) Unit
        (first_header ops false (item ∷ rest) ++ wire ops (item ∷ rest)) [] 0
        (send_queue ops false 0 0 (item ∷ rest)) _ (send_queue-Gives ops false 0 0 (item ∷ rest))
        (λ n. flush_all-Gives))

  given :
      (P : Type 0) (frames : List Frame) (s : Sent)
      → s.1 ≡ none
      → Gives P frames s
      → P × (s.0 ≡ frames)
  given P frames (sent, some e) h g = absurd (ground (arith, h))
  given P frames (sent, none) h g = g

  -- Where SendFiles returns no error, it has sent exactly the frames of its queue - the first header,
  -- for each file the parts of all of its blocks and then the header of the next file, or the end of
  -- the transfer -, every file was read to its end, the answer to every file names it and is a success,
  -- and the sender is done; for an empty queue the end of the transfer alone was sent.
  pub send_files-Delivered :
      (s : RtcSender)
      → (send_files ops s).1.1 ≡ none
      → (let queue = prepare_send_queue s in
          Delivered ops 0 queue
          × ((send_files ops s).1.0 ≡ transfer_frames ops queue)
          × ((send_files ops s).0.state ≡ done))
  unfolding send_files
  send_files-Delivered s h =
      let queue = prepare_send_queue s in
      let none_left : (send_all ops queue).1 ≡ none = ground (arith, h) in
      let (d, e) = given (Delivered ops 0 queue) _ _ none_left (send_all-Gives queue) in
      (d, ground (arith, h, e, append-nil (transfer_frames ops queue)), ground (arith, h))

  -- The steps of a sending in which no call fails.
  then_send_ends :
      (n : ℕ) (first : Sent) (next : ℕ → Sent)
      → first.1 ≡ none
      → ((m : ℕ) → (next m).1 ≡ none)
      → (then_send n first next).1 ≡ none
  unfolding then_send
  then_send_ends n (frames, some e) next h g = absurd (ground (arith, h))
  then_send_ends n (frames, none) next h g = g (n + length frames)

  module _ (waits : (n : ℕ) → ops.wait_fails n ≡ false)
      (sends : (n : ℕ) → ops.send_fails n ≡ false) where
    send_frame_ends : (n : ℕ) (e : SendError) (f : Frame) → (send_frame ops n e f).1 ≡ none
    send_frame_ends n e f = rw (sends n) refl

    send_chunks_ends : (n : ℕ) (parts : List Str) → (send_chunks ops n parts).1 ≡ none
    unfolding send_chunks
    send_chunks_ends n [] = refl
    send_chunks_ends n (bytes ∷ parts) = rw (waits n) (
        then_send_ends n (send_frame ops n data_failed (data_frame bytes))
          (λ m. send_chunks ops m parts) (send_frame_ends n data_failed (data_frame bytes))
          (λ m. send_chunks_ends m parts))

    send_blocks_ends : (n : ℕ) (blocks : List Str) → (send_blocks ops true n blocks).1 ≡ none
    unfolding send_blocks
    send_blocks_ends n [] = refl
    send_blocks_ends n (block ∷ blocks) =
        then_send_ends n (send_chunks ops n (chunks chunk_size (length block) block))
          (λ m. send_blocks ops true m blocks)
          (send_chunks_ends n (chunks chunk_size (length block) block))
          (λ m. send_blocks_ends m blocks)

    send_header_ends :
        (announced : Bool) (n : ℕ) (item : Sendable) → (send_header ops announced n item).1 ≡ none
    send_header_ends true n item = refl
    send_header_ends false n item = send_frame_ends n _ (header_frame ops item)

    send_next_ends : (n : ℕ) (rest : List Sendable) → (send_next ops n rest).1 ≡ none
    send_next_ends n [] = send_frame_ends n _ end_frame
    send_next_ends n (item ∷ rest) = send_frame_ends n _ (header_frame ops item)

    send_reads_ends :
        (announced : Bool) (n : ℕ) (item : Sendable) (rest : List Sendable) (o : Option Reads)
        → IsWhole ops o
        → (send_reads ops announced n item rest o).1 ≡ none
    send_reads_ends announced n item rest none w = absurd w
    send_reads_ends announced n item rest (some reads) w = rw w (
        then_send_ends n (send_header ops announced n item) _ (send_header_ends announced n item)
          (λ m.
            then_send_ends m (send_blocks ops true m reads.blocks) (λ k. send_next ops k rest)
              (send_blocks_ends m reads.blocks) (λ k. send_next_ends k rest)))

    send_file_ends :
        (announced : Bool) (n : ℕ) (item : Sendable) (rest : List Sendable)
        → IsWhole ops (ops.open_file item.file.file_path)
        → (send_file ops announced n item rest).1 ≡ none
    unfolding send_file
    send_file_ends announced n item rest w =
        send_reads_ends announced n item rest (ops.open_file item.file.file_path) w

    send_queue_ends :
        (announced : Bool) (i n : ℕ) (queue : List Sendable)
        → Delivered ops i queue
        → (send_queue ops announced i n queue).1 ≡ none
    unfolding send_queue
    send_queue_ends announced i n [] d = refl
    send_queue_ends announced i n (item ∷ rest) (w, (c, d)) =
        then_send_ends n (send_file ops announced n item rest) _
          (send_file_ends announced n item rest w)
          (λ m.
            then_send_ends m ([], check_ack item.id (ops.ack i)) _
              (check_ack_ends item.id (ops.ack i) c) (λ k. send_queue_ends true (suc i) k rest d))

    flush_all_ends : ops.closed_in_flush ≡ false → (flush_all ops).1 ≡ none
    flush_all_ends h = rw h refl

    send_all_ends :
        (queue : List Sendable)
        → ops.closed_in_flush ≡ false
        → Delivered ops 0 queue
        → (send_all ops queue).1 ≡ none
    unfolding send_all
    send_all_ends [] h d =
        then_send_ends 0 (send_frame ops 0 delimiter_failed end_frame) _
          (send_frame_ends 0 delimiter_failed end_frame) (λ n. flush_all_ends h)
    send_all_ends (item ∷ rest) h d =
        then_send_ends 0 (send_queue ops false 0 0 (item ∷ rest)) _
          (send_queue_ends false 0 0 (item ∷ rest) d) (λ n. flush_all_ends h)

    -- Where there is a connection that stays open, and no wait for the buffer and no send fails,
    -- SendFiles ends without an error exactly if every file of the queue is read to its end and the
    -- answer behind it is a result for this very file and a success.
    pub send_files_ends :
        (s : RtcSender)
        → is_some s.peer ≡ true
        → ops.closed_in_flush ≡ false
        → ((send_files ops s).1.1 ≡ none) ↔ Delivered ops 0 (prepare_send_queue s)
    unfolding send_files
    send_files_ends s p h = (
      λ e. (send_files-Delivered s e).0,
      λ d. ground (arith, p, send_all_ends (prepare_send_queue s) h d),
    )
