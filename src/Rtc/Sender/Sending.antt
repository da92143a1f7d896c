-- ===== src/Rtc/Sender/Sending.antt =====
-- The sending of the accepted files in webrtc/transfer/sender.go: `prepareSendQueue` and `SendFiles`.
-- The first failure ends the sending, so that the number of frames that were sent numbers its calls.
-- What Open and Read give, how `encoding/json` writes a header, which calls of the connection fail, and
-- what the wait for an answer ends with are parameters; the pool of buffers is left out.
use pdf_to_epub.Prelude.{
  ℕ, suc, ◌+◌, Bool, true, false, Option, none, some, List, [], ◌∷◌, ◌++◌, if◌then◌else◌, Str,
  str_eq, length, not,
}
use pdf_to_epub.Prelude.Map.{Map, lookup, insert, has}
use pdf_to_epub.Rtc.Chunks.{chunk_size, chunks}
use pdf_to_epub.Rtc.Frames.{Frame}
use pdf_to_epub.Rtc.{is_some}
use pdf_to_epub.Rtc.Sender.Frames.{error_text}
use pdf_to_epub.Rtc.Sender.{done, FileMeta, FileResult, RtcSender}
use pdf_to_epub.Rtc.Writing.{data_frame, end_frame}

pub record Sendable : Type 0 where
  pub id : Str
  pub token : Str
  pub file : FileMeta

-- The loop that builds the index, over the files from the given ones on.
unfoldable pub index_files : List FileMeta → Map FileMeta → Map FileMeta
index_files [] index = index
index_files (f ∷ files) index =
    index_files files (if has f.id index then index else insert f.id f index)

-- One identifier: an entry, unless it has no token or no file.
abbrev pub sendable : Str → Option Str → Option FileMeta → List Sendable
sendable id (some token) (some file) = record { id = id; token = token; file = file } ∷ []
sendable id _ _ = []

unfoldable pub queue_loop : Map Str → Map FileMeta → List Str → List Sendable
queue_loop tokens index [] = []
queue_loop tokens index (id ∷ ids) =
    sendable id (lookup id tokens) (lookup id index) ++ queue_loop tokens index ids

unfoldable pub prepare_send_queue : RtcSender → List Sendable
prepare_send_queue s = queue_loop s.file_tokens (index_files s.files []) s.accepted_ids

-- What Read gives of a file that was opened: the blocks, and whether the end comes behind them.
pub record Reads : Type 0 where
  pub blocks : List Str
  pub is_whole : Bool

-- What the wait for an answer ends with.
pub data Ack : Type 0 where
  acknowledged : FileResult → Ack
  peer_closed timed_out : Ack

pub record Ops : Type 0 where
  pub open_file : Str → Option Reads
  pub header : Str → Str → Str
  pub wait_fails : ℕ → Bool
  pub send_fails : ℕ → Bool
  pub ack : ℕ → Ack
  pub closed_in_flush : Bool

pub data SendError : Type 0 where
  not_initialized delimiter_failed header_failed wait_failed data_failed read_failed : SendError
  next_header_failed closed_flushing : SendError
  open_failed closed_waiting ack_timeout unexpected_ack : Str → SendError
  refused : Str → Str → SendError

-- The frames that were sent, and the error that ended it.
abbrev pub Sent : Type 0
Sent = List Frame × Option SendError

-- `n` frames went before the first part.
unfoldable pub then_send : ℕ → Sent → (ℕ → Sent) → Sent
then_send n (frames, some e) next = (frames, some e)
then_send n (frames, none) next = let (more, e) = next (n + length frames) in (frames ++ more, e)

abbrev pub send_frame : Ops → ℕ → SendError → Frame → Sent
send_frame ops n e f = if ops.send_fails n then ([], some e) else (f ∷ [], none)

unfoldable pub send_chunks : Ops → ℕ → List Str → Sent
send_chunks ops n [] = ([], none)
send_chunks ops n (bytes ∷ parts) =
    if ops.wait_fails n
    then ([], some wait_failed)
    else then_send n (send_frame ops n data_failed (data_frame bytes))
        (λ m. send_chunks ops m parts)

unfoldable pub send_blocks : Ops → Bool → ℕ → List Str → Sent
send_blocks ops is_whole n [] = ([], if is_whole then none else some read_failed)
send_blocks ops is_whole n (block ∷ blocks) =
    then_send n (send_chunks ops n (chunks chunk_size (length block) block))
      (λ m. send_blocks ops is_whole m blocks)

abbrev pub header_frame : Ops → Sendable → Frame
header_frame ops item = record { is_string = true; bytes = ops.header item.id item.token }

abbrev pub send_header : Ops → Bool → ℕ → Sendable → Sent
send_header ops announced n item =
    if announced then ([], none) else send_frame ops n header_failed (header_frame ops item)

-- The header of the next file, or the end of the transfer.
abbrev pub send_next : Ops → ℕ → List Sendable → Sent
send_next ops n [] = send_frame ops n delimiter_failed end_frame
send_next ops n (item ∷ rest) = send_frame ops n next_header_failed (header_frame ops item)

-- One round up to the wait for its answer.
unfoldable pub send_file : Ops → Bool → ℕ → Sendable → List Sendable → Sent
send_file ops announced n item rest = elim (ops.open_file item.file.file_path) [
  | none ↦ ([], some (open_failed item.file.file_path))
  | some reads ↦
      then_send n (send_header ops announced n item) (λ m.
        then_send m (send_blocks ops reads.is_whole m reads.blocks) (λ k. send_next ops k rest))
]

unfoldable pub check_ack : Str → Ack → Option SendError
check_ack id peer_closed = some (closed_waiting id)
check_ack id timed_out = some (ack_timeout id)
check_ack id (acknowledged result) =
    if not (str_eq result.id id)
    then some (unexpected_ack result.id)
    else if result.success
    then none
    else some (refused id (error_text result.error))

-- The rounds, of which `i` went before.
unfoldable pub send_queue : Ops → Bool → ℕ → ℕ → List Sendable → Sent
send_queue ops announced i n [] = ([], none)
send_queue ops announced i n (item ∷ rest) =
    then_send n (send_file ops announced n item rest) (λ m.
      then_send m ([], check_ack item.id (ops.ack i)) (λ k. send_queue ops true (suc i) k rest))

-- The wait for the buffer: a timeout is only logged.
abbrev pub flush_all : Ops → Sent
flush_all ops = ([], if ops.closed_in_flush then some closed_flushing else none)

unfoldable pub send_all : Ops → List Sendable → Sent
send_all ops [] = then_send 0 (send_frame ops 0 delimiter_failed end_frame) (λ n. flush_all ops)
send_all ops (item ∷ rest) =
    then_send 0 (send_queue ops false 0 0 (item ∷ rest)) (λ n. flush_all ops)

-- `SendFiles`
unfoldable pub send_files : Ops → RtcSender → RtcSender × Sent
send_files ops s =
    if not (is_some s.peer)
    then (s, ([], some not_initialized))
    else let sent = send_all ops (prepare_send_queue s) in
      (if is_some sent.1 then s else record s { state = done }, sent)
