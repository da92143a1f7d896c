-- ===== src/Rtc/Sender/Queue.antt =====
-- The queue of webrtc/transfer/sender.go against the nested scan that its index replaced.
use pdf_to_epub.Prelude.{
  Option, none, some, List, [], ◌∷◌, ◌++◌, if◌then◌else◌, Str, str_eq, ◌≡◌, refl, ap, arith,
  Bool-cases, inl, inr,
}
use pdf_to_epub.Prelude.Map.{Map, lookup, insert, has, lookup-insert}
use pdf_to_epub.Rtc.Sender.Sending.{Sendable, index_files, sendable, queue_loop, prepare_send_queue}
use pdf_to_epub.Rtc.Sender.{FileMeta, RtcSender}

-- The first file with an identifier.
unfoldable pub scan : Str → List FileMeta → Option FileMeta
scan id [] = none
scan id (f ∷ files) = if str_eq f.id id then some f else scan id files

unfoldable pub scan_queue : RtcSender → List Str → List Sendable
scan_queue s [] = []
scan_queue s (id ∷ ids) =
    sendable id (lookup id s.file_tokens) (scan id s.files) ++ scan_queue s ids

abbrev or_else : Option FileMeta → Option FileMeta → Option FileMeta
or_else none o = o
or_else (some f) o = some f

lookup-index_files :
    (id : Str) (files : List FileMeta) (index : Map FileMeta)
    → lookup id (index_files files index) ≡ or_else (lookup id index) (scan id files)
unfolding index_files scan
lookup-index_files id [] index = ground arith
lookup-index_files id (f ∷ files) index = elim (Bool-cases (has f.id index)) [
  | inl t ↦ ground (arith, t, lookup-index_files id files index)
  | inr t ↦
      ground
        (arith, t, lookup-index_files id files (insert f.id f index), lookup-insert f.id id f index)
]

queue_loop-scan :
    (s : RtcSender) (ids : List Str)
    → queue_loop s.file_tokens (index_files s.files []) ids ≡ scan_queue s ids
unfolding queue_loop scan_queue lookup
queue_loop-scan s [] = refl
queue_loop-scan s (id ∷ ids) =
    rw (lookup-index_files id s.files []) (
      ap (λ q. sendable id (lookup id s.file_tokens) (scan id s.files) ++ q)
        (queue_loop-scan s ids))

-- The queue that is built with the index is the one that a scan of the files for each accepted
-- identifier gives: in the order of the identifiers, those that have a token and a file, with the
-- first such file.
pub prepare_send_queue-scan_queue :
    (s : RtcSender) → prepare_send_queue s ≡ scan_queue s s.accepted_ids
unfolding prepare_send_queue
prepare_send_queue-scan_queue s = queue_loop-scan s s.accepted_ids
