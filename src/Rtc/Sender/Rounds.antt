-- ===== src/Rtc/Sender/Rounds.antt =====
-- The rounds of `SendFiles` in webrtc/transfer/sender.go, where it ends without an error.
use mathlib.Core.Path.{subst}
use pdf_to_epub.Prelude.{
  if_cases, ℕ, suc, ◌+◌, Bool, true, false, Option, none, some, List, [], ◌∷◌, ◌++◌, Str, length,
  map, ◌≡◌, refl, sym, ap, ◌∙◌, append_assoc, Bool-cases, inl, inr, str_eq, arith,
}
use pdf_to_epub.Rtc.Chunks.{chunk_size, chunks}
use pdf_to_epub.Rtc.Frames.{Frame}
use pdf_to_epub.Rtc.Sender.Sending.{
  Sendable, Reads, open_failed, Ops, SendError, Sent, then_send, send_frame, send_chunks,
  send_blocks, header_frame, send_header, send_next, send_file, check_ack, send_queue, data_failed,
  Ack, peer_closed, timed_out, acknowledged,
}
use pdf_to_epub.Rtc.Writing.{data_frame, end_frame}
use pdf_to_epub.Rtc.Sender.Wire.{
  parts_of_blocks, blocks_of, parts_of, next_frame, wire, first_header,
}

-- A sending without an error has the frames, and comes with the fact.
abbrev pub Gives : Type 0 → List Frame → Sent → Type 0
Gives P frames (sent, some e) = Unit
Gives P frames (sent, none) = P × (sent ≡ frames)

-- The frames of the second part come behind those of the first.
second-Gives :
    (P Q : Type 0) (a b sent : List Frame)
    → P
    → sent ≡ a
    → (second : Sent) → Gives Q b second
    → Gives (P × Q) (a ++ b) (sent ++ second.0, second.1)
second-Gives P Q a b sent p f (more, some e) g = tt
second-Gives P Q a b sent p f (more, none) (q, g) = ((p, q), rw (f, g) refl)

-- Two parts of a sending.
pub then_send-Gives :
    (P Q : Type 0) (a b : List Frame) (n : ℕ) (first : Sent) (next : ℕ → Sent)
    → Gives P a first
    → ((m : ℕ) → Gives Q b (next m))
    → Gives (P × Q) (a ++ b) (then_send n first next)
unfolding then_send
then_send-Gives P Q a b n (sent, some e) next f g = tt
then_send-Gives P Q a b n (sent, none) next (p, f) g =
    second-Gives P Q a b sent p f (next (n + length sent)) (g (n + length sent))

pub send_frame-Gives :
    (ops : Ops) (n : ℕ) (e : SendError) (f : Frame) → Gives Unit (f ∷ []) (send_frame ops n e f)
send_frame-Gives ops n e f =
    if_cases (Gives Unit (f ∷ [])) (ops.send_fails n) _ _ (λ t. tt) (λ t. (tt, refl))

map-append :
    (front back : List Str)
    → map data_frame (front ++ back) ≡ map data_frame front ++ map data_frame back
map-append [] back = refl
map-append (s ∷ front) back = ap (λ t. data_frame s ∷ t) (map-append front back)

drop_units :
    (P : Type 0) (frames : List Frame) (s : Sent) → Gives (Unit × P) frames s → Gives P frames s
drop_units P frames (sent, some e) g = tt
drop_units P frames (sent, none) ((u, p), e) = (p, e)

-- A part without a fact in front of another.
pub in_front :
    (P : Type 0) (a b : List Frame) (n : ℕ) (first : Sent) (next : ℕ → Sent)
    → Gives Unit a first
    → ((m : ℕ) → Gives P b (next m))
    → Gives P (a ++ b) (then_send n first next)
in_front P a b n first next f g =
    drop_units P (a ++ b) (then_send n first next) (then_send-Gives Unit P a b n first next f g)

-- The answer that a file waits for: a result for this very file, and a success.
abbrev pub Acknowledges : Str → Ack → Type 0
Acknowledges id (acknowledged result) = (result.id ≡ id) × (result.success ≡ true)
Acknowledges id _ = ⊥

check_ack-Gives : (id : Str) (ack : Ack) → Gives (Acknowledges id ack) [] ([], check_ack id ack)
unfolding check_ack
check_ack-Gives id peer_closed = tt
check_ack-Gives id timed_out = tt
check_ack-Gives id (acknowledged result) = elim (Bool-cases (str_eq result.id id)) [
  | inl e ↦ elim (Bool-cases result.success) [
    | inl q ↦ rw (e, q) ((ground (arith, e), refl), refl)
    | inr q ↦ rw (e, q) tt
  ]
  | inr e ↦ rw e tt
]

pub check_ack_ends : (id : Str) (ack : Ack) → Acknowledges id ack → check_ack id ack ≡ none
unfolding check_ack
check_ack_ends id peer_closed a = absurd a
check_ack_ends id timed_out a = absurd a
check_ack_ends id (acknowledged result) (e, q) = ground (arith, e, q)

module _ (ops : Ops) where
  send_chunks-Gives :
      (n : ℕ) (parts : List Str) → Gives Unit (map data_frame parts) (send_chunks ops n parts)
  unfolding send_chunks
  send_chunks-Gives n [] = (tt, refl)
  send_chunks-Gives n (bytes ∷ parts) =
      if_cases (Gives Unit (map data_frame (bytes ∷ parts))) (ops.wait_fails n) _ _ (λ t. tt)
        (λ t.
          in_front Unit (data_frame bytes ∷ []) (map data_frame parts) n
            (send_frame ops n data_failed (data_frame bytes)) (λ m. send_chunks ops m parts)
            (send_frame-Gives ops n data_failed (data_frame bytes))
            (λ m. send_chunks-Gives m parts))

  send_blocks-Gives :
      (is_whole : Bool) (n : ℕ) (blocks : List Str)
      → Gives
          (is_whole ≡ true)
          (map data_frame (parts_of_blocks blocks))
          (send_blocks ops is_whole n blocks)
  unfolding send_blocks parts_of_blocks
  send_blocks-Gives true n [] = (refl, refl)
  send_blocks-Gives false n [] = tt
  send_blocks-Gives is_whole n (block ∷ blocks) =
      let parts = chunks chunk_size (length block) block in
      subst (λ frames. Gives (is_whole ≡ true) frames (send_blocks ops is_whole n (block ∷ blocks)))
        (sym (map-append parts (parts_of_blocks blocks)))
        (in_front (is_whole ≡ true) (map data_frame parts) (map data_frame (parts_of_blocks blocks))
          n (send_chunks ops n parts) (λ m. send_blocks ops is_whole m blocks)
          (send_chunks-Gives n parts) (λ m. send_blocks-Gives is_whole m blocks))

  send_next-Gives :
      (n : ℕ) (rest : List Sendable) → Gives Unit (next_frame ops rest ∷ []) (send_next ops n rest)
  send_next-Gives n [] = send_frame-Gives ops n _ end_frame
  send_next-Gives n (item ∷ rest) = send_frame-Gives ops n _ (header_frame ops item)

  -- The file was opened and read to its end.
  abbrev pub IsWhole : Option Reads → Type 0
  IsWhole none = ⊥
  IsWhole (some reads) = reads.is_whole ≡ true

  send_header-Gives :
      (announced : Bool) (n : ℕ) (item : Sendable) (rest : List Sendable)
      → Gives Unit (first_header ops announced (item ∷ rest)) (send_header ops announced n item)
  send_header-Gives true n item rest = (tt, refl)
  send_header-Gives false n item rest = send_frame-Gives ops n _ (header_frame ops item)

  pub drop_unit :
      (P : Type 0) (frames : List Frame) (s : Sent) → Gives (P × Unit) frames s → Gives P frames s
  drop_unit P frames (sent, some e) g = tt
  drop_unit P frames (sent, none) ((p, u), e) = (p, e)

  -- The file from its header on, once it is open.
  abbrev pub send_reads : Bool → ℕ → Sendable → List Sendable → Option Reads → Sent
  send_reads announced n item rest none = ([], some (open_failed item.file.file_path))
  send_reads announced n item rest (some reads) =
      then_send n (send_header ops announced n item) (λ m.
        then_send m (send_blocks ops reads.is_whole m reads.blocks) (λ k. send_next ops k rest))

  abbrev file_frames : Bool → Sendable → List Sendable → Option Reads → List Frame
  file_frames announced item rest o =
      first_header ops announced (item ∷ rest)
      ++ (map data_frame (parts_of_blocks (blocks_of o)) ++ (next_frame ops rest ∷ []))

  send_reads-Gives :
      (announced : Bool) (n : ℕ) (item : Sendable) (rest : List Sendable) (o : Option Reads)
      → Gives (IsWhole o) (file_frames announced item rest o) (send_reads announced n item rest o)
  send_reads-Gives announced n item rest none = tt
  send_reads-Gives announced n item rest (some reads) =
      let parts = map data_frame (parts_of_blocks reads.blocks) in
      let whole = reads.is_whole ≡ true in
      in_front whole (first_header ops announced (item ∷ rest))
        (parts ++ (next_frame ops rest ∷ [])) n (send_header ops announced n item) _
        (send_header-Gives announced n item rest)
        (λ m. drop_unit whole (parts ++ (next_frame ops rest ∷ [])) _ (
          then_send-Gives whole Unit parts (next_frame ops rest ∷ []) m
            (send_blocks ops reads.is_whole m reads.blocks) (λ k. send_next ops k rest)
            (send_blocks-Gives reads.is_whole m reads.blocks) (λ k. send_next-Gives k rest)))

  send_file-Gives :
      (announced : Bool) (n : ℕ) (item : Sendable) (rest : List Sendable)
      → (let o = ops.open_file item.file.file_path in
          Gives
            (IsWhole o)
            (file_frames announced item rest o)
            (send_file ops announced n item rest))
  unfolding send_file
  send_file-Gives announced n item rest =
      send_reads-Gives announced n item rest (ops.open_file item.file.file_path)

  -- Every file was read to its end, and the answer behind it is a success for this file.
  abbrev pub Delivered : ℕ → List Sendable → Type 0
  Delivered i [] = Unit
  Delivered i (item ∷ rest) =
      IsWhole (ops.open_file item.file.file_path)
      × (Acknowledges item.id (ops.ack i) × Delivered (suc i) rest)

  -- The frames of a round and of those behind it.
  rounds :
      (announced : Bool) (item : Sendable) (rest : List Sendable)
      → file_frames announced item rest (ops.open_file item.file.file_path)
          ++ ([] ++ (first_header ops true rest ++ wire ops rest))
        ≡ first_header ops announced (item ∷ rest) ++ wire ops (item ∷ rest)
  unfolding wire
  rounds announced item [] =
      append_assoc (first_header ops announced (item ∷ []))
        (map data_frame (parts_of ops item) ++ (end_frame ∷ [])) []
      ∙ ap (λ fs. first_header ops announced (item ∷ []) ++ fs)
          (append_assoc (map data_frame (parts_of ops item)) (end_frame ∷ []) [])
  rounds announced item (next ∷ rest) =
      let parts = map data_frame (parts_of ops item) in
      append_assoc (first_header ops announced (item ∷ next ∷ rest))
        (parts ++ (header_frame ops next ∷ [])) (wire ops (next ∷ rest))
      ∙ ap (λ fs. first_header ops announced (item ∷ next ∷ rest) ++ fs)
          (append_assoc parts (header_frame ops next ∷ []) (wire ops (next ∷ rest)))

  pub send_queue-Gives :
      (announced : Bool) (i n : ℕ) (queue : List Sendable)
      → Gives
          (Delivered i queue)
          (first_header ops announced queue ++ wire ops queue)
          (send_queue ops announced i n queue)
  unfolding send_queue wire
  send_queue-Gives announced i n [] = (tt, refl)
  send_queue-Gives announced i n (item ∷ rest) =
      let o = ops.open_file item.file.file_path in
      let checked = check_ack item.id (ops.ack i) in
      let is_good = Acknowledges item.id (ops.ack i) in
      let later = first_header ops true rest ++ wire ops rest in
      subst
        (λ frames.
          Gives (Delivered i (item ∷ rest)) frames (send_queue ops announced i n (item ∷ rest)))
        (rounds announced item rest)
        (then_send-Gives (IsWhole o) (is_good × Delivered (suc i) rest)
          (file_frames announced item rest o) ([] ++ later) n (send_file ops announced n item rest)
          _ (send_file-Gives announced n item rest)
          (λ m.
            then_send-Gives is_good (Delivered (suc i) rest) [] later m ([], checked) _
              (check_ack-Gives item.id (ops.ack i)) (λ k. send_queue-Gives true (suc i) k rest)))
