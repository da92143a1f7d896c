-- ===== src/Rtc/Sender/Wire.antt =====
-- The frames of a transfer by `SendFiles` in webrtc/transfer/sender.go.

use pdf_to_epub.Prelude.{
  Bool, Option, none, some, List, [], ◌∷◌, ◌++◌, if◌then◌else◌, Str, length, map, ◌≡◌, refl, sym,
  ap, ◌∙◌, arith, append_assoc,
}
use pdf_to_epub.Rtc.Chunks.{chunk_size, chunks, content_of-chunks}
use pdf_to_epub.Rtc.Frames.{Frame}
use pdf_to_epub.Rtc.Sender.Sending.{Sendable, Reads, Ops, header_frame}
use pdf_to_epub.Rtc.Writing.{data_frame, end_frame, content_of}

-- The parts of the blocks that a file is read in.
unfoldable pub parts_of_blocks : List Str → List Str
parts_of_blocks [] = []
parts_of_blocks (block ∷ blocks) = chunks chunk_size (length block) block ++ parts_of_blocks blocks

abbrev pub blocks_of : Option Reads → List Str
blocks_of none = []
blocks_of (some reads) = reads.blocks

-- What the parts of a file are, and its content.
abbrev pub parts_of : Ops → Sendable → List Str
parts_of ops item = parts_of_blocks (blocks_of (ops.open_file item.file.file_path))

abbrev pub content : Ops → Sendable → Str
content ops item = content_of (blocks_of (ops.open_file item.file.file_path))

content_of-append :
    (front back : List Str) → content_of (front ++ back) ≡ content_of front ++ content_of back
unfolding content_of
content_of-append [] back = refl
content_of-append (s ∷ front) back =
    ap (λ t. s ++ t) (content_of-append front back)
    ∙ sym (append_assoc s (content_of front) (content_of back))

-- The parts make up the content again.
content_of-parts_of_blocks :
    (blocks : List Str) → content_of (parts_of_blocks blocks) ≡ content_of blocks
unfolding content_of parts_of_blocks
content_of-parts_of_blocks [] = refl
content_of-parts_of_blocks (block ∷ blocks) =
    content_of-append (chunks chunk_size (length block) block) (parts_of_blocks blocks)
    ∙ rw
        (
          content_of-chunks chunk_size (length block) block (omega arith) (omega arith),
          content_of-parts_of_blocks blocks,
        )
        refl

pub content_of-parts_of :
    (ops : Ops) (item : Sendable) → content_of (parts_of ops item) ≡ content ops item
content_of-parts_of ops item =
    content_of-parts_of_blocks (blocks_of (ops.open_file item.file.file_path))

abbrev pub next_frame : Ops → List Sendable → Frame
next_frame ops [] = end_frame
next_frame ops (item ∷ rest) = header_frame ops item

-- The frames behind the first header: for each file its parts and the frame that ends it.
unfoldable pub wire : Ops → List Sendable → List Frame
wire ops [] = []
wire ops (item ∷ rest) = map data_frame (parts_of ops item) ++ (next_frame ops rest ∷ wire ops rest)

abbrev pub first_header : Ops → Bool → List Sendable → List Frame
first_header ops announced [] = []
first_header ops announced (item ∷ rest) = if announced then [] else header_frame ops item ∷ []
