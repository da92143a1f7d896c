-- ===== src/Rtc/Bytes.antt =====
-- The bytes of a file in webrtc/transfer/receiver.go: the frames that are written, and the end of a
-- file.
use pdf_to_epub.Disk.{Disk}
use pdf_to_epub.FilePath.{base}
use pdf_to_epub.Prelude.{
  ℕ, ◌+◌, Bool, true, false, not, ◌&&◌, ◌||◌, Option, none, some, [], ◌++◌, ltb, ◌==◌,
  if◌then◌else◌, Str, codes, str_eq, length,
}
use pdf_to_epub.Prelude.Int.{ℤ, pos, negsuc}
use pdf_to_epub.Prelude.Map.{lookup, insert, delete}
use pdf_to_epub.Rtc.{RtcFile}
use pdf_to_epub.Rtc.Files.{file_meta_by_id, reject_file_transfer}
use pdf_to_epub.Rtc.Receiver.{
  Writer, file_out, received_call, Env, RtcReceiver, emit, post, mark_transfer_done, remove_file,
}

unfoldable pub cleanup_current_file : Env → RtcReceiver → RtcReceiver
cleanup_current_file env r =
    let disk : Disk = elim (lookup r.current_file_id r.writers) [
      | none ↦ r.disk
      | some w ↦ remove_file env w.path r.disk
    ] in
    record (mark_transfer_done
      (record r { disk = disk; writers = delete r.current_file_id r.writers })) {
        current_file_id = [];
        current_bytes = 0;
      }

-- `int64(len(data)) > meta.Size-r.currentBytes`
abbrev pub exceeds : ℤ → ℕ → ℕ → Bool
exceeds (pos size) bytes n = ltb size (bytes + n)
exceeds (negsuc size) bytes n = true

abbrev pub is_excess : Option RtcFile → ℕ → Str → Bool
is_excess none n bytes = true
is_excess (some meta) n bytes = exceeds meta.size n (length bytes)

-- A write that fails leaves its error in the writer, and counts nothing.
abbrev pub write_data : Env → Str → Writer → RtcReceiver → RtcReceiver
write_data env bytes w r =
    if w.failed || env.write_fails w.path bytes
    then record r { writers = insert r.current_file_id (record w { failed = true }) r.writers }
    else record r {
      writers = insert r.current_file_id (record w { content = w.content ++ bytes }) r.writers;
      current_bytes = r.current_bytes + length bytes;
    }

unfoldable pub handle_binary_data : Env → Str → RtcReceiver → RtcReceiver
handle_binary_data env bytes r =
    if is_excess (file_meta_by_id r r.current_file_id) r.current_bytes bytes
    then reject_file_transfer (cleanup_current_file env r)
    else elim (lookup r.current_file_id r.writers) [ none ↦ r | some w ↦ write_data env bytes w r ]

abbrev pub size_message : Str
size_message = codes "file size does not match declaration"

abbrev pub save_message : Str
save_message = codes "failed to save file"

abbrev pub checksum_message : Str
checksum_message = codes "checksum mismatch"

-- `metaOK && r.currentBytes == meta.Size`
abbrev pub is_declared_size : Option RtcFile → ℕ → Bool
is_declared_size none n = false
is_declared_size (some meta) n = elim meta.size [ pos size ↦ n == size | negsuc k ↦ false ]

abbrev pub is_flushed : Env → Writer → Bool
is_flushed env w = not (w.failed || env.flush_fails w.path)

-- Whether the file has a checksum that is not its content's; the code's comparison of the two
-- hexadecimal texts is exact.
abbrev pub is_wrong : Env → Option RtcFile → Writer → Bool
is_wrong env none w = false
is_wrong env (some meta) w =
    w.hashed && not (str_eq meta.sha256 []) && not (str_eq (env.sha256_hex w.content) meta.sha256)

-- The last error of the checks: size, flush and close, checksum.
unfoldable pub finish_error : Env → Option RtcFile → ℕ → Option Writer → Option Str
finish_error env meta n none = if is_declared_size meta n then none else some size_message
finish_error env meta n (some w) =
    if is_wrong env meta w
    then some checksum_message
    else if not (is_flushed env w) || env.close_fails w.path
    then some save_message
    else if is_declared_size meta n
    then none
    else some size_message

abbrev pub flush : Env → Writer → Disk → Disk
flush env w disk =
    if is_flushed env w then record disk { files = insert w.path w.content disk.files } else disk

-- What the end of the file does to it: a file with an error is removed, another one is reported.
abbrev pub settle : Env → Option RtcFile → Option Writer → Option Str → RtcReceiver → RtcReceiver
settle env meta none e r = r
settle env meta (some w) (some e) r = record r {
  disk = remove_file env w.path (flush env w r.disk);
}
settle env none (some w) none r = record r { disk = flush env w r.disk }
settle env (some meta) (some w) none r =
    emit (received_call (base w.path) meta.size) (record r { disk = flush env w r.disk })

abbrev pub is_success : Option Str → Bool
is_success none = true
is_success (some e) = false

unfoldable pub finish_current_file : Env → RtcReceiver → RtcReceiver
finish_current_file env r =
    if str_eq r.current_file_id []
    then r
    else let id = r.current_file_id in
      let meta = file_meta_by_id r id in
      let w = lookup id r.writers in
      let e = finish_error env meta r.current_bytes w in
      let settled = settle env meta w e r in
      let answered =
        post env (file_out id (is_success e) e)
          (record settled { writers = delete id r.writers }) in
      record (mark_transfer_done answered) { current_file_id = []; current_bytes = 0 }
