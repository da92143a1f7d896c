-- ===== src/Rtc/Identity.antt =====
-- What webrtc/transfer/receiver.go keeps of the sender's identity while it receives files.
use pdf_to_epub.Prelude.{
  not, Option, none, some, List, [], ◌∷◌, Str, ◌≡◌, refl, ◌∙◌, arith, if_cases,
}
use pdf_to_epub.Prelude.Map.{Map}
use pdf_to_epub.Rtc.{RtcFile}
use pdf_to_epub.Prelude.Map.{lookup, delete}
use pdf_to_epub.Prelude.{str_eq}
use pdf_to_epub.Rtc.Receiver.{post, file_out}
use pdf_to_epub.Rtc.Bytes.{
  finish_error, is_success, handle_binary_data, cleanup_current_file, finish_current_file, settle,
}
use pdf_to_epub.Rtc.Files.{
  file_meta_by_id, apply_folder_remap, prepare_file, prepare_loop, prepare_folder_remap,
  prepare_files_for_receive, check_folder_transfer, ensure_save_dir, reject_file_transfer,
  create_file, open_in, open_file, open_sanitized, open_known, start_receiving_file,
  validate_file_header,
}
use pdf_to_epub.Rtc.Receiver.{
  Out, Writer, Env, RtcReceiver, send_json, mark_transfer_started, mark_transfer_done, terminate,
  cleanup_partial_files,
}
use pdf_to_epub.Sanitize.{PathResult, ok, err}

-- The key, the token and the nonce are the same.
abbrev pub SameSender : RtcReceiver → RtcReceiver → Type 0
SameSender r r' =
    (r'.sender_public_key ≡ r.sender_public_key)
    × (r'.sender_token ≡ r.sender_token)
    × (r'.final_nonce ≡ r.final_nonce)

pub trans-SameSender :
    (r r' r'' : RtcReceiver) → SameSender r r' → SameSender r' r'' → SameSender r r''
trans-SameSender r r' r'' (a, b, c) (a', b', c') = (a' ∙ a, b' ∙ b, c' ∙ c)

module _ (env : Env) where
  pub send_json-SameSender : (o : Out) (r : RtcReceiver) → SameSender r (send_json env o r).0
  unfolding send_json
  send_json-SameSender o r = ground arith

  pub terminate-SameSender : (r : RtcReceiver) → SameSender r (terminate env r)
  unfolding terminate cleanup_partial_files mark_transfer_done
  terminate-SameSender r = ground arith

  reject_file_transfer-SameSender : (r : RtcReceiver) → SameSender r (reject_file_transfer r)
  unfolding reject_file_transfer
  reject_file_transfer-SameSender r = ground arith

  pub check_folder_transfer-SameSender : (r : RtcReceiver) → SameSender r (check_folder_transfer r)
  unfolding check_folder_transfer
  check_folder_transfer-SameSender r = ground arith

  create_file-SameSender :
      (meta : RtcFile) (id d name : Str) (r : RtcReceiver)
      → SameSender r (create_file env meta id d name r)
  unfolding reject_file_transfer mark_transfer_started
  create_file-SameSender meta id d name r = ground arith

  ensure_save_dir-SameSender :
      (d : Str) (r r' : RtcReceiver) → ensure_save_dir env d r ≡ some r' → SameSender r r'
  unfolding ensure_save_dir
  ensure_save_dir-SameSender d r r' e = ground arith

  open_in-SameSender :
      (meta : RtcFile) (id d name : Str) (r : RtcReceiver) (o : Option RtcReceiver)
      → ensure_save_dir env d r ≡ o
      → SameSender r (open_in env meta id d name r o)
  open_in-SameSender meta id d name r none e = reject_file_transfer-SameSender r
  open_in-SameSender meta id d name r (some made) e =
      trans-SameSender r made (create_file env meta id d name made)
        (ensure_save_dir-SameSender d r made e) (create_file-SameSender meta id d name made)

  open_sanitized-SameSender :
      (meta : RtcFile) (id : Str) (r : RtcReceiver) (p : PathResult)
      → SameSender r (open_sanitized env meta id r p)
  unfolding open_file
  open_sanitized-SameSender meta id r (err e) = reject_file_transfer-SameSender r
  open_sanitized-SameSender meta id r (ok p) =
      trans-SameSender r (check_folder_transfer r)
        (open_file env meta id (apply_folder_remap r p) r) (check_folder_transfer-SameSender r)
        (open_in-SameSender meta id _ _ (check_folder_transfer r) _ refl)

  open_known-SameSender :
      (id : Str) (r : RtcReceiver) (o : Option RtcFile) → SameSender r (open_known env id r o)
  open_known-SameSender id r none = reject_file_transfer-SameSender r
  open_known-SameSender id r (some meta) = open_sanitized-SameSender meta id r _

  pub start_receiving_file-SameSender :
      (id token : Str) (r : RtcReceiver) → SameSender r (start_receiving_file env id token r)
  unfolding start_receiving_file
  start_receiving_file-SameSender id token r =
      if_cases (SameSender r) (not (validate_file_header r id token)) _ _
        (λ _. reject_file_transfer-SameSender r)
        (λ _. open_known-SameSender id r (file_meta_by_id r id))

  cleanup_current_file-SameSender : (r : RtcReceiver) → SameSender r (cleanup_current_file env r)
  unfolding cleanup_current_file mark_transfer_done
  cleanup_current_file-SameSender r = ground arith

  pub handle_binary_data-SameSender :
      (bytes : Str) (r : RtcReceiver) → SameSender r (handle_binary_data env bytes r)
  unfolding handle_binary_data
  handle_binary_data-SameSender bytes r = ground (
    arith,
    cleanup_current_file-SameSender r,
    reject_file_transfer-SameSender (cleanup_current_file env r),
  )

  settle-SameSender :
      (meta : Option RtcFile) (w : Option Writer) (e : Option Str) (r : RtcReceiver)
      → SameSender r (settle env meta w e r)
  settle-SameSender meta w e r = ground arith

  mark_transfer_done-SameSender : (r : RtcReceiver) → SameSender r (mark_transfer_done r)
  unfolding mark_transfer_done
  mark_transfer_done-SameSender r =
      if_cases (SameSender r) (not r.transfer_active) _ _ (λ _. (refl, refl, refl))
        (λ _. (refl, refl, refl))

  -- The end of a file, from its settling on.
  answered-SameSender :
      (o : Out) (r settled closed : RtcReceiver)
      → SameSender r settled
      → SameSender settled closed
      → SameSender r (mark_transfer_done (post env o closed))
  answered-SameSender o r settled closed s c =
      trans-SameSender r settled (mark_transfer_done (post env o closed)) s (
        trans-SameSender settled closed (mark_transfer_done (post env o closed)) c (
          trans-SameSender closed (post env o closed) (mark_transfer_done (post env o closed))
            (send_json-SameSender o closed) (mark_transfer_done-SameSender (post env o closed))))

  pub finish_current_file-SameSender : (r : RtcReceiver) → SameSender r (finish_current_file env r)
  unfolding finish_current_file
  finish_current_file-SameSender r =
      if_cases (SameSender r) (str_eq r.current_file_id []) _ _ (λ _. (refl, refl, refl))
        (λ _.
          let id = r.current_file_id in
          let meta = file_meta_by_id r id in
          let w = lookup id r.writers in
          let e = finish_error env meta r.current_bytes w in
          let settled = settle env meta w e r in
          answered-SameSender (file_out id (is_success e) e) r settled
            (record settled { writers = delete id r.writers }) (settle-SameSender meta w e r)
            (refl, refl, refl))

  prepare_file-SameSender :
      (id : Str) (p : RtcReceiver × Map Str) → SameSender p.0 (prepare_file env id p).0
  prepare_file-SameSender id (r, tokens) = ground arith

  prepare_loop-SameSender :
      (ids : List Str) (p : RtcReceiver × Map Str) → SameSender p.0 (prepare_loop env ids p).0
  unfolding prepare_loop
  prepare_loop-SameSender [] p = (refl, refl, refl)
  prepare_loop-SameSender (id ∷ ids) p =
      trans-SameSender p.0 (prepare_file env id p).0
        (prepare_loop env ids (prepare_file env id p)).0 (prepare_file-SameSender id p)
        (prepare_loop-SameSender ids (prepare_file env id p))

  pub prepare_files_for_receive-SameSender :
      (ids : List Str) (r : RtcReceiver) → SameSender r (prepare_files_for_receive env ids r).0
  unfolding prepare_files_for_receive prepare_folder_remap
  prepare_files_for_receive-SameSender ids r =
      trans-SameSender r (prepare_folder_remap env r)
        (prepare_loop env ids (prepare_folder_remap env r, [])).0 (ground arith)
        (prepare_loop-SameSender ids (prepare_folder_remap env r, []))
