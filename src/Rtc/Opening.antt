-- ===== src/Rtc/Opening.antt =====
-- The file that a header opens, in webrtc/transfer/receiver.go.
use mathlib.Core.Path.{subst, sym}
use pdf_to_epub.Sanitize.{PathResult, ok, err, sanitize_path_with_fallback}
use pdf_to_epub.Disk.{Disk, exists}
use pdf_to_epub.Prelude.{
  false, not, Option, none, some, List, [], Str, str_eq, ◌≡◌, refl, ◌∙◌, arith, if_cases,
}
use pdf_to_epub.Prelude.Map.{Map, lookup, lookup-insert_self}
use pdf_to_epub.Rtc.{RtcFile}
use pdf_to_epub.Rtc.Files.{
  file_meta_by_id, open_in, open_sanitized, open_known, apply_folder_remap, start_receiving_file,
  create_file, open_file, ensure_save_dir, check_folder_transfer, reject_file_transfer,
  validate_file_header,
}
use pdf_to_epub.FilePath.{base}
use pdf_to_epub.Session.Save.{mkdir_all}
use pdf_to_epub.UniqueFile.{Hint, Created, file, no_file, create}
use pdf_to_epub.UniqueFile.Create.{create-IsFirstFree}
use pdf_to_epub.Rtc.Receiver.{mark_transfer_started, receiving_files, Writer, Env, RtcReceiver}
use pdf_to_epub.Rtc.Writing.{Open}

exists_free : (disk : Disk) (path : Str) → exists disk path ≡ false → lookup path disk.files ≡ none
unfolding exists
exists_free disk path h = ground arith

abbrev pub new_writer : RtcFile → Str → Writer
new_writer meta path = record {
  path = path;
  content = [];
  failed = false;
  hashed = not (str_eq meta.sha256 []);
}

-- A file was opened under a path that was free.
abbrev pub Started : Map Str → Str → RtcFile → RtcReceiver → Type 0
Started before id meta r =
    (path : Str) × (lookup path before ≡ none) × Open before id meta (new_writer meta path) 0 r

module _ (env : Env) (id : Str) (meta : RtcFile) where
  created_file-Started :
      (r : RtcReceiver) (d name : Str) (p : List Hint × Created)
      → file_meta_by_id r id ≡ some meta
      → create r.unique_files r.disk env.faults d name ≡ p
      → (create_file env meta id d name r).state ≡ receiving_files
      → Started r.disk.files id meta (create_file env meta id d name r)
  unfolding reject_file_transfer file_meta_by_id mark_transfer_started
  created_file-Started r d name (hints, no_file) m c s = absurd (ground (arith, c, s))
  created_file-Started r d name (hints, file disk path used) m c s =
      let (fresh, _, _, _, _, _) =
        create-IsFirstFree r.unique_files hints r.disk disk env.faults d name path used c in
      (
        path,
        exists_free r.disk path fresh.was_free,
        ground (arith, c, m, fresh.made, lookup-insert_self id (new_writer meta path) r.writers),
      )

  -- The steps before it leave the files and what is known of them.
  abbrev KeepsFiles : RtcReceiver → RtcReceiver → Type 0
  KeepsFiles r r' = (r'.disk.files ≡ r.disk.files) × (file_meta_by_id r' id ≡ file_meta_by_id r id)

  check_folder_transfer-KeepsFiles : (r : RtcReceiver) → KeepsFiles r (check_folder_transfer r)
  unfolding check_folder_transfer file_meta_by_id
  check_folder_transfer-KeepsFiles r = ground arith

  ensure_save_dir-KeepsFiles :
      (d : Str) (r r' : RtcReceiver) → ensure_save_dir env d r ≡ some r' → KeepsFiles r r'
  unfolding ensure_save_dir mkdir_all file_meta_by_id
  ensure_save_dir-KeepsFiles d r r' e = ground arith

  create_file-Started :
      (r r' : RtcReceiver) (d name : Str)
      → file_meta_by_id r id ≡ some meta
      → KeepsFiles r r'
      → (create_file env meta id d name r').state ≡ receiving_files
      → Started r.disk.files id meta (create_file env meta id d name r')
  create_file-Started r r' d name m (f, k) s =
      rw⁻¹ f (created_file-Started r' d name _ (k ∙ m) refl s)

  -- The two ways on, by the directory.
  open_in-Started :
      (r checked : RtcReceiver) (d name : Str) (o : Option RtcReceiver)
      → file_meta_by_id r id ≡ some meta
      → KeepsFiles r checked
      → ensure_save_dir env d checked ≡ o
      → (open_in env meta id d name checked o).state ≡ receiving_files
      → Started r.disk.files id meta (open_in env meta id d name checked o)
  unfolding reject_file_transfer
  open_in-Started r checked d name none m k e s = absurd (ground (arith, s))
  open_in-Started r checked d name (some made) m (f, k) e s =
      let (f', k') = ensure_save_dir-KeepsFiles d checked made e in
      create_file-Started r made d name m (f' ∙ f, k' ∙ k) s

  open_file-Started :
      (r : RtcReceiver) (path : Str)
      → file_meta_by_id r id ≡ some meta
      → (open_file env meta id path r).state ≡ receiving_files
      → Started r.disk.files id meta (open_file env meta id path r)
  unfolding open_file
  open_file-Started r path m s =
      open_in-Started r (check_folder_transfer r) _ (base path) _ m
        (check_folder_transfer-KeepsFiles r) refl s

  open_sanitized-Started :
      (r : RtcReceiver) (p : PathResult)
      → file_meta_by_id r id ≡ some meta
      → (open_sanitized env meta id r p).state ≡ receiving_files
      → Started r.disk.files id meta (open_sanitized env meta id r p)
  unfolding reject_file_transfer
  open_sanitized-Started r (err e) m s = absurd (ground (arith, s))
  open_sanitized-Started r (ok path) m s = open_file-Started r (apply_folder_remap r path) m s

  pub start_receiving_file-Started :
      (token : Str) (r : RtcReceiver)
      → file_meta_by_id r id ≡ some meta
      → (start_receiving_file env id token r).state ≡ receiving_files
      → Started r.disk.files id meta (start_receiving_file env id token r)
  unfolding start_receiving_file reject_file_transfer
  start_receiving_file-Started token r m =
      if_cases (λ (r' : RtcReceiver). r'.state ≡ receiving_files → Started r.disk.files id meta r')
        (not (validate_file_header r id token)) _ _ (λ t s. absurd (ground (arith, s)))
        (λ _ s.
          subst
            (λ (o : Option RtcFile).
              (open_known env id r o).state ≡ receiving_files
              → Started r.disk.files id meta (open_known env id r o))
            (sym m) (open_sanitized-Started r (sanitize_path_with_fallback meta.file_name) m) s)
