-- ===== src/Witnesses/Sessions.antt =====
-- session/recv.go at a session with one file of two bytes.
use pdf_to_epub.Disk.{Disk, Faults}
use pdf_to_epub.Errors.{invalid_body}
use pdf_to_epub.Prelude.{
  inl, ◌⊎◌, ℕ, ◌<◌, Bool, true, false, Option, none, some, List, [], ◌∷◌, Str, codes, ◌≡◌, ◌↔◌,
  refl, Str-discrete, arith,
}
use pdf_to_epub.Prelude.Int.{pos}
use pdf_to_epub.Prelude.Map.{Map, lookup, insert}
use pdf_to_epub.Session.{
  FileMeta, UploadStatus, pending, in_progress, finished, failed, UploadState, RecvSession,
  not_done, Result, ok, err, begin_attempt, finish_file_attempt, end_session, start,
}
use pdf_to_epub.Session.Body.{Chunk, Body, Env}
use pdf_to_epub.Session.Counting.{live}
use pdf_to_epub.Session.Lifecycle.{Inv}
use pdf_to_epub.Session.Outcome.{IsSaved, sent}
use pdf_to_epub.Session.Accepted.{IsGood, receive_body_accepts}
use pdf_to_epub.Session.Save.{save_file, receive_body, saved_name}
use pdf_to_epub.Session.Saved.{save_file-IsSaved, save_file_unchanged}
use mathlib.Core.Path.{subst}
use pdf_to_epub.Session.Alone.{begin_attempt-Reach, finish_file_attempt-Reach}
use pdf_to_epub.Session.Atomic.{
  Shared, idle, enter, settle_locked, settled, swap_started, settle_file, cancel, Reach, here, next,
  Reach-trans,
}
use pdf_to_epub.Session.Overlap.{SharedInv}
use pdf_to_epub.Session.Steps.{status_in, is_ok, Reach-Inv, Reach-done_refused}

abbrev ip : Str
ip = codes "10.0.0.2"

abbrev meta : FileMeta
meta = record { id = codes "f"; filename = codes "b"; size = pos 2; checksum = [] }

abbrev in_state : UploadStatus → ℕ → ℕ → Bool → RecvSession
in_state status attempts count running = record {
  files_count = pos count;
  last_activity = 7;
  file_metas = (codes "f", meta) ∷ [];
  file_tokens = (codes "f", codes "t") ∷ [];
  file_states = (codes "f", record { status = status; attempts = attempts; target_path = [] }) ∷ [];
  id = codes "s";
  client_ip = ip;
  started = running;
  folder_remap = not_done;
  folder_transfer = none;
  ensured_dirs = [];
  unique_files = [];
}

abbrev sess : RecvSession
sess = in_state pending 0 1 true

abbrev begun : RecvSession
begun = in_state in_progress 1 1 true

abbrev done : RecvSession
done = in_state finished 1 0 false

sess-Inv : Inv sess
unfolding live
sess-Inv = record {
  attempts = (
    record {
      capped = omega arith;
      pending_left = λ e. omega arith;
      in_progress_begun = λ e. ground arith;
    },
    tt,
  );
  counted = λ e. refl;
  busy = λ e. omega arith;
}

begun-Inv : Inv begun
unfolding live
begun-Inv = record {
  attempts = (
    record {
      capped = omega arith;
      pending_left = λ e. ground arith;
      in_progress_begun = λ e. omega arith;
    },
    tt,
  );
  counted = λ e. refl;
  busy = λ e. omega arith;
}

begins : begin_attempt sess (codes "f") (codes "t") ip ≡ ok (begun, meta, [])
unfolding begin_attempt Str-discrete lookup pdf_to_epub.Prelude.Map.insert
begins = refl

finishes : finish_file_attempt begun (codes "f") finished ≡ done
unfolding finish_file_attempt lookup Str-discrete pdf_to_epub.Prelude.Map.insert
finishes = refl

sess_to_done : Reach (idle sess) (idle done)
sess_to_done =
    Reach-trans (begin_attempt-Reach sess (codes "f") (codes "t") ip begun meta [] begins) (
      subst (λ s. Reach (idle begun) (idle s)) finishes
        (finish_file_attempt-Reach begun (codes "f") finished))

-- The file is settled and not counted off yet, and a cancel comes between.
abbrev between : Shared
between = settled (idle begun) (settle_locked begun (codes "f") finished)

sess_to_between : Reach (idle sess) between
sess_to_between =
    next (begin_attempt-Reach sess (codes "f") (codes "t") ip begun meta [] begins)
      (settle_file (codes "f") finished refl)

Reach-Inv_example :
    SharedInv between × (between.owed ≡ 0 → between.ending ≡ 0 → Inv between.session)
Reach-Inv_example = Reach-Inv sess_to_between sess-Inv

between_to_ended : Reach between (swap_started between)
between_to_ended = next here (cancel refl)

between_status : status_in between.session.file_states (codes "f") ≡ some finished
unfolding settle_locked lookup Str-discrete pdf_to_epub.Prelude.Map.insert
between_status = refl

Reach-done_refused_example :
    (status_in (swap_started between).session.file_states (codes "f") ≡ some finished)
    × (is_ok (begin_attempt (swap_started between).session (codes "f") (codes "t") ip) ≡ false)
    × (is_ok (enter (swap_started between).session (codes "f") (codes "t")) ≡ false)
Reach-done_refused_example =
    Reach-done_refused (codes "f") (codes "t") ip finished between_to_ended refl between_status

-- A whole upload is counted off and ends the session.
done_Inv : Inv done
done_Inv = (Reach-Inv sess_to_done sess-Inv).1 refl refl

abbrev disk : Disk
disk = record { files = []; dirs = [] }

abbrev env : Env
env = record {
  faults = record {
    stat = λ p. false;
    mkdir = λ p. false;
    create = λ p. false;
    remove = λ p. false;
  };
  write_fails = λ p. false;
  flush_fails = λ p. false;
  sha256_hex = λ s. s;
  left = λ s. s;
}

abbrev body : Str → Body
body bytes = record { chunks = record { bytes = bytes; at = 9_000_000_000 } ∷ []; fails = false }

saves :
    (save_file sess disk env (codes "/m") (codes "f") (codes "t") ip (body (codes "hi"))).2
    ≡ ok (codes "b")
unfolding save_file begin_attempt Str-discrete lookup pdf_to_epub.Session.Save.run_attempt
    pdf_to_epub.Sanitize.sanitize_path_with_fallback pdf_to_epub.Sanitize.sanitize_relative_path
    pdf_to_epub.FilePath.clean pdf_to_epub.FilePath.join_slash pdf_to_epub.FilePath.resolve
    pdf_to_epub.FilePath.walk pdf_to_epub.FilePath.split pdf_to_epub.FilePath.kind
    pdf_to_epub.FilePath.contains pdf_to_epub.Session.Save.prepare_folder_remap
    pdf_to_epub.FolderRemap.new_folder_remapper pdf_to_epub.FolderRemap.remap_roots
    pdf_to_epub.Disk.exists pdf_to_epub.Disk.has_prefix pdf_to_epub.Disk.is_dir
    pdf_to_epub.Disk.is_missing pdf_to_epub.Disk.open_exclusive pdf_to_epub.FilePath.base
    pdf_to_epub.FilePath.contains_byte pdf_to_epub.FilePath.dir pdf_to_epub.FilePath.ext
    pdf_to_epub.FilePath.join pdf_to_epub.FilePath.last_component
    pdf_to_epub.FilePath.up_to_last_slash pdf_to_epub.FolderRemap.apply
    pdf_to_epub.FolderRemap.root_folders pdf_to_epub.FolderRemap.root_of
    pdf_to_epub.FolderRemap.split_root pdf_to_epub.Prelude.Map.delete pdf_to_epub.Prelude.Map.insert
    pdf_to_epub.Session.Body.equal_fold pdf_to_epub.Session.Body.judge
    pdf_to_epub.Session.Body.note_read pdf_to_epub.Session.Body.read_limited
    pdf_to_epub.Session.Save.ensure_save_dir pdf_to_epub.Session.Save.mkdir_all
    pdf_to_epub.Session.Save.open_target pdf_to_epub.Session.Save.place
    pdf_to_epub.Session.Save.receive_body end_session finish_file_attempt
    pdf_to_epub.UniqueFile.Decimal.decimal pdf_to_epub.UniqueFile.Decimal.digits
    pdf_to_epub.UniqueFile.create pdf_to_epub.UniqueFile.create_loop
    pdf_to_epub.UniqueFile.create_suffixed pdf_to_epub.UniqueFile.create_unique_file_from
    pdf_to_epub.UniqueFile.find_unique_folder_name pdf_to_epub.UniqueFile.folder_loop
    pdf_to_epub.UniqueFile.hint pdf_to_epub.UniqueFile.numbered pdf_to_epub.UniqueFile.raise_hint
    pdf_to_epub.UniqueFile.stem
saves = refl

save_file-IsSaved_example :
    (m : FileMeta) × (path : Str) × (lookup (codes "f") sess.file_metas ≡ some m)
    × (lookup (codes "f") sess.file_tokens ≡ some (codes "t"))
    × IsSaved env m
        (body (codes "hi"))
        []
        (save_file sess disk env
          (codes "/m")
          (codes "f")
          (codes "t")
          ip
          (body (codes "hi"))).1.files
        path
save_file-IsSaved_example =
    save_file-IsSaved sess disk env (codes "/m") (codes "f") (codes "t") ip (body (codes "hi"))
      (codes "b") saves

refuses :
    (save_file sess disk env (codes "/m") (codes "f") (codes "t") ip (body (codes "hit"))).2
    ≡ err invalid_body
unfolding save_file begin_attempt Str-discrete lookup pdf_to_epub.Session.Save.run_attempt
    pdf_to_epub.Sanitize.sanitize_path_with_fallback pdf_to_epub.Sanitize.sanitize_relative_path
    pdf_to_epub.FilePath.clean pdf_to_epub.FilePath.join_slash pdf_to_epub.FilePath.resolve
    pdf_to_epub.FilePath.walk pdf_to_epub.FilePath.split pdf_to_epub.FilePath.kind
    pdf_to_epub.FilePath.contains pdf_to_epub.Session.Save.prepare_folder_remap
    pdf_to_epub.FolderRemap.new_folder_remapper pdf_to_epub.FolderRemap.remap_roots
    pdf_to_epub.Disk.exists pdf_to_epub.Disk.has_prefix pdf_to_epub.Disk.is_dir
    pdf_to_epub.Disk.is_missing pdf_to_epub.Disk.open_exclusive pdf_to_epub.FilePath.base
    pdf_to_epub.FilePath.contains_byte pdf_to_epub.FilePath.dir pdf_to_epub.FilePath.ext
    pdf_to_epub.FilePath.join pdf_to_epub.FilePath.last_component
    pdf_to_epub.FilePath.up_to_last_slash pdf_to_epub.FolderRemap.apply
    pdf_to_epub.FolderRemap.root_folders pdf_to_epub.FolderRemap.root_of
    pdf_to_epub.FolderRemap.split_root pdf_to_epub.Prelude.Map.delete pdf_to_epub.Prelude.Map.insert
    pdf_to_epub.Session.Body.equal_fold pdf_to_epub.Session.Body.judge
    pdf_to_epub.Session.Body.note_read pdf_to_epub.Session.Body.read_limited
    pdf_to_epub.Session.Save.ensure_save_dir pdf_to_epub.Session.Save.mkdir_all
    pdf_to_epub.Session.Save.open_target pdf_to_epub.Session.Save.place
    pdf_to_epub.Session.Save.receive_body end_session finish_file_attempt
    pdf_to_epub.UniqueFile.Decimal.decimal pdf_to_epub.UniqueFile.Decimal.digits
    pdf_to_epub.UniqueFile.create pdf_to_epub.UniqueFile.create_loop
    pdf_to_epub.UniqueFile.create_suffixed pdf_to_epub.UniqueFile.create_unique_file_from
    pdf_to_epub.UniqueFile.find_unique_folder_name pdf_to_epub.UniqueFile.folder_loop
    pdf_to_epub.UniqueFile.hint pdf_to_epub.UniqueFile.numbered pdf_to_epub.UniqueFile.raise_hint
    pdf_to_epub.UniqueFile.stem
refuses = refl

save_file_unchanged_example :
    (save_file sess disk env (codes "/m") (codes "f") (codes "t") ip (body (codes "hit"))).1.files
    ≡ []
save_file_unchanged_example =
    save_file_unchanged sess disk env (codes "/m") (codes "f") (codes "t") ip (body (codes "hit"))
      invalid_body (λ p. refl) refuses

hi-IsGood : IsGood env meta (codes "/m/b") (body (codes "hi"))
unfolding sent
hi-IsGood = record {
  ends = refl;
  size = refl;
  small = omega arith;
  hash = inl refl;
  writes = refl;
  flushes = refl;
}

receive_body_accepts_example :
    let a = receive_body sess disk env meta (codes ".") (codes "/m/b") (body (codes "hi")) in
    (a.status ≡ finished)
    × (a.result ≡ ok (saved_name (codes ".") (codes "/m/b")))
    × (a.disk.files ≡ insert (codes "/m/b") (sent (body (codes "hi")).chunks) [])
receive_body_accepts_example =
    receive_body_accepts sess disk env meta (codes ".") (codes "/m/b") (body (codes "hi")) hi-IsGood
