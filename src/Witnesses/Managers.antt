-- ===== src/Witnesses/Managers.antt =====
-- session/recvsessman.go at one session with one file.
use pdf_to_epub.Errors.{blocked_by_others}
use pdf_to_epub.Manager.{
  RecvSessManager, new_recv_sess_manager, create_session_if_allowed, kill_session_for_client,
  vacuum, has_active_sessions,
}
use pdf_to_epub.Manager.Admission.{create_session_if_allowed_excludes}
use pdf_to_epub.Manager.Cancel.{Removal, canceled, vacuumed, remove_all, Concerns, remove_all-keeps}
use pdf_to_epub.Prelude.{
  ℕ, Bool, true, false, Option, none, some, List, [], ◌∷◌, Str, codes, str_eq, if◌then◌else◌, ◌≡◌,
  ◌≢◌, ◌↔◌, All, refl, sym, ap, Str-discrete, arith,
}
use pdf_to_epub.Prelude.Int.{pos}
use pdf_to_epub.Prelude.Map.{Map, lookup, IsDistinct}
use pdf_to_epub.Session.{FileMeta, pending, RecvSession, not_done, ok, err, stopped}

abbrev owner : Str
owner = codes "10.0.0.2"

abbrev other : Str
other = codes "10.0.0.3"

abbrev files : Map FileMeta
files =
    (codes "f", record { id = codes "f"; filename = codes "b"; size = pos 2; checksum = [] }) ∷ []

abbrev uuid : ℕ → Str
uuid n = n ∷ []

abbrev sess : RecvSession
sess = record {
  files_count = pos 1;
  last_activity = 9;
  file_metas = files;
  file_tokens = (codes "f", 6 ∷ []) ∷ [];
  file_states = (codes "f", record { status = pending; attempts = 0; target_path = [] }) ∷ [];
  id = 5 ∷ [];
  client_ip = owner;
  started = true;
  folder_remap = not_done;
  folder_transfer = none;
  ensured_dirs = [];
  unique_files = [];
}

abbrev empty : RecvSessManager
empty = record { sessions = [] }

abbrev rsm : RecvSessManager
rsm = record { sessions = (5 ∷ [], sess) ∷ [] }

abbrev nine : ℕ
nine = 9_000_000_000

files-IsDistinct : IsDistinct files
unfolding lookup
files-IsDistinct = (refl, tt)

admits : create_session_if_allowed empty files owner nine uuid 5 ≡ ok (rsm, 5 ∷ [], 7)
unfolding create_session_if_allowed has_active_sessions pdf_to_epub.Manager.any_active
    pdf_to_epub.Manager.new_session_locked pdf_to_epub.Manager.accept_all
    pdf_to_epub.Session.accept_file Str-discrete pdf_to_epub.Session.new_recv_session
    pdf_to_epub.Prelude.Map.insert pdf_to_epub.Session.start
admits = refl

files-ne-nil : files ≢ []
files-ne-nil = λ e. ground arith

create_session_if_allowed_excludes_example :
    create_session_if_allowed rsm files other 68_000_000_000 uuid 7 ≡ err blocked_by_others
create_session_if_allowed_excludes_example =
    create_session_if_allowed_excludes empty rsm files owner nine uuid 5 7 (5 ∷ []) files other
      68_000_000_000 7 files-IsDistinct admits files-ne-nil (omega arith)

stored : lookup (5 ∷ []) rsm.sessions ≡ some sess
unfolding lookup Str-discrete
stored = refl

-- A cancel by another address, a vacuum while the session runs, then its owner's cancel.
abbrev removals : List Removal
removals = canceled (5 ∷ []) other ∷ vacuumed nine ∷ canceled (5 ∷ []) owner ∷ []

rsm-IsDistinct : IsDistinct rsm.sessions
unfolding lookup
rsm-IsDistinct = (refl, tt)

remove_all-keeps_example :
    (lookup (5 ∷ []) (remove_all removals rsm).sessions ≡ some sess)
    ↔ All (λ e. ¬ Concerns (5 ∷ []) sess e) removals
remove_all-keeps_example = remove_all-keeps (5 ∷ []) sess removals rsm rsm-IsDistinct stored

abbrev owner_of : Option RecvSession → Str
owner_of none = []
owner_of (some s) = s.client_ip

own_only :
    (s : RecvSession)
    → lookup (5 ∷ []) rsm.sessions ≡ some s
    → ¬ ((s.client_ip ≢ []) × (s.client_ip ≢ owner))
unfolding lookup Str-discrete
own_only s h f = f.1 (sym (ap owner_of h))
