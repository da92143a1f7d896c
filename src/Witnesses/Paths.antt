-- ===== src/Witnesses/Paths.antt =====
-- utils/paths.go, utils/files.go and utils/folderremap.go at concrete paths.
use pdf_to_epub.Disk.{Disk, Faults, is_missing, exists}
use pdf_to_epub.FilePath.{slash, contains, is_abs, join, join_slash, resolve, split, clean, here}
use pdf_to_epub.FilePath.Resolve.{dips}
use pdf_to_epub.FilePath.Split.{IsSafe}
use pdf_to_epub.FolderRemap.{apply, new_folder_remapper, split_root}
use pdf_to_epub.FolderRemap.Targets.{apply-fresh}
use pdf_to_epub.Prelude.{
  ℕ, ◌+◌, ◌≤◌, Bool, true, false, Option, none, some, List, [], ◌∷◌, ◌++◌, Str, codes, str_eq,
  if◌then◌else◌, ◌≡◌, ◌⊎◌, refl, Str-discrete,
}
use pdf_to_epub.Prelude.Map.{Map}
use pdf_to_epub.Sanitize.{
  sanitize_relative_path, sanitize_path_with_fallback, ok, err, empty_path, absolute_path,
  path_traversal,
}
use pdf_to_epub.Sanitize.Safety.{sanitize_path_with_fallback-IsSafe}
use pdf_to_epub.Sanitize.Verdict.{sanitize_relative_path_verdict}
use pdf_to_epub.UniqueFile.{
  create, file, no_file, find_unique_folder_name, max_unique_path_attempts, hint, Hint,
}
use pdf_to_epub.UniqueFile.Create.{create-IsFirstFree, IsFresh, Taken, path_at}

abbrev home : Str
home = codes "/mnt/us"

abbrev book : Str
book = codes "a/b.epub"

abbrev no_faults : Faults
no_faults = record {
  stat = λ p. false;
  mkdir = λ p. false;
  create = λ p. false;
  remove = λ p. false;
}

-- A disk on which the file `/mnt/us/a` is.
abbrev disk : Disk
disk = record { files = (codes "/mnt/us/a", codes "x") ∷ []; dirs = codes "/mnt/us" ∷ [] }

sanitized_up : sanitize_relative_path (codes "a/../../b") ≡ err path_traversal
unfolding sanitize_relative_path Str-discrete clean join_slash resolve pdf_to_epub.FilePath.walk
    split pdf_to_epub.FilePath.kind
sanitized_up = refl

sanitized_fallback : sanitize_path_with_fallback (codes "../../b") ≡ ok (codes "b")
unfolding sanitize_path_with_fallback Str-discrete sanitize_relative_path clean join_slash resolve
    pdf_to_epub.FilePath.walk split pdf_to_epub.FilePath.kind pdf_to_epub.FilePath.base
    pdf_to_epub.FilePath.last_component
sanitized_fallback = refl

sanitized_book : sanitize_path_with_fallback book ≡ ok book
unfolding sanitize_path_with_fallback Str-discrete sanitize_relative_path clean join_slash resolve
    pdf_to_epub.FilePath.walk split pdf_to_epub.FilePath.kind contains
sanitized_book = refl

relative_book : sanitize_relative_path book ≡ ok book
unfolding sanitize_relative_path Str-discrete clean join_slash resolve pdf_to_epub.FilePath.walk
    split pdf_to_epub.FilePath.kind contains
relative_book = refl

book-IsSafe : IsSafe book
book-IsSafe = sanitize_path_with_fallback-IsSafe book book sanitized_book

sanitize_path_with_fallback-IsSafe_example : IsSafe (codes "b")
sanitize_path_with_fallback-IsSafe_example =
    sanitize_path_with_fallback-IsSafe (codes "../../b") (codes "b") sanitized_fallback

home-is_abs : is_abs home ≡ true
home-is_abs = refl

sanitize_relative_path_verdict_example : sanitize_relative_path (codes "a/../../b") ≡ (
    if str_eq (codes "a/../../b") []
    then err empty_path
    else if is_abs (codes "a/../../b")
    then err absolute_path
    else if dips 0 (split slash (codes "a/../../b"))
    then err path_traversal
    else if str_eq (clean (codes "a/../../b")) here
    then err empty_path
    else ok (clean (codes "a/../../b")))
sanitize_relative_path_verdict_example = sanitize_relative_path_verdict (codes "a/../../b")

abbrev remap : Map Str
remap = (codes "a", codes "a (1)") ∷ []

remap_made : new_folder_remapper disk no_faults home (book ∷ []) ≡ some remap
unfolding new_folder_remapper pdf_to_epub.FolderRemap.remap_roots
    pdf_to_epub.FolderRemap.root_folders pdf_to_epub.FolderRemap.root_of find_unique_folder_name
    is_missing sanitize_relative_path split_root pdf_to_epub.UniqueFile.folder_loop Str-discrete
    exists pdf_to_epub.Prelude.Map.lookup join pdf_to_epub.UniqueFile.numbered clean join_slash
    resolve pdf_to_epub.Disk.has_prefix pdf_to_epub.Disk.is_dir contains pdf_to_epub.FilePath.kind
    split pdf_to_epub.FilePath.walk pdf_to_epub.Prelude.Map.insert
    pdf_to_epub.UniqueFile.Decimal.decimal pdf_to_epub.UniqueFile.Decimal.digits
remap_made = refl

book_listed : contains (book ∷ []) book ≡ true
unfolding contains Str-discrete
book_listed = refl

book_split : split_root book ≡ some (codes "a", codes "b.epub")
unfolding split_root
book_split = refl

apply-fresh_example :
    (u : Str) × (apply remap book ≡ u ++ (slash ∷ codes "b.epub"))
    × (is_missing disk no_faults (join home u) ≡ true)
    × (find_unique_folder_name disk no_faults home (codes "a") ≡ some u)
    × IsSafe (apply remap book)
apply-fresh_example =
    apply-fresh disk no_faults home (book ∷ []) remap book book (codes "a") (codes "b.epub")
      remap_made book_listed relative_book book_split

abbrev past : ℕ → List Hint
past n = record { dir = home; filename = codes "a"; next = n } ∷ []

abbrev disk_after : Disk
disk_after = record {
  files = (codes "/mnt/us/a", codes "x") ∷ (codes "/mnt/us/a (1)", []) ∷ [];
  dirs = codes "/mnt/us" ∷ [];
}

second_made :
    create [] disk no_faults home (codes "a") ≡ (past 2, file disk_after (codes "/mnt/us/a (1)") 1)
unfolding create pdf_to_epub.UniqueFile.create_unique_file_from hint Str-discrete
    pdf_to_epub.UniqueFile.create_suffixed pdf_to_epub.UniqueFile.create_loop
    pdf_to_epub.Disk.open_exclusive exists pdf_to_epub.Prelude.Map.lookup join
    pdf_to_epub.UniqueFile.numbered pdf_to_epub.UniqueFile.stem pdf_to_epub.FilePath.ext
    pdf_to_epub.FilePath.contains_byte clean join_slash resolve pdf_to_epub.Disk.has_prefix
    pdf_to_epub.Disk.is_dir contains pdf_to_epub.FilePath.kind split pdf_to_epub.FilePath.walk
    pdf_to_epub.Prelude.Map.insert pdf_to_epub.UniqueFile.Decimal.decimal
    pdf_to_epub.UniqueFile.Decimal.digits pdf_to_epub.UniqueFile.raise_hint
second_made = refl

create-IsFirstFree_example :
    IsFresh disk no_faults (codes "/mnt/us/a (1)") disk_after
    × (codes "/mnt/us/a (1)" ≡ path_at home (codes "a") 1)
    × (hint home (codes "a") [] ≤ 1)
    × (1 ≤ max_unique_path_attempts)
    × Taken disk home (codes "a") (hint home (codes "a") []) 1
    × (hint home (codes "a") (past 2) ≡ 1 + 1)
create-IsFirstFree_example =
    create-IsFirstFree [] (past 2) disk disk_after no_faults home (codes "a")
      (codes "/mnt/us/a (1)") 1 second_made

-- The last name is taken.
abbrev disk_full : Disk
disk_full = record { files = (codes "/mnt/us/a (10000)", []) ∷ []; dirs = [] }

none_made : create (past 10000) disk_full no_faults home (codes "a") ≡ (past 10000, no_file)
unfolding create pdf_to_epub.UniqueFile.create_unique_file_from hint Str-discrete
    pdf_to_epub.UniqueFile.create_suffixed pdf_to_epub.UniqueFile.create_loop
    pdf_to_epub.Disk.open_exclusive exists pdf_to_epub.Prelude.Map.lookup join
    pdf_to_epub.UniqueFile.numbered pdf_to_epub.UniqueFile.stem pdf_to_epub.FilePath.ext
    pdf_to_epub.FilePath.contains_byte clean join_slash resolve pdf_to_epub.Disk.has_prefix
    pdf_to_epub.Disk.is_dir contains pdf_to_epub.FilePath.kind split pdf_to_epub.FilePath.walk
    pdf_to_epub.Prelude.Map.insert pdf_to_epub.UniqueFile.Decimal.decimal
    pdf_to_epub.UniqueFile.Decimal.digits pdf_to_epub.UniqueFile.raise_hint
none_made = refl
