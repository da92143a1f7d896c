-- ===== src/UniqueFile.antt =====
-- koreader-plugin/internal/utils/files.go: names with a counter, " (1)", " (2)" and so on, for files
-- and folders whose own name is taken.
pub mod Decimal
pub mod Create
pub mod Folder
use Decimal.{decimal}
use pdf_to_epub.Disk.{
  Disk, Faults, Opened, created, already_exists, failed, open_exclusive, is_missing,
}
use pdf_to_epub.FilePath.{join, ext}
use pdf_to_epub.Prelude.{
  ℕ, zero, suc, ◌+◌, ◌-◌, Bool, true, false, not, ◌&&◌, ◌||◌, Option, none, some, List, [], ◌∷◌,
  ◌++◌, ◌==◌, ltb, if◌then◌else◌, Str, str_eq, length, take, codes,
}

abbrev pub max_unique_path_attempts : ℕ
max_unique_path_attempts = 10000

-- `fmt.Sprintf("%s (%d)%s", name, i, ext)`
unfoldable pub numbered : Str → ℕ → Str → Str
numbered name i suffix = name ++ (codes " (" ++ (decimal i ++ (codes ")" ++ suffix)))

-- `strings.TrimSuffix(filename, filepath.Ext(filename))`, which ends in that suffix.
unfoldable pub stem : Str → Str
stem filename = take (length filename - length (ext filename)) filename

-- The file's path, the suffix used, and the disk with the new file.
pub data Created : Type 0 where
  file : Disk → Str → ℕ → Created
  no_file : Created

-- The loop over the suffixes from `i` on, `rounds` of them.
unfoldable pub create_loop : Disk → Faults → Str → Str → Str → ℕ → ℕ → Created
create_loop disk faults dir name suffix zero i = no_file
create_loop disk faults dir name suffix (suc rounds) i =
    let path = join dir (numbered name i suffix) in
    elim (open_exclusive disk faults path) [
      | created disk' ↦ file disk' path i
      | already_exists ↦ create_loop disk faults dir name suffix rounds (suc i)
      | failed ↦ no_file
    ]

unfoldable pub create_suffixed : Disk → Faults → Str → Str → ℕ → Created
create_suffixed disk faults dir filename start =
    create_loop disk faults dir (stem filename) (ext filename)
      (max_unique_path_attempts + 1 - start) start

unfoldable pub create_unique_file_from : Disk → Faults → Str → Str → ℕ → Created
create_unique_file_from disk faults dir filename zero =
    elim (open_exclusive disk faults (join dir filename)) [
      | created disk' ↦ file disk' (join dir filename) 0
      | already_exists ↦ create_suffixed disk faults dir filename 1
      | failed ↦ no_file
    ]
create_unique_file_from disk faults dir filename (suc start) =
    create_suffixed disk faults dir filename (suc start)

unfoldable pub create_unique_file : Disk → Faults → Str → Str → Created
create_unique_file disk faults dir filename = create_unique_file_from disk faults dir filename 0

-- `map[uniqueFileKey]int`, an entry for each pair of directory and name.
pub record Hint : Type 0 where
  pub dir : Str
  pub filename : Str
  pub next : ℕ

-- `a.next[key]`, 0 where there is none.
unfoldable pub hint : Str → Str → List Hint → ℕ
hint dir filename [] = 0
hint dir filename (h ∷ l) =
    if str_eq h.dir dir && str_eq h.filename filename then h.next else hint dir filename l

-- `if next > a.next[key] { a.next[key] = next }`; an older entry is hidden by the newer one.
unfoldable pub raise_hint : Str → Str → ℕ → List Hint → List Hint
raise_hint dir filename next l =
    if ltb (hint dir filename l) next
    then record { dir = dir; filename = filename; next = next } ∷ l
    else l

-- `Reset`
unfoldable pub reset : List Hint → List Hint
reset hints = []

-- `UniqueFileAllocator.Create`: what was created, and the allocator's hints.
unfoldable pub create : List Hint → Disk → Faults → Str → Str → List Hint × Created
create hints disk faults dir filename =
    elim (create_unique_file_from disk faults dir filename (hint dir filename hints)) [
      | file disk' path used ↦ (raise_hint dir filename (used + 1) hints, file disk' path used)
      | no_file ↦ (hints, no_file)
    ]

-- The loop of `FindUniqueFolderName`.
unfoldable pub folder_loop : Disk → Faults → Str → Str → ℕ → ℕ → Option Str
folder_loop disk faults save_dir name zero i = none
folder_loop disk faults save_dir name (suc rounds) i =
    let new_name = numbered name i [] in
    elim (is_missing disk faults (join save_dir new_name)) [
      | true ↦ some new_name
      | false ↦ folder_loop disk faults save_dir name rounds (suc i)
    ]

unfoldable pub find_unique_folder_name : Disk → Faults → Str → Str → Option Str
find_unique_folder_name disk faults save_dir name =
    if is_missing disk faults (join save_dir name)
    then some name
    else folder_loop disk faults save_dir name max_unique_path_attempts 1
