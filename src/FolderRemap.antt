-- ===== src/FolderRemap.antt =====
-- koreader-plugin/internal/utils/folderremap.go: root folders of a transfer whose names are taken get
-- new names. The map of roots is visited in the order in which they first stand in the transfer.
pub mod Targets
use pdf_to_epub.Disk.{Disk, Faults}
use pdf_to_epub.FilePath.{slash, contains}
use pdf_to_epub.Prelude.{
  ℕ, Bool, true, false, Option, none, some, List, [], ◌∷◌, ◌++◌, ◌==◌, ltb, if◌then◌else◌, Str,
  str_eq, length,
}
use pdf_to_epub.Prelude.Map.{Map, lookup, insert}
use pdf_to_epub.Sanitize.{PathResult, ok, err, sanitize_relative_path}
use pdf_to_epub.UniqueFile.{find_unique_folder_name}

-- `strings.SplitN(path, "/", 2)`: the root folder and the rest, if there is a slash.
unfoldable pub split_root : Str → Option (Str × Str)
split_root [] = none
split_root (c ∷ s) =
    if c == slash
    then some ([], s)
    else elim (split_root s) [ none ↦ none | some (root, rest) ↦ some (c ∷ root, rest) ]

-- The root folder that a file name adds, if it is a path below one.
unfoldable pub root_of : Str → Option Str
root_of filename = elim (sanitize_relative_path filename) [
  | err e ↦ none
  | ok p ↦ elim (split_root p) [ none ↦ none | some (root, rest) ↦ some root ]
]

abbrev pub add_root : Option Str → List Str → List Str
add_root none roots = roots
add_root (some root) roots = if contains roots root then roots else root ∷ roots

unfoldable pub root_folders : List Str → List Str
root_folders [] = []
root_folders (filename ∷ l) = add_root (root_of filename) (root_folders l)

-- The second loop; `none` is the error of `FindUniqueFolderName`.
unfoldable pub remap_roots : Disk → Faults → Str → List Str → Option (Map Str)
remap_roots disk faults save_dir [] = some []
remap_roots disk faults save_dir (root ∷ roots) =
    elim (find_unique_folder_name disk faults save_dir root) [
      | none ↦ none
      | some unique ↦ elim (remap_roots disk faults save_dir roots) [
        | none ↦ none
        | some remap ↦ some (if str_eq unique root then remap else insert root unique remap)
      ]
    ]

-- The `remap` of a new `FolderRemapper`.
unfoldable pub new_folder_remapper : Disk → Faults → Str → List Str → Option (Map Str)
new_folder_remapper disk faults save_dir filenames =
    remap_roots disk faults save_dir (root_folders filenames)

unfoldable pub has_remap : Map Str → Bool
has_remap remap = ltb 0 (length remap)

abbrev pub renamed : Str → Map Str → Option (Str × Str) → Str
renamed path remap none = path
renamed path remap (some (root, rest)) = elim (lookup root remap) [
  | none ↦ path
  | some new_root ↦ new_root ++ (slash ∷ rest)
]

unfoldable pub apply : Map Str → Str → Str
apply remap path = if length remap == 0 then path else renamed path remap (split_root path)
