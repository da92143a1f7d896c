-- ===== src/FolderRemap/Targets.antt =====
-- Where folderremap.go sends the files of a folder.
use pdf_to_epub.Disk.{Disk, Faults, is_missing}
use pdf_to_epub.FilePath.{slash, contains, contains_byte, join}
use pdf_to_epub.FilePath.Split.{IsNormal, IsSafe, Unsplit, split-append}
use pdf_to_epub.FolderRemap.{
  split_root, root_of, root_folders, remap_roots, new_folder_remapper, apply, renamed,
}
use pdf_to_epub.Prelude.{
  true, false, none, some, List, [], ◌∷◌, ◌++◌, if◌then◌else◌, Str, str_eq, ◌≡◌, ◌↔◌, inl, inr,
  arith, Option-cases,
}
use pdf_to_epub.Prelude.Map.{Map, lookup, insert, lookup-insert}
use pdf_to_epub.Sanitize.{ok, sanitize_relative_path}
use pdf_to_epub.Sanitize.Safety.{sanitize_relative_path-IsSafe}
use pdf_to_epub.UniqueFile.{find_unique_folder_name}
use pdf_to_epub.UniqueFile.Folder.{find_unique_folder_name-IsUnique, numbered-IsNormal}

-- A path with a root folder is that folder, a slash and the rest.
split_root-some :
    (p root rest : Str)
    → split_root p ≡ some (root, rest)
    → (p ≡ root ++ (slash ∷ rest)) × Unsplit root
unfolding split_root contains_byte
split_root-some [] root rest h = absurd (ground arith)
split_root-some (c ∷ p) root rest h = elim (Option-cases (split_root p)) [
  | inl e ↦ ground (arith, e)
  | inr ((r, q), e) ↦ ground (arith, e, split_root-some p r q e)
]

-- The name that a root has after the transfer's remapping.
abbrev pub new_name : Map Str → Str → Str
new_name remap root = elim (lookup root remap) [ none ↦ root | some u ↦ u ]

remap_roots-cons :
    (disk : Disk) (faults : Faults) (save_dir r : Str) (roots : List Str) (remap : Map Str)
    → remap_roots disk faults save_dir (r ∷ roots) ≡ some remap
    → (u : Str) × (rest : Map Str) × (find_unique_folder_name disk faults save_dir r ≡ some u)
      × (remap_roots disk faults save_dir roots ≡ some rest)
      × (remap ≡ (if str_eq u r then rest else insert r u rest))
unfolding remap_roots
remap_roots-cons disk faults save_dir r roots remap h =
    elim (Option-cases (find_unique_folder_name disk faults save_dir r)) [
      | inl e ↦ absurd (ground (arith, e))
      | inr (u, e) ↦ elim (Option-cases (remap_roots disk faults save_dir roots)) [
        | inl f ↦ absurd (ground (arith, e, f))
        | inr (rest, f) ↦ (u, rest, e, f, ground (arith, e, f))
      ]
    ]

remap_roots-absent :
    (disk : Disk) (faults : Faults) (save_dir : Str) (roots : List Str) (remap : Map Str) (j : Str)
    → remap_roots disk faults save_dir roots ≡ some remap
    → contains roots j ≡ false
    → lookup j remap ≡ none
unfolding contains
remap_roots-absent disk faults save_dir [] remap j h m = unfold remap_roots lookup in ground arith
remap_roots-absent disk faults save_dir (r ∷ roots) remap j h m =
    let (u, rest, _, f, e) = remap_roots-cons disk faults save_dir r roots remap h in
    ground
      (arith, e, remap_roots-absent disk faults save_dir roots rest j f, lookup-insert r j u rest)

abbrev AllNew : List Str → Type 0
AllNew [] = Unit
AllNew (r ∷ roots) = (contains roots r ≡ false) × AllNew roots

remap_roots-IsUnique :
    (disk : Disk) (faults : Faults) (save_dir : Str) (roots : List Str) (remap : Map Str)
    (root : Str)
    → AllNew roots
    → remap_roots disk faults save_dir roots ≡ some remap
    → contains roots root ≡ true
    → find_unique_folder_name disk faults save_dir root ≡ some (new_name remap root)
unfolding contains
remap_roots-IsUnique disk faults save_dir [] remap root d h m = absurd (ground arith)
remap_roots-IsUnique disk faults save_dir (r ∷ roots) remap root d h m =
    let (u, rest, g, f, e) = remap_roots-cons disk faults save_dir r roots remap h in
    ground (
      arith,
      g,
      e,
      d,
      remap_roots-IsUnique disk faults save_dir roots rest root d.1 f,
      remap_roots-absent disk faults save_dir roots rest r f,
      lookup-insert r root u rest,
    )

root_folders-AllNew : (filenames : List Str) → AllNew (root_folders filenames)
unfolding root_folders
root_folders-AllNew [] = tt
root_folders-AllNew (f ∷ l) = elim (Option-cases (root_of f)) [
  | inl e ↦ rw e (root_folders-AllNew l)
  | inr (r, e) ↦ rw e (ground (arith, root_folders-AllNew l))
]

contains-root_folders :
    (filenames : List Str) (f root : Str)
    → contains filenames f ≡ true
    → root_of f ≡ some root
    → contains (root_folders filenames) root ≡ true
unfolding root_folders contains
contains-root_folders [] f root m h = absurd (ground arith)
contains-root_folders (g ∷ l) f root m h = elim (Option-cases (root_of g)) [
  | inl e ↦ ground (arith, e, contains-root_folders l f root)
  | inr (r, e) ↦ ground (arith, e, contains-root_folders l f root)
]

renamed-split :
    (remap : Map Str) (p root rest : Str)
    → p ≡ root ++ (slash ∷ rest)
    → renamed p remap (some (root, rest)) ≡ new_name remap root ++ (slash ∷ rest)
renamed-split remap p root rest h = elim (Option-cases (lookup root remap)) [
  | inl q ↦ ground (arith, q, h)
  | inr (u, q) ↦ ground (arith, q)
]

-- Renaming the root keeps the rest of the path.
apply-split :
    (remap : Map Str) (p root rest : Str)
    → split_root p ≡ some (root, rest)
    → apply remap p ≡ new_name remap root ++ (slash ∷ rest)
unfolding apply
apply-split [] p root rest h = unfold lookup in (split_root-some p root rest h).0
apply-split (e ∷ remap) p root rest h =
    ground (arith, h, renamed-split (e ∷ remap) p root rest (split_root-some p root rest h).0)

unique-IsNormal :
    (disk : Disk) (faults : Faults) (save_dir root u : Str)
    → IsNormal root × Unsplit root
    → find_unique_folder_name disk faults save_dir root ≡ some u
    → IsNormal u × Unsplit u × (is_missing disk faults (join save_dir u) ≡ true)
unique-IsNormal disk faults save_dir root u n h =
    let (m, o) = find_unique_folder_name-IsUnique disk faults save_dir root u h in
    elim o [
      | inl e ↦ rw e (n.0, n.1, rw e at m)
      | inr (i, e) ↦ let (a, b) = numbered-IsNormal root i n.0 n.1 in rw e (a, b, rw e at m)
    ]

IsSafe-root : (u rest : Str) → Unsplit u → IsSafe (u ++ (slash ∷ rest)) ↔ (IsNormal u × IsSafe rest)
IsSafe-root u rest h = rw (split-append u rest h) ((λ x. x), (λ x. x))

root_of-eq :
    (filename p root rest : Str)
    → sanitize_relative_path filename ≡ ok p
    → split_root p ≡ some (root, rest)
    → root_of filename ≡ some root
unfolding root_of
root_of-eq filename p root rest s r = rw (s, root_of) (rw (r, root_of))

-- Where a remapper was made for the names of a transfer, the sanitized path of each of them that has
-- a root folder is sent below the name that `FindUniqueFolderName` chose for that folder, under which
-- the save directory had nothing then, the rest of the path is kept, and the new path is safe.
pub apply-fresh :
    (disk : Disk) (faults : Faults) (save_dir : Str) (filenames : List Str) (remap : Map Str)
    (filename p root rest : Str)
    → new_folder_remapper disk faults save_dir filenames ≡ some remap
    → contains filenames filename ≡ true
    → sanitize_relative_path filename ≡ ok p
    → split_root p ≡ some (root, rest)
    → (u : Str) × (apply remap p ≡ u ++ (slash ∷ rest))
      × (is_missing disk faults (join save_dir u) ≡ true)
      × (find_unique_folder_name disk faults save_dir root ≡ some u)
      × IsSafe (apply remap p)
unfolding new_folder_remapper
apply-fresh disk faults save_dir filenames remap filename p root rest h m s r =
    let u = new_name remap root in
    let (e, w) = split_root-some p root rest r in
    let found =
      remap_roots-IsUnique disk faults save_dir (root_folders filenames) remap root
        (root_folders-AllNew filenames) h
        (contains-root_folders filenames filename root m (root_of-eq filename p root rest s r)) in
    let safe =
      (IsSafe-root root rest w).0 (rw e at ((sanitize_relative_path-IsSafe filename p s).0)) in
    let (n, x, missing) = unique-IsNormal disk faults save_dir root u (safe.0, w) found in
    let a = apply-split remap p root rest r in
    (u, a, missing, found, rw a ((IsSafe-root u rest x).1 (n, safe.1)))
