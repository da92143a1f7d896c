-- ===== src/UniqueFile/Folder.antt =====
-- The unique name of a folder.
use pdf_to_epub.Disk.{Disk, Faults, is_missing}
use pdf_to_epub.FilePath.{slash, here, up, contains_byte, join}
use pdf_to_epub.FilePath.Split.{IsNormal, Unsplit}
use pdf_to_epub.Prelude.{
  ℕ, zero, suc, ◌≤◌, ◌≡◌, ◌≢◌, ◌⊎◌, inl, inr, refl, true, ◌||◌, some, [], ◌∷◌, ◌++◌, arith, Str,
  Bool-cases, codes, length, length-append, ap,
}
use pdf_to_epub.UniqueFile.{
  numbered, max_unique_path_attempts, folder_loop, find_unique_folder_name,
}
use pdf_to_epub.UniqueFile.Decimal.{decimal, decimal-no_slash}

contains_byte-append :
    (b : ℕ) (s t : Str) → contains_byte b (s ++ t) ≡ (contains_byte b s || contains_byte b t)
unfolding contains_byte
contains_byte-append b [] t = refl
contains_byte-append b (c ∷ s) t = ground (arith, contains_byte-append b s t)

numbered-length : (name : Str) (i : ℕ) → 3 ≤ length (numbered name i [])
unfolding numbered
numbered-length name i = omega (
  arith,
  length-append name (codes " (" ++ (decimal i ++ (codes ")" ++ []))),
  length-append (decimal i) (codes ")" ++ []),
)

not_short : (name t : Str) (i : ℕ) → length t ≤ 2 → numbered name i [] ≢ t
not_short name t i h = λ e. omega (arith, ap length e, numbered-length name i)

-- A name with a counter names an entry of the same directory, if the name does.
pub numbered-IsNormal :
    (name : Str) (i : ℕ)
    → IsNormal name
    → Unsplit name
    → IsNormal (numbered name i []) × Unsplit (numbered name i [])
unfolding numbered contains_byte
numbered-IsNormal name i n u = (
  record {
    nonempty = not_short name [] i (omega arith);
    not_here = not_short name here i (omega arith);
    not_up = not_short name up i (omega arith);
  },
  rw (contains_byte-append slash name, u, contains_byte-append slash (decimal i), decimal-no_slash),
)

-- What `FindUniqueFolderName` may return for a name.
abbrev pub IsUnique : Disk → Faults → Str → Str → Str → Type 0
IsUnique disk faults save_dir name unique =
    (is_missing disk faults (join save_dir unique) ≡ true)
    × ((unique ≡ name) ⊎ (i : ℕ) × (unique ≡ numbered name i []))

folder_loop-IsUnique :
    (disk : Disk) (faults : Faults) (save_dir name unique : Str) (rounds i : ℕ)
    → folder_loop disk faults save_dir name rounds i ≡ some unique
    → IsUnique disk faults save_dir name unique
unfolding folder_loop
folder_loop-IsUnique disk faults save_dir name unique zero i h = absurd (ground arith)
folder_loop-IsUnique disk faults save_dir name unique (suc rounds) i h =
    elim (Bool-cases (is_missing disk faults (join save_dir (numbered name i [])))) [
      | inl m ↦ (ground arith, inr (i, ground arith))
      | inr m ↦ folder_loop-IsUnique disk faults save_dir name unique rounds (suc i) (ground arith)
    ]

pub find_unique_folder_name-IsUnique :
    (disk : Disk) (faults : Faults) (save_dir name unique : Str)
    → find_unique_folder_name disk faults save_dir name ≡ some unique
    → IsUnique disk faults save_dir name unique
unfolding find_unique_folder_name
find_unique_folder_name-IsUnique disk faults save_dir name unique h =
    elim (Bool-cases (is_missing disk faults (join save_dir name))) [
      | inl m ↦ (ground arith, inl (ground arith))
      | inr m ↦
          folder_loop-IsUnique disk faults save_dir name unique max_unique_path_attempts 1
            (ground arith)
    ]
