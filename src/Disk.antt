-- ===== src/Disk.antt =====
-- What the program uses of Go's `os` on a file system: the regular files with their contents, and
-- the directories that were made. A call may also fail for reasons of its own (permissions, a full
-- disk): `Faults` says which calls do, and every theorem holds for all of them.
use pdf_to_epub.FilePath.{slash, contains}
use pdf_to_epub.Prelude.{
  Bool, true, false, not, ◌&&◌, ◌||◌, List, [], ◌∷◌, ◌++◌, ◌==◌, if◌then◌else◌, Str, any,
}
use pdf_to_epub.Prelude.Map.{Map, has, insert}

pub record Disk : Type 0 where
  pub files : Map Str
  pub dirs : List Str

pub record Faults : Type 0 where
  pub stat : Str → Bool
  pub mkdir : Str → Bool
  pub create : Str → Bool
  pub remove : Str → Bool

-- `strings.HasPrefix`
unfoldable pub has_prefix : Str → Str → Bool
has_prefix [] t = true
has_prefix (c ∷ s) [] = false
has_prefix (c ∷ s) (d ∷ t) = c == d && has_prefix s t

-- A directory that was made has its parents above it.
unfoldable pub is_dir : Disk → Str → Bool
is_dir disk path = contains disk.dirs path || any (has_prefix (path ++ (slash ∷ []))) disk.dirs

unfoldable pub exists : Disk → Str → Bool
exists disk path = has path disk.files || is_dir disk path

-- `_, err := os.Stat(path); os.IsNotExist(err)`
unfoldable pub is_missing : Disk → Faults → Str → Bool
is_missing disk faults path = not (exists disk path) && not (faults.stat path)

pub data Opened : Type 0 where
  created : Disk → Opened
  already_exists failed : Opened

-- `os.OpenFile(path, os.O_WRONLY|os.O_CREATE|os.O_EXCL, 0644)`
unfoldable pub open_exclusive : Disk → Faults → Str → Opened
open_exclusive disk faults path =
    if exists disk path
    then already_exists
    else if faults.create path
    then failed
    else created (record disk { files = insert path [] disk.files })
