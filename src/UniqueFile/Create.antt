-- ===== src/UniqueFile/Create.antt =====
-- What the creation of a uniquely named file does to the disk, and which suffix it takes.
use mathlib.Core.Path.{subst}
use native.Mathlib.Decide.{ℕ_discrete}
use pdf_to_epub.Disk.{Disk, Faults, Opened, created, already_exists, failed, open_exclusive, exists}
use pdf_to_epub.FilePath.{join, ext}
use pdf_to_epub.Prelude.{
  ℕ, zero, suc, ◌+◌, ◌-◌, ◌≤◌, ◌<◌, ◌≡◌, refl, true, false, List, [], arith, Str,
}
use pdf_to_epub.Prelude.Map.{insert}
use pdf_to_epub.UniqueFile.{
  Created, file, no_file, numbered, stem, max_unique_path_attempts, create_loop, create_suffixed,
  create_unique_file_from, Hint, hint, raise_hint, create,
}

-- A file that was not there is made, empty, and nothing else changes.
pub record IsFresh (disk : Disk) (faults : Faults) (path : Str) (disk' : Disk) : Type 0 where
  pub was_free : exists disk path ≡ false
  pub allowed : faults.create path ≡ false
  pub made : disk' ≡ record disk { files = insert path [] disk.files }

-- The name with the suffix `k`, where 0 stands for the name itself.
abbrev pub path_at : Str → Str → ℕ → Str
path_at dir filename zero = join dir filename
path_at dir filename (suc k) = join dir (numbered (stem filename) (suc k) (ext filename))

pub open_exclusive-IsFresh :
    (disk : Disk) (faults : Faults) (path : Str) (disk' : Disk)
    → open_exclusive disk faults path ≡ created disk'
    → IsFresh disk faults path disk'
unfolding open_exclusive
open_exclusive-IsFresh disk faults path disk' h = ground arith

open_exclusive_exists :
    (disk : Disk) (faults : Faults) (path : Str)
    → open_exclusive disk faults path ≡ already_exists
    → exists disk path ≡ true
unfolding open_exclusive
open_exclusive_exists disk faults path h = ground arith

not_failed :
    (disk : Disk) (faults : Faults) (path : Str)
    → faults.create path ≡ false
    → open_exclusive disk faults path ≡ failed
    → ⊥
unfolding open_exclusive
not_failed disk faults path h e = ground arith

-- The suffixes from `lo` on and below `hi` are taken.
abbrev pub Taken : Disk → Str → Str → ℕ → ℕ → Type 0
Taken disk dir filename lo hi =
    (k : ℕ) → lo ≤ k → k < hi → exists disk (path_at dir filename k) ≡ true

-- The outcome of a search from `lo`: the first free name, or, where no call fails by itself, no
-- free name up to the limit.
abbrev pub Outcome : Disk → Faults → Str → Str → ℕ → Created → Type 0
Outcome disk faults dir filename lo (file disk' path used) =
    IsFresh disk faults path disk'
    × (path ≡ path_at dir filename used)
    × (lo ≤ used)
    × (used ≤ max_unique_path_attempts)
    × Taken disk dir filename lo used
Outcome disk faults dir filename lo no_file =
    ((p : Str) → faults.create p ≡ false)
    → Taken disk dir filename lo (max_unique_path_attempts + 1)

Taken-step :
    (disk : Disk) (dir filename : Str) (lo hi : ℕ)
    → exists disk (path_at dir filename lo) ≡ true
    → Taken disk dir filename (suc lo) hi
    → Taken disk dir filename lo hi
Taken-step disk dir filename lo hi h t k p q = elim (ℕ_discrete lo k) [
  | yes e ↦ subst (λ j. exists disk (path_at dir filename j) ≡ true) e h
  | no n ↦ t k (omega arith) q
]

Outcome-step :
    (disk : Disk) (faults : Faults) (dir filename : Str) (lo : ℕ) (r : Created)
    → exists disk (path_at dir filename lo) ≡ true
    → Outcome disk faults dir filename (suc lo) r
    → Outcome disk faults dir filename lo r
Outcome-step disk faults dir filename lo (file disk' path used) h o =
    (o.0, o.1, omega arith, o.3, Taken-step disk dir filename lo used h o.4)
Outcome-step disk faults dir filename lo no_file h o =
    λ ok. Taken-step disk dir filename lo _ h (o ok)

opened-Outcome :
    (disk : Disk) (faults : Faults) (dir filename : Str) (lo : ℕ) (rest : Created)
    → lo ≤ max_unique_path_attempts
    → Outcome disk faults dir filename (suc lo) rest
    → (o : Opened) → open_exclusive disk faults (path_at dir filename lo) ≡ o
    → Outcome disk faults dir filename lo (elim o [
      | created disk' ↦ file disk' (path_at dir filename lo) lo
      | already_exists ↦ rest
      | failed ↦ no_file
    ])
opened-Outcome disk faults dir filename lo rest b r (created disk') e = (
  open_exclusive-IsFresh disk faults _ disk' e,
  refl,
  omega arith,
  b,
  λ k p q. absurd (omega arith),
)
opened-Outcome disk faults dir filename lo rest b r already_exists e =
    Outcome-step disk faults dir filename lo rest (open_exclusive_exists disk faults _ e) r
opened-Outcome disk faults dir filename lo rest b r failed e =
    λ ok. absurd (not_failed disk faults _ (ok _) e)

create_loop-Outcome :
    (disk : Disk) (faults : Faults) (dir filename : Str) (rounds i : ℕ)
    → rounds ≡ max_unique_path_attempts + 1 - suc i
    → Outcome disk faults dir filename
        (suc i)
        (create_loop disk faults dir (stem filename) (ext filename) rounds (suc i))
unfolding create_loop
create_loop-Outcome disk faults dir filename zero i h = λ ok k p q. absurd (omega arith)
create_loop-Outcome disk faults dir filename (suc rounds) i h =
    opened-Outcome disk faults dir filename (suc i) _ (omega arith)
      (create_loop-Outcome disk faults dir filename rounds (suc i) (omega arith)) _ refl

create_suffixed-Outcome :
    (disk : Disk) (faults : Faults) (dir filename : Str) (i : ℕ)
    → Outcome disk faults dir filename (suc i) (create_suffixed disk faults dir filename (suc i))
unfolding create_suffixed
create_suffixed-Outcome disk faults dir filename i =
    create_loop-Outcome disk faults dir filename _ i refl

pub create_unique_file_from-Outcome :
    (disk : Disk) (faults : Faults) (dir filename : Str) (start : ℕ)
    → Outcome disk faults dir filename start
        (create_unique_file_from disk faults dir filename start)
unfolding create_unique_file_from
create_unique_file_from-Outcome disk faults dir filename zero =
    opened-Outcome disk faults dir filename 0 _ (omega arith)
      (create_suffixed-Outcome disk faults dir filename 0) _ refl
create_unique_file_from-Outcome disk faults dir filename (suc start) =
    create_suffixed-Outcome disk faults dir filename start

-- What a call of the allocator leaves: an outcome from the hint on, and hints past what was used.
abbrev pub Allocated : List Hint → Disk → Faults → Str → Str → List Hint × Created → Type 0
Allocated hints disk faults dir filename (hints', file disk' path used) =
    Outcome disk faults dir filename (hint dir filename hints) (file disk' path used)
    × (hint dir filename hints' ≡ used + 1)
Allocated hints disk faults dir filename (hints', no_file) =
    Outcome disk faults dir filename (hint dir filename hints) no_file × (hints' ≡ hints)

hint-raise_hint :
    (dir filename : Str) (next : ℕ) (l : List Hint)
    → hint dir filename l < next
    → hint dir filename (raise_hint dir filename next l) ≡ next
unfolding hint raise_hint
hint-raise_hint dir filename next l h = ground arith

allocate :
    (hints : List Hint) (disk : Disk) (faults : Faults) (dir filename : Str) (r : Created)
    → Outcome disk faults dir filename (hint dir filename hints) r
    → Allocated hints disk faults dir filename (elim r [
      | file disk' path used ↦ (raise_hint dir filename (used + 1) hints, file disk' path used)
      | no_file ↦ (hints, no_file)
    ])
allocate hints disk faults dir filename (file disk' path used) o =
    (o, hint-raise_hint dir filename (used + 1) hints (omega (arith, o.2)))
allocate hints disk faults dir filename no_file o = (o, refl)

pub create-Allocated :
    (hints : List Hint) (disk : Disk) (faults : Faults) (dir filename : Str)
    → Allocated hints disk faults dir filename (create hints disk faults dir filename)
unfolding create
create-Allocated hints disk faults dir filename =
    allocate hints disk faults dir filename _
      (create_unique_file_from-Outcome disk faults dir filename (hint dir filename hints))

-- A call of the allocator that makes a file makes it new and empty, at the first free name of the
-- directory from the allocator's hint on: the name itself for 0, then the name with a counter, up to
-- 10000. Nothing else on the disk changes, and the next call for that name begins past it.
pub create-IsFirstFree :
    (hints hints' : List Hint) (disk disk' : Disk) (faults : Faults) (dir filename path : Str)
    (used : ℕ)
    → create hints disk faults dir filename ≡ (hints', file disk' path used)
    → IsFresh disk faults path disk'
      × (path ≡ path_at dir filename used)
      × (hint dir filename hints ≤ used)
      × (used ≤ max_unique_path_attempts)
      × Taken disk dir filename (hint dir filename hints) used
      × (hint dir filename hints' ≡ used + 1)
create-IsFirstFree hints hints' disk disk' faults dir filename path used h =
    let (o, n) =
      subst (Allocated hints disk faults dir filename) h
        (create-Allocated hints disk faults dir filename) in
    (o.0, o.1, o.2, o.3, o.4, n)

-- Where no creation fails by itself, a call of the allocator fails only if every name from its hint
-- on is taken, up to the counter 10000, and it leaves the hints alone.
create_exhausted :
    (hints hints' : List Hint) (disk : Disk) (faults : Faults) (dir filename : Str)
    → ((p : Str) → faults.create p ≡ false)
    → create hints disk faults dir filename ≡ (hints', no_file)
    → Taken disk dir filename (hint dir filename hints) (max_unique_path_attempts + 1)
      × (hints' ≡ hints)
create_exhausted hints hints' disk faults dir filename n h =
    let (o, e) =
      subst (Allocated hints disk faults dir filename) h
        (create-Allocated hints disk faults dir filename) in
    (o n, e)
