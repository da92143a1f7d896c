-- ===== src/Receiver/Filtering.antt =====
-- The files that the extension filter of recv/handlers.go leaves of a request.

use pdf_to_epub.Extensions.{is_extension_allowed, get_file_extension}
use pdf_to_epub.FilePath.{contains}
use pdf_to_epub.Prelude.{
  none, some, List, [], ◌∷◌, Str, ◌≡◌, refl, arith, true, ◌≢◌, ◌↔◌, Str-discrete,
}
use pdf_to_epub.Prelude.Map.{Map, lookup, IsDistinct}
use pdf_to_epub.Receiver.{FileReceiver}
use pdf_to_epub.Receiver.Handlers.{filter_files_by_extension, filtered}
use pdf_to_epub.Session.{FileMeta}

filtered-none :
    (allowed : List Str) (id : Str) (files : Map FileMeta)
    → lookup id files ≡ none
    → lookup id (filtered allowed files) ≡ none
unfolding filtered lookup
filtered-none allowed id [] h = refl
filtered-none allowed id ((j, meta) ∷ files) h = ground (arith, filtered-none allowed id files)

filtered-IsDistinct :
    (allowed : List Str) (files : Map FileMeta)
    → IsDistinct files
    → IsDistinct (filtered allowed files)
unfolding filtered
filtered-IsDistinct allowed [] d = tt
filtered-IsDistinct allowed ((j, meta) ∷ files) d =
    ground (arith, filtered-none allowed j files d.0, filtered-IsDistinct allowed files d.1)

pub filter-IsDistinct :
    (fr : FileReceiver) (files files' : Map FileMeta)
    → filter_files_by_extension fr files ≡ some files'
    → IsDistinct files
    → IsDistinct files'
unfolding filter_files_by_extension
filter-IsDistinct fr files files' h d =
    ground (arith, filtered-IsDistinct fr.allowed_extensions files d)

-- The extension of a name is on the list, or there is no list.
abbrev pub IsPermitted : List Str → Str → Type 0
IsPermitted allowed name =
    allowed ≢ []
    → (get_file_extension name ≢ []) × (contains allowed (get_file_extension name) ≡ true)

is_extension_allowed-IsPermitted :
    (allowed : List Str) (name : Str)
    → (is_extension_allowed name allowed ≡ true) ↔ IsPermitted allowed name
unfolding is_extension_allowed
is_extension_allowed-IsPermitted [] name = (λ h n. absurd (n refl), λ p. refl)
is_extension_allowed-IsPermitted (a ∷ allowed) name = (
  λ h n. (ground arith, ground arith),
  λ p. let (q, c) = p (λ e. ground arith) in ground (arith, q, c),
)

lookup-filtered :
    (allowed : List Str) (id : Str) (meta : FileMeta) (files : Map FileMeta)
    → IsDistinct files
    → (lookup id (filtered allowed files) ≡ some meta)
      ↔ ((lookup id files ≡ some meta) × (is_extension_allowed meta.filename allowed ≡ true))
unfolding filtered lookup
lookup-filtered allowed id meta [] d = (λ h. absurd (ground arith), λ h. absurd (ground arith))
lookup-filtered allowed id meta ((j, m) ∷ files) d =
    let (f, g) = lookup-filtered allowed id meta files d.1 in
    let n = filtered-none allowed j files d.0 in
    elim (Str-discrete j id) [
      | yes e ↦ (λ h. ground (arith, e, f, n, d.0), λ h. ground (arith, e, g, n, d.0))
      | no q ↦ (λ h. ground (arith, q, f), λ h. ground (arith, q, g))
    ]

-- The files of an accepted request: all that were asked for and are permitted.
abbrev pub Chosen : FileReceiver → Map FileMeta → Map FileMeta → Type 0
Chosen fr files files' =
    (id : Str) (meta : FileMeta)
    → (lookup id files' ≡ some meta)
      ↔ ((lookup id files ≡ some meta) × IsPermitted fr.allowed_extensions meta.filename)

filtered-nil : (files : Map FileMeta) → filtered [] files ≡ files
unfolding filtered is_extension_allowed
filtered-nil [] = refl
filtered-nil ((id, meta) ∷ files) = ground (arith, filtered-nil files)

filter-filtered :
    (fr : FileReceiver) (files files' : Map FileMeta)
    → filter_files_by_extension fr files ≡ some files'
    → filtered fr.allowed_extensions files ≡ files'
unfolding filter_files_by_extension
filter-filtered fr files files' h = ground (arith, filtered-nil files)

pub filter-Chosen :
    (fr : FileReceiver) (files files' : Map FileMeta)
    → IsDistinct files
    → filter_files_by_extension fr files ≡ some files'
    → Chosen fr files files'
filter-Chosen fr files files' d h id meta =
    let (f, g) = lookup-filtered fr.allowed_extensions id meta files d in
    let (p, q) = is_extension_allowed-IsPermitted fr.allowed_extensions meta.filename in
    let e = filter-filtered fr files files' h in
    (λ l. let (a, b) = f (rw e l) in (a, p b), λ (a, b). rw e at (g (a, q b)))
