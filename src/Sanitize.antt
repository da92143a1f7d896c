-- ===== src/Sanitize.antt =====
-- koreader-plugin/internal/utils/paths.go, on Unix: the checks on the relative paths that a sender
-- names. `errors.New` values are constructors.
pub mod Safety
pub mod Verdict
use mathlib.Core.List.{reverse}
use pdf_to_epub.FilePath.{slash, here, up, contains, contains_byte, split, is_abs, clean, base}
use pdf_to_epub.Prelude.{
  ℕ, Bool, true, false, ◌||◌, ◌&&◌, List, [], ◌∷◌, if◌then◌else◌, Str, str_eq, ◌==◌,
}

pub data PathError : Type 0 where
  absolute_path path_traversal empty_path : PathError

pub data PathResult : Type 0 where
  ok : Str → PathResult
  err : PathError → PathResult

-- `strings.HasPrefix(cleaned, "../")`
abbrev pub starts_up : Str → Bool
starts_up (a ∷ b ∷ c ∷ s) = str_eq (a ∷ b ∷ []) up && c == slash
starts_up _ = false

unfoldable pub sanitize_relative_path : Str → PathResult
sanitize_relative_path filename =
    if str_eq filename []
    then err empty_path
    else let cleaned = clean filename in
      if str_eq cleaned [] || str_eq cleaned here
      then err empty_path
      else if is_abs cleaned
      then err absolute_path
      else if starts_up cleaned || str_eq cleaned up
      then err path_traversal
      else if contains (split slash cleaned) up
      then err path_traversal
      else ok cleaned

-- The results that no file can be named by.
abbrev pub is_unusable : Str → Bool
is_unusable s = str_eq s here || str_eq s (slash ∷ []) || str_eq s [] || str_eq s up

abbrev pub or_base : Str → PathResult → Str
or_base filename (ok p) = p
or_base filename (err e) = base filename

unfoldable pub sanitize_path_with_fallback : Str → PathResult
sanitize_path_with_fallback filename =
    let sanitized = or_base filename (sanitize_relative_path filename) in
    if is_unusable sanitized then err empty_path else ok sanitized

unfoldable pub is_folder_transfer : List Str → Bool
is_folder_transfer [] = false
is_folder_transfer (filename ∷ l) = contains_byte slash filename || is_folder_transfer l
