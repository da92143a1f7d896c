-- ===== src/Extensions.antt =====
-- koreader-plugin/internal/utils/misc.go: the filter by file extension. `strings.ToLower` and
-- `strings.TrimSpace` are those on ASCII texts.
pub mod Filter
use mathlib.Core.List.{reverse}
use pdf_to_epub.FilePath.{slash, dot, contains, contains_byte}
use pdf_to_epub.Prelude.{
  ℕ, Bool, true, false, not, ◌||◌, ◌&&◌, List, [], ◌∷◌, ◌==◌, leb, if◌then◌else◌, Str, str_eq, map,
  ltb, length,
}
use pdf_to_epub.Session.Body.{lower}

abbrev pub backslash : ℕ
backslash = 92

-- The loop from the end of the name: the bytes still to read, last first, and those behind them.
unfoldable pub scan_back : Str → Str → Str
scan_back [] tail = []
scan_back (c ∷ s) tail =
    if c == dot
    then map lower tail
    else if c == slash || c == backslash
    then []
    else scan_back s (c ∷ tail)

unfoldable pub get_file_extension : Str → Str
get_file_extension filename = scan_back (reverse filename) []

unfoldable pub is_extension_allowed : Str → List Str → Bool
is_extension_allowed filename [] = true
is_extension_allowed filename (a ∷ allowed) =
    let ext = get_file_extension filename in
    if str_eq ext [] then false else contains (a ∷ allowed) ext
