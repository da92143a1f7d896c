-- ===== src/Routing.antt =====
-- koreader-plugin/internal/localsend/recv/routing.go: the save directory of a file by its extension.
-- The object of a configuration file is an association list; reading and parsing the file are left out.
pub mod SaveDir
use pdf_to_epub.Disk.{has_prefix}
use pdf_to_epub.FilePath.{dot, base, clean, is_abs}
use pdf_to_epub.Prelude.{
  ℕ, Bool, true, false, not, ◌||◌, Option, none, some, List, [], ◌∷◌, ◌==◌, if◌then◌else◌, Str,
  codes, str_eq, map, ltb, length,
}
use pdf_to_epub.Prelude.Map.{Map, lookup, insert}
use pdf_to_epub.Session.Body.{lower}

pub record ExtensionRouter : Type 0 where
  pub routes : Map Str
  pub default_dir : Str

unfoldable pub new_extension_router : Str → ExtensionRouter
new_extension_router default_dir = record { routes = []; default_dir = default_dir }

pub data RouteError : Type 0 where
  not_absolute traversal : RouteError

-- `strings.TrimPrefix(ext, ".")`
abbrev pub trim_dot : Str → Str
trim_dot [] = []
trim_dot (c ∷ s) = if c == dot then s else c ∷ s

-- `strings.Contains(dir, "..")`
unfoldable pub has_dots : Str → Bool
has_dots [] = false
has_dots (c ∷ s) = has_prefix (codes "..") (c ∷ s) || has_dots s

abbrev pub add_route : ExtensionRouter → Str → Str → ExtensionRouter
add_route r ext dir =
    if str_eq ext (codes "default")
    then record r { default_dir = clean dir }
    else record r { routes = insert ext (clean dir) r.routes }

-- The loop of `LoadFromFile`: an error leaves the routes that were added before it.
unfoldable pub load_config : ExtensionRouter → Map Str → ExtensionRouter × Option RouteError
load_config r [] = (r, none)
load_config r ((ext, dir) ∷ config) =
    let rest = load_config (add_route r (map lower (trim_dot ext)) dir) config in
    if not (is_abs dir)
    then (r, some not_absolute)
    else if has_dots dir
    then (r, some traversal)
    else rest

-- What is behind the first dot, and behind the last one.
unfoldable pub after_first_dot : Str → Option Str
after_first_dot [] = none
after_first_dot (c ∷ s) = if c == dot then some s else after_first_dot s

unfoldable pub after_last_dot : Str → Option Str
after_last_dot [] = none
after_last_dot (c ∷ s) = elim (after_last_dot s) [
  | some t ↦ some t
  | none ↦ if c == dot then some s else none
]

abbrev pub or_default : ExtensionRouter → Option Str → Str
or_default r none = r.default_dir
or_default r (some dir) = dir

-- The second look-up, by the last segment, or by the same extension if there is no other segment.
abbrev pub simple_dir : ExtensionRouter → Str → Option Str → Str
simple_dir r compound (some (c ∷ simple)) = or_default r (lookup (c ∷ simple) r.routes)
simple_dir r compound _ = or_default r (lookup compound r.routes)

abbrev pub compound_dir : ExtensionRouter → Str → Str
compound_dir r compound = elim (lookup compound r.routes) [
  | some dir ↦ dir
  | none ↦ simple_dir r compound (after_last_dot compound)
]

abbrev pub dir_behind : ExtensionRouter → Option Str → Str
dir_behind r (some (c ∷ s)) = compound_dir r (map lower (c ∷ s))
dir_behind r _ = r.default_dir

unfoldable pub get_save_dir : ExtensionRouter → Str → Str
get_save_dir r filename = dir_behind r (after_first_dot (base filename))

unfoldable pub has_routes : ExtensionRouter → Bool
has_routes r = ltb 0 (length r.routes)
