-- ===== src/Witnesses/Routes.antt =====
-- utils/misc.go and recv/routing.go at concrete names.
use pdf_to_epub.Extensions.{get_file_extension, is_extension_allowed}
use pdf_to_epub.FilePath.{contains, is_abs}
use pdf_to_epub.Prelude.{
  ℕ, Bool, true, false, Option, none, some, List, [], ◌∷◌, Str, codes, map, ◌≡◌, ◌≢◌, ◌↔◌, refl,
  Str-discrete, arith,
}
use pdf_to_epub.Prelude.Map.{Map, lookup}
use pdf_to_epub.Routing.{ExtensionRouter, get_save_dir, load_config}
use pdf_to_epub.Routing.SaveDir.{IsAbsolute}

abbrev allowed : List Str
allowed = codes "pdf" ∷ codes "epub" ∷ []

allowed-ne-nil : allowed ≢ []
allowed-ne-nil e = ground arith

pdf_allowed : is_extension_allowed (codes "a/b.PDF") allowed ≡ true
unfolding is_extension_allowed Str-discrete get_file_extension pdf_to_epub.Extensions.scan_back
    contains
pdf_allowed = refl

no_extension : get_file_extension (codes "a.b/c") ≡ []
unfolding get_file_extension pdf_to_epub.Extensions.scan_back
no_extension = refl

abbrev router : ExtensionRouter
router = record { routes = []; default_dir = codes "/m" }

router-IsAbsolute : IsAbsolute router
unfolding lookup
router-IsAbsolute = record { default_abs = refl; route_abs = λ ext dir h. absurd (ground arith) }

abbrev config : Map Str
config =
    (codes ".PDF", codes "/m/pdf")
    ∷ (codes "safari.pdf", codes "/m/web")
    ∷ (codes "x", codes "/../m")
    ∷ []

compound_routed : get_save_dir (load_config router config).0 (codes "a.safari.pdf") ≡ codes "/m/web"
unfolding get_save_dir pdf_to_epub.Routing.after_first_dot pdf_to_epub.FilePath.base
    pdf_to_epub.FilePath.last_component pdf_to_epub.FilePath.split Str-discrete lookup load_config
    pdf_to_epub.Routing.has_dots pdf_to_epub.Disk.has_prefix pdf_to_epub.Prelude.Map.insert
    pdf_to_epub.FilePath.clean pdf_to_epub.FilePath.join_slash pdf_to_epub.FilePath.resolve
    pdf_to_epub.FilePath.walk pdf_to_epub.FilePath.kind
compound_routed = refl

simple_routed : get_save_dir (load_config router config).0 (codes "a.b.pdf") ≡ codes "/m/pdf"
unfolding get_save_dir pdf_to_epub.Routing.after_first_dot pdf_to_epub.FilePath.base
    pdf_to_epub.FilePath.last_component pdf_to_epub.FilePath.split Str-discrete lookup load_config
    pdf_to_epub.Routing.has_dots pdf_to_epub.Disk.has_prefix pdf_to_epub.Prelude.Map.insert
    pdf_to_epub.Routing.after_last_dot pdf_to_epub.FilePath.clean pdf_to_epub.FilePath.join_slash
    pdf_to_epub.FilePath.resolve pdf_to_epub.FilePath.walk pdf_to_epub.FilePath.kind
simple_routed = refl
