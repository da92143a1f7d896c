-- ===== src/Routing/SaveDir.antt =====
-- Which directories the routes of recv/routing.go lead to.
use pdf_to_epub.FilePath.{clean, is_abs}
use pdf_to_epub.Prelude.{
  true, Option, none, some, [], ◌∷◌, Str, codes, str_eq, map, ◌≡◌, inl, inr, arith, Option-cases,
  Bool-cases,
}
use pdf_to_epub.Prelude.Map.{Map, lookup, lookup-insert}
use pdf_to_epub.Routing.{
  ExtensionRouter, load_config, add_route, trim_dot, get_save_dir, dir_behind, compound_dir,
  simple_dir, or_default, after_last_dot, has_dots,
}
use pdf_to_epub.Sanitize.Safety.{is_abs-clean}
use pdf_to_epub.Session.Body.{lower}

-- Every directory of a router is absolute.
pub record IsAbsolute (r : ExtensionRouter) : Type 0 where
  pub default_abs : is_abs r.default_dir ≡ true
  pub route_abs : (ext dir : Str) → lookup ext r.routes ≡ some dir → is_abs dir ≡ true

add_route-IsAbsolute :
    (r : ExtensionRouter) (ext dir : Str)
    → is_abs dir ≡ true
    → IsAbsolute r
    → IsAbsolute (add_route r ext dir)
add_route-IsAbsolute r ext dir a v = elim (Bool-cases (str_eq ext (codes "default"))) [
  | inl t ↦
      rw t (record { default_abs = ground (arith, is_abs-clean dir, a); route_abs = v.route_abs })
  | inr f ↦ rw f (record {
    default_abs = v.default_abs;
    route_abs = λ e d h.
        ground
          (arith, lookup-insert ext e (clean dir) r.routes, is_abs-clean dir, a, v.route_abs e d);
  })
]

load_config-IsAbsolute :
    (r : ExtensionRouter) (config : Map Str) → IsAbsolute r → IsAbsolute (load_config r config).0
unfolding load_config
load_config-IsAbsolute r [] v = v
load_config-IsAbsolute r ((ext, dir) ∷ config) v = elim (Bool-cases (is_abs dir)) [
  | inr f ↦ rw f v
  | inl t ↦ elim (Bool-cases (has_dots dir)) [
    | inl d ↦ rw (t, d) v
    | inr d ↦
        rw (t, d)
          (load_config-IsAbsolute (add_route r (map lower (trim_dot ext)) dir) config
            (add_route-IsAbsolute r (map lower (trim_dot ext)) dir t v))
  ]
]

or_default-abs :
    (r : ExtensionRouter) (ext : Str)
    → IsAbsolute r
    → is_abs (or_default r (lookup ext r.routes)) ≡ true
or_default-abs r ext v = elim (Option-cases (lookup ext r.routes)) [
  | inl e ↦ rw e v.default_abs
  | inr (dir, e) ↦ rw e (v.route_abs ext dir e)
]

simple_dir-abs :
    (r : ExtensionRouter) (compound : Str) (last : Option Str)
    → IsAbsolute r
    → is_abs (simple_dir r compound last) ≡ true
simple_dir-abs r compound none v = or_default-abs r compound v
simple_dir-abs r compound (some []) v = or_default-abs r compound v
simple_dir-abs r compound (some (c ∷ s)) v = or_default-abs r (c ∷ s) v

compound_dir-abs :
    (r : ExtensionRouter) (compound : Str) → IsAbsolute r → is_abs (compound_dir r compound) ≡ true
compound_dir-abs r compound v = elim (Option-cases (lookup compound r.routes)) [
  | inl e ↦ rw (e, compound_dir) (simple_dir-abs r compound (after_last_dot compound) v)
  | inr (dir, e) ↦ rw (e, compound_dir) (v.route_abs compound dir e)
]

dir_behind-abs :
    (r : ExtensionRouter) (rest : Option Str) → IsAbsolute r → is_abs (dir_behind r rest) ≡ true
dir_behind-abs r none v = v.default_abs
dir_behind-abs r (some []) v = v.default_abs
dir_behind-abs r (some (c ∷ s)) v = compound_dir-abs r (map lower (c ∷ s)) v

-- Where the directories of a router are absolute, the directory it chooses for any file after a
-- configuration was loaded, completely or up to an error, is absolute.
get_save_dir-load_config :
    (r : ExtensionRouter) (config : Map Str) (filename : Str)
    → IsAbsolute r
    → is_abs (get_save_dir (load_config r config).0 filename) ≡ true
unfolding get_save_dir
get_save_dir-load_config r config filename v =
    dir_behind-abs (load_config r config).0 _ (load_config-IsAbsolute r config v)
