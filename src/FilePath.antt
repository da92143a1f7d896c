-- ===== src/FilePath.antt =====
-- What the program uses of Go's `path/filepath` and `strings`, on Unix, where `FromSlash` and
-- `ToSlash` are the identity: Clean, Base, Dir, Join, Ext, IsAbs, Split and Contains. A path is its
-- bytes; `Clean` works on the list of the path's components.
pub mod Split
pub mod Resolve
use mathlib.Core.List.{reverse}
use pdf_to_epub.Prelude.{
  ℕ, Bool, true, false, ◌||◌, Option, none, some, List, [], ◌∷◌, ◌++◌, ◌==◌, if◌then◌else◌, Str,
  str_eq, Str-discrete, codes, ◌≡◌, refl,
}

abbrev pub slash : ℕ
slash = b'/'

abbrev pub dot : ℕ
dot = b'.'

-- "."
abbrev pub here : Str
here = dot ∷ []

-- ".."
abbrev pub up : Str
up = dot ∷ dot ∷ []

-- `strings.Contains(s, "/")` for a one-byte text.
unfoldable pub contains_byte : ℕ → Str → Bool
contains_byte b [] = false
contains_byte b (c ∷ s) = c == b || contains_byte b s

-- `slices.Contains`
unfoldable pub contains : List Str → Str → Bool
contains [] t = false
contains (s ∷ l) t = str_eq s t || contains l t

abbrev pub push_byte : ℕ → List Str → List Str
push_byte c [] = (c ∷ []) ∷ []
push_byte c (s ∷ l) = (c ∷ s) ∷ l

-- `strings.Split(s, sep)` for a one-byte separator.
unfoldable pub split : ℕ → Str → List Str
split sep [] = [] ∷ []
split sep (c ∷ s) = let l = split sep s in if c == sep then [] ∷ l else push_byte c l

-- `strings.Join(l, "/")`
unfoldable pub join_slash : List Str → Str
join_slash [] = []
join_slash (s ∷ []) = s
join_slash (s ∷ t ∷ l) = s ++ (slash ∷ join_slash (t ∷ l))

abbrev pub is_abs : Str → Bool
is_abs [] = false
is_abs (c ∷ s) = c == slash

-- What a component asks for: nothing (it is empty or "."), to go up, or to go into an entry.
pub data Kind : Type 0 where
  stay parent entry : Kind

unfoldable pub kind : Str → Kind
kind s = if str_eq s [] || str_eq s here then stay else if str_eq s up then parent else entry

-- `..` drops the component before it; at the root it goes nowhere, and at the start of a relative
-- path it stays.
abbrev pub go_up : Bool → List Str → List Str
go_up rooted [] = if rooted then [] else up ∷ []
go_up rooted (s ∷ st) = if str_eq s up then up ∷ s ∷ st else st

-- One component on the stack of those before it, the last one on top.
abbrev pub enter : Bool → List Str → Str → List Str
enter rooted st s = elim (kind s) [ stay ↦ st | parent ↦ go_up rooted st | entry ↦ s ∷ st ]

unfoldable pub walk : Bool → List Str → List Str → List Str
walk rooted st [] = st
walk rooted st (s ∷ l) = walk rooted (enter rooted st s) l

-- The components of the cleaned path, the last one first.
unfoldable pub resolve : Str → List Str
resolve s = walk (is_abs s) [] (split slash s)

abbrev pub or_here : Str → Str
or_here [] = here
or_here (c ∷ s) = c ∷ s

unfoldable pub clean : Str → Str
clean s = let t = join_slash (reverse (resolve s)) in if is_abs s then slash ∷ t else or_here t

-- The last component that is not empty.
unfoldable pub last_component : Option Str → List Str → Option Str
last_component found [] = found
last_component found (s ∷ l) = last_component (if str_eq s [] then found else some s) l

abbrev pub or_root : Option Str → Str
or_root none = slash ∷ []
or_root (some b) = b

unfoldable pub base : Str → Str
base [] = here
base (c ∷ s) = or_root (last_component none (split slash (c ∷ s)))

-- Everything up to the last slash, that slash included.
unfoldable pub up_to_last_slash : Str → Str
up_to_last_slash [] = []
up_to_last_slash (c ∷ s) =
    let rest = up_to_last_slash s in
    if contains_byte slash s then c ∷ rest else if c == slash then c ∷ [] else []

unfoldable pub dir : Str → Str
dir s = clean (up_to_last_slash s)

-- `filepath.Join` of two elements leaves out the empty ones.
unfoldable pub join : Str → Str → Str
join [] [] = []
join [] (c ∷ t) = clean (c ∷ t)
join (c ∷ s) [] = clean (c ∷ s)
join (c ∷ s) (d ∷ t) = clean ((c ∷ s) ++ (slash ∷ d ∷ t))

-- `filepath.Ext`: from the last dot on, in the last component.
unfoldable pub ext : Str → Str
ext [] = []
ext (c ∷ s) =
    let rest = ext s in
    if contains_byte dot s || contains_byte slash s then rest else if c == dot then c ∷ s else []

clean_dots : clean (codes "a//b/./../c/") ≡ codes "a/c"
unfolding clean resolve kind walk split join_slash Str-discrete
clean_dots = refl

clean_up : clean (codes "foo/../../../bar") ≡ codes "../../bar"
unfolding clean resolve kind walk split join_slash Str-discrete
clean_up = refl

clean_root : clean (codes "/../a") ≡ codes "/a"
unfolding clean resolve kind walk split join_slash Str-discrete
clean_root = refl

base_test : base (codes "/a/b.txt//") ≡ codes "b.txt"
unfolding base last_component split Str-discrete
base_test = refl

dir_test : dir (codes "a/b/c.txt") ≡ codes "a/b"
unfolding dir clean resolve kind walk split join_slash Str-discrete up_to_last_slash contains_byte
dir_test = refl

ext_test : (ext (codes "a.b/c.tar.gz") ≡ codes ".gz") × (ext (codes "a.b/c") ≡ [])
unfolding ext contains_byte
ext_test = (refl, refl)
