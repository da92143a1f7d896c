-- ===== src/Sanitize/Safety.antt =====
-- What the checks of paths.go let through.
use mathlib.Core.List.{reverse, reverse-cons}
use pdf_to_epub.FilePath.{
  slash, here, up, contains, split, join_slash, resolve, clean, is_abs, or_here, join, base,
  last_component, or_root,
}
use pdf_to_epub.FilePath.Split.{
  IsNormal, IsSafe, Unsplit, split-join_slash, split-Unsplit, split_of_Unsplit,
}
use pdf_to_epub.FilePath.Resolve.{IsKept, walk-IsKept, join-eq_inside}
use pdf_to_epub.Prelude.{
  true, false, Option, none, some, List, [], ◌∷◌, ◌++◌, if◌then◌else◌, Str, str_eq, Str-discrete,
  ◌≡◌, ◌≢◌, refl, sym, All, arith, All-append,
}
use pdf_to_epub.Sanitize.{
  PathResult, ok, err, sanitize_relative_path, sanitize_path_with_fallback, is_unusable, or_base,
}

All-reverse : (P : Str → Type 0) (l : List Str) → All P l → All P (reverse l)
All-reverse P [] h = tt
All-reverse P (s ∷ l) h =
    rw (reverse-cons s l) (All-append P (reverse l) (s ∷ []) (All-reverse P l h.1) (h.0, tt))

IsKept-IsNormal : (l : List Str) → All IsKept l → contains l up ≡ false → All IsNormal l
unfolding contains
IsKept-IsNormal [] k h = tt
IsKept-IsNormal (s ∷ l) k h = (
  record { nonempty = k.0.nonempty; not_here = k.0.not_here; not_up = λ e. ground arith },
  IsKept-IsNormal l k.1 (ground arith),
)

pub IsKept-Unsplit : (l : List Str) → All IsKept l → All Unsplit l
IsKept-Unsplit [] k = tt
IsKept-Unsplit (s ∷ l) k = (k.0.unsplit, IsKept-Unsplit l k.1)

-- The components of a cleaned path come back from its text.
pub split-or_here :
    (l : List Str)
    → All IsKept l
    → or_here (join_slash l) ≢ here
    → split slash (or_here (join_slash l)) ≡ l
unfolding join_slash
split-or_here [] k h = absurd (h refl)
split-or_here ([] ∷ l) k h = absurd (k.0.nonempty refl)
split-or_here ((c ∷ s) ∷ []) k h =
    unfold join_slash in split-join_slash (c ∷ s) [] (IsKept-Unsplit ((c ∷ s) ∷ []) k)
split-or_here ((c ∷ s) ∷ t ∷ l) k h =
    unfold join_slash in split-join_slash (c ∷ s) (t ∷ l) (IsKept-Unsplit ((c ∷ s) ∷ t ∷ l) k)

pub resolve-IsKept : (s : Str) → All IsKept (reverse (resolve s))
unfolding resolve
resolve-IsKept s =
    All-reverse IsKept _ (walk-IsKept (is_abs s) [] (split slash s) tt (split-Unsplit s))

pub is_abs-clean : (s : Str) → is_abs s ≡ true → is_abs (clean s) ≡ true
unfolding clean
is_abs-clean s h = rw h

pub clean_relative :
    (s : Str) → is_abs s ≡ false → clean s ≡ or_here (join_slash (reverse (resolve s)))
unfolding clean
clean_relative s h = rw h

clean-IsSafe :
    (s : Str)
    → is_abs s ≡ false
    → clean s ≢ here
    → contains (split slash (clean s)) up ≡ false
    → IsSafe (clean s)
clean-IsSafe s a n c =
    let e = clean_relative s a in
    let k = resolve-IsKept s in
    let q = split-or_here _ k (rw e at n) in rw (e, q) (IsKept-IsNormal _ k (rw (e, q) at c))

-- Every path that is accepted is the cleaned one and is safe.
pub sanitize_relative_path-IsSafe :
    (s p : Str) → sanitize_relative_path s ≡ ok p → IsSafe p × (p ≡ clean s)
unfolding sanitize_relative_path
sanitize_relative_path-IsSafe s p h =
    let e : ok (clean s) ≡ ok p = ground arith in
    let a : is_abs s ≡ false = ground (arith, is_abs-clean s) in
    let n : clean s ≢ here = λ q. ground arith in
    let c : contains (split slash (clean s)) up ≡ false = ground arith in
    let q : clean s ≡ p = ground arith in (rw q at (clean-IsSafe s a n c), sym q)

-- A component that is not empty, if there is one.
abbrev IsComponent : Option Str → Type 0
IsComponent none = Unit
IsComponent (some b) = Unsplit b × (b ≢ [])

last_component-IsComponent :
    (found : Option Str) (l : List Str)
    → IsComponent found
    → All Unsplit l
    → IsComponent (last_component found l)
unfolding last_component Str-discrete
last_component-IsComponent found [] h u = h
last_component-IsComponent found (s ∷ l) h u = elim (Str-discrete s []) [
  | yes e ↦ rw e (last_component-IsComponent found l h u.1)
  | no n ↦
      last_component-IsComponent (if str_eq s [] then found else some s) l
        (ground (arith, h, u.0, n)) u.1
]

IsSafe-of_component : (b : Str) → Unsplit b → b ≢ [] → is_unusable b ≡ false → IsSafe b
IsSafe-of_component b u n h =
    rw (split_of_Unsplit b u)
      (record { nonempty = n; not_here = λ e. ground arith; not_up = λ e. ground arith }, tt)

or_root-IsSafe :
    (o : Option Str) → IsComponent o → is_unusable (or_root o) ≡ false → IsSafe (or_root o)
or_root-IsSafe none k h = absurd (ground arith)
or_root-IsSafe (some b) k h = IsSafe-of_component b k.0 k.1 h

base-IsSafe : (s : Str) → is_unusable (base s) ≡ false → IsSafe (base s)
unfolding base
base-IsSafe [] h = absurd (ground arith)
base-IsSafe (c ∷ s) h =
    or_root-IsSafe _
      (last_component-IsComponent none (split slash (c ∷ s)) tt (split-Unsplit (c ∷ s))) h

or_base-IsSafe :
    (s : Str) (r : PathResult)
    → sanitize_relative_path s ≡ r
    → is_unusable (or_base s r) ≡ false
    → IsSafe (or_base s r)
or_base-IsSafe s (ok p) e h = (sanitize_relative_path-IsSafe s p e).0
or_base-IsSafe s (err x) e h = base-IsSafe s h

-- Every path that `SanitizePathWithFallback` accepts is safe: it has a component, and none of its
-- components is empty, `.` or `..`.
pub sanitize_path_with_fallback-IsSafe :
    (s p : Str) → sanitize_path_with_fallback s ≡ ok p → IsSafe p
unfolding sanitize_path_with_fallback
sanitize_path_with_fallback-IsSafe s p h =
    let q : or_base s (sanitize_relative_path s) ≡ p = ground arith in
    rw q at (or_base-IsSafe s (sanitize_relative_path s) refl (ground arith))

-- A path that `SanitizePathWithFallback` accepts, joined to an absolute directory, is the directory's
-- own components and then those of the path: an entry below the directory.
sanitize_path_with_fallback-join :
    (d s p : Str)
    → is_abs d ≡ true
    → sanitize_path_with_fallback s ≡ ok p
    → join d p ≡ slash ∷ join_slash (reverse (resolve d) ++ split slash p)
sanitize_path_with_fallback-join d s p a h =
    join-eq_inside d p a (sanitize_path_with_fallback-IsSafe s p h)
