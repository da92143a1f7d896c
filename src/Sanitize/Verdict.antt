-- ===== src/Sanitize/Verdict.antt =====
-- The checks of paths.go against a walk over the sender's own components: how deep each prefix of
-- the path leads.
use mathlib.Core.List.{reverse, reverse-cons}
use mathlib.Core.Path.{subst}
use pdf_to_epub.FilePath.{
  slash, here, up, contains_byte, contains, split, join_slash, walk, resolve, clean, is_abs,
  or_here,
}
use pdf_to_epub.FilePath.Split.{IsNormal, IsSafe, split-append_slash}
use pdf_to_epub.FilePath.Resolve.{IsKept, clean-safe, dips, contains-walk-up, IsNormal-kind}
use pdf_to_epub.Prelude.{
  ℕ, zero, suc, true, false, ◌||◌, List, [], ◌∷◌, ◌++◌, ◌==◌, if◌then◌else◌, Str, str_eq,
  Str-discrete, ◌≡◌, ◌≢◌, refl, ap, All, arith, length, length-append, inl, inr, Bool-cases,
}
use pdf_to_epub.Sanitize.{
  ok, err, absolute_path, path_traversal, empty_path, sanitize_relative_path, starts_up,
}
use pdf_to_epub.Sanitize.Safety.{clean_relative, is_abs-clean, resolve-IsKept, split-or_here}

contains-append_up : (l m : List Str) → contains (l ++ m) up ≡ (contains l up || contains m up)
unfolding contains
contains-append_up [] m = refl
contains-append_up (s ∷ l) m = ground (arith, contains-append_up l m)

contains-reverse-up : (l : List Str) → contains (reverse l) up ≡ contains l up
unfolding contains
contains-reverse-up [] = refl
contains-reverse-up (s ∷ l) =
    rw (reverse-cons s l)
      (ground (arith, contains-append_up (reverse l) (s ∷ []), contains-reverse-up l))

ne_of_abs : (t : Str) → is_abs t ≡ true → (t ≢ []) × (t ≢ here)
ne_of_abs [] h = absurd (ground arith)
ne_of_abs (c ∷ t) h = ((λ e. ground arith), (λ e. ground arith))

or_here-ne_nil : (t : Str) → or_here t ≢ []
or_here-ne_nil [] = λ e. ground arith
or_here-ne_nil (c ∷ t) = λ e. ground arith

-- A cleaned path is "." only if nothing is left of it.
or_here-eq_here : (l : List Str) → All IsKept l → or_here (join_slash l) ≡ here → l ≡ []
unfolding join_slash
or_here-eq_here [] k h = refl
or_here-eq_here ([] ∷ l) k h = absurd (k.0.nonempty refl)
or_here-eq_here ((c ∷ s) ∷ []) k h = absurd (k.0.not_here h)
or_here-eq_here ((c ∷ s) ∷ t ∷ l) k h =
    absurd (omega (arith, ap length h, length-append s (slash ∷ join_slash (t ∷ l))))

is_abs-or_here : (l : List Str) → All IsKept l → is_abs (or_here (join_slash l)) ≡ false
unfolding join_slash contains_byte
is_abs-or_here [] k = refl
is_abs-or_here ([] ∷ l) k = absurd (k.0.nonempty refl)
is_abs-or_here ((c ∷ s) ∷ []) k = ground (arith, k.0.unsplit)
is_abs-or_here ((c ∷ s) ∷ t ∷ l) k = ground (arith, k.0.unsplit)

contains-split-up : (t : Str) → t ≡ up → contains (split slash t) up ≡ true
unfolding contains split Str-discrete
contains-split-up t e = rw e

starts_up-contains : (t : Str) → starts_up t ≡ true → contains (split slash t) up ≡ true
starts_up-contains (a ∷ b ∷ c ∷ t) h =
    let q : a ∷ b ∷ c ∷ t ≡ up ++ (slash ∷ t) = ground arith in
    rw (q, split-append_slash up t, contains-append_up (split slash up) (split slash t))
      (rw (contains-split-up up refl))
starts_up-contains _ h = absurd (ground arith)

resolve_relative : (s : Str) → is_abs s ≡ false → resolve s ≡ walk false [] (split slash s)
unfolding resolve
resolve_relative s a = rw a

contains-nil_up : contains [] up ≡ false
unfolding contains
contains-nil_up = refl

here_verdict : (s : Str) → is_abs s ≡ false → clean s ≡ here → dips 0 (split slash s) ≡ false
here_verdict s a h =
    let e = clean_relative s a in
    let n = or_here-eq_here _ (resolve-IsKept s) (rw e at h) in
    rw
      (
        ← contains-walk-up [] (split slash s) contains-nil_up,
        ← resolve_relative s a,
        ← contains-reverse-up (resolve s),
        n,
      )
      contains-nil_up

-- For a relative path that does not come to nothing, the last three tests are one.
relative_verdict :
    (s : Str)
    → is_abs s ≡ false
    → clean s ≢ here
    → (is_abs (clean s) ≡ false) × (contains (split slash (clean s)) up ≡ dips 0 (split slash s))
relative_verdict s a n =
    let e = clean_relative s a in
    let k = resolve-IsKept s in
    (
      rw e (is_abs-or_here _ k),
      rw (e, split-or_here _ k (rw e at n), contains-reverse-up, resolve_relative s a)
          (contains-walk-up [] (split slash s) contains-nil_up),
    )

verdict_named :
    (s : Str)
    → is_abs s ≡ false
    → clean s ≢ here
    → sanitize_relative_path s ≡ (
        if str_eq s []
        then err empty_path
        else if is_abs s
        then err absolute_path
        else if dips 0 (split slash s)
        then err path_traversal
        else if str_eq (clean s) here
        then err empty_path
        else ok (clean s))
unfolding sanitize_relative_path
verdict_named s a n = ground (
  arith,
  relative_verdict s a n,
  clean_relative s a,
  or_here-ne_nil (join_slash (reverse (resolve s))),
  starts_up-contains (clean s),
  contains-split-up (clean s),
)

-- `SanitizeRelativePath` refuses the empty path, an absolute path, a path that goes above its start
-- at any of its components, read from the left, and a path that cleans to `.`, with these errors in
-- this order; it returns the cleaned form of any other path.
pub sanitize_relative_path_verdict :
    (s : Str)
    → sanitize_relative_path s ≡ (
        if str_eq s []
        then err empty_path
        else if is_abs s
        then err absolute_path
        else if dips 0 (split slash s)
        then err path_traversal
        else if str_eq (clean s) here
        then err empty_path
        else ok (clean s))
unfolding sanitize_relative_path
sanitize_relative_path_verdict s = elim (Bool-cases (is_abs s)) [
  | inl a ↦ ground (arith, a, is_abs-clean s, ne_of_abs (clean s))
  | inr a ↦ elim (Str-discrete (clean s) here) [
    | yes h ↦ ground (arith, here_verdict s a h)
    | no n ↦ verdict_named s a n
  ]
]

IsSafe-here : ¬ IsSafe here
unfolding split
IsSafe-here h = h.0.not_here refl

IsSafe-relative : (p : Str) → IsSafe p → (p ≢ []) × (p ≢ here) × (is_abs p ≡ false)
unfolding split
IsSafe-relative [] h = absurd (h.0.nonempty refl)
IsSafe-relative (c ∷ p) h = elim (Bool-cases (c == slash)) [
  | inl t ↦ absurd ((rw t at h).0.nonempty refl)
  | inr t ↦ (λ e. ground arith, λ e. IsSafe-here (subst IsSafe e h), ground arith)
]

dips_normal : (d : ℕ) (l : List Str) → All IsNormal l → dips d l ≡ false
unfolding dips
dips_normal d [] h = refl
dips_normal zero (s ∷ l) h = ground (arith, IsNormal-kind s h.0, dips_normal 1 l h.1)
dips_normal (suc d) (s ∷ l) h = ground (arith, IsNormal-kind s h.0, dips_normal (suc (suc d)) l h.1)

-- A safe path is accepted by `SanitizeRelativePath`, and returned as it stands.
sanitize_relative_path_safe : (p : Str) → IsSafe p → sanitize_relative_path p ≡ ok p
sanitize_relative_path_safe p h =
    let (n, q, a) = IsSafe-relative p h in
    ground (
      arith,
      sanitize_relative_path_verdict p,
      n,
      q,
      a,
      dips_normal 0 (split slash p) h,
      clean-safe p h a,
    )
