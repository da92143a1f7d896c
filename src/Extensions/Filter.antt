-- ===== src/Extensions/Filter.antt =====
-- Which names the extension filter of utils/misc.go lets through.
use mathlib.Core.List.{reverse, reverse-cons, reverse-append, reverse-reverse}
use pdf_to_epub.Extensions.{backslash, scan_back, get_file_extension, is_extension_allowed}
use pdf_to_epub.FilePath.{slash, dot, contains}
use pdf_to_epub.Prelude.{
  ℕ, true, not, ◌||◌, ◌&&◌, List, [], ◌∷◌, ◌++◌, ◌==◌, Str, str_eq, map, ◌≡◌, ◌≢◌, ◌↔◌, inl, inr,
  refl, sym, ap, ◌∙◌, arith, All, All-append, append_assoc, append-nil, Bool-cases,
}
use pdf_to_epub.Session.Body.{lower}

-- A byte that neither begins an extension nor ends a directory.
abbrev pub IsPlain : ℕ → Type 0
IsPlain c = (c ≢ dot) × (c ≢ slash) × (c ≢ backslash)

-- The name ends in a dot and the plain bytes `tail`.
abbrev pub HasTail : Str → Str → Type 0
HasTail filename tail = (front : Str) × (filename ≡ front ++ (dot ∷ tail)) × All IsPlain tail

scan_back-append :
    (s r tail : Str)
    → All IsPlain s
    → scan_back (s ++ (dot ∷ r)) tail ≡ map lower (reverse s ++ tail)
unfolding scan_back
scan_back-append [] r tail p = refl
scan_back-append (c ∷ s) r tail p =
    ground (arith, p.0.0, p.0.1, p.0.2, scan_back-append s r (c ∷ tail) p.1)
    ∙ ap (map lower) (
        sym (append_assoc (reverse s) (c ∷ []) tail) ∙ ap (λ l. l ++ tail) (sym (reverse-cons c s)))

reverse-snoc : (c : ℕ) (s tail : Str) → reverse (c ∷ s) ++ tail ≡ reverse s ++ (c ∷ tail)
reverse-snoc c s tail = rw (reverse-cons c s) (append_assoc (reverse s) (c ∷ []) tail)

-- An extension that is found is the lower case of the plain bytes behind a dot.
scan_back-HasTail :
    (s tail : Str)
    → All IsPlain tail
    → scan_back s tail ≢ []
    → (e : Str) × (scan_back s tail ≡ map lower e) × HasTail (reverse s ++ tail) e
unfolding scan_back
scan_back-HasTail [] tail p n = absurd (n refl)
scan_back-HasTail (c ∷ s) tail p n = elim (Bool-cases (c == dot)) [
  | inl t ↦ (
    tail,
    rw t refl,
    (reverse s, reverse-snoc c s tail ∙ ap (λ d. reverse s ++ (d ∷ tail)) (ground arith), p),
  )
  | inr f ↦ elim (Bool-cases (c == slash || c == backslash)) [
    | inl t ↦ absurd (n (rw (f, t) refl))
    | inr g ↦
        let (e, q, h) = scan_back-HasTail s (c ∷ tail) (ground (arith, p)) (λ z. n (rw (f, g) z)) in
        (e, rw (f, g) q, rw (reverse-snoc c s tail) h)
  ]
]

IsPlain-reverse : (s : Str) → All IsPlain s → All IsPlain (reverse s)
IsPlain-reverse [] p = tt
IsPlain-reverse (c ∷ s) p =
    rw (reverse-cons c s)
      (All-append IsPlain (reverse s) (c ∷ []) (IsPlain-reverse s p.1) (p.0, tt))

reverse_dotted : (front e : Str) → reverse (front ++ (dot ∷ e)) ≡ reverse e ++ (dot ∷ reverse front)
reverse_dotted front e = rw (reverse-append front (dot ∷ e)) (reverse-snoc dot e (reverse front))

get_file_extension-HasTail :
    (filename e : Str) → HasTail filename e → get_file_extension filename ≡ map lower e
unfolding get_file_extension
get_file_extension-HasTail filename e h =
    let (front, q, p) = h in
    rw (q, reverse_dotted front e)
      (scan_back-append (reverse e) (reverse front) [] (IsPlain-reverse e p)
        ∙ ap (map lower) (append-nil (reverse (reverse e)) ∙ reverse-reverse e))

get_file_extension_found :
    (filename : Str)
    → get_file_extension filename ≢ []
    → (e : Str) × (get_file_extension filename ≡ map lower e) × HasTail filename e
unfolding get_file_extension
get_file_extension_found filename n =
    let (e, q, h) = scan_back-HasTail (reverse filename) [] tt n in
    (e, q, rw (append-nil (reverse (reverse filename)), reverse-reverse filename) at h)

is_extension_allowed_eq :
    (filename : Str) (allowed : List Str)
    → allowed ≢ []
    → is_extension_allowed filename allowed ≡ (
        not (str_eq (get_file_extension filename) [])
        && contains allowed (get_file_extension filename))
unfolding is_extension_allowed
is_extension_allowed_eq filename [] n = absurd (n refl)
is_extension_allowed_eq filename (a ∷ allowed) n = ground arith

map-lower-ne : (e : Str) → e ≢ [] → map lower e ≢ []
map-lower-ne [] n = n
map-lower-ne (c ∷ e) n = λ z. ground arith

-- Where there is a list of extensions, a file is let through exactly if its name ends in a dot and
-- then at least one byte, none of them a dot, a slash or a backslash, which are an extension of the
-- list in lower case.
is_extension_allowed_iff :
    (filename : Str) (allowed : List Str)
    → allowed ≢ []
    → (is_extension_allowed filename allowed ≡ true)
      ↔ ((e : Str) × HasTail filename e × (e ≢ []) × (contains allowed (map lower e) ≡ true))
is_extension_allowed_iff filename allowed n = (
  λ h.
      let ext = get_file_extension filename in
      let a = is_extension_allowed_eq filename allowed n in
      let ne : ext ≢ [] = λ z. ground (arith, a, h, z) in
      let (e, q, t) = get_file_extension_found filename ne in
      (
        e,
        t,
        (λ z. ne (q ∙ ap (map lower) z)),
        (let c : contains allowed ext ≡ true = ground (arith, a, h) in rw q at c),
      ),
  λ w.
      let (e, t, ne, c) = w in
      let q = get_file_extension-HasTail filename e t in
      let m = map-lower-ne e ne in
      ground (arith, is_extension_allowed_eq filename allowed n, q, m, c),
)
