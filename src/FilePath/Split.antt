-- ===== src/FilePath/Split.antt =====
-- `strings.Split` and `strings.Join` on slashes, and the components of a path.
use pdf_to_epub.Prelude.{
  ℕ, false, List, [], ◌∷◌, ◌++◌, ◌==◌, if◌then◌else◌, Str, ◌≡◌, ◌≢◌, refl, All, arith,
}
use pdf_to_epub.FilePath.{slash, here, up, contains_byte, push_byte, split, join_slash}

-- A component that names an entry of its directory.
pub record IsNormal (s : Str) : Type 0 where
  pub nonempty : s ≢ []
  pub not_here : s ≢ here
  pub not_up : s ≢ up

-- A relative path that stays below the directory it is joined to: it has a component, and each one
-- is a plain name.
abbrev pub IsSafe : Str → Type 0
IsSafe p = All IsNormal (split slash p)

abbrev pub Unsplit : Str → Type 0
Unsplit s = contains_byte slash s ≡ false

split-ne-nil : (s : Str) → (h : Str) × (t : List Str) × (split slash s ≡ h ∷ t)
unfolding split
split-ne-nil [] = ([], [], refl)
split-ne-nil (c ∷ s) =
    let (h, t, e) = split-ne-nil s in
    (if c == slash then [] else c ∷ h, if c == slash then h ∷ t else t, ground (arith, e))

-- A part of a split holds no separator.
pub split-Unsplit : (s : Str) → All Unsplit (split slash s)
unfolding split contains_byte
split-Unsplit [] = (refl, tt)
split-Unsplit (c ∷ s) =
    let (h, t, e) = split-ne-nil s in
    let ih : All Unsplit (split slash s) = split-Unsplit s in ground (arith, e, ih)

pub split_of_Unsplit : (s : Str) → Unsplit s → split slash s ≡ s ∷ []
unfolding split contains_byte
split_of_Unsplit [] h = refl
split_of_Unsplit (c ∷ s) h = ground (arith, split_of_Unsplit s)

pub split-append : (s t : Str) → Unsplit s → split slash (s ++ (slash ∷ t)) ≡ s ∷ split slash t
unfolding split contains_byte
split-append [] t h = refl
split-append (c ∷ s) t h = ground (arith, split-append s t)

pub split-append_slash :
    (s t : Str) → split slash (s ++ (slash ∷ t)) ≡ split slash s ++ split slash t
unfolding split
split-append_slash [] t = refl
split-append_slash (c ∷ s) t =
    let (h, r, e) = split-ne-nil s in ground (arith, e, split-append_slash s t)

-- Splitting a join gives the components back.
pub split-join_slash :
    (s : Str) (l : List Str) → All Unsplit (s ∷ l) → split slash (join_slash (s ∷ l)) ≡ s ∷ l
unfolding join_slash
split-join_slash s [] h = split_of_Unsplit s h.0
split-join_slash s (t ∷ l) h =
    ground (arith, split-append s (join_slash (t ∷ l)) h.0, split-join_slash t l h.1)

push-join_slash :
    (c : ℕ) (s : Str) (l : List Str) → join_slash (push_byte c (s ∷ l)) ≡ c ∷ join_slash (s ∷ l)
unfolding join_slash
push-join_slash c s [] = refl
push-join_slash c s (t ∷ l) = refl

-- Joining the parts of a split gives the path back.
pub join_slash-split : (s : Str) → join_slash (split slash s) ≡ s
unfolding split join_slash
join_slash-split [] = refl
join_slash-split (c ∷ s) =
    let (h, t, e) = split-ne-nil s in ground (arith, e, join_slash-split s, push-join_slash c h t)
