-- ===== src/FilePath/Resolve.antt =====
-- The walk of `Clean` over the components of a path.
use mathlib.Core.List.{reverse, reverse-cons}
use mathlib.Core.Path.{subst}
use pdf_to_epub.Prelude.{
  ℕ, zero, suc, Bool, true, false, List, [], ◌∷◌, ◌++◌, Str, Str-discrete, ◌≡◌, ◌≢◌, ◌⊎◌, refl, sym,
  ap, All, arith, append_assoc, length, append-nil,
}
use pdf_to_epub.FilePath.{
  slash, here, up, contains_byte, contains, split, join_slash, walk, enter, kind, stay, parent,
  entry, go_up, resolve, clean, is_abs, join,
}
use pdf_to_epub.FilePath.Split.{IsNormal, IsSafe, Unsplit, split-append_slash, join_slash-split}

-- What stays on the stack: a name or `..`.
pub record IsKept (s : Str) : Type 0 where
  pub nonempty : s ≢ []
  pub not_here : s ≢ here
  pub unsplit : Unsplit s

kind_stay : (s : Str) → kind s ≡ stay → (s ≡ []) ⊎ (s ≡ here)
unfolding kind
kind_stay s h = ground arith

kind_parent : (s : Str) → kind s ≡ parent → s ≡ up
unfolding kind
kind_parent s h = ground arith

kind_entry : (s : Str) → kind s ≡ entry → IsNormal s
unfolding kind
kind_entry s h = record {
  nonempty = λ e. ground arith;
  not_here = λ e. ground arith;
  not_up = λ e. ground arith;
}

pub IsNormal-kind : (s : Str) → IsNormal s → kind s ≡ entry
unfolding kind
IsNormal-kind s n = ground (arith, n.nonempty, n.not_here, n.not_up)

pub walk-append : (r : Bool) (st l m : List Str) → walk r st (l ++ m) ≡ walk r (walk r st l) m
unfolding walk
walk-append r st [] m = refl
walk-append r st (s ∷ l) m = walk-append r (enter r st s) l m

enter-IsKept :
    (r : Bool) (st : List Str) (s : Str) → All IsKept st → Unsplit s → All IsKept (enter r st s)
unfolding contains_byte
enter-IsKept r [] s k u = ground (arith, kind_entry s)
enter-IsKept r (t ∷ st) s k u = ground (arith, kind_entry s)

pub walk-IsKept :
    (r : Bool) (st l : List Str) → All IsKept st → All Unsplit l → All IsKept (walk r st l)
unfolding walk
walk-IsKept r st [] k u = k
walk-IsKept r st (s ∷ l) k u = walk-IsKept r (enter r st s) l (enter-IsKept r st s k u.0) u.1

-- Plain names are all pushed.
pub walk_normal :
    (r : Bool) (st l : List Str) → All IsNormal l → reverse (walk r st l) ≡ reverse st ++ l
unfolding walk
walk_normal r st [] h = sym (append-nil (reverse st))
walk_normal r st (s ∷ l) h = ground (
  arith,
  IsNormal-kind s h.0,
  walk_normal r (s ∷ st) l h.1,
  reverse-cons s st,
  append_assoc (reverse st) (s ∷ []) l,
)

-- Whether a walk from depth `d` goes above where it began.
unfoldable pub dips : ℕ → List Str → Bool
dips d [] = false
dips zero (s ∷ l) = elim (kind s) [ stay ↦ dips 0 l | parent ↦ true | entry ↦ dips 1 l ]
dips (suc d) (s ∷ l) = elim (kind s) [
  | stay ↦ dips (suc d) l
  | parent ↦ dips d l
  | entry ↦ dips (suc (suc d)) l
]

contains-cons_up : (st : List Str) → contains (up ∷ st) up ≡ true
unfolding contains
contains-cons_up st = ground arith

contains-cons : (s : Str) (st : List Str) → contains st up ≡ true → contains (s ∷ st) up ≡ true
unfolding contains
contains-cons s st h = ground arith

contains-enter_parent :
    (s : Str) (st : List Str) → contains st up ≡ true → contains (go_up false st) up ≡ true
unfolding contains Str-discrete
contains-enter_parent s [] h = contains-cons_up []
contains-enter_parent s (t ∷ st) h = elim (Str-discrete t up) [
  | yes e ↦
      subst (λ x. contains (go_up false (x ∷ st)) up ≡ true) (sym e) (contains-cons_up (up ∷ st))
  | no n ↦ ground arith
]

-- `..` at the bottom of the stack is never dropped.
stuck_up : (st l : List Str) → contains st up ≡ true → contains (walk false st l) up ≡ true
unfolding walk
stuck_up st [] h = h
stuck_up st (s ∷ l) h = ground (
  arith,
  contains-enter_parent s st h,
  contains-cons s st h,
  stuck_up st l,
  stuck_up (s ∷ st) l,
  stuck_up (go_up false st) l,
)

pub contains-walk-up :
    (st l : List Str) → contains st up ≡ false → contains (walk false st l) up ≡ dips (length st) l
unfolding walk contains dips
contains-walk-up st [] h = h
contains-walk-up [] (s ∷ l) h =
    ground (
      arith,
      kind_entry s,
      contains-walk-up [] l,
      contains-walk-up (s ∷ []) l,
      stuck_up (up ∷ []) l,
    )
contains-walk-up (t ∷ st) (s ∷ l) h = ground (
  arith,
  kind_entry s,
  contains-walk-up (t ∷ st) l,
  contains-walk-up (s ∷ t ∷ st) l,
  contains-walk-up st l,
)

walk_normal_after :
    (r : Bool) (d p : Str)
    → IsSafe p
    → reverse (walk r [] (split slash (d ++ (slash ∷ p))))
      ≡ reverse (walk r [] (split slash d)) ++ split slash p
walk_normal_after r d p h =
    rw (split-append_slash d p, walk-append r [] (split slash d) (split slash p))
      (walk_normal r (walk r [] (split slash d)) (split slash p) h)

-- Joining a safe path to an absolute directory gives the directory's components, then those of
-- the path: the result is an entry below the directory.
pub join-eq_inside :
    (d p : Str)
    → is_abs d ≡ true
    → IsSafe p
    → join d p ≡ slash ∷ join_slash (reverse (resolve d) ++ split slash p)
unfolding join resolve clean
join-eq_inside [] p h s = absurd (ground arith)
join-eq_inside (c ∷ d) [] h s = absurd (unfold split in s.0.nonempty refl)
join-eq_inside (c ∷ d) (e ∷ p) h s =
    rw h (ap (λ l. slash ∷ join_slash l) (walk_normal_after true (c ∷ d) (e ∷ p) s))

-- A safe path is its own cleaned form.
pub clean-safe : (p : Str) → IsSafe p → is_abs p ≡ false → clean p ≡ p
unfolding clean resolve
clean-safe [] s h = absurd (unfold split in s.0.nonempty refl)
clean-safe (c ∷ p) s h =
    let e = walk_normal false [] (split slash (c ∷ p)) s in
    rw h (rw e (rw (join_slash-split (c ∷ p))))
