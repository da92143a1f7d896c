-- ===== src/Prelude/Map.antt =====
-- Go's `map[string]V` as an association list in which each key stands once. The order of the
-- list is the order in which a `range` over the map visits it.
use Prim.Native.Nat.{◌+◌, ◌≤◌}
use mathlib.Core.Bool.{Bool, true, false}
use mathlib.Core.List.{List, [], ◌∷◌}
use mathlib.Core.Logic.{◌≢◌}
use mathlib.Core.Option.{Option, none, some}
use mathlib.Core.Path.{◌≡◌, refl}
use native.Mathlib.Omega.{arith}
use pdf_to_epub.Prelude.Lists.{length}
use pdf_to_epub.Prelude.Tests.{Str, str_eq, if◌then◌else◌}

abbrev pub Map {ℓ} : Type ℓ → Type ℓ
Map V = List (Str × V)

module _ {ℓ} {V : Type ℓ} where
  unfoldable pub lookup : Str → Map V → Option V
  lookup k [] = none
  lookup k ((j, v) ∷ m) = if str_eq j k then some v else lookup k m

  unfoldable pub insert : Str → V → Map V → Map V
  insert k v [] = (k, v) ∷ []
  insert k v ((j, w) ∷ m) = if str_eq j k then (k, v) ∷ m else (j, w) ∷ insert k v m

  unfoldable pub delete : Str → Map V → Map V
  delete k [] = []
  delete k ((j, w) ∷ m) = if str_eq j k then delete k m else (j, w) ∷ delete k m

  abbrev pub has : Str → Map V → Bool
  has k m = elim (lookup k m) [ none ↦ false | some _ ↦ true ]

  -- Each key stands once.
  abbrev pub IsDistinct : Map V → Type ℓ
  IsDistinct [] = Unit
  IsDistinct ((k, _) ∷ m) = (lookup k m ≡ none) × IsDistinct m

  pub lookup-insert :
      (k j : Str) (v : V) (m : Map V)
      → lookup j (insert k v m) ≡ (if str_eq k j then some v else lookup j m)
  unfolding lookup insert
  lookup-insert k j v [] = refl
  lookup-insert k j v ((i, w) ∷ m) = ground (arith, lookup-insert k j v m)

  pub lookup-delete :
      (k j : Str) (m : Map V) → lookup j (delete k m) ≡ (if str_eq k j then none else lookup j m)
  unfolding lookup delete
  lookup-delete k j [] = ground arith
  lookup-delete k j ((i, w) ∷ m) = ground (arith, lookup-delete k j m)

  pub insert-IsDistinct : (k : Str) (v : V) (m : Map V) → IsDistinct m → IsDistinct (insert k v m)
  unfolding lookup insert
  insert-IsDistinct k v [] d = (refl, tt)
  insert-IsDistinct k v ((i, w) ∷ m) d =
      ground (arith, insert-IsDistinct k v m d.1, lookup-insert k i v m)

  pub delete-IsDistinct : (k : Str) (m : Map V) → IsDistinct m → IsDistinct (delete k m)
  unfolding lookup delete
  delete-IsDistinct k [] d = tt
  delete-IsDistinct k ((i, w) ∷ m) d =
      ground (arith, delete-IsDistinct k m d.1, lookup-delete k i m)

  -- A new key makes the map one longer; a known one keeps its length.
  pub length-insert :
      (k : Str) (v : V) (m : Map V)
      → length (insert k v m) ≡ (if has k m then length m else length m + 1)
  unfolding lookup insert
  length-insert k v [] = omega arith
  length-insert k v ((i, w) ∷ m) = ground (arith, length-insert k v m)

  pub length-delete-le : (k : Str) (m : Map V) → length (delete k m) ≤ length m
  unfolding delete
  length-delete-le k [] = omega arith
  length-delete-le k ((i, w) ∷ m) = ground (arith, length-delete-le k m)

  pub delete_absent : (k : Str) (m : Map V) → lookup k m ≡ none → delete k m ≡ m
  unfolding lookup delete
  delete_absent k [] h = refl
  delete_absent k ((i, w) ∷ m) h = ground (arith, delete_absent k m)

  pub lookup-delete_self : (k : Str) (m : Map V) → lookup k (delete k m) ≡ none
  lookup-delete_self k m = ground (arith, lookup-delete k k m)

  pub lookup-insert_self : (k : Str) (v : V) (m : Map V) → lookup k (insert k v m) ≡ some v
  lookup-insert_self k v m = ground (arith, lookup-insert k k v m)

  pub lookup-insert_ne :
      (k j : Str) (v : V) (m : Map V) → k ≢ j → lookup j (insert k v m) ≡ lookup j m
  lookup-insert_ne k j v m h = ground (arith, lookup-insert k j v m)

  pub lookup-delete_ne : (k j : Str) (m : Map V) → k ≢ j → lookup j (delete k m) ≡ lookup j m
  lookup-delete_ne k j m h = ground (arith, lookup-delete k j m)

  -- A second write of a key hides the first.
  pub insert-insert : (k : Str) (v w : V) (m : Map V) → insert k v (insert k w m) ≡ insert k v m
  unfolding insert
  insert-insert k v w [] = ground arith
  insert-insert k v w ((i, x) ∷ m) = ground (arith, insert-insert k v w m)

  -- The removal of a key that was new gives the map back.
  pub delete-insert_absent :
      (k : Str) (v : V) (m : Map V) → lookup k m ≡ none → delete k (insert k v m) ≡ m
  unfolding insert delete lookup
  delete-insert_absent k v [] h = ground arith
  delete-insert_absent k v ((i, x) ∷ m) h = ground (arith, delete-insert_absent k v m)
