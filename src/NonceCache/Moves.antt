-- ===== src/NonceCache/Moves.antt =====
-- The invariant of nonce_cache.go, and the list operations that its calls are made of.
use pdf_to_epub.Prelude.{ℕ, ◌≤◌, ◌≡◌, ◌∷◌, arith, Str, length, none, some}
use pdf_to_epub.Prelude.Map.{lookup, delete, lookup-delete}
use pdf_to_epub.NonceCache.{Element, NonceCache, remove}
use pdf_to_epub.NonceCache.Links.{
  addr_of, entries, IsLinked, Points, addr_of-Points, addr_of-remove, remove-IsLinked, deref-lt,
  length-remove, lookup-entries-none,
}

-- The map of pointers and the list agree, and the list is within the capacity.
pub record Inv (nc : NonceCache) : Type 0 where
  pub linked : IsLinked nc.next nc.lru
  pub agrees : (id : Str) → lookup id nc.cache ≡ addr_of id nc.lru
  pub bounded : length nc.lru ≤ nc.capacity

-- An element of a client moves to the front, perhaps with another nonce.
pub front-Inv :
    (nc : NonceCache) (id : Str) (a : ℕ) (e e' : Element)
    → Inv nc
    → lookup id nc.cache ≡ some a
    → Points id a nc.lru e
    → e'.addr ≡ a
    → e'.client_id ≡ id
    → Inv (record nc { lru = e' ∷ remove a nc.lru })
unfolding addr_of
front-Inv nc id a e e' v h p ea ei = record {
  linked = ground (
    arith,
    p.found,
    p.gone,
    deref-lt nc.next a nc.lru e v.linked,
    remove-IsLinked nc.next a nc.lru v.linked,
    addr_of-remove nc.next a id id nc.lru v.linked,
    v.agrees id,
  );
  agrees =
      λ j. ground (arith, v.agrees id, v.agrees j, addr_of-remove nc.next a id j nc.lru v.linked);
  bounded = ground (arith, p.found, length-remove a nc.lru e);
}

pub removed-Inv :
    (nc : NonceCache) (id : Str) (a : ℕ) (e : Element)
    → Inv nc
    → lookup id nc.cache ≡ some a
    → Points id a nc.lru e
    → Inv (record nc { lru = remove a nc.lru; cache = delete id nc.cache })
removed-Inv nc id a e v h p = record {
  linked = remove-IsLinked nc.next a nc.lru v.linked;
  agrees = λ j. ground (
    arith,
    v.agrees id,
    v.agrees j,
    addr_of-remove nc.next a id j nc.lru v.linked,
    lookup-delete id j nc.cache,
  );
  bounded = ground (arith, p.found, length-remove a nc.lru e);
}

pub points :
    (nc : NonceCache) (id : Str) (a : ℕ)
    → Inv nc
    → lookup id nc.cache ≡ some a
    → (e : Element) × Points id a nc.lru e
points nc id a v h = addr_of-Points nc.next a id nc.lru v.linked (ground (arith, v.agrees id))

pub absent :
    (nc : NonceCache) (id : Str)
    → Inv nc
    → lookup id nc.cache ≡ none
    → lookup id (entries nc.lru) ≡ none
absent nc id v h = lookup-entries-none id nc.lru (ground (arith, v.agrees id))
