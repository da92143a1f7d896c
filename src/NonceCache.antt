-- ===== src/NonceCache.antt =====
-- koreader-plugin/internal/localsend/nonce_cache.go. `container/list` hands out pointers to its
-- elements, and the map of the cache stores these pointers: an element has an address, the map goes
-- from a client to an address, and `next` is the address of the next allocation. A nonce is its
-- bytes, and a copy of one is the same value.
pub mod Links
pub mod Moves
pub mod Refine
pub mod Trace
use pdf_to_epub.Prelude.{
  ℕ, suc, ◌+◌, Bool, true, false, Option, none, some, List, [], ◌∷◌, ◌==◌, ltb, if◌then◌else◌, Str,
  length,
}
use pdf_to_epub.Prelude.Map.{Map, lookup, insert, delete}

-- `*list.Element` with its `*cacheEntry`.
pub record Element : Type 0 where
  pub addr : ℕ
  pub client_id : Str
  pub nonce : Str

pub record NonceCache : Type 0 where
  pub capacity : ℕ
  pub cache : Map ℕ
  pub lru : List Element
  pub next : ℕ

unfoldable pub new_nonce_cache : ℕ → NonceCache
new_nonce_cache capacity = record { capacity = capacity; cache = []; lru = []; next = 0 }

-- The element behind a pointer.
unfoldable pub deref : ℕ → List Element → Option Element
deref a [] = none
deref a (e ∷ l) = if e.addr == a then some e else deref a l

-- `lru.Remove(elem)`
unfoldable pub remove : ℕ → List Element → List Element
remove a [] = []
remove a (e ∷ l) = if e.addr == a then l else e ∷ remove a l

-- `lru.MoveToFront(elem)`, and the element itself, with what the caller writes into it.
unfoldable pub move_to_front : ℕ → (Element → Element) → List Element → List Element
move_to_front a write l = elim (deref a l) [ none ↦ l | some e ↦ write e ∷ remove a l ]

-- `lru.Back()`
unfoldable pub back : List Element → Option Element
back [] = none
back (e ∷ []) = some e
back (e ∷ f ∷ l) = back (f ∷ l)

unfoldable pub evict_oldest : NonceCache → NonceCache
evict_oldest nc = elim (back nc.lru) [
  | none ↦ nc
  | some oldest ↦ record nc {
    lru = remove oldest.addr nc.lru;
    cache = delete oldest.client_id nc.cache;
  }
]

unfoldable pub add_entry : NonceCache → Str → Str → NonceCache
add_entry nc client_id nonce = record nc {
  lru = record { addr = nc.next; client_id = client_id; nonce = nonce } ∷ nc.lru;
  cache = insert client_id nc.next nc.cache;
  next = suc nc.next;
}

unfoldable pub put : NonceCache → Str → Str → NonceCache
put nc client_id nonce = elim (lookup client_id nc.cache) [
  | some a ↦ record nc { lru = move_to_front a (λ e. record e { nonce = nonce }) nc.lru }
  | none ↦
      let added = add_entry nc client_id nonce in
      if ltb added.capacity (length added.lru) then evict_oldest added else added
]

unfoldable pub get : NonceCache → Str → NonceCache × Option Str
get nc client_id = elim (lookup client_id nc.cache) [
  | none ↦ (nc, none)
  | some a ↦ (
    record nc { lru = move_to_front a (λ e. e) nc.lru },
    elim (deref a nc.lru) [ none ↦ none | some e ↦ some e.nonce ],
  )
]

unfoldable pub delete_nonce : NonceCache → Str → NonceCache
delete_nonce nc client_id = elim (lookup client_id nc.cache) [
  | none ↦ nc
  | some a ↦ record nc { lru = remove a nc.lru; cache = delete client_id nc.cache }
]
