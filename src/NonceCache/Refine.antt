-- ===== src/NonceCache/Refine.antt =====
-- The calls of nonce_cache.go against the calls on a list of nonces by client.
use pdf_to_epub.Prelude.{
  ℕ, suc, ◌≤◌, ◌≡◌, refl, ◌∷◌, arith, Str, length, none, some, if◌then◌else◌, take,
  take_of_length-le, Option-cases, Bool-cases, inl, inr, ltb, sym,
}
use pdf_to_epub.Prelude.Map.{lookup, delete, Map, delete_absent, lookup-insert, lookup-delete, has}
use pdf_to_epub.NonceCache.{
  NonceCache, put, get, delete_nonce, add_entry, evict_oldest, move_to_front, new_nonce_cache,
}
use pdf_to_epub.NonceCache.Links.{
  addr_of, entries, IsLinked, addr_of-remove, remove-IsLinked, IsLinked-mono, deref_fresh,
  length-remove, back-take, length-entries,
}
use pdf_to_epub.NonceCache.Moves.{Inv, front-Inv, removed-Inv, points, absent}

-- The specification: a list of nonces by client, most recent first.
unfoldable pub spec_put : ℕ → Str → Str → Map Str → Map Str
spec_put capacity id nonce l =
    if has id l then (id, nonce) ∷ delete id l else take capacity ((id, nonce) ∷ l)

unfoldable pub spec_touch : Str → Map Str → Map Str
spec_touch id l = elim (lookup id l) [ none ↦ l | some nonce ↦ (id, nonce) ∷ delete id l ]

pub get-refines :
    (nc : NonceCache) (id : Str)
    → Inv nc
    → Inv (get nc id).0
      × (entries (get nc id).0.lru ≡ spec_touch id (entries nc.lru))
      × ((get nc id).1 ≡ lookup id (entries nc.lru))
unfolding get spec_touch move_to_front
get-refines nc id v = elim (Option-cases (lookup id nc.cache)) [
  | inl e ↦ rw (e, get) (rw (absent nc id v e, spec_touch) (v, refl, refl))
  | inr (a, e) ↦
      let (x, p) = points nc id a v e in
      rw (e, get)
        (rw (p.found, p.value, move_to_front, get, spec_touch)
          (
            front-Inv nc id a x x v e p p.same_addr p.same_client,
            ground (arith, p.same_client, p.others),
            refl,
          ))
]

pub delete_nonce-refines :
    (nc : NonceCache) (id : Str)
    → Inv nc
    → Inv (delete_nonce nc id) × (entries (delete_nonce nc id).lru ≡ delete id (entries nc.lru))
unfolding delete_nonce
delete_nonce-refines nc id v = elim (Option-cases (lookup id nc.cache)) [
  | inl e ↦ rw (e, delete_nonce) (v, sym (delete_absent id _ (absent nc id v e)))
  | inr (a, e) ↦
      let (x, p) = points nc id a v e in
      rw (e, delete_nonce) (removed-Inv nc id a x v e p, p.others)
]

-- The invariant but for the capacity, between the insertion and the eviction.
add_entry-IsLinked :
    (nc : NonceCache) (id nonce : Str)
    → Inv nc
    → lookup id nc.cache ≡ none
    → IsLinked (add_entry nc id nonce).next (add_entry nc id nonce).lru
      × ((j : Str) → lookup j (add_entry nc id nonce).cache ≡ addr_of j (add_entry nc id nonce).lru)
unfolding add_entry addr_of
add_entry-IsLinked nc id nonce v h = (
  ground (
    arith,
    v.agrees id,
    deref_fresh nc.next nc.lru v.linked,
    IsLinked-mono nc.next nc.lru v.linked,
  ),
  λ j. ground (arith, v.agrees j, lookup-insert id j nc.next nc.cache),
)

evict_oldest-refines :
    (nc : NonceCache) (k : ℕ)
    → IsLinked nc.next nc.lru
    → ((j : Str) → lookup j nc.cache ≡ addr_of j nc.lru)
    → length nc.lru ≡ suc k
    → k ≤ nc.capacity
    → Inv (evict_oldest nc) × (entries (evict_oldest nc).lru ≡ take k (entries nc.lru))
unfolding evict_oldest
evict_oldest-refines nc k linked agrees p q =
    let (e, b, a, d, r) = back-take nc.next k nc.lru linked p in
    rw (b, evict_oldest)
      (
        record {
          linked = remove-IsLinked nc.next e.addr nc.lru linked;
          agrees = λ j. ground (
            arith,
            agrees j,
            a,
            addr_of-remove nc.next e.addr e.client_id j nc.lru linked a,
            lookup-delete e.client_id j nc.cache,
          );
          bounded = ground (arith, d, length-remove e.addr nc.lru e);
        },
        r,
      )

put-refines_new :
    (nc : NonceCache) (id nonce : Str)
    → Inv nc
    → lookup id nc.cache ≡ none
    → Inv (put nc id nonce)
      × (entries (put nc id nonce).lru ≡ take nc.capacity ((id, nonce) ∷ entries nc.lru))
unfolding put add_entry
put-refines_new nc id nonce v h =
    let (linked, agrees) = add_entry-IsLinked nc id nonce v h in
    elim (Bool-cases (ltb nc.capacity (suc (length nc.lru)))) [
      | inl t ↦
          rw (h, put)
            (rw t (
              evict_oldest-refines (add_entry nc id nonce) nc.capacity linked agrees
                (ground (arith, v.bounded)) (omega arith)))
      | inr t ↦
          rw (h, put)
            (rw t (
              record { linked = linked; agrees = agrees; bounded = ground arith },
              sym (take_of_length-le nc.capacity _ (ground (arith, length-entries nc.lru))),
            ))
    ]

pub put-refines :
    (nc : NonceCache) (id nonce : Str)
    → Inv nc
    → Inv (put nc id nonce)
      × (entries (put nc id nonce).lru ≡ spec_put nc.capacity id nonce (entries nc.lru))
unfolding put spec_put move_to_front
put-refines nc id nonce v = elim (Option-cases (lookup id nc.cache)) [
  | inl e ↦ let (i, r) = put-refines_new nc id nonce v e in (i, ground (arith, r, absent nc id v e))
  | inr (a, e) ↦
      let (x, p) = points nc id a v e in
      rw (e, put)
        (rw (p.found, move_to_front, put)
          (
            front-Inv nc id a x (record x { nonce = nonce }) v e p p.same_addr p.same_client,
            ground (arith, p.value, p.same_client, p.others),
          ))
]

pub new-Inv : (capacity : ℕ) → Inv (new_nonce_cache capacity)
unfolding new_nonce_cache addr_of lookup
new-Inv capacity = record { linked = ground arith; agrees = λ id. refl; bounded = omega arith }

pub put-capacity : (nc : NonceCache) (id nonce : Str) → (put nc id nonce).capacity ≡ nc.capacity
unfolding put add_entry evict_oldest
put-capacity nc id nonce = ground arith

pub get-capacity : (nc : NonceCache) (id : Str) → (get nc id).0.capacity ≡ nc.capacity
unfolding get
get-capacity nc id = ground arith

pub delete-capacity : (nc : NonceCache) (id : Str) → (delete_nonce nc id).capacity ≡ nc.capacity
unfolding delete_nonce
delete-capacity nc id = ground arith
