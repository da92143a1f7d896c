-- ===== src/NonceCache/Links.antt =====
-- The list of nonce_cache.go and the pointers into it.
use pdf_to_epub.Prelude.{
  ℕ, suc, ◌+◌, ◌<◌, ◌≡◌, refl, List, [], ◌∷◌, arith, Str, length, none, some, Option, if◌then◌else◌,
  map, str_eq, Str-discrete, take, ap, zero,
}
use pdf_to_epub.Prelude.Map.{lookup, delete, Map, delete_absent}
use pdf_to_epub.NonceCache.{Element, deref, remove, back}

-- The pointer that the map should hold for a client.
unfoldable pub addr_of : Str → List Element → Option ℕ
addr_of id [] = none
addr_of id (e ∷ l) = if str_eq e.client_id id then some e.addr else addr_of id l

-- What the list stands for: the nonces by client, most recent first.
abbrev pub entries : List Element → Map Str
entries = map (λ e. (e.client_id, e.nonce))

-- No two elements share an address or a client, and no address is from the future.
abbrev pub IsLinked : ℕ → List Element → Type 0
IsLinked n [] = Unit
IsLinked n (e ∷ l) =
    (e.addr < n) × (deref e.addr l ≡ none) × (addr_of e.client_id l ≡ none) × IsLinked n l

pub IsLinked-mono : (n : ℕ) (l : List Element) → IsLinked n l → IsLinked (suc n) l
IsLinked-mono n [] h = tt
IsLinked-mono n (e ∷ l) h = (omega arith, h.1, h.2, IsLinked-mono n l h.3)

IsLinked-tail : (n : ℕ) (e : Element) (l : List Element) → IsLinked n (e ∷ l) → IsLinked n l
IsLinked-tail n e l h = h.3

pub deref-lt :
    (n a : ℕ) (l : List Element) (x : Element) → IsLinked n l → deref a l ≡ some x → a < n
unfolding deref
deref-lt n a [] x h p = absurd (ground arith)
deref-lt n a (e ∷ l) x h p = ground (arith, deref-lt n a l x h.3)

pub deref_fresh : (n : ℕ) (l : List Element) → IsLinked n l → deref n l ≡ none
unfolding deref
deref_fresh n [] h = refl
deref_fresh n (e ∷ l) h = ground (arith, deref_fresh n l h.3)

deref-remove_none : (a b : ℕ) (l : List Element) → deref b l ≡ none → deref b (remove a l) ≡ none
unfolding deref remove
deref-remove_none a b [] h = refl
deref-remove_none a b (e ∷ l) h = ground (arith, deref-remove_none a b l)

addr_of-remove_none :
    (a : ℕ) (id : Str) (l : List Element) → addr_of id l ≡ none → addr_of id (remove a l) ≡ none
unfolding addr_of remove
addr_of-remove_none a id [] h = refl
addr_of-remove_none a id (e ∷ l) h = ground (arith, addr_of-remove_none a id l)

pub remove-IsLinked : (n a : ℕ) (l : List Element) → IsLinked n l → IsLinked n (remove a l)
unfolding remove
remove-IsLinked n a [] h = tt
remove-IsLinked n a (e ∷ l) h = ground (
  arith,
  remove-IsLinked n a l h.3,
  deref-remove_none a e.addr l,
  addr_of-remove_none a e.client_id l,
)

-- What the pointer of a client leads to.
pub record Points (id : Str) (a : ℕ) (l : List Element) (e : Element) : Type 0 where
  pub found : deref a l ≡ some e
  pub same_addr : e.addr ≡ a
  pub same_client : e.client_id ≡ id
  pub value : lookup id (entries l) ≡ some e.nonce
  pub others : entries (remove a l) ≡ delete id (entries l)
  pub gone : deref a (remove a l) ≡ none

pub lookup-entries-none :
    (id : Str) (l : List Element) → addr_of id l ≡ none → lookup id (entries l) ≡ none
unfolding addr_of lookup
lookup-entries-none id [] h = refl
lookup-entries-none id (e ∷ l) h = ground (arith, lookup-entries-none id l)

pub addr_of-Points :
    (n a : ℕ) (id : Str) (l : List Element)
    → IsLinked n l
    → addr_of id l ≡ some a
    → (e : Element) × Points id a l e
unfolding addr_of deref remove lookup delete
addr_of-Points n a id [] h p = absurd (ground arith)
addr_of-Points n a id (e ∷ l) h p = elim (Str-discrete e.client_id id) [
  | yes q ↦ (
    e,
    record {
      found = ground arith;
      same_addr = ground arith;
      same_client = q;
      value = ground arith;
      others = ground (arith, delete_absent id (entries l), lookup-entries-none id l);
      gone = ground arith;
    },
  )
  | no q ↦
      let (x, r) = addr_of-Points n a id l (IsLinked-tail n e l h) (ground arith) in
      (
        x,
        record {
          found = ground (arith, r.found, r.same_addr);
          same_addr = r.same_addr;
          same_client = r.same_client;
          value = ground (arith, r.value);
          others = ground (arith, r.found, r.others);
          gone = ground (arith, r.found, r.gone);
        },
      )
]

addr_of-deref :
    (n a : ℕ) (id : Str) (l : List Element)
    → IsLinked n l
    → addr_of id l ≡ some a
    → (e : Element) × (deref a l ≡ some e)
addr_of-deref n a id l h p = let (e, r) = addr_of-Points n a id l h p in (e, r.found)

pub length-remove :
    (a : ℕ) (l : List Element) (e : Element)
    → deref a l ≡ some e
    → length (remove a l) + 1 ≡ length l
unfolding deref remove
length-remove a [] e h = absurd (ground arith)
length-remove a (x ∷ l) e h = ground (arith, length-remove a l e)

-- The map's pointers after a removal.
pub addr_of-remove :
    (n a : ℕ) (id j : Str) (l : List Element)
    → IsLinked n l
    → addr_of id l ≡ some a
    → addr_of j (remove a l) ≡ (if str_eq id j then none else addr_of j l)
unfolding addr_of remove
addr_of-remove n a id j [] h p = absurd (ground arith)
addr_of-remove n a id j (e ∷ l) h p =
    ground (arith, addr_of-remove n a id j l h.3, addr_of-deref n a id l h.3)

pub length-entries : (l : List Element) → length (entries l) ≡ length l
length-entries [] = refl
length-entries (x ∷ l) = ap suc (length-entries l)

-- The last element is a client's, and without it the first entries are left.
pub back-take :
    (n k : ℕ) (l : List Element)
    → IsLinked n l
    → length l ≡ suc k
    → (e : Element) × (back l ≡ some e)
      × (addr_of e.client_id l ≡ some e.addr)
      × (deref e.addr l ≡ some e)
      × (entries (remove e.addr l) ≡ take k (entries l))
unfolding back addr_of remove deref
back-take n k [] h p = absurd (omega arith)
back-take n zero (e ∷ []) h p = (e, refl, ground arith, ground arith, ground arith)
back-take n (suc k) (e ∷ []) h p = absurd (omega arith)
back-take n zero (e ∷ f ∷ l) h p = absurd (omega arith)
back-take n (suc k) (e ∷ f ∷ l) h p =
    let (x, b, a, d, r) = back-take n k (f ∷ l) (IsLinked-tail n e (f ∷ l) h) (omega arith) in
    (x, b, ground (arith, a), ground (arith, d), ground (arith, d, r))
