-- ===== src/NonceCache/Trace.antt =====
-- Sequences of calls of nonce_cache.go.
use pdf_to_epub.NonceCache.{NonceCache, new_nonce_cache, put, get, delete_nonce}
use pdf_to_epub.NonceCache.Links.{entries}
use pdf_to_epub.NonceCache.Moves.{Inv}
use pdf_to_epub.NonceCache.Refine.{
  spec_put, spec_touch, get-refines, put-refines, delete_nonce-refines, put-capacity, get-capacity,
  delete-capacity, new-Inv,
}
use pdf_to_epub.Prelude.{ℕ, Option, List, [], ◌∷◌, ◌≡◌, refl, ap, ◌∙◌, Str}
use pdf_to_epub.Prelude.Map.{Map, lookup, delete}

-- A call, with its arguments.
pub data Call : Type 0 where
  put_call : Str → Str → Call
  get_call delete_call : Str → Call

-- The answers of `Get`, in order.
unfoldable pub answers : NonceCache → List Call → List (Option Str)
answers nc [] = []
answers nc (put_call id nonce ∷ calls) = answers (put nc id nonce) calls
answers nc (get_call id ∷ calls) = (get nc id).1 ∷ answers (get nc id).0 calls
answers nc (delete_call id ∷ calls) = answers (delete_nonce nc id) calls

-- The same calls on a list of nonces by client, most recent first.
unfoldable pub spec_answers : ℕ → Map Str → List Call → List (Option Str)
spec_answers capacity l [] = []
spec_answers capacity l (put_call id nonce ∷ calls) =
    spec_answers capacity (spec_put capacity id nonce l) calls
spec_answers capacity l (get_call id ∷ calls) =
    lookup id l ∷ spec_answers capacity (spec_touch id l) calls
spec_answers capacity l (delete_call id ∷ calls) = spec_answers capacity (delete id l) calls

answers-Inv :
    (nc : NonceCache) (l : Map Str) (calls : List Call)
    → Inv nc
    → entries nc.lru ≡ l
    → answers nc calls ≡ spec_answers nc.capacity l calls
unfolding answers spec_answers
answers-Inv nc l [] v e = refl
answers-Inv nc l (put_call id nonce ∷ calls) v e =
    let (w, r) = put-refines nc id nonce v in
    let k = answers-Inv (put nc id nonce) (spec_put nc.capacity id nonce l) calls w (rw e at r) in
    k ∙ ap (λ c. spec_answers c (spec_put nc.capacity id nonce l) calls) (put-capacity nc id nonce)
answers-Inv nc l (get_call id ∷ calls) v e =
    let (w, r, a) = get-refines nc id v in
    let k = answers-Inv (get nc id).0 (spec_touch id l) calls w (rw e at r) in
    let c = k ∙ ap (λ c. spec_answers c (spec_touch id l) calls) (get-capacity nc id) in
    rw (a, e, c) refl
answers-Inv nc l (delete_call id ∷ calls) v e =
    let (w, r) = delete_nonce-refines nc id v in
    let k = answers-Inv (delete_nonce nc id) (delete id l) calls w (rw e at r) in
    k ∙ ap (λ c. spec_answers c (delete id l) calls) (delete-capacity nc id)

-- Every `Get` in a sequence of calls on a new cache answers as a list of nonces by client would,
-- most recent first: a put or a get moves the client to the front, a put beyond the capacity drops
-- the client that was used least recently, and a delete removes its client.
pub answers-refines :
    (capacity : ℕ) (calls : List Call)
    → answers (new_nonce_cache capacity) calls ≡ spec_answers capacity [] calls
unfolding new_nonce_cache
answers-refines capacity calls =
    answers-Inv (new_nonce_cache capacity) [] calls (new-Inv capacity) refl
