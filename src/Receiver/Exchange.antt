-- ===== src/Receiver/Exchange.antt =====
-- What the exchange of nonces in recv/handlers.go leaves in the caches of the receiver.
use pdf_to_epub.Crypto.Nonce.{decode_nonce, encode_nonce, validate_nonce}
use pdf_to_epub.NonceCache.{NonceCache, put, get}
use pdf_to_epub.NonceCache.Links.{entries}
use pdf_to_epub.NonceCache.Moves.{Inv}
use pdf_to_epub.NonceCache.Refine.{spec_put, put-refines, get-refines, put-capacity}
use pdf_to_epub.Prelude.{
  ℕ, zero, suc, ◌≤◌, ◌∙◌, not, Option, none, some, Str, ◌≡◌, ◌⊎◌, inl, inr, refl, ap, arith,
  if_cases,
}
use pdf_to_epub.Prelude.Map.{Map, lookup}
use pdf_to_epub.Receiver.Nonces.{
  NonceCaches, with_nonce, NonceAnswer, refuse, answer, exchange_nonce, answer_nonce,
  nonce_exchange_handler,
}

lookup-spec_put :
    (capacity : ℕ) (id nonce : Str) (l : Map Str)
    → 1 ≤ capacity
    → lookup id (spec_put capacity id nonce l) ≡ some nonce
unfolding spec_put lookup
lookup-spec_put zero id nonce l h = absurd (omega arith)
lookup-spec_put (suc n) id nonce l h = ground arith

-- A cache in which there is room for an entry.
abbrev pub IsUsable : NonceCache → Type 0
IsUsable nc = Inv nc × (1 ≤ nc.capacity)

put-IsUsable : (nc : NonceCache) (id nonce : Str) → IsUsable nc → IsUsable (put nc id nonce)
put-IsUsable nc id nonce (v, c) = ((put-refines nc id nonce v).0, rw (put-capacity nc id nonce) c)

get-put :
    (nc : NonceCache) (id nonce : Str) → IsUsable nc → (get (put nc id nonce) id).1 ≡ some nonce
get-put nc id nonce (v, c) =
    let (w, e) = put-refines nc id nonce v in
    let (_, _, g) = get-refines (put nc id nonce) id w in
    g ∙ (ap (lookup id) e ∙ lookup-spec_put nc.capacity id nonce (entries nc.lru) c)

-- What an answer says of the caches: both nonces of an answer can be looked up, a refusal leaves
-- them, but for a nonce that was received where none could be drawn.
abbrev pub Exchanged : NonceCaches → Str → Option Str → Str → NonceCaches × NonceAnswer → Type 0
Exchanged caches ip drawn encoded (after, answer text) =
    IsUsable after.received
    × IsUsable after.generated
    × ((nonce : Str) × (decode_nonce encoded ≡ some nonce)
        × ((get after.received ip).1 ≡ some nonce))
    × ((new : Str) × (drawn ≡ some new)
        × ((get after.generated ip).1 ≡ some new)
        × (text ≡ encode_nonce new))
Exchanged caches ip drawn encoded (after, refuse code) =
    ((code ≡ 400) × (after ≡ caches))
    ⊎ ((code ≡ 500) × (drawn ≡ none) × (after.generated ≡ caches.generated))

answer_nonce-Exchanged :
    (caches : NonceCaches) (ip encoded nonce : Str) (drawn : Option Str)
    → IsUsable caches.received
    → IsUsable caches.generated
    → decode_nonce encoded ≡ some nonce
    → Exchanged caches ip drawn encoded
        (answer_nonce (record caches { received = put caches.received ip nonce }) ip drawn)
answer_nonce-Exchanged caches ip encoded nonce none r g d = inr (refl, refl, refl)
answer_nonce-Exchanged caches ip encoded nonce (some new) r g d = (
  put-IsUsable caches.received ip nonce r,
  put-IsUsable caches.generated ip new g,
  (nonce, d, get-put caches.received ip nonce r),
  (new, refl, get-put caches.generated ip new g, refl),
)

exchange_nonce-Exchanged :
    (caches : NonceCaches) (ip encoded : Str) (drawn decoded : Option Str)
    → IsUsable caches.received
    → IsUsable caches.generated
    → decode_nonce encoded ≡ decoded
    → Exchanged caches ip drawn encoded (exchange_nonce caches ip drawn decoded)
exchange_nonce-Exchanged caches ip encoded drawn none r g d = inl (refl, refl)
exchange_nonce-Exchanged caches ip encoded drawn (some nonce) r g d =
    if_cases (Exchanged caches ip drawn encoded) (not (validate_nonce nonce)) _ _
      (λ _. inl (refl, refl)) (λ _. answer_nonce-Exchanged caches ip encoded nonce drawn r g d)

-- At caches with room for an entry, a request with a nonce is answered with the nonce that was drawn,
-- encoded, and then a look-up of the client finds that nonce and the client's own, decoded, in
-- caches that still have room; or it is refused with 400, which changes nothing; or with 500, where
-- no nonce was drawn, and the nonces that were generated before are as they were.
nonce_exchange_handler-Exchanged :
    (caches : NonceCaches) (ip encoded : Str) (drawn : Option Str)
    → IsUsable caches.received
    → IsUsable caches.generated
    → Exchanged caches ip drawn encoded
        (nonce_exchange_handler caches ip drawn (with_nonce encoded))
unfolding nonce_exchange_handler
nonce_exchange_handler-Exchanged caches ip encoded drawn r g =
    exchange_nonce-Exchanged caches ip encoded drawn (decode_nonce encoded) r g refl
