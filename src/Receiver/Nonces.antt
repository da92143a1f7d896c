-- ===== src/Receiver/Nonces.antt =====
-- The exchange of nonces in koreader-plugin/internal/localsend/recv/handlers.go, with the two caches of
-- a receiver. The parsing of the body is an argument; so is the nonce that is drawn, or none.
use pdf_to_epub.Crypto.Nonce.{decode_nonce, encode_nonce, validate_nonce}
use pdf_to_epub.NonceCache.{NonceCache, new_nonce_cache, put}
use pdf_to_epub.Prelude.{ℕ, not, Option, none, some, Str, if◌then◌else◌}

pub record NonceCaches : Type 0 where
  pub received : NonceCache
  pub generated : NonceCache

abbrev pub new_nonce_caches : NonceCaches
new_nonce_caches = record { received = new_nonce_cache 200; generated = new_nonce_cache 200 }

pub data NonceReq : Type 0 where
  too_large malformed : NonceReq
  with_nonce : Str → NonceReq

-- A status, or the encoded nonce.
pub data NonceAnswer : Type 0 where
  refuse : ℕ → NonceAnswer
  answer : Str → NonceAnswer

abbrev pub answer_nonce : NonceCaches → Str → Option Str → NonceCaches × NonceAnswer
answer_nonce caches ip none = (caches, refuse 500)
answer_nonce caches ip (some new) =
    (record caches { generated = put caches.generated ip new }, answer (encode_nonce new))

abbrev pub exchange_nonce : NonceCaches → Str → Option Str → Option Str → NonceCaches × NonceAnswer
exchange_nonce caches ip drawn none = (caches, refuse 400)
exchange_nonce caches ip drawn (some nonce) =
    if not (validate_nonce nonce)
    then (caches, refuse 400)
    else answer_nonce (record caches { received = put caches.received ip nonce }) ip drawn

unfoldable pub nonce_exchange_handler :
    NonceCaches → Str → Option Str → NonceReq → NonceCaches × NonceAnswer
nonce_exchange_handler caches ip drawn too_large = (caches, refuse 413)
nonce_exchange_handler caches ip drawn malformed = (caches, refuse 400)
nonce_exchange_handler caches ip drawn (with_nonce encoded) =
    exchange_nonce caches ip drawn (decode_nonce encoded)
