-- ===== src/Crypto/Nonce.antt =====
-- koreader-plugin/internal/crypto/nonce.go. The random source is a function that may fail.
use pdf_to_epub.Base64.{encode, decode, IsByte, decode-encode}
use pdf_to_epub.Prelude.{
  ℕ, Bool, ◌&&◌, Option, none, some, ◌++◌, leb, if◌then◌else◌, Str, length, ◌≡◌, All,
}

abbrev pub nonce_size : ℕ
nonce_size = 32

unfoldable pub validate_nonce : Str → Bool
validate_nonce nonce = leb 16 (length nonce) && leb (length nonce) 128

unfoldable pub validate_salt : Str → Bool
validate_salt salt = leb 8 (length salt) && leb (length salt) 128

unfoldable pub encode_nonce : Str → Str
encode_nonce nonce = encode nonce

unfoldable pub decode_nonce : Str → Option Str
decode_nonce encoded = elim (decode encoded) [
  | none ↦ none
  | some nonce ↦ if validate_nonce nonce then some nonce else none
]

unfoldable pub combine_nonces : Str → Str → Str
combine_nonces sender_nonce receiver_nonce = sender_nonce ++ receiver_nonce

-- A nonce of 16 to 128 bytes that is encoded for a message is decoded to the same nonce, and one of
-- another length is refused.
decode_nonce-encode_nonce :
    (nonce : Str)
    → All IsByte nonce
    → decode_nonce (encode_nonce nonce) ≡ (if validate_nonce nonce then some nonce else none)
unfolding decode_nonce encode_nonce
decode_nonce-encode_nonce nonce h = rw (decode-encode nonce h, decode_nonce)
