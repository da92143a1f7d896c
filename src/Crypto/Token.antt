-- ===== src/Crypto/Token.antt =====
-- koreader-plugin/internal/crypto/token.go: the tokens, `sha256.<hash>.<salt>.ed25519.<signature>`.
use pdf_to_epub.Base64.{encode, decode}
use pdf_to_epub.FilePath.{dot, split}
use pdf_to_epub.Prelude.{
  ℕ, ◌+◌, ◌-◌, ◌*◌, ◌%◌, ◌^◌, Bool, not, Option, none, some, List, [], ◌∷◌, ◌++◌, ◌==◌, ltb,
  if◌then◌else◌, Str, codes, str_eq, length,
}

-- The interface `VerifyingKey`: whether `Verify` accepts, `ToDER`, and `SignatureMethod`.
pub record VerifyingKey : Type 0 where
  pub verify : Str → Str → Bool
  pub to_der : Option Str
  pub signature_method : Str

-- A signing key: the encoding of its public key, if that succeeds, and `ed25519.Sign`.
pub record SigningKey : Type 0 where
  pub public_der : Option Str
  pub sign : Str → Str
  pub public_key_pem : Str

-- The refusals of `VerifyToken`, in their order, and those of the two checks on a salt.
pub data TokenError : Type 0 where
  bad_structure bad_hash_method bad_sign_method bad_salt_encoding : TokenError
  bad_salt_length expired nonce_mismatch : TokenError
  no_der bad_hash_encoding hash_mismatch bad_signature_encoding bad_signature : TokenError

abbrev pub sha256_method : Str
sha256_method = codes "sha256"

abbrev pub ed25519_method : Str
ed25519_method = codes "ed25519"

abbrev pub uint64_mod : ℕ
uint64_mod = 2 ^ 64

module _ (sha256 : Str → Str) where
  unfoldable pub create_digest_from_der : Str → Str → Str
  create_digest_from_der public_key_der salt = sha256 (public_key_der ++ salt)

  abbrev pub token_text : Str → Str → Str → Str
  token_text hash salt signature =
      sha256_method ++ (dot ∷ hash ++ (dot ∷ salt ++ (dot ∷ ed25519_method ++ (dot ∷ signature))))

  unfoldable pub generate_token : SigningKey → Str → Option Str
  generate_token key salt = elim key.public_der [
    | none ↦ none
    | some der ↦
        let digest = create_digest_from_der der salt in
        some (token_text (encode digest) (encode salt) (encode (key.sign digest)))
  ]

  -- From the decoded salt on.
  abbrev pub verify_salted : VerifyingKey → Str → Str → Str → Option TokenError
  verify_salted key salt hash signature = elim key.to_der [
    | none ↦ some no_der
    | some der ↦ elim (decode hash) [
      | none ↦ some bad_hash_encoding
      | some provided ↦
          if not (str_eq (create_digest_from_der der salt) provided)
          then some hash_mismatch
          else elim (decode signature) [
            | none ↦ some bad_signature_encoding
            | some sig ↦
                if key.verify (create_digest_from_der der salt) sig
                then none
                else some bad_signature
          ]
    ]
  ]

  abbrev pub verify_parts : VerifyingKey → (Str → Option TokenError) → List Str → Option TokenError
  verify_parts key validate_salt (hash_method ∷ hash ∷ salt64 ∷ sign_method ∷ signature ∷ []) =
      if not (str_eq hash_method sha256_method)
      then some bad_hash_method
      else if not (str_eq sign_method key.signature_method)
      then some bad_sign_method
      else elim (decode salt64) [
        | none ↦ some bad_salt_encoding
        | some salt ↦ elim (validate_salt salt) [
          | some e ↦ some e
          | none ↦ verify_salted key salt hash signature
        ]
      ]
  verify_parts key validate_salt _ = some bad_structure

  -- `VerifyToken`: `none` where the token is accepted.
  unfoldable pub verify_token : VerifyingKey → Str → (Str → Option TokenError) → Option TokenError
  verify_token key token validate_salt = verify_parts key validate_salt (split dot token)

  unfoldable pub check_nonce : Str → Str → Option TokenError
  check_nonce expected salt = if str_eq salt expected then none else some nonce_mismatch

  unfoldable pub verify_token_nonce : VerifyingKey → Str → Str → Option TokenError
  verify_token_nonce key token expected = verify_token key token (check_nonce expected)

-- `binary.LittleEndian.Uint64`
unfoldable pub little_endian : Str → ℕ
little_endian [] = 0
little_endian (b ∷ s) = b + 256 * little_endian s

-- The check of `VerifyTokenTimestamp`, where `now - timestamp` wraps as in uint64.
unfoldable pub check_timestamp : ℕ → Str → Option TokenError
check_timestamp now salt =
    if not (length salt == 8)
    then some bad_salt_length
    else if ltb 3600 ((now + uint64_mod - little_endian salt) % uint64_mod)
    then some expired
    else none

unfoldable pub verify_token_timestamp : (Str → Str) → VerifyingKey → Str → ℕ → Option TokenError
verify_token_timestamp sha256 key token now = verify_token sha256 key token (check_timestamp now)

unfoldable pub extract_signature_method : Str → Str
extract_signature_method token = elim (split dot token) [ _ ∷ _ ∷ _ ∷ method ∷ _ ↦ method | _ ↦ [] ]
