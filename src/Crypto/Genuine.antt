-- ===== src/Crypto/Genuine.antt =====
-- What the verification of crypto/token.go accepts.
use pdf_to_epub.Base64.{encode, decode, IsByte, decode-encode, encode-no_dot}
use pdf_to_epub.Crypto.Token.{
  VerifyingKey, SigningKey, generate_token, verify_token, verify_token_nonce, check_nonce,
  check_timestamp, create_digest_from_der, verify_parts, sha256_method, ed25519_method, token_text,
  little_endian, uint64_mod,
}
use pdf_to_epub.FilePath.{dot, split, contains_byte}
use pdf_to_epub.Prelude.{
  ℕ, ◌+◌, ◌≤◌, ◌<◌, true, false, none, some, List, [], ◌∷◌, ◌++◌, Str, length, ◌≡◌, ◌↔◌, inl, inr,
  refl, All, arith, Option-cases,
}

split-dot : (s t : Str) → contains_byte dot s ≡ false → split dot (s ++ (dot ∷ t)) ≡ s ∷ split dot t
unfolding split contains_byte
split-dot [] t h = refl
split-dot (c ∷ s) t h = ground (arith, split-dot s t)

split-no_dot : (s : Str) → contains_byte dot s ≡ false → split dot s ≡ s ∷ []
unfolding split contains_byte
split-no_dot [] h = refl
split-no_dot (c ∷ s) h = ground (arith, split-no_dot s)

split-token_text :
    (sha256 : Str → Str) (hash salt signature : Str)
    → contains_byte dot hash ≡ false
    → contains_byte dot salt ≡ false
    → contains_byte dot signature ≡ false
    → split dot (token_text sha256 hash salt signature)
      ≡ sha256_method ∷ hash ∷ salt ∷ ed25519_method ∷ signature ∷ []
unfolding contains_byte
split-token_text sha256 hash salt signature h s g =
    rw
      (
        split-dot sha256_method
            (hash ++ (dot ∷ salt ++ (dot ∷ ed25519_method ++ (dot ∷ signature)))) refl,
        split-dot hash (salt ++ (dot ∷ ed25519_method ++ (dot ∷ signature))) h,
        split-dot salt (ed25519_method ++ (dot ∷ signature)) s,
        split-dot ed25519_method signature refl,
        split-no_dot signature g,
      )
      refl

-- What it takes for a verifying key to belong to a signing key.
pub record Belongs (key : VerifyingKey) (signer : SigningKey) : Type 0 where
  pub method : key.signature_method ≡ ed25519_method
  pub same_der : key.to_der ≡ signer.public_der
  pub accepts : (m : Str) → key.verify m (signer.sign m) ≡ true

-- A token that a signing key generates for a nonce is accepted by the key that belongs to it, for
-- that nonce.
pub verify_token_nonce-generate_token :
    (sha256 : Str → Str) (key : VerifyingKey) (signer : SigningKey) (nonce token : Str)
    → Belongs key signer
    → ((m : Str) → All IsByte (sha256 m))
    → ((m : Str) → All IsByte (signer.sign m))
    → All IsByte nonce
    → generate_token sha256 signer nonce ≡ some token
    → verify_token_nonce sha256 key token nonce ≡ none
unfolding generate_token verify_token_nonce verify_token check_nonce create_digest_from_der
verify_token_nonce-generate_token sha256 key signer nonce token b hb sb nb g =
    elim (Option-cases signer.public_der) [
      | inl e ↦ absurd (ground (arith, e))
      | inr (der, e) ↦
          let digest = sha256 (der ++ nonce) in
          let t : token_text sha256 (encode digest) (encode nonce) (encode (signer.sign digest))
              ≡ token =
            ground (arith, e) in
          let s =
            split-token_text sha256 (encode digest) (encode nonce) (encode (signer.sign digest))
              (encode-no_dot digest) (encode-no_dot nonce) (encode-no_dot (signer.sign digest)) in
          ground (
            arith,
            e,
            t,
            s,
            b.method,
            b.same_der,
            b.accepts digest,
            decode-encode nonce nb,
            decode-encode digest (hb (der ++ nonce)),
            decode-encode (signer.sign digest) (sb digest),
          )
    ]

-- The signature that a token carries.
pub record Signed (sha256 : Str → Str) (key : VerifyingKey) (token nonce : Str) : Type 0 where
  pub hash : Str
  pub salt : Str
  pub signature : Str
  pub parts : split dot token ≡ sha256_method ∷ hash ∷ salt ∷ key.signature_method ∷ signature ∷ []
  pub salted : decode salt ≡ some nonce
  pub der : Str
  pub der_of : key.to_der ≡ some der
  pub sig : Str
  pub sig_of : decode signature ≡ some sig
  pub verified : key.verify (sha256 (der ++ nonce)) sig ≡ true

verify_parts-Signed :
    (sha256 : Str → Str) (key : VerifyingKey) (token nonce : Str) (l : List Str)
    → split dot token ≡ l
    → verify_parts sha256 key (check_nonce sha256 nonce) l ≡ none
    → Signed sha256 key token nonce
unfolding check_nonce create_digest_from_der
verify_parts-Signed sha256 key token nonce (m ∷ h ∷ s ∷ k ∷ g ∷ []) e v =
    elim (Option-cases key.to_der) [
      | inl q ↦ absurd (ground (arith, q))
      | inr (der, q) ↦ elim (Option-cases (decode g)) [
        | inl r ↦ absurd (ground (arith, r))
        | inr (sig, r) ↦ record {
          hash = h;
          salt = s;
          signature = g;
          parts = ground (arith, e);
          salted = ground (arith, q, r);
          der = der;
          der_of = q;
          sig = sig;
          sig_of = r;
          verified = ground (arith, q, r);
        }
      ]
    ]
verify_parts-Signed sha256 key token nonce [] e v = absurd (ground arith)
verify_parts-Signed sha256 key token nonce (m ∷ []) e v = absurd (ground arith)
verify_parts-Signed sha256 key token nonce (m ∷ h ∷ []) e v = absurd (ground arith)
verify_parts-Signed sha256 key token nonce (m ∷ h ∷ s ∷ []) e v = absurd (ground arith)
verify_parts-Signed sha256 key token nonce (m ∷ h ∷ s ∷ k ∷ []) e v = absurd (ground arith)
verify_parts-Signed sha256 key token nonce (m ∷ h ∷ s ∷ k ∷ g ∷ x ∷ l) e v = absurd (ground arith)

-- A token that is accepted for a nonce has five parts, names the key's signature method, carries that
-- very nonce as its salt, and a signature that the key accepts for the digest of the key and the nonce.
pub verify_token_nonce-Signed :
    (sha256 : Str → Str) (key : VerifyingKey) (token nonce : Str)
    → verify_token_nonce sha256 key token nonce ≡ none
    → Signed sha256 key token nonce
unfolding verify_token_nonce verify_token
verify_token_nonce-Signed sha256 key token nonce v =
    verify_parts-Signed sha256 key token nonce (split dot token) refl v

-- A timestamp salt of eight bytes is accepted exactly from the second it names to an hour later, where
-- the clock is past the first hour of 1970 and both times fit in 64 bits.
check_timestamp_iff :
    (now : ℕ) (salt : Str)
    → length salt ≡ 8
    → little_endian salt < uint64_mod
    → 3600 < now
    → now < uint64_mod
    → (check_timestamp now salt ≡ none)
      ↔ ((little_endian salt ≤ now) × (now ≤ little_endian salt + 3600))
unfolding check_timestamp
check_timestamp_iff now salt l s n m = ground arith
