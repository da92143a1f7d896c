-- ===== src/Witnesses/Cryptos.antt =====
-- The crypto package with a signature that is the digest itself, and a store of devices.
use pdf_to_epub.Base64.{IsByte}
use pdf_to_epub.Crypto.Genuine.{
  Belongs, Signed, verify_token_nonce-generate_token, verify_token_nonce-Signed,
}
use pdf_to_epub.Crypto.Nonce.{validate_nonce, decode_nonce}
use pdf_to_epub.Crypto.Token.{
  VerifyingKey, SigningKey, generate_token, verify_token_nonce, verify_token_timestamp,
  check_timestamp, little_endian, extract_signature_method, ed25519_method,
}
use pdf_to_epub.Disk.{Disk, Faults}
use pdf_to_epub.Prelude.{
  ℕ, ◌+◌, ◌≤◌, Bool, true, false, Option, none, some, List, [], ◌∷◌, if◌then◌else◌, Str, codes,
  str_eq, Str-discrete, All, ◌≡◌, ◌≢◌, ◌↔◌, refl, arith,
}
use pdf_to_epub.Prelude.Map.{Map, lookup}
use pdf_to_epub.TrustedDevices.{
  TrustedDevice, TrustedDeviceStore, Env, get_fingerprint, add_device, save, file_path,
  new_trusted_device_store, evict_oldest, is_trusted, get_public_key, list_public_keys,
}
use pdf_to_epub.TrustedDevices.Eviction.{Inv, Kept, add_device-Kept}
use pdf_to_epub.TrustedDevices.Saving.{new_trusted_device_store-save}

abbrev nonce : Str
nonce = codes "0123456789abcdef"

abbrev hash : Str → Str
hash m = codes "digest"

abbrev key : VerifyingKey
key = record {
  verify = λ m sig. str_eq sig (codes "signature");
  to_der = some (codes "DER");
  signature_method = ed25519_method;
}

abbrev signer : SigningKey
signer = record {
  public_der = some (codes "DER");
  sign = λ m. codes "signature";
  public_key_pem = codes "PEM";
}

abbrev token : Str
token = codes "sha256.ZGlnZXN0.MDEyMzQ1Njc4OWFiY2RlZg.ed25519.c2lnbmF0dXJl"

nonce-IsByte : All IsByte nonce
nonce-IsByte = ground arith

short_nonce : decode_nonce (codes "MDEyMw") ≡ none
unfolding decode_nonce pdf_to_epub.Base64.decode pdf_to_epub.Base64.sextets
    pdf_to_epub.Base64.join_sextets validate_nonce
short_nonce = refl

key-Belongs : Belongs key signer
unfolding Str-discrete
key-Belongs = record { method = refl; same_der = refl; accepts = λ m. refl }

token_generated : generate_token hash signer nonce ≡ some token
unfolding generate_token pdf_to_epub.Base64.encode pdf_to_epub.Crypto.Token.create_digest_from_der
token_generated = refl

verify_token_nonce-generate_token_example : verify_token_nonce hash key token nonce ≡ none
verify_token_nonce-generate_token_example =
    verify_token_nonce-generate_token hash key signer nonce token key-Belongs (λ m. ground arith)
      (λ m. ground arith) nonce-IsByte token_generated

verify_token_nonce-Signed_example : Signed hash key token nonce
verify_token_nonce-Signed_example =
    verify_token_nonce-Signed hash key token nonce verify_token_nonce-generate_token_example

token_method : extract_signature_method token ≡ ed25519_method
unfolding extract_signature_method pdf_to_epub.FilePath.split
token_method = refl

abbrev salt : Str
salt = 100 ∷ 14 ∷ 0 ∷ 0 ∷ 0 ∷ 0 ∷ 0 ∷ 0 ∷ []

timestamp_accepted : check_timestamp 5000 salt ≡ none
unfolding check_timestamp little_endian
timestamp_accepted = refl

abbrev device : Str → ℕ → TrustedDevice
device public_key added_at = record {
  alias = codes "Kobo";
  public_key = public_key;
  added_at = added_at;
}

abbrev devices : Map TrustedDevice
devices = (codes "k1", device (codes "k1") 7) ∷ (codes "k2", device (codes "k2") 5) ∷ []

abbrev text : Str
text = codes "two devices"

abbrev no_faults : Faults
no_faults = record {
  stat = λ p. false;
  mkdir = λ p. false;
  create = λ p. false;
  remove = λ p. false;
}

abbrev env : Env
env = record {
  sha256_hex = λ s. s;
  to_json = λ m. text;
  from_json = λ s. if str_eq s text then some devices else none;
  faults = no_faults;
  read_fails = λ p. false;
  encode_fails = λ p. false;
  sync_fails = λ p. false;
  close_fails = λ p. false;
  rename_fails = λ p. false;
  left = λ s. [];
}

abbrev store : TrustedDeviceStore
store = record { config_dir = codes "/c"; devices = devices }

abbrev empty_disk : Disk
empty_disk = record { files = []; dirs = [] }

new_trusted_device_store-save_example :
    new_trusted_device_store env (save env store empty_disk).0 (codes "/c") ≡ (
      if (save env store empty_disk).1
      then some store
      else new_trusted_device_store env empty_disk (codes "/c"))
unfolding Str-discrete
new_trusted_device_store-save_example = new_trusted_device_store-save env store empty_disk refl refl

store_saved : (save env store empty_disk).1 ≡ true
unfolding save pdf_to_epub.Session.Save.mkdir_all lookup
store_saved = refl

devices-Inv : Inv devices
unfolding lookup Str-discrete
devices-Inv = record {
  distinct = (refl, (refl, tt));
  bounded = omega arith;
  valid = ((λ e. ground arith, omega arith), ((λ e. ground arith, omega arith), tt));
}

fingerprint-ne-nil : get_fingerprint env (codes "k3") ≢ []
unfolding get_fingerprint
fingerprint-ne-nil e = ground arith

fingerprint-ne-first : get_fingerprint env (codes "k3") ≢ codes "k1"
unfolding get_fingerprint
fingerprint-ne-first e = ground arith

add_device-Kept_example :
    Inv (add_device env devices (device (codes "k3") 9))
    × (lookup (codes "k3") (add_device env devices (device (codes "k3") 9))
        ≡ some (device (codes "k3") 9))
    × Kept devices (add_device env devices (device (codes "k3") 9)) (codes "k3") (codes "k1")
unfolding get_fingerprint
add_device-Kept_example =
    add_device-Kept env devices (device (codes "k3") 9) (codes "k1") devices-Inv fingerprint-ne-nil
      (omega arith) fingerprint-ne-first

second_is_oldest : evict_oldest devices ≡ (codes "k1", device (codes "k1") 7) ∷ []
unfolding evict_oldest Str-discrete pdf_to_epub.TrustedDevices.oldest pdf_to_epub.Prelude.Map.delete
second_is_oldest = refl

first_trusted : is_trusted env store (codes "k1") ≡ true
unfolding is_trusted lookup Str-discrete get_fingerprint
first_trusted = refl

first_key : get_public_key store (codes "k1") ≡ some (codes "k1")
unfolding get_public_key lookup Str-discrete
first_key = refl
