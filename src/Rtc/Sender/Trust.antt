-- ===== src/Rtc/Sender/Trust.antt =====
-- The receiver's key in webrtc/transfer/sender.go, where one is expected.

use pdf_to_epub.Crypto.Token.{VerifyingKey, verify_token, verify_token_nonce, bad_structure}
use pdf_to_epub.FilePath.{split}
use pdf_to_epub.Prelude.{Bool, true, false, Option, none, some, [], Str, ◌≡◌, refl, ◌≢◌, arith}
use pdf_to_epub.Rtc.{is_some}
use pdf_to_epub.Rtc.Sender.Handshake.{is_expected}
use pdf_to_epub.Rtc.Sender.{
  SenderState, init, wait_nonce, wait_token, wait_pin, wait_required_pin, wait_file_accept,
  sending_files, done, SenderError, SenderOut, SenderEnv, RtcSender, send_json, fail_locked,
}

-- A key that is known accepts the token for the nonce.
abbrev pub Signs : SenderEnv → Str → Str → Option VerifyingKey → Type 0
Signs env token nonce none = Unit
Signs env token nonce (some key) = verify_token_nonce env.sha256 key token nonce ≡ none

abbrev pub HasKey : RtcSender → Type 0
HasKey s = is_some s.receiver_public_key ≡ true

-- There is a token, and the receiver's key, if it is known, accepts it for the nonces.
abbrev pub Verified : SenderEnv → RtcSender → Type 0
Verified env s =
    (s.receiver_token ≢ []) × Signs env s.receiver_token s.final_nonce s.receiver_public_key

-- What holds in a state: up to the answer to the sender's token there is a key, from then on the
-- token was verified, and both hold while a PIN is asked for.
abbrev pub Trusted : SenderEnv → SenderState → RtcSender → Type 0
Trusted env init s = HasKey s
Trusted env wait_nonce s = HasKey s
Trusted env wait_token s = HasKey s
Trusted env wait_pin s = HasKey s × Verified env s
Trusted env wait_required_pin s = HasKey s × Verified env s
Trusted env wait_file_accept s = Verified env s
Trusted env sending_files s = Verified env s
Trusted env done s = Unit

-- The key, the token and the nonces are the same.
abbrev pub SameKey : RtcSender → RtcSender → Type 0
SameKey s s' =
    (s'.receiver_public_key ≡ s.receiver_public_key)
    × (s'.receiver_token ≡ s.receiver_token)
    × (s'.final_nonce ≡ s.final_nonce)

abbrev pub is_early : SenderState → Bool
is_early init = true
is_early wait_nonce = true
is_early wait_token = true
is_early _ = false

abbrev pub is_listed : SenderState → Bool
is_listed wait_file_accept = true
is_listed sending_files = true
is_listed done = true
is_listed _ = false

-- No key accepts the empty token.
pub verify_empty :
    (sha256 : Str → Str) (key : VerifyingKey) (nonce : Str)
    → verify_token_nonce sha256 key [] nonce ≡ some bad_structure
unfolding verify_token_nonce verify_token split
verify_empty sha256 key nonce = refl

module _ (env : SenderEnv) where
  pub SameKey-Verified : (s s' : RtcSender) → SameKey s s' → Verified env s → Verified env s'
  SameKey-Verified s s' (k, t, n) (e, v) = (ground (arith, t, e), rw (k, t, n) v)

  pub both-Trusted :
      (state : SenderState) (s : RtcSender) → HasKey s → Verified env s → Trusted env state s
  both-Trusted init s k v = k
  both-Trusted wait_nonce s k v = k
  both-Trusted wait_token s k v = k
  both-Trusted wait_pin s k v = (k, v)
  both-Trusted wait_required_pin s k v = (k, v)
  both-Trusted wait_file_accept s k v = v
  both-Trusted sending_files s k v = v
  both-Trusted done s k v = tt

  pub early-Trusted :
      (state : SenderState) (s : RtcSender) → is_early state ≡ true → HasKey s → Trusted env state s
  early-Trusted init s e k = k
  early-Trusted wait_nonce s e k = k
  early-Trusted wait_token s e k = k
  early-Trusted _ s e k = absurd (ground (arith, e))

  pub listed-Trusted :
      (state : SenderState) (s : RtcSender)
      → is_listed state ≡ true
      → Verified env s
      → Trusted env state s
  listed-Trusted wait_file_accept s e v = v
  listed-Trusted sending_files s e v = v
  listed-Trusted done s e v = tt
  listed-Trusted _ s e v = absurd (ground (arith, e))

  pub SameKey-Trusted :
      (s s' : RtcSender) → HasKey s → Verified env s → SameKey s s' → Trusted env s'.state s'
  SameKey-Trusted s s' k v same =
      both-Trusted s'.state s' (ground (arith, k, same)) (SameKey-Verified s s' same v)

  pub expected-Verified :
      (key : Option VerifyingKey) (token nonce : Str)
      → is_expected env token nonce key ≡ true
      → is_some key ≡ true
      → (token ≢ []) × Signs env token nonce key
  unfolding is_expected
  expected-Verified none token nonce e k = absurd (ground (arith, k))
  expected-Verified (some key) token nonce e k =
      (λ empty. ground (arith, e, empty, verify_empty env.sha256 key nonce), ground (arith, e))

  pub send_json-SameKey : (o : SenderOut) (s : RtcSender) → SameKey s (send_json env o s).0
  unfolding send_json
  send_json-SameKey o s = ground arith

  pub fail_locked-SameKey : (e : SenderError) (s : RtcSender) → SameKey s (fail_locked e s)
  unfolding fail_locked
  fail_locked-SameKey e s = ground arith

  pub at_state :
      (state : SenderState) (s : RtcSender)
      → s.state ≡ state
      → Trusted env state s
      → Trusted env s.state s
  at_state state s e t = simp e t

  pub fail_locked-Trusted :
      (e : SenderError) (s : RtcSender) → Trusted env (fail_locked e s).state (fail_locked e s)
  unfolding fail_locked
  fail_locked-Trusted e s = at_state done (fail_locked e s) (ground arith) tt
