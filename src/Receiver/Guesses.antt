-- ===== src/Receiver/Guesses.antt =====
-- What a client can learn of the PIN of recv/recv.go, and how often it can guess.
use pdf_to_epub.Prelude.{
  ℕ, ◌+◌, ◌-◌, ◌≤◌, ◌<◌, true, false, Option, none, some, List, [], ◌∷◌, Str, length, map, All, ◌≡◌,
  ◌≢◌, ◌↔◌, ◌⊎◌, refl, arith, ap, ◌∙◌,
}
use pdf_to_epub.RateLimiter.{RateLimiter, is_blocked, record_attempt, get_attempts}
use pdf_to_epub.RateLimiter.Blocking.{
  record_all, is_blocked-record_all, record_attempt_config, get_attempts-record_attempt,
  record_all_config, get_attempts-record_all,
}
use pdf_to_epub.Receiver.{FileReceiver, validate_pin, is_pin_blocked, record_pin_attempt}

-- A request passes the PIN check exactly if no PIN is set, or the client is not blocked and gives the
-- PIN itself.
validate_pin_passes :
    (fr : FileReceiver) (ip : Str) (pin : Option Str) (now : ℕ)
    → ((validate_pin fr ip pin now).1 ≡ 0) ↔ (
        (fr.expected_pin ≡ [])
        ⊎ ((is_blocked fr.pin_rate_limiter ip now).1 ≡ false) × (pin ≡ some fr.expected_pin))
unfolding validate_pin is_pin_blocked
validate_pin_passes fr ip none now = ground arith
validate_pin_passes fr ip (some pin) now = ground arith

-- A guess: its time, and the PIN it tries.
pub record Guess : Type 0 where
  pub at : ℕ
  pub pin : Str

-- The receiver after the guesses of one client, first to last.
unfoldable pub guess_all : FileReceiver → Str → List Guess → FileReceiver
guess_all fr ip [] = fr
guess_all fr ip (g ∷ gs) = guess_all (validate_pin fr ip (some g.pin) g.at).0 ip gs

abbrev pub IsWrong : FileReceiver → Guess → Type 0
IsWrong fr g = g.pin ≢ fr.expected_pin

is_blocked_below :
    (rl : RateLimiter) (ip : Str) (now : ℕ)
    → get_attempts rl ip < rl.max_attempts
    → is_blocked rl ip now ≡ (rl, false)
unfolding is_blocked get_attempts
is_blocked_below rl ip now h = ground arith

wrong_guess :
    (fr : FileReceiver) (ip pin : Str) (now : ℕ)
    → fr.expected_pin ≢ []
    → pin ≢ fr.expected_pin
    → get_attempts fr.pin_rate_limiter ip < fr.pin_rate_limiter.max_attempts
    → (validate_pin fr ip (some pin) now).0
      ≡ record fr { pin_rate_limiter = (record_attempt fr.pin_rate_limiter ip now).0 }
unfolding validate_pin is_pin_blocked record_pin_attempt
wrong_guess fr ip pin now e w h = ground (arith, is_blocked_below fr.pin_rate_limiter ip now h)

abbrev limited_by : FileReceiver → RateLimiter → FileReceiver
limited_by fr rl = record fr { pin_rate_limiter = rl }

-- Wrong guesses up to the limit are all put on record.
guess_all-record_all :
    (fr : FileReceiver) (ip : Str) (gs : List Guess)
    → fr.expected_pin ≢ []
    → All (IsWrong fr) gs
    → get_attempts fr.pin_rate_limiter ip + length gs ≤ fr.pin_rate_limiter.max_attempts
    → guess_all fr ip gs ≡ limited_by fr (record_all fr.pin_rate_limiter ip (map (λ g. g.at) gs))
unfolding guess_all record_all
guess_all-record_all fr ip [] e w h = refl
guess_all-record_all fr ip (g ∷ gs) e w h =
    let rl = (record_attempt fr.pin_rate_limiter ip g.at).0 in
    let n = get_attempts-record_attempt fr.pin_rate_limiter ip g.at in
    let c = record_attempt_config fr.pin_rate_limiter ip g.at in
    ap (λ fr'. guess_all fr' ip gs) (wrong_guess fr ip g.pin g.at e w.0 (omega arith))
    ∙ guess_all-record_all (limited_by fr rl) ip gs e w.1 (omega (arith, n, c.0))

blocked_refused :
    (fr : FileReceiver) (ip : Str) (pin : Option Str) (now : ℕ)
    → fr.expected_pin ≢ []
    → (is_blocked fr.pin_rate_limiter ip now).1 ≡ true
    → (validate_pin fr ip pin now).1 ≡ 429
unfolding validate_pin is_pin_blocked
blocked_refused fr ip pin now e h = ground arith

length-times : (gs : List Guess) → length (map (λ g. g.at) gs) ≡ length gs
length-times [] = refl
length-times (g ∷ gs) = omega (arith, length-times gs)

-- Where a PIN is set, and a client's attempts on record, some wrong guesses and one more last wrong
-- guess make up the limit, the next request of the client within the block duration after the last
-- guess is refused with 429, whatever PIN it gives.
pub validate_pin_blocks :
    (fr : FileReceiver) (ip : Str) (gs : List Guess) (last : Guess) (pin : Option Str) (now : ℕ)
    → fr.expected_pin ≢ []
    → All (IsWrong fr) gs
    → IsWrong fr last
    → get_attempts fr.pin_rate_limiter ip + length gs + 1 ≡ fr.pin_rate_limiter.max_attempts
    → now - last.at ≤ fr.pin_rate_limiter.block_duration
    → (validate_pin (validate_pin (guess_all fr ip gs) ip (some last.pin) last.at).0 ip pin now).1
      ≡ 429
validate_pin_blocks fr ip gs last pin now e w wl n t =
    let ts = map (λ g. g.at) gs in
    let rl = record_all fr.pin_rate_limiter ip ts in
    let l = length-times gs in
    let b = is_blocked-record_all fr.pin_rate_limiter ip ts last.at now in
    let a = get_attempts-record_all fr.pin_rate_limiter ip ts in
    let c = record_all_config fr.pin_rate_limiter ip ts in
    let g = wrong_guess (limited_by fr rl) ip last.pin last.at e wl (omega (arith, l, a, c.0)) in
    rw (guess_all-record_all fr ip gs e w (omega arith), g)
      (blocked_refused (limited_by fr (record_attempt rl ip last.at).0) ip pin now e
        (ground (arith, b, l)))
