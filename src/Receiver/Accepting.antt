-- ===== src/Receiver/Accepting.antt =====
-- What an accepted prepare-upload request of recv/handlers.go has passed.

use pdf_to_epub.RateLimiter.{is_blocked}
use pdf_to_epub.Prelude.{ℕ, false, Option, some, [], Str, ◌≡◌, ◌≢◌}
use pdf_to_epub.Prelude.Map.{Map}
use pdf_to_epub.Receiver.{FileReceiver}

-- The client is not kept out by the PIN: there is none, or it gave it and is not blocked.
abbrev pub MayEnter : FileReceiver → Str → Option Str → ℕ → Type 0
MayEnter fr ip pin now =
    fr.expected_pin ≢ []
    → (pin ≡ some fr.expected_pin) × ((is_blocked fr.pin_rate_limiter ip now).1 ≡ false)
