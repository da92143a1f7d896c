-- ===== src/Witnesses/Receivers.antt =====
-- recv/recv.go at a receiver with a PIN.
use pdf_to_epub.Prelude.{
  ℕ, Bool, true, false, Option, none, some, List, [], ◌∷◌, Str, codes, ◌≡◌, ◌≢◌, ◌↔◌, ◌⊎◌, refl,
  Str-discrete, arith,
}
use pdf_to_epub.Prelude.Int.{pos}
use pdf_to_epub.Prelude.Map.{Map, lookup}
use pdf_to_epub.Receiver.Handlers.{Answer}
use pdf_to_epub.Session.{FileMeta, pending, RecvSession, not_done}
use pdf_to_epub.RateLimiter.{is_blocked}
use pdf_to_epub.Receiver.{FileReceiver, validate_pin}
use pdf_to_epub.Receiver.Guesses.{Guess, guess_all, validate_pin_blocks}

abbrev ip : Str
ip = codes "10.0.0.2"

abbrev fr : FileReceiver
fr = record {
  expected_pin = codes "1234";
  pin_rate_limiter = record { attempts = []; max_attempts = 3; block_duration = 30 };
  sessman = record { sessions = [] };
  allowed_extensions = [];
  router = none;
  save_to_dir = codes "/m";
}

abbrev guess : ℕ → Guess
guess at = record { at = at; pin = codes "1" }

right_pin : (validate_pin fr ip (some (codes "1234")) 5).1 ≡ 0
unfolding validate_pin Str-discrete pdf_to_epub.Receiver.is_pin_blocked is_blocked
    pdf_to_epub.Prelude.Map.lookup
right_pin = refl

no_pin : (validate_pin fr ip none 5).1 ≡ 401
unfolding validate_pin Str-discrete pdf_to_epub.Receiver.is_pin_blocked is_blocked
    pdf_to_epub.Prelude.Map.lookup
no_pin = refl

pin-ne-nil : fr.expected_pin ≢ []
pin-ne-nil e = ground arith

pin-ne-guess : codes "1" ≢ fr.expected_pin
pin-ne-guess e = ground arith

validate_pin_blocks_example :
    (validate_pin
      (validate_pin (guess_all fr ip (guess 1 ∷ guess 2 ∷ [])) ip (some (codes "1")) 5).0
      ip
      (some (codes "1234"))
      35).1
    ≡ 429
unfolding pdf_to_epub.RateLimiter.get_attempts pdf_to_epub.Prelude.Map.lookup
validate_pin_blocks_example =
    validate_pin_blocks fr ip (guess 1 ∷ guess 2 ∷ []) (guess 5) (some (codes "1234")) 35 pin-ne-nil
      (pin-ne-guess, (pin-ne-guess, tt)) pin-ne-guess refl (omega arith)

abbrev files : Map FileMeta
files =
    (codes "f", record { id = codes "f"; filename = codes "b"; size = pos 2; checksum = [] }) ∷ []

abbrev uuid : ℕ → Str
uuid n = n ∷ []

abbrev nine : ℕ
nine = 9_000_000_000

abbrev sess : RecvSession
sess = record {
  files_count = pos 1;
  last_activity = 9;
  file_metas = files;
  file_tokens = (codes "f", 6 ∷ []) ∷ [];
  file_states = (codes "f", record { status = pending; attempts = 0; target_path = [] }) ∷ [];
  id = 5 ∷ [];
  client_ip = ip;
  started = true;
  folder_remap = not_done;
  folder_transfer = none;
  ensured_dirs = [];
  unique_files = [];
}

abbrev accepting : FileReceiver
accepting = record fr { sessman = record { sessions = (5 ∷ [], sess) ∷ [] } }
