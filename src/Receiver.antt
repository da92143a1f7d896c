-- ===== src/Receiver.antt =====
-- koreader-plugin/internal/localsend/recv/recv.go: the PIN check of the HTTP receiver, and the cancel
-- handler of handlers.go. The address of a request and the clock are arguments; a PIN that the query
-- does not have is `none`.
pub mod Guesses
pub mod Handlers
pub mod Filtering
pub mod Accepting
pub mod Uploading
pub mod Uploaded
pub mod Nonces
pub mod Exchange
use pdf_to_epub.Routing.{ExtensionRouter}
use pdf_to_epub.Errors.{TransferError, status, max_pin_attempts, pin_block_duration}
use pdf_to_epub.Manager.{RecvSessManager, new_recv_sess_manager, kill_session_for_client}
use pdf_to_epub.Prelude.{
  List, [], ℕ, Bool, true, false, not, Option, none, some, List, [], ◌∷◌, if◌then◌else◌, Str,
  str_eq,
}
use pdf_to_epub.RateLimiter.{
  RateLimiter, new_rate_limiter, is_blocked, record_attempt, clear, cleanup_expired,
}

pub record FileReceiver : Type 0 where
  pub expected_pin : Str
  pub pin_rate_limiter : RateLimiter
  pub sessman : RecvSessManager
  pub allowed_extensions : List Str
  pub router : Option ExtensionRouter
  pub save_to_dir : Str

unfoldable pub new_file_receiver : Str → FileReceiver
new_file_receiver save_to_dir = record {
  expected_pin = [];
  pin_rate_limiter = new_rate_limiter max_pin_attempts pin_block_duration;
  sessman = new_recv_sess_manager;
  allowed_extensions = [];
  router = none;
  save_to_dir = save_to_dir;
}

unfoldable pub set_pin : FileReceiver → Str → FileReceiver
set_pin fr pin = record fr { expected_pin = pin }

unfoldable pub is_pin_blocked : FileReceiver → Str → ℕ → FileReceiver × Bool
is_pin_blocked fr ip now =
    let (rl, blocked) = is_blocked fr.pin_rate_limiter ip now in
    (record fr { pin_rate_limiter = rl }, blocked)

unfoldable pub record_pin_attempt : FileReceiver → Str → ℕ → FileReceiver
record_pin_attempt fr ip now = record fr {
  pin_rate_limiter = (record_attempt fr.pin_rate_limiter ip now).0;
}

unfoldable pub clear_pin_attempts : FileReceiver → Str → FileReceiver
clear_pin_attempts fr ip = record fr { pin_rate_limiter = clear fr.pin_rate_limiter ip }

unfoldable pub cleanup_expired_pin_attempts : FileReceiver → ℕ → FileReceiver
cleanup_expired_pin_attempts fr now = record fr {
  pin_rate_limiter = (cleanup_expired fr.pin_rate_limiter now).0;
}

-- The answer to a PIN of a client that is not blocked.
abbrev pub check_pin : FileReceiver → Str → Option Str → ℕ → FileReceiver × ℕ
check_pin fr ip none now = (fr, 401)
check_pin fr ip (some pin) now =
    if not (str_eq pin fr.expected_pin)
    then (record_pin_attempt fr ip now, 401)
    else (clear_pin_attempts fr ip, 0)

-- `validatePIN`: the receiver after it, and the status, 0 for success.
unfoldable pub validate_pin : FileReceiver → Str → Option Str → ℕ → FileReceiver × ℕ
validate_pin fr ip pin now =
    if str_eq fr.expected_pin []
    then (fr, 0)
    else let (fr', blocked) = is_pin_blocked fr ip now in
      if blocked then (fr', 429) else check_pin fr' ip pin now

unfoldable pub cancel_handler : FileReceiver → Str → Str → FileReceiver × ℕ
cancel_handler fr session_id ip =
    if str_eq session_id []
    then (fr, 400)
    else let (rsm, e) = kill_session_for_client fr.sessman session_id ip in
      (record fr { sessman = rsm }, status e)
