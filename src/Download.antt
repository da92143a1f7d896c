-- ===== src/Download.antt =====
-- koreader-plugin/internal/localsend/send/rvsend.go: the server from which a browser downloads the files.
-- The mutexes make each handler one step, a fresh UUID is the next value of a function, and the sending
-- of a file that was found is a call of the web library.
pub mod Guard
pub mod Session
use pdf_to_epub.Errors.{max_pin_attempts, pin_block_duration}
use pdf_to_epub.Prelude.{
  ℕ, suc, Bool, true, false, not, ◌&&◌, ◌||◌, Option, none, some, List, [], ◌∷◌, ◌==◌,
  if◌then◌else◌, Str, str_eq,
}
use pdf_to_epub.Prelude.Map.{Map, lookup, insert, delete}
use pdf_to_epub.RateLimiter.{
  RateLimiter, new_rate_limiter, is_blocked, record_attempt, clear, cleanup_expired,
}

-- What the handlers use of models.FileMeta.
pub record Offered : Type 0 where
  pub filename : Str
  pub full_path : Str

pub record ReverseSender : Type 0 where
  pub pin : Str
  pub files : Map Offered
  pub limiter : RateLimiter
  pub sessions : Map Str
  pub session_by_ip : Map Str
  pub draws : ℕ

unfoldable pub new_reverse_sender : Str → Map Offered → ReverseSender
new_reverse_sender pin files = record {
  pin = pin;
  files = files;
  limiter = new_rate_limiter max_pin_attempts pin_block_duration;
  sessions = [];
  session_by_ip = [];
  draws = 0;
}

-- A request of a client, with its query.
pub data Request : Type 0 where
  predownload : Str → Str → Option Str → Request
  download : Str → Str → Str → Request
  download_list : Str → Option Str → Request
  info pin_cleanup : Request

-- A status, the list of the files under a session, or a file under a name.
pub data Response : Type 0 where
  status : ℕ → Response
  listed : Str → Map Offered → Response
  sent : Str → Str → Response
  device_info nothing : Response

-- `delete(rs.sessions, oldSessionID)`
abbrev pub drop_old : Option Str → Map Str → Map Str
drop_old none sessions = sessions
drop_old (some id) sessions = if str_eq id [] then sessions else delete id sessions

unfoldable pub create_session : (ℕ → Str) → Str → ReverseSender → ReverseSender × Str
create_session uuid ip rs =
    let id = uuid rs.draws in
    (
      record rs {
        sessions = insert id ip (drop_old (lookup ip rs.session_by_ip) rs.sessions);
        session_by_ip = insert ip id rs.session_by_ip;
        draws = suc rs.draws;
      },
      id,
    )

-- A key that is missing reads as the empty text.
abbrev pub ip_of : Option Str → Str
ip_of none = []
ip_of (some ip) = ip

unfoldable pub valid_session : Str → Str → ReverseSender → Bool
valid_session session_id ip rs = str_eq (ip_of (lookup session_id rs.sessions)) ip

-- The answer to a PIN of a client that is not blocked.
abbrev pub check_pin : ℕ → Str → Option Str → ReverseSender → ReverseSender × ℕ
check_pin now ip none rs = (rs, 401)
check_pin now ip (some pin) rs =
    if not (str_eq pin rs.pin)
    then (record rs { limiter = (record_attempt rs.limiter ip now).0 }, 401)
    else (record rs { limiter = clear rs.limiter ip }, 0)

unfoldable pub validate_pin : ℕ → Str → Option Str → ReverseSender → ReverseSender × ℕ
validate_pin now ip pin rs =
    if str_eq rs.pin []
    then (rs, 0)
    else let (limiter, blocked) = is_blocked rs.limiter ip now in
      let rs' = record rs { limiter = limiter } in
      if blocked then (rs', 429) else check_pin now ip pin rs'

-- A new session, unless the PIN was refused.
abbrev pub open_session : (ℕ → Str) → Str → ReverseSender × ℕ → ReverseSender × Response
open_session uuid ip (rs, code) =
    if not (code == 0)
    then (rs, status code)
    else let (rs', id) = create_session uuid ip rs in (rs', listed id rs.files)

unfoldable pub predownload_handler :
    (ℕ → Str) → ℕ → Str → Str → Option Str → ReverseSender → ReverseSender × Response
predownload_handler uuid now ip session_id pin rs =
    if not (str_eq session_id []) && valid_session session_id ip rs
    then (rs, listed session_id rs.files)
    else open_session uuid ip (validate_pin now ip pin rs)

abbrev pub send_file : Option Offered → Response
send_file none = status 403
send_file (some file) = sent file.filename file.full_path

unfoldable pub download_handler : Str → Str → Str → ReverseSender → Response
download_handler ip session_id file_id rs =
    if str_eq session_id [] || str_eq file_id []
    then status 400
    else if not (valid_session session_id ip rs)
    then status 403
    else send_file (lookup file_id rs.files)

unfoldable pub download_list_handler :
    (ℕ → Str) → ℕ → Str → Option Str → ReverseSender → ReverseSender × Response
download_list_handler uuid now ip pin rs = open_session uuid ip (validate_pin now ip pin rs)

-- The handler of a request, or a round of `pinCleanupTask`, at a time.
unfoldable pub handle : (ℕ → Str) → ℕ → Request → ReverseSender → ReverseSender × Response
handle uuid now (predownload ip session_id pin) rs =
    predownload_handler uuid now ip session_id pin rs
handle uuid now (download ip session_id file_id) rs =
    (rs, download_handler ip session_id file_id rs)
handle uuid now (download_list ip pin) rs = download_list_handler uuid now ip pin rs
handle uuid now info rs = (rs, device_info)
handle uuid now pin_cleanup rs =
    (record rs { limiter = (cleanup_expired rs.limiter now).0 }, nothing)
