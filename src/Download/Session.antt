-- ===== src/Download/Session.antt =====
-- The session that the server of localsend/send/rvsend.go opens for a PIN.
use pdf_to_epub.Download.{
  Offered, ReverseSender, status, listed, sent, drop_old, create_session, valid_session,
  validate_pin, predownload_handler, download_handler,
}
use pdf_to_epub.Prelude.{ℕ, false, some, [], if◌then◌else◌, Str, str_eq, ◌≡◌, ◌≢◌, arith}
use pdf_to_epub.Prelude.Map.{lookup, lookup-insert_self}
use pdf_to_epub.RateLimiter.{is_blocked}

-- The right PIN of a client that is not blocked, or any where none is set.
right_pin :
    (now : ℕ) (ip : Str) (rs : ReverseSender)
    → (is_blocked rs.limiter ip now).1 ≡ false
    → (let r = validate_pin now ip (some rs.pin) rs in
        (r.1 ≡ 0) × (r.0.draws ≡ rs.draws) × (r.0.files ≡ rs.files))
unfolding validate_pin
right_pin now ip rs b = ground (arith, b)

-- The session is found under its identifier.
created :
    (uuid : ℕ → Str) (ip other : Str) (rs : ReverseSender)
    → ip ≢ []
    → (let r = create_session uuid ip rs in
        (valid_session r.1 other r.0 ≡ str_eq ip other)
        × (r.1 ≡ uuid rs.draws)
        × (r.0.files ≡ rs.files))
unfolding create_session valid_session
created uuid ip other rs i =
    let sessions = drop_old (lookup ip rs.session_by_ip) rs.sessions in
    ground (arith, lookup-insert_self (uuid rs.draws) ip sessions)

opened :
    (uuid : ℕ → Str) (now : ℕ) (ip : Str) (rs : ReverseSender)
    → (is_blocked rs.limiter ip now).1 ≡ false
    → (let checked = (validate_pin now ip (some rs.pin) rs).0 in
        let made = create_session uuid ip checked in
        predownload_handler uuid now ip [] (some rs.pin) rs ≡ (made.0, listed made.1 checked.files))
unfolding predownload_handler
opened uuid now ip rs b = ground (arith, right_pin now ip rs b)

-- A client that is not blocked and sends the right PIN is given the list of the files and a session;
-- with it, it gets a file of the list by its identifier, and any client of another address gets 403.
pub download_handler-predownload_handler :
    (uuid : ℕ → Str) (now : ℕ) (ip other file_id : Str) (file : Offered) (rs : ReverseSender)
    → (is_blocked rs.limiter ip now).1 ≡ false
    → ip ≢ []
    → uuid rs.draws ≢ []
    → file_id ≢ []
    → lookup file_id rs.files ≡ some file
    → (let r = predownload_handler uuid now ip [] (some rs.pin) rs in
        (r.1 ≡ listed (uuid rs.draws) rs.files)
        × (download_handler other (uuid rs.draws) file_id r.0
            ≡ (if str_eq ip other then sent file.filename file.full_path else status 403)))
unfolding download_handler
download_handler-predownload_handler uuid now ip other file_id file rs b i u f l =
    let checked = (validate_pin now ip (some rs.pin) rs).0 in
    let (_, draws, files) = right_pin now ip rs b in
    let (valid, id, kept) = created uuid ip other checked i in
    ground (arith, opened uuid now ip rs b, draws, files, valid, id, kept, u, f, l)
