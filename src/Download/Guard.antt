-- ===== src/Download/Guard.antt =====
-- Who gets files and lists from the server of localsend/send/rvsend.go.
use pdf_to_epub.Prelude.{any, List, refl}
use pdf_to_epub.Download.{
  new_reverse_sender, Offered, predownload_handler, download_handler, download_list_handler, handle,
  ReverseSender, Request, predownload, download, download_list, info, pin_cleanup, Response, listed,
  sent, drop_old, create_session, valid_session, validate_pin, open_session,
}
use pdf_to_epub.Prelude.{
  ℕ, Bool, true, false, not, ◌&&◌, Option, none, some, [], ◌∷◌, ◌==◌, Str, str_eq, All, ◌≡◌, ◌≢◌,
  arith, if_cases, ◌∙◌,
}
use pdf_to_epub.Prelude.Map.{Map, lookup, insert, delete}

-- No session is the client's.
abbrev NotOf : Str → Str × Str → Type 0
NotOf ip e = e.1 ≢ ip

-- The state before the PIN: it is asked for, and the client has no session.
abbrev Barred : Str → Str → ReverseSender → Type 0
Barred ip pin rs = (rs.pin ≡ pin) × All (NotOf ip) rs.sessions

NotOf-delete : (ip id : Str) (m : Map Str) → All (NotOf ip) m → All (NotOf ip) (delete id m)
unfolding delete
NotOf-delete ip id [] a = tt
NotOf-delete ip id ((k, v) ∷ m) a = ground (arith, NotOf-delete ip id m a.1)

NotOf-insert :
    (ip id other : Str) (m : Map Str)
    → other ≢ ip
    → All (NotOf ip) m
    → All (NotOf ip) (insert id other m)
unfolding insert
NotOf-insert ip id other [] n a = (n, tt)
NotOf-insert ip id other ((k, v) ∷ m) n a = ground (arith, NotOf-insert ip id other m n a.1)

lookup-NotOf : (ip id : Str) (m : Map Str) → All (NotOf ip) m → lookup id m ≢ some ip
unfolding lookup
lookup-NotOf ip id [] a e = absurd (ground arith)
lookup-NotOf ip id ((k, v) ∷ m) a e = ground (arith, e, a.0, lookup-NotOf ip id m a.1)

not_valid :
    (ip id : Str) (rs : ReverseSender)
    → ip ≢ []
    → All (NotOf ip) rs.sessions
    → valid_session id ip rs ≡ false
unfolding valid_session
not_valid ip id rs n a = ground (arith, n, lookup-NotOf ip id rs.sessions a)

drop_old-NotOf :
    (ip : Str) (o : Option Str) (m : Map Str) → All (NotOf ip) m → All (NotOf ip) (drop_old o m)
drop_old-NotOf ip none m a = a
drop_old-NotOf ip (some id) m a =
    if_cases (All (NotOf ip)) (str_eq id []) _ _ (λ _. a) (λ _. NotOf-delete ip id m a)

-- Whether a request is one of the client with the PIN.
abbrev pub gives : Str → Str → Str → Option Str → Bool
gives ip pin from none = false
gives ip pin from (some p) = str_eq from ip && str_eq p pin

abbrev pub gives_pin : Str → Str → Request → Bool
gives_pin ip pin (predownload from id p) = gives ip pin from p
gives_pin ip pin (download_list from p) = gives ip pin from p
gives_pin ip pin (download from id file) = false
gives_pin ip pin info = false
gives_pin ip pin pin_cleanup = false

-- Who asks.
abbrev pub is_from : Str → Request → Bool
is_from ip (predownload from id p) = str_eq from ip
is_from ip (download_list from p) = str_eq from ip
is_from ip (download from id file) = str_eq from ip
is_from ip info = false
is_from ip pin_cleanup = false

-- Neither a file nor a list.
abbrev pub is_refusal : Response → Bool
is_refusal (listed id files) = false
is_refusal (sent name path) = false
is_refusal _ = true

-- The PIN check keeps the sessions, and passes only the right PIN.
validate_pin-keeps :
    (now : ℕ) (from : Str) (p : Option Str) (rs : ReverseSender)
    → (let r = validate_pin now from p rs in (r.0.pin ≡ rs.pin) × (r.0.sessions ≡ rs.sessions))
unfolding validate_pin
validate_pin-keeps now from p rs = ground arith

validate_pin-passes :
    (now : ℕ) (from : Str) (p : Option Str) (rs : ReverseSender)
    → rs.pin ≢ []
    → (validate_pin now from p rs).1 ≡ 0
    → p ≡ some rs.pin
unfolding validate_pin
validate_pin-passes now from p rs n e = ground (arith, n, e)

-- What a request leaves, and answers to the client.
abbrev Refused : Str → Str → Bool → ReverseSender × Response → Type 0
Refused ip pin mine r = Barred ip pin r.0 × ((mine && not (is_refusal r.1)) ≡ false)

open_session-Refused :
    (uuid : ℕ → Str) (now : ℕ) (ip from pin : Str) (p : Option Str) (rs : ReverseSender)
    → pin ≢ []
    → gives ip pin from p ≡ false
    → Barred ip pin rs
    → Refused ip pin (str_eq from ip) (open_session uuid from (validate_pin now from p rs))
unfolding create_session
open_session-Refused uuid now ip from pin p rs n g (e, a) =
    let r = validate_pin now from p rs in
    let (k, s) = validate_pin-keeps now from p rs in
    if_cases (Refused ip pin (str_eq from ip)) (not (r.1 == 0)) _ _
      (λ t. ((k ∙ e, rw s a), ground arith))
      (λ t.
        let passed = validate_pin-passes now from p rs (ground (arith, n, e)) (ground (arith, t)) in
        let other : str_eq from ip ≡ false = ground (arith, passed, g, e) in
        (
          (
            k ∙ e,
            NotOf-insert ip (uuid r.0.draws) from
                (drop_old (lookup from r.0.session_by_ip) r.0.sessions) (ground (arith, other))
                (drop_old-NotOf ip (lookup from r.0.session_by_ip) r.0.sessions (rw s a)),
          ),
          ground (arith, other),
        ))

predownload-Refused :
    (uuid : ℕ → Str) (now : ℕ) (ip from id pin : Str) (p : Option Str) (rs : ReverseSender)
    → ip ≢ []
    → pin ≢ []
    → gives ip pin from p ≡ false
    → Barred ip pin rs
    → Refused ip pin (str_eq from ip) (predownload_handler uuid now from id p rs)
unfolding predownload_handler
predownload-Refused uuid now ip from id pin p rs i n g (e, a) =
    if_cases (Refused ip pin (str_eq from ip)) (not (str_eq id []) && valid_session id from rs) _ _
      (λ t. ((e, a), ground (arith, t, not_valid ip id rs i a)))
      (λ _. open_session-Refused uuid now ip from pin p rs n g (e, a))

download-refusal :
    (ip from id file : Str) (rs : ReverseSender)
    → ip ≢ []
    → All (NotOf ip) rs.sessions
    → (str_eq from ip && not (is_refusal (download_handler from id file rs))) ≡ false
unfolding download_handler
download-refusal ip from id file rs i a = ground (arith, not_valid ip id rs i a)

handle-Refused :
    (uuid : ℕ → Str) (now : ℕ) (ip pin : Str) (x : Request) (rs : ReverseSender)
    → ip ≢ []
    → pin ≢ []
    → gives_pin ip pin x ≡ false
    → Barred ip pin rs
    → Refused ip pin (is_from ip x) (handle uuid now x rs)
unfolding handle download_list_handler
handle-Refused uuid now ip pin (predownload from id p) rs i n g b =
    predownload-Refused uuid now ip from id pin p rs i n g b
handle-Refused uuid now ip pin (download_list from p) rs i n g b =
    open_session-Refused uuid now ip from pin p rs n g b
handle-Refused uuid now ip pin (download from id file) rs i n g b =
    (b, download-refusal ip from id file rs i b.1)
handle-Refused uuid now ip pin info rs i n g b = (b, refl)
handle-Refused uuid now ip pin pin_cleanup rs i n g b = (b, refl)

-- The answers to the requests, each at its time.
unfoldable pub serve : (ℕ → Str) → List (ℕ × Request) → ReverseSender → List (Request × Response)
serve uuid [] rs = []
serve uuid ((now, x) ∷ requests) rs =
    let (rs', response) = handle uuid now x rs in (x, response) ∷ serve uuid requests rs'

abbrev pub is_granted : Str → Request × Response → Bool
is_granted ip (x, response) = is_from ip x && not (is_refusal response)

serve-Barred :
    (uuid : ℕ → Str) (ip pin : Str) (requests : List (ℕ × Request)) (rs : ReverseSender)
    → ip ≢ []
    → pin ≢ []
    → any (λ (x : ℕ × Request). gives_pin ip pin x.1) requests ≡ false
    → Barred ip pin rs
    → any (is_granted ip) (serve uuid requests rs) ≡ false
unfolding serve
serve-Barred uuid ip pin [] rs i n g b = refl
serve-Barred uuid ip pin ((now, x) ∷ requests) rs i n g b =
    let (b', r) = handle-Refused uuid now ip pin x rs i n (ground (arith, g)) b in
    ground (
      arith,
      r,
      serve-Barred uuid ip pin requests (handle uuid now x rs).0 i n (ground (arith, g)) b',
    )

-- Where a PIN is set, a new server gives neither a file nor the list of files to a client that sends no
-- request with the PIN, whatever requests it and others send in whatever order, also with sessions of
-- other clients.
pub serve_refuses :
    (uuid : ℕ → Str) (ip pin : Str) (files : Map Offered) (requests : List (ℕ × Request))
    → ip ≢ []
    → pin ≢ []
    → any (λ (x : ℕ × Request). gives_pin ip pin x.1) requests ≡ false
    → any (is_granted ip) (serve uuid requests (new_reverse_sender pin files)) ≡ false
unfolding new_reverse_sender
serve_refuses uuid ip pin files requests i n g =
    serve-Barred uuid ip pin requests (new_reverse_sender pin files) i n g (refl, tt)
