-- ===== src/Witnesses/Https.antt =====
-- localsend/send/rvsend.go and fwdsend.go at one file.
use pdf_to_epub.Download.Guard.{gives_pin, is_granted, serve, serve_refuses}
use pdf_to_epub.Download.Session.{download_handler-predownload_handler}
use pdf_to_epub.Download.{
  Offered, ReverseSender, new_reverse_sender, Request, predownload, download, download_list, status,
  listed, sent, predownload_handler, download_handler,
}
use pdf_to_epub.Prelude.{
  ℕ, zero, suc, true, false, Option, none, some, List, [], ◌∷◌, if◌then◌else◌, Str, codes, str_eq,
  any, ◌≡◌, ◌≢◌, refl, arith, Str-discrete,
}
use pdf_to_epub.Prelude.Map.{Map, lookup}
use pdf_to_epub.RateLimiter.{is_blocked}
use pdf_to_epub.Upload.{Env, ForwardSender, LocalFile, Prepared, start}

abbrev offered : Map Offered
offered = (codes "f", record { filename = codes "a.txt"; full_path = codes "/a.txt" }) ∷ []

abbrev uuid : ℕ → Str
uuid n = codes "u"

-- One client gives the PIN, the other guesses, and uses the session of the first.
abbrev requests : List (ℕ × Request)
requests =
    (1, predownload (codes "b") [] (some (codes "1")))
    ∷ (2, predownload (codes "a") [] (some (codes "2")))
    ∷ (3, download (codes "a") (codes "u") (codes "f"))
    ∷ []

ip-ne-nil : codes "a" ≢ []
ip-ne-nil e = ground arith

pin-ne-nil : codes "1" ≢ []
pin-ne-nil e = ground arith

not_given : any (λ (x : ℕ × Request). gives_pin (codes "a") (codes "1") x.1) requests ≡ false
unfolding Str-discrete
not_given = refl

serve_refuses_example :
    any (is_granted (codes "a")) (serve uuid requests (new_reverse_sender (codes "1") offered))
    ≡ false
serve_refuses_example =
    serve_refuses uuid (codes "a") (codes "1") offered requests ip-ne-nil pin-ne-nil not_given

other_granted :
    any (is_granted (codes "b")) (serve uuid requests (new_reverse_sender (codes "1") offered))
    ≡ true
unfolding serve Str-discrete pdf_to_epub.Download.handle predownload_handler
    pdf_to_epub.Download.validate_pin new_reverse_sender is_blocked lookup
    pdf_to_epub.RateLimiter.new_rate_limiter
other_granted = refl

abbrev server : ReverseSender
server = new_reverse_sender (codes "1") offered

not_blocked : (is_blocked server.limiter (codes "a") 1).1 ≡ false
unfolding is_blocked lookup new_reverse_sender pdf_to_epub.RateLimiter.new_rate_limiter
not_blocked = refl

file-ne-nil : codes "f" ≢ []
file-ne-nil e = ground arith

file_known :
    lookup (codes "f") offered
    ≡ some (record { filename = codes "a.txt"; full_path = codes "/a.txt" })
unfolding lookup Str-discrete
file_known = refl

no_draws : uuid server.draws ≢ []
no_draws e = ground (arith, e)

download_handler-predownload_handler_example :
    (let r = predownload_handler uuid 1 (codes "a") [] (some server.pin) server in
      (r.1 ≡ listed (uuid server.draws) server.files)
      × (download_handler (codes "c") (uuid server.draws) (codes "f") r.0 ≡ (
          if str_eq (codes "a") (codes "c")
          then sent (codes "a.txt") (codes "/a.txt")
          else status 403)))
unfolding new_reverse_sender
download_handler-predownload_handler_example =
    download_handler-predownload_handler uuid 1 (codes "a") (codes "c") (codes "f")
      (record { filename = codes "a.txt"; full_path = codes "/a.txt" }) server not_blocked ip-ne-nil
      no_draws file-ne-nil file_known

-- The first answer to the upload is a wrong checksum.
abbrev answer : ℕ → Option ℕ
answer zero = some 422
answer (suc n) = some 200

abbrev env : Env
env = record {
  prepare = λ pin.
      some (200, some (record { session = codes "s"; tokens = (codes "f", codes "t") ∷ [] }));
  open_fails = λ path. false;
  max_int = 1000;
  upload = λ attempt id token session. answer attempt;
  cancel = λ session. some 200;
}

abbrev sender : ForwardSender
sender = record {
  files =
      (codes "f", record { filename = codes "a.txt"; full_path = codes "/a.txt"; size = 3 }) ∷ [];
  tokens = [];
  session = [];
  pin = [];
  abort = false;
}

sent_twice : (start env sender).1 ≡ none
unfolding start pdf_to_epub.Upload.pre_upload_req pdf_to_epub.Errors.parse_error
    pdf_to_epub.Upload.send_all pdf_to_epub.Upload.send_file_with_retry
    pdf_to_epub.Upload.send_attempts pdf_to_epub.Upload.send_file lookup Str-discrete
sent_twice = refl
