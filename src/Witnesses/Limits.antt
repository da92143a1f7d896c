-- ===== src/Witnesses/Limits.antt =====
-- utils/ratelimit.go, nonce_cache.go and constants/errors.go at concrete calls.

use pdf_to_epub.NonceCache.{new_nonce_cache}
use pdf_to_epub.NonceCache.Trace.{Call, put_call, get_call, answers, spec_answers, answers-refines}
use pdf_to_epub.Prelude.{
  ℕ, ◌+◌, ◌-◌, ◌≤◌, Bool, true, false, ◌&&◌, Option, none, some, List, [], ◌∷◌, Str, codes, length,
  All, ◌≡◌, ◌⊎◌, refl, Str-discrete, leb, arith,
}
use pdf_to_epub.Prelude.Map.{IsDistinct, lookup}
use pdf_to_epub.RateLimiter.{RateLimiter, record_attempt, is_blocked, get_attempts}
use pdf_to_epub.RateLimiter.Blocking.{record_all, is_blocked-record_all}

abbrev ip : Str
ip = codes "10.0.0.2"

-- Three attempts, a block of 30.
abbrev rl : RateLimiter
rl = record { attempts = []; max_attempts = 3; block_duration = 30 }

third_blocks : (is_blocked (record_attempt (record_all rl ip (1 ∷ 2 ∷ [])) ip 5).0 ip 35).1 ≡ true
unfolding is_blocked lookup record_attempt pdf_to_epub.Prelude.Map.insert record_all Str-discrete
third_blocks = refl

block_ends : (is_blocked (record_attempt (record_all rl ip (1 ∷ 2 ∷ [])) ip 5).0 ip 36).1 ≡ false
unfolding is_blocked lookup record_attempt pdf_to_epub.Prelude.Map.insert record_all Str-discrete
block_ends = refl

is_blocked-record_all_example :
    (is_blocked (record_attempt (record_all rl ip (1 ∷ 2 ∷ [])) ip 5).0 ip 35).1
    ≡ (leb 3 (get_attempts rl ip + 2 + 1) && leb (35 - 5) 30)
is_blocked-record_all_example = is_blocked-record_all rl ip (1 ∷ 2 ∷ []) 5 35

-- A client that was blocked at 5, and one that tried once at 40.
abbrev used : RateLimiter
used = record {
  attempts =
      (ip, record { count = 3; blocked_at = 5; last_attempt = 5 })
      ∷ (codes "b", record { count = 1; blocked_at = 0; last_attempt = 40 })
      ∷ [];
  max_attempts = 3;
  block_duration = 30;
}

used-IsDistinct : IsDistinct used.attempts
unfolding lookup Str-discrete
used-IsDistinct = (refl, (refl, tt))

-- The oldest client is dropped.
abbrev calls : List Call
calls =
    put_call (codes "a") (codes "1")
    ∷ put_call (codes "b") (codes "2")
    ∷ get_call (codes "a")
    ∷ put_call (codes "c") (codes "3")
    ∷ get_call (codes "b")
    ∷ get_call (codes "a")
    ∷ []

calls_answered : answers (new_nonce_cache 2) calls ≡ some (codes "1") ∷ none ∷ some (codes "1") ∷ []
unfolding answers pdf_to_epub.NonceCache.get lookup pdf_to_epub.NonceCache.put new_nonce_cache
    pdf_to_epub.NonceCache.add_entry pdf_to_epub.Prelude.Map.insert Str-discrete
    pdf_to_epub.NonceCache.deref pdf_to_epub.NonceCache.move_to_front pdf_to_epub.NonceCache.remove
    pdf_to_epub.NonceCache.evict_oldest pdf_to_epub.NonceCache.back pdf_to_epub.Prelude.Map.delete
calls_answered = refl

answers-refines_example : answers (new_nonce_cache 2) calls ≡ spec_answers 2 [] calls
answers-refines_example = answers-refines 2 calls
