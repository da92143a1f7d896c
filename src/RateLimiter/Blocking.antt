-- ===== src/RateLimiter/Blocking.antt =====
-- When ratelimit.go blocks a client, and for how long.
use pdf_to_epub.Prelude.{ℕ, ◌+◌, ◌-◌, ◌≡◌, refl, ◌&&◌, List, [], ◌∷◌, arith, leb, Str, length, ◌≢◌}
use pdf_to_epub.Prelude.Map.{lookup, lookup-insert_self, lookup-insert_ne, lookup-delete_ne}
use pdf_to_epub.RateLimiter.{RateLimiter, is_blocked, record_attempt, get_attempts}

-- Failed attempts of one client at the given times, first to last.
unfoldable pub record_all : RateLimiter → Str → List ℕ → RateLimiter
record_all rl client_id [] = rl
record_all rl client_id (t ∷ ts) = record_all (record_attempt rl client_id t).0 client_id ts

pub record_attempt_config :
    (rl : RateLimiter) (id : Str) (t : ℕ)
    → ((record_attempt rl id t).0.max_attempts ≡ rl.max_attempts)
      × ((record_attempt rl id t).0.block_duration ≡ rl.block_duration)
unfolding record_attempt
record_attempt_config rl id t = (refl, refl)

pub get_attempts-record_attempt :
    (rl : RateLimiter) (id : Str) (t : ℕ)
    → get_attempts (record_attempt rl id t).0 id ≡ get_attempts rl id + 1
unfolding get_attempts record_attempt
get_attempts-record_attempt rl id t = grind (arith, lookup-insert_self)

pub record_all_config :
    (rl : RateLimiter) (id : Str) (ts : List ℕ)
    → ((record_all rl id ts).max_attempts ≡ rl.max_attempts)
      × ((record_all rl id ts).block_duration ≡ rl.block_duration)
unfolding record_all
record_all_config rl id [] = (refl, refl)
record_all_config rl id (t ∷ ts) =
    ground
      (arith, record_attempt_config rl id t, record_all_config (record_attempt rl id t).0 id ts)

pub get_attempts-record_all :
    (rl : RateLimiter) (id : Str) (ts : List ℕ)
    → get_attempts (record_all rl id ts) id ≡ get_attempts rl id + length ts
unfolding record_all
get_attempts-record_all rl id [] = omega arith
get_attempts-record_all rl id (t ∷ ts) = omega (
  arith,
  get_attempts-record_attempt rl id t,
  get_attempts-record_all (record_attempt rl id t).0 id ts,
)

is_blocked-record_attempt :
    (rl : RateLimiter) (id : Str) (t now : ℕ)
    → (is_blocked (record_attempt rl id t).0 id now).1
      ≡ (leb rl.max_attempts (get_attempts rl id + 1) && leb (now - t) rl.block_duration)
unfolding is_blocked record_attempt get_attempts
is_blocked-record_attempt rl id t now = grind (arith, lookup-insert_self)

-- After further failed attempts of a client, one at `t` last, the client is blocked at `now` exactly
-- if all its attempts that are on record, the last one included, reach the limit, and no more than
-- the block duration has passed since `t`.
pub is_blocked-record_all :
    (rl : RateLimiter) (id : Str) (ts : List ℕ) (t now : ℕ)
    → (is_blocked (record_attempt (record_all rl id ts) id t).0 id now).1 ≡ (
        leb rl.max_attempts (get_attempts rl id + length ts + 1) && leb (now - t) rl.block_duration)
is_blocked-record_all rl id ts t now = ground (
  arith,
  is_blocked-record_attempt (record_all rl id ts) id t now,
  record_all_config rl id ts,
  get_attempts-record_all rl id ts,
)

-- What the limiter holds of a client is left alone by every call for another client.
pub lookup-record_attempt_ne :
    (rl : RateLimiter) (id j : Str) (t : ℕ)
    → id ≢ j
    → lookup j (record_attempt rl id t).0.attempts ≡ lookup j rl.attempts
unfolding record_attempt
lookup-record_attempt_ne rl id j t h = lookup-insert_ne id j _ rl.attempts h

lookup-is_blocked_ne :
    (rl : RateLimiter) (id j : Str) (t : ℕ)
    → id ≢ j
    → lookup j (is_blocked rl id t).0.attempts ≡ lookup j rl.attempts
unfolding is_blocked
lookup-is_blocked_ne rl id j t h = ground (arith, lookup-delete_ne id j rl.attempts h)
