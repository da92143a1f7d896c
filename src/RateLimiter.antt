-- ===== src/RateLimiter.antt =====
-- koreader-plugin/internal/utils/ratelimit.go. A time is the number of nanoseconds since the zero
-- `time.Time`, and the clock `rl.now` is the argument `now` of each call. A test `d > block` on a
-- signed difference is exact on the truncated one. `count` is unbounded.
pub mod Blocking
pub mod Cleanup
use pdf_to_epub.Prelude.{
  ℕ, ◌+◌, ◌-◌, Bool, true, false, ◌&&◌, ◌||◌, Option, none, some, List, [], ◌∷◌, ltb, leb,
  if◌then◌else◌, Str, length,
}
use pdf_to_epub.Prelude.Map.{Map, lookup, insert, delete}

pub record AttemptInfo : Type 0 where
  pub count : ℕ
  pub blocked_at : ℕ
  pub last_attempt : ℕ

pub record RateLimiter : Type 0 where
  pub attempts : Map AttemptInfo
  pub max_attempts : ℕ
  pub block_duration : ℕ

unfoldable pub new_rate_limiter : ℕ → ℕ → RateLimiter
new_rate_limiter max_attempts block_duration = record {
  attempts = [];
  max_attempts = max_attempts;
  block_duration = block_duration;
}

-- The clock has passed `since` by more than the block duration.
abbrev pub is_over : RateLimiter → ℕ → ℕ → Bool
is_over rl now since = ltb rl.block_duration (now - since)

unfoldable pub is_blocked : RateLimiter → Str → ℕ → RateLimiter × Bool
is_blocked rl client_id now = elim (lookup client_id rl.attempts) [
  | none ↦ (rl, false)
  | some info ↦
      if leb rl.max_attempts info.count
      then (if is_over rl now info.blocked_at
          then (record rl { attempts = delete client_id rl.attempts }, false)
          else (rl, true))
      else (rl, false)
]

abbrev or_new : Option AttemptInfo → AttemptInfo
or_new none = record { count = 0; blocked_at = 0; last_attempt = 0 }
or_new (some info) = info

unfoldable pub record_attempt : RateLimiter → Str → ℕ → RateLimiter × Bool
record_attempt rl client_id now =
    let info = or_new (lookup client_id rl.attempts) in
    let reached = leb rl.max_attempts (info.count + 1) in
    let info' : AttemptInfo = record {
      count = info.count + 1;
      blocked_at = if reached then now else info.blocked_at;
      last_attempt = now;
    } in
    (record rl { attempts = insert client_id info' rl.attempts }, reached)

unfoldable pub clear : RateLimiter → Str → RateLimiter
clear rl client_id = record rl { attempts = delete client_id rl.attempts }

-- The two tests of the loop of `CleanupExpired`: a block that is over, or attempts gone stale.
unfoldable pub is_expired : RateLimiter → ℕ → AttemptInfo → Bool
is_expired rl now info =
    (leb rl.max_attempts info.count && is_over rl now info.blocked_at)
    || (ltb info.count rl.max_attempts && is_over rl now info.last_attempt)

-- The loop: the entries that stay, and `cleaned`.
unfoldable pub cleanup_loop : RateLimiter → ℕ → Map AttemptInfo → Map AttemptInfo × ℕ
cleanup_loop rl now [] = ([], 0)
cleanup_loop rl now ((id, info) ∷ m) =
    let (kept, cleaned) = cleanup_loop rl now m in
    if is_expired rl now info then (kept, cleaned + 1) else ((id, info) ∷ kept, cleaned)

unfoldable pub cleanup_expired : RateLimiter → ℕ → RateLimiter × ℕ
cleanup_expired rl now =
    let (kept, cleaned) = cleanup_loop rl now rl.attempts in
    (record rl { attempts = kept }, cleaned)

unfoldable pub count_clients : RateLimiter → ℕ
count_clients rl = length rl.attempts

unfoldable pub get_attempts : RateLimiter → Str → ℕ
get_attempts rl client_id = elim (lookup client_id rl.attempts) [
  | none ↦ 0
  | some info ↦ info.count
]
