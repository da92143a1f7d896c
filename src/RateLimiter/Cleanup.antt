-- ===== src/RateLimiter/Cleanup.antt =====
-- What `CleanupExpired` of ratelimit.go drops.
use pdf_to_epub.Prelude.{
  ℕ, ◌+◌, ◌-◌, ◌≤◌, ◌≡◌, refl, [], ◌∷◌, arith, leb, Str, length, All, none, some, Option,
  if◌then◌else◌,
}
use pdf_to_epub.Prelude.Map.{lookup, Map, IsDistinct}
use pdf_to_epub.RateLimiter.{
  AttemptInfo, RateLimiter, is_blocked, is_expired, cleanup_loop, cleanup_expired,
}

unless_expired : RateLimiter → ℕ → Option AttemptInfo → Option AttemptInfo
unless_expired rl t none = none
unless_expired rl t (some info) = if is_expired rl t info then none else some info

lookup-cleanup_loop-none :
    (rl : RateLimiter) (t : ℕ) (id : Str) (m : Map AttemptInfo)
    → lookup id m ≡ none
    → lookup id (cleanup_loop rl t m).0 ≡ none
unfolding cleanup_loop lookup
lookup-cleanup_loop-none rl t id [] h = refl
lookup-cleanup_loop-none rl t id ((j, info) ∷ m) h =
    ground (arith, lookup-cleanup_loop-none rl t id m)

lookup-cleanup_loop :
    (rl : RateLimiter) (t : ℕ) (id : Str) (m : Map AttemptInfo)
    → IsDistinct m
    → lookup id (cleanup_loop rl t m).0 ≡ unless_expired rl t (lookup id m)
unfolding cleanup_loop lookup unless_expired
lookup-cleanup_loop rl t id [] d = refl
lookup-cleanup_loop rl t id ((j, info) ∷ m) d =
    ground (arith, lookup-cleanup_loop-none rl t id m, lookup-cleanup_loop rl t id m d.1)

-- Where each client has one entry, a cleanup does not change which clients are blocked at any time
-- from then on.
is_blocked-cleanup_expired :
    (rl : RateLimiter) (id : Str) (t now : ℕ)
    → IsDistinct rl.attempts
    → t ≤ now
    → (is_blocked (cleanup_expired rl t).0 id now).1 ≡ (is_blocked rl id now).1
unfolding is_blocked cleanup_expired is_expired unless_expired
is_blocked-cleanup_expired rl id t now d h =
    ground (arith, lookup-cleanup_loop rl t id rl.attempts d)

cleanup_loop_count :
    (rl : RateLimiter) (t : ℕ) (m : Map AttemptInfo)
    → length (cleanup_loop rl t m).0 + (cleanup_loop rl t m).1 ≡ length m
unfolding cleanup_loop
cleanup_loop_count rl t [] = refl
cleanup_loop_count rl t ((j, info) ∷ m) = ground (arith, cleanup_loop_count rl t m)

-- An entry that saw its block or its last attempt within the block duration before `t`.
abbrev pub IsRecent : RateLimiter → ℕ → Str × AttemptInfo → Type 0
IsRecent rl t (_, info) =
    t - (if leb rl.max_attempts info.count then info.blocked_at else info.last_attempt)
    ≤ rl.block_duration

cleanup_loop-IsRecent :
    (rl : RateLimiter) (t : ℕ) (m : Map AttemptInfo) → All (IsRecent rl t) (cleanup_loop rl t m).0
unfolding cleanup_loop is_expired
cleanup_loop-IsRecent rl t [] = tt
cleanup_loop-IsRecent rl t ((j, info) ∷ m) = ground (arith, cleanup_loop-IsRecent rl t m)

-- A cleanup leaves only entries whose block, or for those below the limit whose last attempt, is at
-- most the block duration ago, and what it leaves and what it reports removed add up to what was there.
cleanup_expired-IsRecent :
    (rl : RateLimiter) (t : ℕ)
    → All (IsRecent rl t) (cleanup_expired rl t).0.attempts
      × (length (cleanup_expired rl t).0.attempts + (cleanup_expired rl t).1 ≡ length rl.attempts)
unfolding cleanup_expired
cleanup_expired-IsRecent rl t =
    (cleanup_loop-IsRecent rl t rl.attempts, cleanup_loop_count rl t rl.attempts)
