-- ===== src/Middleware/RateLimiter.antt =====
-- internal/middleware/rate_limiter.go: the in-memory rate limiter. Times are nanoseconds since the
-- epoch; every reading of the clock is an argument. The mutex makes each operation one step.
pub mod View
pub mod Invariant
pub mod Events
pub mod Tests
use k8s_pod_manager_graphql.Prelude.{
  ℕ, suc, ◌+◌, ◌*◌, String, Bool, true, false, not, Option, none, some, [], ◌∷◌, ltb, eqb,
  if◌then◌else◌,
}
use k8s_pod_manager_graphql.Prelude.Int.{ℤ, pos, ◌-ℤ◌, ltb_ℤ, leb_ℤ, sub_ℕ}
use k8s_pod_manager_graphql.Prelude.GoMap.{GoMap, lookup, insert, delete}

pub record InMemoryRateLimiter : Type 0 where
  pub requests : GoMap ℕ
  pub reset_time : GoMap ℕ
  pub limit : ℤ
  pub window : ℕ
  pub cleanup_interval : ℕ
  -- whether the channel `stopCleanup` is closed
  pub stopped : Bool

pub record InMemoryRateLimiterConfig : Type 0 where
  pub limit : ℤ
  pub window : ℕ
  pub cleanup_interval : ℕ

pub record RateLimitResult : Type 0 where
  pub allowed : Bool
  pub limit : ℤ
  pub remaining : ℤ
  pub reset_time : ℕ
  pub retry_after : ℤ

-- time.Minute
abbrev pub minute : ℕ
minute = 60 * 1_000_000_000

unfoldable pub new_in_memory_rate_limiter : InMemoryRateLimiterConfig → InMemoryRateLimiter
new_in_memory_rate_limiter config = record {
  requests = [];
  reset_time = [];
  limit = config.limit;
  window = if eqb config.window 0 then minute else config.window;
  cleanup_interval = if eqb config.cleanup_interval 0 then 5 * minute else config.cleanup_interval;
  stopped = false;
}

-- max
unfoldable pub max_int : ℤ → ℤ → ℤ
max_int a b = if ltb_ℤ b a then a else b

-- m[key], the zero value for a missing key
unfoldable pub at_key : String → GoMap ℕ → ℕ
at_key key m = elim (lookup key m) [ none ↦ 0 | some n ↦ n ]

-- The test `!exists || now.After(reset)`
unfoldable pub needs_reset : ℕ → Option ℕ → Bool
needs_reset now none = true
needs_reset now (some reset) = ltb reset now

unfoldable pub open_window : ℕ → String → InMemoryRateLimiter → InMemoryRateLimiter
open_window now key r =
    if needs_reset now (lookup key r.reset_time)
    then record r {
      requests = insert key 0 r.requests;
      reset_time = insert key (now + r.window) r.reset_time;
    }
    else r

unfoldable pub increment : String → InMemoryRateLimiter → InMemoryRateLimiter
increment key r = record r { requests = insert key (suc (at_key key r.requests)) r.requests }

-- The result for a count and a reset time; `until_now` is the clock when `time.Until` reads it.
unfoldable pub result_of : ℤ → ℕ → ℕ → ℕ → RateLimitResult
result_of limit until_now count reset =
    let ok = leb_ℤ (pos count) limit in
    record {
      allowed = ok;
      limit = limit;
      remaining = max_int (pos 0) (limit -ℤ pos count);
      reset_time = reset;
      retry_after = if not ok then sub_ℕ reset until_now else pos 0;
    }

-- Allow
unfoldable pub allow : ℕ → ℕ → String → InMemoryRateLimiter → RateLimitResult × InMemoryRateLimiter
allow now until_now key r =
    let s = increment key (open_window now key r) in
    (result_of s.limit until_now (at_key key s.requests) (at_key key s.reset_time), s)

-- Reset
unfoldable pub reset : String → InMemoryRateLimiter → InMemoryRateLimiter
reset key r = record r { requests = delete key r.requests; reset_time = delete key r.reset_time }

-- The loop of `cleanup` over the entries of `resetTime`
unfoldable pub cleanup_loop : ℕ → GoMap ℕ → InMemoryRateLimiter → InMemoryRateLimiter
cleanup_loop now [] r = r
cleanup_loop now ((key, t) ∷ es) r = cleanup_loop now es (if ltb t now then reset key r else r)

-- cleanup
unfoldable pub cleanup : ℕ → InMemoryRateLimiter → InMemoryRateLimiter
cleanup now r = cleanup_loop now r.reset_time r

-- Stop; `cleanupOnce` makes a second call harmless.
unfoldable pub stop : InMemoryRateLimiter → InMemoryRateLimiter
stop r = record r { stopped = true }
