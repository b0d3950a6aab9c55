-- ===== src/Middleware/RateLimit.antt =====
-- internal/middleware/rate_limiter.go: the middleware that asks a rate limiter about each request and
-- answers 429 in place of the rest of the chain. Log lines are left out.
pub mod Laws
pub mod Serving
pub mod Tests
use k8s_pod_manager_graphql.Prelude.{
  ℕ, ◌/◌, String, not, Option, none, List, [], ◌∷◌, ◌++◌, ◌⊎◌, inl, inr, ◌==◌, any, if◌then◌else◌,
}
use k8s_pod_manager_graphql.Prelude.Text.{show_nat, show_int}
use k8s_pod_manager_graphql.Prelude.Int.{ℤ}
use k8s_pod_manager_graphql.Middleware.RateLimiter.{InMemoryRateLimiter, RateLimitResult, allow}

-- The interface RateLimiter, of whose methods the middleware calls Allow
pub record RateLimiter (L E : Type 0) : Type 1 where
  -- an error, or a result
  pub allow : (key : String) → L → (E ⊎ RateLimitResult) × L

-- InMemoryRateLimiter.Allow returns no error; the clock is an argument.
unfoldable pub in_memory : {E : Type 0} → (now until_now : ℕ) → RateLimiter InMemoryRateLimiter E
in_memory now until_now = record {
  allow = λ key r. let (result, r') = allow now until_now key r in (inr result, r');
}

-- The calls of HTTPResponse; the JSON body has the fields retry_after and limit beside its text.
pub data ResponseCall : Type 0 where
  set_header : (name value : String) → ResponseCall
  set_status : ℕ → ResponseCall
  json_error : (text : String) (retry_after : ℕ) (limit : ℤ) → ResponseCall

-- A request on its way: the limiter, the state that the rest of the chain works on, and the calls of
-- the response, the latest first
pub record Exchange (L W : Type 0) : Type 0 where
  pub limiter : L
  pub world : W
  pub calls : List ResponseCall

-- Time.Unix of nanoseconds
abbrev pub unix : ℕ → ℕ
unix t = t / 1_000_000_000

-- The headers of every answer, and what a denial adds; `seconds` prints a duration under `%.0f`.
unfoldable pub limit_calls : RateLimitResult → List ResponseCall
limit_calls result =
    set_header "X-RateLimit-Reset" (show_nat (unix result.reset_time))
    ∷ set_header "X-RateLimit-Remaining" (show_int result.remaining)
    ∷ set_header "X-RateLimit-Limit" (show_int result.limit)
    ∷ []

unfoldable pub denial_calls : (ℤ → String) → RateLimitResult → List ResponseCall
denial_calls seconds result =
    json_error "Rate limit exceeded" (unix result.reset_time) result.limit
    ∷ set_status 429
    ∷ set_header "Retry-After" (seconds result.retry_after)
    ∷ []

-- RateLimitMiddleware. `key` is the value of `keyFunc` for the request, `next` the rest of the chain.
module _ {L W E : Type 0} (limiter : RateLimiter L E) (skip_paths : List String)
    (seconds : ℤ → String) (next : W → Option E × W) where
  -- ctx.Next()
  unfoldable pub pass_on : Exchange L W → Option E × Exchange L W
  pass_on x = let (e, w) = next x.world in (e, record x { world = w })

  -- Handle, after the limiter's answer
  unfoldable pub answered : (E ⊎ RateLimitResult) → Exchange L W → Option E × Exchange L W
  answered (inl e) x = pass_on x
  answered (inr result) x =
      let y = record x { calls = limit_calls result ++ x.calls } in
      if not result.allowed
      then (none, record y { calls = denial_calls seconds result ++ y.calls })
      else pass_on y

  -- Handle
  unfoldable pub handle : (path key : String) → Exchange L W → Option E × Exchange L W
  handle path key x =
      if any (λ skipped. path == skipped) skip_paths
      then pass_on x
      else (let (answer, l) = limiter.allow key x.limiter in
          answered answer (record x { limiter = l }))
