-- ===== src/Middleware/RateLimit/Tests.antt =====
-- Requests that pass the middleware, and requests that do not.
use k8s_pod_manager_graphql.Prelude.{
  ℕ, suc, ◌+◌, min, ◌≡◌, refl, inr, String, false, Option, none, List, [], ◌∷◌, map, arith, All,
}
use k8s_pod_manager_graphql.Prelude.GoMap.{lookup}
use k8s_pod_manager_graphql.Prelude.Int.{ℤ, pos, pos_part}
use k8s_pod_manager_graphql.Middleware.RateLimiter.{
  InMemoryRateLimiter, InMemoryRateLimiterConfig, new_in_memory_rate_limiter,
}
use k8s_pod_manager_graphql.Middleware.RateLimiter.View.{view}
use k8s_pod_manager_graphql.Middleware.RateLimiter.Invariant.{IsConsistent, IsConsistent-new}
use k8s_pod_manager_graphql.Middleware.RateLimiter.Events.{IsOver, Within, requests_for}
use k8s_pod_manager_graphql.Middleware.RateLimit.{RateLimiter}
use k8s_pod_manager_graphql.Middleware.RateLimit.Serving.{Request, as_event, serve, serve_lem}

abbrev config : InMemoryRateLimiterConfig
config = record { limit = pos 2; window = 0; cleanup_interval = 0 }

two_a_minute : InMemoryRateLimiter
two_a_minute = new_in_memory_rate_limiter config

abbrev ask : ℕ → String → Request
ask now key = record { now = now; until_now = now; path = "/query"; key = key }

abbrev later : List Request
later = ask 20 "10.0.0.2" ∷ ask 30 "10.0.0.1" ∷ ask 40 "10.0.0.1" ∷ []

abbrev pub no_text : ℤ → String
no_text n = ""

two_a_minute-IsConsistent : IsConsistent two_a_minute
unfolding two_a_minute
two_a_minute-IsConsistent = IsConsistent-new config

two_a_minute-IsOver : IsOver 10 (view two_a_minute "10.0.0.1")
unfolding two_a_minute new_in_memory_rate_limiter view lookup
two_a_minute-IsOver = tt

later-Within : All (Within (10 + two_a_minute.window) "10.0.0.1") (map as_event later)
unfolding two_a_minute new_in_memory_rate_limiter
later-Within = (omega arith, (omega arith, (omega arith, tt)))

serve_lem_example :
    serve no_text "10.0.0.1" (ask 10 "10.0.0.1" ∷ later) two_a_minute 0
    ≡ min (suc (requests_for "10.0.0.1" (map as_event later))) (pos_part two_a_minute.limit)
serve_lem_example =
    serve_lem no_text "10.0.0.1" (ask 10 "10.0.0.1") later two_a_minute two_a_minute-IsConsistent
      refl two_a_minute-IsOver later-Within

-- A limiter that lets nobody through
abbrev pub closed_door : RateLimiter ℕ String
closed_door = record {
  allow = λ key n. (
    inr (record {
      allowed = false;
      limit = pos 0;
      remaining = pos 0;
      reset_time = 0;
      retry_after = pos 1;
    }),
    suc n,
  );
}

abbrev next_one : ℕ → Option String × ℕ
next_one n = (none, suc n)
