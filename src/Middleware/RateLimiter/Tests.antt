-- ===== src/Middleware/RateLimiter/Tests.antt =====
-- Runs of the rate limiter, and the theorems at concrete inputs.
use k8s_pod_manager_graphql.Prelude.{
  ◌+◌, ◌≡◌, refl, ◌≢◌, String, List, [], ◌∷◌, arith, min, eq_iff, suc, All,
}
use k8s_pod_manager_graphql.Prelude.Int.{pos, pos_part, ◌-ℤ◌}
use k8s_pod_manager_graphql.Prelude.GoMap.{lookup, insert, delete}
use k8s_pod_manager_graphql.Middleware.RateLimiter.{
  InMemoryRateLimiter, new_in_memory_rate_limiter, allow, reset, cleanup, minute, increment,
  open_window, needs_reset, at_key, result_of, max_int, cleanup_loop, InMemoryRateLimiterConfig,
}
use k8s_pod_manager_graphql.Middleware.RateLimiter.Invariant.{IsConsistent, IsConsistent-new}
use k8s_pod_manager_graphql.Middleware.RateLimiter.View.{view}
use k8s_pod_manager_graphql.Middleware.RateLimiter.Events.{
  Event, request, reset_of, tick, run, run-IsConsistent, allowed_for, requests_for, allowed_for_lem,
  step, IsOver, Within, result-allow-cleanup,
}

-- A limit of two requests a minute
abbrev config : InMemoryRateLimiterConfig
config = record { limit = pos 2; window = 0; cleanup_interval = 0 }

two_a_minute : InMemoryRateLimiter
two_a_minute = new_in_memory_rate_limiter config

limiter : Unit {0}
unfolding allow increment open_window needs_reset at_key result_of max_int ◌-ℤ◌ insert delete
    cleanup_loop reset cleanup view step allowed_for requests_for run lookup
    new_in_memory_rate_limiter two_a_minute
limiter = tt

abbrev busy : List Event
busy =
    request 20 20 "10.0.0.2"
    ∷ request 30 31 "10.0.0.1"
    ∷ tick 40
    ∷ reset_of "10.0.0.2"
    ∷ request 50 51 "10.0.0.1"
    ∷ request minute minute "10.0.0.1"
    ∷ []

-- Four requests of one address within a minute: two get through.
two_get_through : allowed_for "10.0.0.1" (request 10 10 "10.0.0.1" ∷ busy) two_a_minute ≡ 2
unfolding limiter
two_get_through = refl

ne_addresses : ◌≢◌ {A = String} "10.0.0.2" "10.0.0.1"
ne_addresses = ground (arith, eq_iff "10.0.0.2" "10.0.0.1")

two_a_minute-IsConsistent : IsConsistent two_a_minute
unfolding two_a_minute
two_a_minute-IsConsistent = IsConsistent-new config

two_a_minute-IsOver : IsOver 10 (view two_a_minute "10.0.0.1")
unfolding limiter
two_a_minute-IsOver = tt

busy-Within : All (Within (10 + two_a_minute.window) "10.0.0.1") busy
unfolding limiter
busy-Within =
    (omega arith, (omega arith, (omega arith, (ne_addresses, (omega arith, (omega arith, tt))))))

allowed_for_lem_example :
    allowed_for "10.0.0.1" (request 10 10 "10.0.0.1" ∷ busy) two_a_minute
    ≡ min (suc (requests_for "10.0.0.1" busy)) (pos_part two_a_minute.limit)
allowed_for_lem_example =
    allowed_for_lem "10.0.0.1" 10 10 busy two_a_minute two_a_minute-IsConsistent two_a_minute-IsOver
      busy-Within

run-IsConsistent_example : IsConsistent (run busy two_a_minute)
run-IsConsistent_example = run-IsConsistent busy two_a_minute two_a_minute-IsConsistent

result-allow-cleanup_example :
    (allow 90 91 "10.0.0.1" (cleanup 80 (run busy two_a_minute))).0
    ≡ (allow 90 91 "10.0.0.1" (run busy two_a_minute)).0
result-allow-cleanup_example =
    result-allow-cleanup 80 90 91 "10.0.0.1" (run busy two_a_minute) run-IsConsistent_example
      (omega arith)
