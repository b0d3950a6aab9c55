-- ===== src/Middleware/RateLimiter/Invariant.antt =====
-- The two maps of the limiter: every key is there at most once, and in both or in neither.
use k8s_pod_manager_graphql.Prelude.{
  ℕ, ◌+◌, ◌≡◌, refl, String, Bool, true, false, Option, none, some, [], ◌∷◌, arith, ltb, eq_iff,
  Bool-cases, inl, inr,
}
use k8s_pod_manager_graphql.Prelude.GoMap.{
  GoMap, lookup, HasDistinctKeys, HasDistinctKeys-insert, HasDistinctKeys-delete, lookup-insert,
  lookup-delete,
}
use k8s_pod_manager_graphql.Middleware.RateLimiter.{
  InMemoryRateLimiter, InMemoryRateLimiterConfig, new_in_memory_rate_limiter, allow, reset, cleanup,
  cleanup_loop, open_window, increment, needs_reset,
}

abbrev pub is_some {ℓ} : {A : Type ℓ} → Option A → Bool
is_some none = false
is_some (some a) = true

pub record IsConsistent (r : InMemoryRateLimiter) : Type 0 where
  pub requests_distinct : HasDistinctKeys r.requests
  pub reset_distinct : HasDistinctKeys r.reset_time
  pub same_keys : (k : String) → is_some (lookup k r.requests) ≡ is_some (lookup k r.reset_time)

pub IsConsistent-new :
    (config : InMemoryRateLimiterConfig) → IsConsistent (new_in_memory_rate_limiter config)
unfolding new_in_memory_rate_limiter lookup
IsConsistent-new config = record {
  requests_distinct = tt;
  reset_distinct = tt;
  same_keys = λ k. refl;
}

open_window-IsConsistent :
    (now : ℕ) (key : String) (r : InMemoryRateLimiter)
    → IsConsistent r
    → IsConsistent (open_window now key r)
unfolding open_window
open_window-IsConsistent now key r h =
    elim (Bool-cases (needs_reset now (lookup key r.reset_time))) [
      | inl e ↦ rw e (record {
        requests_distinct = HasDistinctKeys-insert key _ _ h.requests_distinct;
        reset_distinct = HasDistinctKeys-insert key _ _ h.reset_distinct;
        same_keys = λ k. simp lookup-insert (ground (arith, h.same_keys k));
      })
      | inr e ↦ rw e h
    ]

-- `Allow` increments a count only where the window of the key is there.
increment-IsConsistent :
    (key : String) (r : InMemoryRateLimiter)
    → IsConsistent r
    → is_some (lookup key r.reset_time) ≡ true
    → IsConsistent (increment key r)
unfolding increment
increment-IsConsistent key r h there = record {
  requests_distinct = HasDistinctKeys-insert key _ _ h.requests_distinct;
  reset_distinct = h.reset_distinct;
  same_keys = λ k. simp lookup-insert (ground (arith, h.same_keys k, eq_iff key k));
}

open_window-is_some :
    (now : ℕ) (key : String) (r : InMemoryRateLimiter)
    → is_some (lookup key (open_window now key r).reset_time) ≡ true
unfolding open_window needs_reset
open_window-is_some now key r =
    ground (arith, lookup-insert key key (now + r.window) r.reset_time, eq_iff key key)

pub allow-IsConsistent :
    (now until_now : ℕ) (key : String) (r : InMemoryRateLimiter)
    → IsConsistent r
    → IsConsistent (allow now until_now key r).1
unfolding allow
allow-IsConsistent now until_now key r h =
    increment-IsConsistent key (open_window now key r) (open_window-IsConsistent now key r h)
      (open_window-is_some now key r)

pub reset-IsConsistent :
    (key : String) (r : InMemoryRateLimiter) → IsConsistent r → IsConsistent (reset key r)
unfolding reset
reset-IsConsistent key r h = record {
  requests_distinct = HasDistinctKeys-delete key _ h.requests_distinct;
  reset_distinct = HasDistinctKeys-delete key _ h.reset_distinct;
  same_keys = λ k. simp lookup-delete (ground (arith, h.same_keys k));
}

cleanup_loop-IsConsistent :
    (now : ℕ) (es : GoMap ℕ) (r : InMemoryRateLimiter)
    → IsConsistent r
    → IsConsistent (cleanup_loop now es r)
unfolding cleanup_loop
cleanup_loop-IsConsistent now [] r h = h
cleanup_loop-IsConsistent now ((k, t) ∷ es) r h = elim (Bool-cases (ltb t now)) [
  | inl e ↦ rw e (cleanup_loop-IsConsistent now es (reset k r) (reset-IsConsistent k r h))
  | inr e ↦ rw e (cleanup_loop-IsConsistent now es r h)
]

pub cleanup-IsConsistent :
    (now : ℕ) (r : InMemoryRateLimiter) → IsConsistent r → IsConsistent (cleanup now r)
unfolding cleanup
cleanup-IsConsistent now r h = cleanup_loop-IsConsistent now r.reset_time r h
