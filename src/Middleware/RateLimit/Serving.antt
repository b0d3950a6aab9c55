-- ===== src/Middleware/RateLimit/Serving.antt =====
-- The middleware over the in-memory limiter: how many requests of a client reach the handlers.
use k8s_pod_manager_graphql.Prelude.{
  ℕ, suc, ◌+◌, min, ◌≡◌, refl, ◌∙◌, ap, String, Bool, true, false, Option, none, List, [], ◌∷◌,
  ◌==◌, map, arith, if◌then◌else◌, Bool-cases, All, inl, inr,
}
use k8s_pod_manager_graphql.Prelude.Int.{ℤ, pos_part}
use k8s_pod_manager_graphql.Middleware.RateLimiter.{InMemoryRateLimiter, RateLimitResult, allow}
use k8s_pod_manager_graphql.Middleware.RateLimiter.View.{view}
use k8s_pod_manager_graphql.Middleware.RateLimiter.Invariant.{IsConsistent}
use k8s_pod_manager_graphql.Middleware.RateLimiter.Events.{
  Event, request, allowed_for, requests_for, allowed_for_lem, IsOver, Within,
}
use k8s_pod_manager_graphql.Middleware.RateLimit.{in_memory, Exchange, pass_on, answered, handle}

-- A request with the two readings of the clock
pub record Request : Type 0 where
  pub now : ℕ
  pub until_now : ℕ
  pub path : String
  pub key : String

abbrev pub as_event : Request → Event
as_event q = request q.now q.until_now q.key

zero_plus : (n : ℕ) → 0 + n ≡ n
zero_plus n = omega arith

count_last :
    (allowed same : Bool) (n rest : ℕ)
    → (if allowed then (if same then suc n else n) else n) + rest
      ≡ n + (if same then (if allowed then suc rest else rest) else rest)
count_last true true n rest = omega arith
count_last true false n rest = refl
count_last false true n rest = refl
count_last false false n rest = refl

module _ (seconds : ℤ → String) (key : String) where
  -- The handlers, which count the requests of `key` that reach them
  abbrev pub counting : Request → ℕ → Option String × ℕ
  counting q n = (none, if q.key == key then suc n else n)

  abbrev pub served : Request → InMemoryRateLimiter → ℕ → Exchange InMemoryRateLimiter ℕ
  served q r n =
      (handle (in_memory q.now q.until_now) [] seconds (counting q) q.path q.key
        (record { limiter = r; world = n; calls = [] })).1

  -- Requests one after the other, with no path skipped
  unfoldable pub serve : List Request → InMemoryRateLimiter → ℕ → ℕ
  serve [] r n = n
  serve (q ∷ qs) r n = let x = served q r n in serve qs x.limiter x.world

  answered_lem :
      (q : Request) (result : RateLimitResult) (r : InMemoryRateLimiter) (n : ℕ)
      → ((answered
            (in_memory q.now q.until_now)
            []
            seconds
            (counting q)
            (inr result)
            (record { limiter = r; world = n; calls = [] })).1.limiter
          ≡ r)
        × ((answered
              (in_memory q.now q.until_now)
              []
              seconds
              (counting q)
              (inr result)
              (record { limiter = r; world = n; calls = [] })).1.world
            ≡ (if result.allowed then (counting q n).1 else n))
  unfolding answered pass_on
  answered_lem q result r n = elim (Bool-cases result.allowed) [
    | inl h ↦ rw h (refl, refl)
    | inr h ↦ rw h (refl, refl)
  ]

  served_lem :
      (q : Request) (r : InMemoryRateLimiter) (n : ℕ)
      → ((served q r n).limiter ≡ (allow q.now q.until_now q.key r).1)
        × ((served q r n).world
            ≡ (if (allow q.now q.until_now q.key r).0.allowed then (counting q n).1 else n))
  unfolding handle in_memory
  served_lem q r n =
      let (result, r') = allow q.now q.until_now q.key r in answered_lem q result r' n

  serve-allowed_for :
      (qs : List Request) (r : InMemoryRateLimiter) (n : ℕ)
      → serve qs r n ≡ n + allowed_for key (map as_event qs) r
  unfolding serve allowed_for
  serve-allowed_for [] r n = omega arith
  serve-allowed_for (q ∷ qs) r n =
      let (l, w) = served_lem q r n in
      let x = served q r n in
      serve-allowed_for qs x.limiter x.world
      ∙ ap (λ m. m + allowed_for key (map as_event qs) x.limiter) w
      ∙ ap
          (λ r'.
            (if (allow q.now q.until_now q.key r).0.allowed then (counting q n).1 else n)
            + allowed_for key (map as_event qs) r')
          l
      ∙ count_last (allow q.now q.until_now q.key r).0.allowed (q.key == key) n _

  -- With no path skipped, a request that finds no open window, and those of its client that follow
  -- within the window that it opens, reach the handlers exactly as often as the limit says: all of
  -- them up to the limit, and none beyond it, whatever other clients do.
  pub serve_lem :
      (q : Request) (qs : List Request) (r : InMemoryRateLimiter)
      → IsConsistent r
      → q.key ≡ key
      → IsOver q.now (view r key)
      → All (Within (q.now + r.window) key) (map as_event qs)
      → serve (q ∷ qs) r 0 ≡ min (suc (requests_for key (map as_event qs))) (pos_part r.limit)
  serve_lem q qs r c same over within =
      serve-allowed_for (q ∷ qs) r 0
      ∙ ap (λ k. 0 + allowed_for key (request q.now q.until_now k ∷ map as_event qs) r) same
      ∙ zero_plus _
      ∙ allowed_for_lem key q.now q.until_now (map as_event qs) r c over within
